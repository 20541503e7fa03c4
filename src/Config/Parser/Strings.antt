-- ===== src/Config/Parser/Strings.antt =====
-- config.c: the strings that the parser configures fit their arrays, whatever the tokens.
use external_servo.Prelude.{
  ℕ, zero, suc, ◌≡◌, ◌+◌, ◌-◌, ◌&&◌, ◌==◌, Bool, true, false, Option, none, some, List, if-both,
  Option-cases, Every, missing, there, Every-bind, always, inl, inr, arith, set?,
}
use mathlib.Core.Path.{subst}
use mathlib.Core.Option.{some-injective, none-ne-some}
use external_servo.Prelude.Int.{negsuc, eqb_ℤ}
use external_servo.Double.{Double}
use external_servo.Logger.{Logger, logger_configure}
use external_servo.Config.Types.{LoggerConfig}
use external_servo.Config.Tables.{same_text, text}
use external_servo.Config.State.{
  Token, stream_end, key_token, value_token, block_mapping_start, block_end, scalar, other,
  ParserState, start_parse, start_block, stop_parse, start_servo_block, start_device_block,
  start_logger_block, BlockConfig, cleared, logger_block, servo_block, device_block, Globals,
  ParserData, Outcome, running, faulted, returned, first_data,
}
use external_servo.Config.Parser.{
  servo_update_config, servo_prepare_config, update_block_config, parser_block_management,
  servo_config_parser, parse_loop, servo_config_parse, is_stop, started, left, closed, opened,
  configured, prepared, parsed, servo_configure, device_configure,
}
use external_servo.Config.Fields.Strings.{
  TagFits, NamesFit, update_logger_config-TagFits, update_device_config-NamesFit,
}

module _ {ℓ} {D : Type ℓ} where
  abbrev pub BlockFits : BlockConfig D → Type 0
  BlockFits cleared = Unit
  BlockFits (logger_block c) = TagFits c
  BlockFits (servo_block c) = Unit
  BlockFits (device_block c) = NamesFit c

  abbrev pub GlobalsFit : Globals D → Type 0
  GlobalsFit g = TagFits g.log.logger_config × NamesFit g.device_config

  abbrev Fits : ParserData D → Type 0
  Fits p = BlockFits p.config × GlobalsFit p.globals

  abbrev pub OutcomeFits : Outcome D → Type 0
  OutcomeFits running = Unit
  OutcomeFits faulted = Unit
  OutcomeFits (returned rv g) = GlobalsFit g

logger_configure-TagFits :
    (c : LoggerConfig) (l : Logger) → TagFits c → TagFits (logger_configure c l).logger_config
unfolding logger_configure
logger_configure-TagFits c l h = if-both TagFits l.log_fp h h

left-Fits {ℓ} : {D : Type ℓ} (p : ParserData D) → Fits p → Fits (left p).1
left-Fits p h = if-both Fits (p.block_id == 0) h h

Every-some {ℓ κ} :
    {A : Type ℓ} {P : A → Type κ} {o : Option A} {a : A} → Every P o → o ≡ some a → P a
Every-some {P} (there p) e = subst P (some-injective _ _ e) p
Every-some missing e = absurd (none-ne-some _ e)

module _ {ℓ} {D : Type ℓ} ⦃d : Double D⦄ where
  started-Fits : (p : ParserData D) (t : Token) → Fits p → Fits (started p t)
  started-Fits p key_token h = h
  started-Fits p value_token h = h
  started-Fits p block_mapping_start h = h
  started-Fits p block_end h = h
  started-Fits p stream_end h = h
  started-Fits p other h = h
  started-Fits p (scalar s) h = h

  -- a configuration that the block is given to
  configured-GlobalsFit :
      (state : ParserState) (b : BlockConfig D) (g : Globals D)
      → BlockFits b
      → GlobalsFit g
      → Every GlobalsFit (configured state b g)
  unfolding servo_configure device_configure
  configured-GlobalsFit start_logger_block (logger_block c) g h (tag, names) =
      there (logger_configure-TagFits c g.log h, names)
  configured-GlobalsFit start_servo_block (servo_block c) g h k = there k
  configured-GlobalsFit start_device_block (device_block c) g h (tag, names) = there (tag, h)
  configured-GlobalsFit start_logger_block cleared g h k = missing
  configured-GlobalsFit start_logger_block (servo_block c) g h k = missing
  configured-GlobalsFit start_logger_block (device_block c) g h k = missing
  configured-GlobalsFit start_servo_block cleared g h k = missing
  configured-GlobalsFit start_servo_block (logger_block c) g h k = missing
  configured-GlobalsFit start_servo_block (device_block c) g h k = missing
  configured-GlobalsFit start_device_block cleared g h k = missing
  configured-GlobalsFit start_device_block (logger_block c) g h k = missing
  configured-GlobalsFit start_device_block (servo_block c) g h k = missing
  configured-GlobalsFit start_parse b g h k = there k
  configured-GlobalsFit start_block b g h k = there k
  configured-GlobalsFit stop_parse b g h k = there k

  prepared-BlockFits :
      (strtod : List ℕ → D) (state : ParserState) (b : BlockConfig D) (key val : List ℕ)
      → BlockFits b
      → Every (λ r. BlockFits r.1) (prepared strtod state b key val)
  prepared-BlockFits strtod start_logger_block (logger_block c) key val h =
      there (update_logger_config-TagFits strtod c key val h)
  prepared-BlockFits strtod start_servo_block (servo_block c) key val h = there tt
  prepared-BlockFits strtod start_device_block (device_block c) key val h =
      there (update_device_config-NamesFit strtod c key val h)
  prepared-BlockFits strtod start_logger_block cleared key val h = missing
  prepared-BlockFits strtod start_logger_block (servo_block c) key val h = missing
  prepared-BlockFits strtod start_logger_block (device_block c) key val h = missing
  prepared-BlockFits strtod start_servo_block cleared key val h = missing
  prepared-BlockFits strtod start_servo_block (logger_block c) key val h = missing
  prepared-BlockFits strtod start_servo_block (device_block c) key val h = missing
  prepared-BlockFits strtod start_device_block cleared key val h = missing
  prepared-BlockFits strtod start_device_block (logger_block c) key val h = missing
  prepared-BlockFits strtod start_device_block (servo_block c) key val h = missing
  prepared-BlockFits strtod start_parse b key val h = there h
  prepared-BlockFits strtod start_block b key val h = there h
  prepared-BlockFits strtod stop_parse b key val h = there h

  update_config-Fits : (p : ParserData D) → Fits p → Every Fits (servo_update_config p)
  unfolding servo_update_config
  update_config-Fits p (b, g) =
      Every-bind (configured-GlobalsFit p.state p.config p.globals b g) (λ g' k. there (b, k))

  closed-Fits : (p : ParserData D) → Fits p → Every Fits (closed p)
  closed-Fits p h =
      Every-bind (update_config-Fits p h)
        (λ q k. Every-bind (always (set? q.block_name (q.block_id - 1) none)) (λ names u. there k))

  prepare-Fits :
      (strtod : List ℕ → D) (p : ParserData D)
      → Fits p
      → Every (λ r. Fits r.1) (servo_prepare_config strtod p)
  unfolding servo_prepare_config
  prepare-Fits strtod p (b, g) = Every-bind (always p.key) (λ key u.
      Every-bind (always p.val) (λ val v.
        Every-bind (prepared-BlockFits strtod p.state p.config key val b) (λ r k. there (k, g))))

  block_config-Fits :
      (strtod : List ℕ → D) (p : ParserData D) (t : Token)
      → Fits p
      → Every (λ r. Fits r.1) (update_block_config strtod p t)
  unfolding update_block_config
  block_config-Fits strtod p key_token h = there h
  block_config-Fits strtod p value_token h = there (if-both Fits p.in_key h h)
  block_config-Fits strtod p block_mapping_start h = there h
  block_config-Fits strtod p (scalar s) h = if-both (Every (λ r. Fits r.1)) p.in_key (there h) (
      if-both (Every (λ r. Fits r.1)) p.in_value (prepare-Fits strtod (record p { val = some s }) h)
        (there h))
  block_config-Fits strtod p block_end h =
      if-both (Every (λ r. Fits r.1)) (p.block_id == 0) (there (left-Fits p h))
        (Every-bind (closed-Fits p h) (λ q k. there (left-Fits q k)))
  block_config-Fits strtod p stream_end h = there h
  block_config-Fits strtod p other h = there h

  opened-Fits :
      (p : ParserData D) (name : List ℕ) (state : ParserState) (b : BlockConfig D)
      → BlockFits b
      → GlobalsFit p.globals
      → Every (λ r. Fits r.1) (opened p name state b)
  opened-Fits p name state b h k =
      Every-bind (always (set? p.block_name p.block_id (some name))) (λ names u. there (h, k))

  management-Fits :
      (p : ParserData D) (t : Token) → Fits p → Every (λ r. Fits r.1) (parser_block_management p t)
  unfolding parser_block_management
  management-Fits p key_token h = there h
  management-Fits p value_token h = there h
  management-Fits p block_end h = there h
  management-Fits p other h = there h
  management-Fits p stream_end h = there h
  management-Fits p (scalar s) h = there (if-both Fits p.block_key h h)
  management-Fits p block_mapping_start (b, g) = Every-bind (always p.key) (λ name u.
      if-both (Every (λ r. Fits r.1)) (same_text name (text "logging"))
        (opened-Fits p name _ _ (omega arith) g)
        (if-both (Every (λ r. Fits r.1)) (same_text name (text "servo"))
          (opened-Fits p name _ _ tt g)
          (if-both (Every (λ r. Fits r.1)) (same_text name (text "device"))
            (opened-Fits p name _ _ (omega arith) g) (there (b, g)))))

  parser-Fits :
      (strtod : List ℕ → D) (state : ParserState) (p : ParserData D) (t : Token)
      → Fits p
      → Every (λ r. Fits r.1) (parsed strtod state p t)
  parser-Fits strtod start_parse p t h = there (started-Fits p t h)
  parser-Fits strtod start_block p t h = management-Fits p t h
  parser-Fits strtod start_device_block p t h = block_config-Fits strtod p t h
  parser-Fits strtod start_servo_block p t h = block_config-Fits strtod p t h
  parser-Fits strtod start_logger_block p t h = block_config-Fits strtod p t h
  parser-Fits strtod stop_parse p t h = there h

  OutcomeFits-elim :
      (b : Bool) (o o' : Outcome D)
      → OutcomeFits o
      → OutcomeFits o'
      → OutcomeFits (elim b [ true ↦ o | false ↦ o' ])
  OutcomeFits-elim true o o' h k = h
  OutcomeFits-elim false o o' h k = k

  loop-OutcomeFits :
      (strtod : List ℕ → D) (scan : ℕ → Option Token) (fuel n : ℕ) (p : ParserData D)
      → Fits p
      → OutcomeFits (parse_loop strtod scan fuel n p)
  unfolding parse_loop servo_config_parser
  loop-OutcomeFits strtod scan zero n p h = tt
  loop-OutcomeFits strtod scan (suc fuel) n p h = elim (Option-cases (scan n)) [
    | inl failed ↦ rw (parse_loop, failed) (h.1)
    | inr (t, found) ↦ elim (Option-cases (servo_config_parser strtod p t)) [
      | inl fault ↦ rw (parse_loop, found, fault) tt
      | inr (r, ok) ↦
          let fits : Fits r.1 = Every-some (parser-Fits strtod p.state p t h) ok in
          rw (parse_loop, found, ok)
            (OutcomeFits-elim (eqb_ℤ r.0 (negsuc 0)) _ _ (fits.1) (
              OutcomeFits-elim (is_stop r.1.state) _ _ (fits.1)
                (loop-OutcomeFits strtod scan fuel (n + 1) r.1 fits)))
    ]
  ]

  -- Whatever the tokens, the result and the fuel: when the parser returns, the tag of the log and the
  -- three names of the device are shorter than their arrays, which leaves room for the final NUL,
  -- given that this was so before.
  pub servo_config_parse-OutcomeFits :
      (strtod : List ℕ → D) (opens initialises : Bool) (scan : ℕ → Option Token) (fuel : ℕ)
      (g : Globals D)
      → GlobalsFit g
      → OutcomeFits (servo_config_parse strtod opens initialises scan fuel g)
  unfolding servo_config_parse
  servo_config_parse-OutcomeFits strtod opens initialises scan fuel g h =
      if-both OutcomeFits (opens && initialises)
        (loop-OutcomeFits strtod scan fuel 0 (first_data g) (tt, h)) h
