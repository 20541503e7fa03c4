-- ===== src/Config/Parser.antt =====
-- config.c: the parser of the configuration file, from the tokens of the YAML scanner to the program's
-- configurations. A use of a null string, of another member of the union than the block's, or of a
-- name outside of `block_name` is a fault (`none`).
pub mod Invariant
pub mod Document
pub mod Feed
pub mod Block
pub mod Refine
pub mod Loop
pub mod Strings
pub mod Printed
use external_servo.Prelude.{
  ℕ, zero, suc, ◌+◌, ◌-◌, Bool, true, false, Option, none, some, ◌>>=◌, List, [], ◌∷◌,
  if◌then◌else◌, ◌==◌, set?, not, ◌&&◌, map,
}
use external_servo.Prelude.Int.{ℤ, pos, negsuc, eqb_ℤ}
use external_servo.Double.{Double, nought}
use external_servo.Config.Types.{LoggerConfig, ServoConfig, DeviceConfig}
use external_servo.Config.Tables.{text, same_text}
use external_servo.Config.Fields.{update_logger_config, update_servo_config, update_device_config}
use external_servo.Config.State.{
  Token, ParserState, max_block_level, BlockConfig, Globals, ParserData, Outcome,
  zero_logger_config, zero_device_config, stream_end, key_token, value_token, block_mapping_start,
  block_end, scalar, other, start_parse, start_block, stop_parse, start_servo_block,
  start_device_block, start_logger_block, cleared, logger_block, servo_block, device_block, running,
  faulted, returned, zero_servo_config, first_data,
}
use external_servo.Logger.{Logger, logger_configure}

abbrev pub is_stop : ParserState → Bool
is_stop stop_parse = true
is_stop _ = false

module _ {ℓ} {D : Type ℓ} where
  abbrev logger_member : BlockConfig D → Option LoggerConfig
  logger_member (logger_block c) = some c
  logger_member _ = none

  abbrev servo_member : BlockConfig D → Option (ServoConfig D)
  servo_member (servo_block c) = some c
  servo_member _ = none

  abbrev device_member : BlockConfig D → Option DeviceConfig
  device_member (device_block c) = some c
  device_member _ = none

  unfoldable pub servo_configure : ServoConfig D → Globals D → Globals D
  servo_configure config g = record g { servo_config = config }

  unfoldable pub device_configure : DeviceConfig → Globals D → Globals D
  device_configure config g = record g { device_config = config }

  -- the `switch` on the state
  abbrev configured : ParserState → BlockConfig D → Globals D → Option (Globals D)
  configured start_logger_block config g = do
    c ← logger_member config
    some (record g { log = logger_configure c g.log })
  configured start_servo_block config g = do c ← servo_member config; some (servo_configure c g)
  configured start_device_block config g = do c ← device_member config; some (device_configure c g)
  configured _ config g = some g

  pub servo_update_config : ParserData D → Option (ParserData D)
  unfolding logger_configure servo_configure device_configure
  servo_update_config p = do
    g ← configured p.state p.config p.globals
    some (record p { globals = g })

  -- `data->block_name[data->block_id++] = strdup(data->key)`, in the state and the zeroed block
  abbrev opened : ParserData D → List ℕ → ParserState → BlockConfig D → Option (ℤ × ParserData D)
  opened p name state config = do
    names ← set? p.block_name p.block_id (some name)
    some (
      pos 0,
      record p { state = state; config = config; block_id = p.block_id + 1; block_name = names },
    )

  -- the end of a block
  abbrev closed : ParserData D → Option (ParserData D)
  closed p = do
    q ← servo_update_config p
    names ← set? q.block_name (q.block_id - 1) none
    some (record q { block_id = q.block_id - 1; block_name = names })

  abbrev left : ParserData D → ℤ × ParserData D
  left p = (pos 0, if p.block_id == 0 then record p { state = start_block } else p)

module _ {ℓ} {D : Type ℓ} ⦃d : Double D⦄ where
  -- the `switch` on the state, with the key and its value
  abbrev prepared :
      (strtod : List ℕ → D)
      → ParserState
      → BlockConfig D
      → List ℕ
      → List ℕ
      → Option (ℤ × BlockConfig D)
  prepared strtod start_logger_block config key val = do
    c ← logger_member config
    let (rv, c') = update_logger_config strtod c key val
    some (rv, logger_block c')
  prepared strtod start_device_block config key val = do
    c ← device_member config
    let (rv, c') = update_device_config strtod c key val
    some (rv, device_block c')
  prepared strtod start_servo_block config key val = do
    c ← servo_member config
    let (rv, c') = update_servo_config strtod c key val
    some (rv, servo_block c')
  prepared strtod _ config key val = some (pos 0, config)

  pub servo_prepare_config : (strtod : List ℕ → D) → ParserData D → Option (ℤ × ParserData D)
  unfolding update_logger_config update_servo_config update_device_config
  servo_prepare_config strtod p = do
    key ← p.key
    val ← p.val
    (rv, config) ← prepared strtod p.state p.config key val
    some (rv, record p { config = config })

  pub update_block_config : (strtod : List ℕ → D) → ParserData D → Token → Option (ℤ × ParserData D)
  unfolding servo_prepare_config servo_update_config
  update_block_config strtod p key_token = some (pos 0, record p { in_key = true })
  update_block_config strtod p value_token =
      some (pos 0, if p.in_key then record p { in_key = false; in_value = true } else p)
  update_block_config strtod p block_mapping_start =
      some (pos 0, record p { in_key = false; in_value = false })
  update_block_config strtod p (scalar t) =
      let value = servo_prepare_config strtod (record p { val = some t }) in
      if p.in_key
      then some (pos 0, record p { key = some t })
      else if p.in_value
      then value
      else some (pos 0, p)
  update_block_config strtod p block_end =
      let inner = do q ← closed p; some (left q)
      in if p.block_id == 0 then some (left p) else inner
  update_block_config strtod p _ = some (pos 0, p)

  -- the block of that name
  abbrev block_started : ParserData D → List ℕ → Option (ℤ × ParserData D)
  block_started p name =
      if same_text name (text "logging")
      then opened p name start_logger_block (logger_block zero_logger_config)
      else if same_text name (text "servo")
      then opened p name start_servo_block (servo_block zero_servo_config)
      else if same_text name (text "device")
      then opened p name start_device_block (device_block zero_device_config)
      else some (pos 0, p)

  pub parser_block_management : ParserData D → Token → Option (ℤ × ParserData D)
  parser_block_management p key_token = some (pos 0, record p { block_key = true })
  parser_block_management p block_mapping_start = do name ← p.key; block_started p name
  parser_block_management p (scalar t) =
      some (pos 0, if p.block_key then record p { key = some t; block_key = false } else p)
  parser_block_management p stream_end =
      some (pos 0, record p { state = stop_parse; key = none; val = none })
  parser_block_management p _ = some (pos 0, p)

  abbrev pub started : ParserData D → Token → ParserData D
  started p block_mapping_start = record p { state = start_block }
  started p _ = p

  -- the `switch` on the state
  abbrev parsed :
      (strtod : List ℕ → D) → ParserState → ParserData D → Token → Option (ℤ × ParserData D)
  parsed strtod start_parse p token = some (pos 0, started p token)
  parsed strtod start_block p token = parser_block_management p token
  parsed strtod start_device_block p token = update_block_config strtod p token
  parsed strtod start_servo_block p token = update_block_config strtod p token
  parsed strtod start_logger_block p token = update_block_config strtod p token
  parsed strtod stop_parse p token = some (pos 0, p)

  pub servo_config_parser : (strtod : List ℕ → D) → ParserData D → Token → Option (ℤ × ParserData D)
  unfolding parser_block_management update_block_config
  servo_config_parser strtod p token = parsed strtod p.state p token

  -- The loop from the `n`-th token on. `scan` is `yaml_parser_scan`, none where it fails.
  pub parse_loop : (strtod : List ℕ → D) → (ℕ → Option Token) → ℕ → ℕ → ParserData D → Outcome D
  unfolding servo_config_parser
  parse_loop strtod scan zero n p = running
  parse_loop strtod scan (suc fuel) n p = elim (scan n) [
    | none ↦ returned (negsuc 0) p.globals
    | some token ↦ elim (servo_config_parser strtod p token) [
      | none ↦ faulted
      | some (rv, q) ↦ elim (eqb_ℤ rv (negsuc 0)) [
        | true ↦ returned (negsuc 0) q.globals
        | false ↦ elim (is_stop q.state) [
          | true ↦ returned rv q.globals
          | false ↦ parse_loop strtod scan fuel (n + 1) q
        ]
      ]
    ]
  ]

  -- `opens` is whether the file can be opened, `initialises` whether the scanner can be set up.
  pub servo_config_parse :
      (strtod : List ℕ → D) → Bool → Bool → (ℕ → Option Token) → ℕ → Globals D → Outcome D
  unfolding parse_loop
  servo_config_parse strtod opens initialises scan fuel g =
      let run = parse_loop strtod scan fuel 0 (first_data g) in
      if opens && initialises then run else returned (negsuc 0) g
