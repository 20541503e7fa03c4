-- ===== src/Config/Parser/Invariant.antt =====
-- The state of the parser between two tokens: the member of the union that is in use is the block's,
-- and `block_name` holds its name; the parser
-- stays within its memory.
use external_servo.Prelude.{ℕ, ◌≡◌, Bool, Option, none, some, List, [], ◌∷◌, Holds, yields}
use external_servo.Double.{Double}
use external_servo.Config.Types.{LoggerConfig, ServoConfig, DeviceConfig}
use external_servo.Config.Parser.{servo_config_parser}
use external_servo.Config.State.{
  Token, stream_end, key_token, value_token, block_mapping_start, block_end, scalar, other,
  ParserState, start_parse, start_block, stop_parse, start_servo_block, start_device_block,
  start_logger_block, BlockConfig, logger_block, servo_block, device_block, Globals, ParserData,
}

pub data Stage {ℓ} {D : Type ℓ}
    : ParserState → ℕ → List (Option (List ℕ)) → Option (List ℕ) → BlockConfig D → Type ℓ where
  unstarted :
      {m n key : Option (List ℕ)} {b : BlockConfig D} → Stage start_parse 0 (m ∷ n ∷ []) key b
  outside : {m n key : Option (List ℕ)} {b : BlockConfig D} → Stage start_block 0 (m ∷ n ∷ []) key b
  stopped : {m n key : Option (List ℕ)} {b : BlockConfig D} → Stage stop_parse 0 (m ∷ n ∷ []) key b
  in_logger :
      {m n : Option (List ℕ)} {key : List ℕ} {c : LoggerConfig}
      → Stage start_logger_block 1 (m ∷ n ∷ []) (some key) (logger_block c)
  in_servo :
      {m n : Option (List ℕ)} {key : List ℕ} {c : ServoConfig D}
      → Stage start_servo_block 1 (m ∷ n ∷ []) (some key) (servo_block c)
  in_device :
      {m n : Option (List ℕ)} {key : List ℕ} {c : DeviceConfig}
      → Stage start_device_block 1 (m ∷ n ∷ []) (some key) (device_block c)

abbrev pub IsSound {ℓ} : {D : Type ℓ} → ParserData D → Type ℓ
IsSound p = Stage p.state p.block_id p.block_name p.key p.config

-- A mapping that starts between the blocks has a key before it.
abbrev pub IsNamed : ParserState → Token → Option (List ℕ) → Type 0
IsNamed start_block block_mapping_start none = ⊥
IsNamed _ _ _ = Unit

module _ {ℓ} {D : Type ℓ} ⦃d : Double D⦄ where
  start :
      (t : Token) {names : List (Option (List ℕ))} {key : Option (List ℕ)} {b : BlockConfig D}
      (strtod : List ℕ → D) (val : Option (List ℕ)) (u x y : Bool) (g : Globals D)
      → Stage start_parse 0 names key b
      → Holds
          (λ r. IsSound r.1)
          (servo_config_parser strtod
            (record {
              state = start_parse;
              block_id = 0;
              block_name = names;
              key = key;
              val = val;
              config = b;
              block_key = u;
              in_key = x;
              in_value = y;
              globals = g;
            })
            t)
  unfolding servo_config_parser
  start block_mapping_start strtod val u x y g unstarted = yields outside
  start stream_end strtod val u x y g s = yields s
  start key_token strtod val u x y g s = yields s
  start value_token strtod val u x y g s = yields s
  start block_end strtod val u x y g s = yields s
  start other strtod val u x y g s = yields s
  start (scalar t) strtod val u x y g s = yields s

  pub servo_config_parser-faults :
      (strtod : List ℕ → D) (p : ParserData D)
      → p.state ≡ start_block
      → p.key ≡ none
      → servo_config_parser strtod p block_mapping_start ≡ none
  unfolding servo_config_parser
  servo_config_parser-faults strtod p s k = rw (s, k)
