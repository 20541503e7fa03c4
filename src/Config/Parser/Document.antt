-- ===== src/Config/Parser/Document.antt =====
-- A document of blocks: its tokens, and an independent description of what the file configures.
use external_servo.Prelude.{◌≡◌, ℕ, true, false, Option, none, some, List, [], ◌∷◌}
use external_servo.Prelude.Int.{ℤ, pos, negsuc, eqb_ℤ}
use external_servo.Double.{Double}
use external_servo.Logger.{logger_configure}
use external_servo.Config.Tables.{text, same_text}
use external_servo.Config.Fields.{update_logger_config, update_servo_config, update_device_config}
use external_servo.Config.State.{
  Token, stream_end, key_token, value_token, block_mapping_start, block_end, scalar, other,
  BlockConfig, cleared, logger_block, servo_block, device_block, Globals, Outcome, returned,
  zero_logger_config, zero_servo_config, zero_device_config,
}

pub data BlockKind : Type 0 where
  logging : BlockKind
  servo : BlockKind
  device : BlockKind
  unknown : List ℕ → BlockKind

-- the kind of each block, and its keys with their values
abbrev pub Document : Type 0
Document = List (BlockKind × List (List ℕ × List ℕ))

abbrev pub name_of : BlockKind → List ℕ
name_of logging = text "logging"
name_of servo = text "servo"
name_of device = text "device"
name_of (unknown name) = name

-- A block of another kind has another name.
abbrev pub IsProper : BlockKind → Type 0
IsProper (unknown name) =
    (same_text name (text "logging") ≡ false)
    × (same_text name (text "servo") ≡ false)
    × (same_text name (text "device") ≡ false)
IsProper _ = Unit

abbrev pub entry_tokens : List (List ℕ × List ℕ) → List Token → List Token
entry_tokens [] rest = rest
entry_tokens ((k, v) ∷ entries) rest =
    key_token ∷ scalar k ∷ value_token ∷ scalar v ∷ entry_tokens entries rest

abbrev pub block_tokens : Document → List Token → List Token
block_tokens [] rest = rest
block_tokens ((kind, entries) ∷ doc) rest =
    key_token
    ∷ scalar (name_of kind)
    ∷ value_token
    ∷ block_mapping_start
    ∷ entry_tokens entries (block_end ∷ block_tokens doc rest)

-- as the scanner yields them, the start of the stream first
abbrev pub tokens : Document → List Token
tokens doc = other ∷ block_mapping_start ∷ block_tokens doc (block_end ∷ stream_end ∷ [])

module _ {ℓ} {D : Type ℓ} ⦃d : Double D⦄ where
  -- a key and its value in a block
  abbrev pub fill : (strtod : List ℕ → D) → BlockConfig D → List ℕ → List ℕ → ℤ × BlockConfig D
  fill strtod cleared k v = (pos 0, cleared)
  fill strtod (logger_block c) k v =
      let (rv, c') = update_logger_config strtod c k v in (rv, logger_block c')
  fill strtod (servo_block c) k v =
      let (rv, c') = update_servo_config strtod c k v in (rv, servo_block c')
  fill strtod (device_block c) k v =
      let (rv, c') = update_device_config strtod c k v in (rv, device_block c')

  -- the entries in order, until one fails
  abbrev pub fill_all :
      (strtod : List ℕ → D) → BlockConfig D → List (List ℕ × List ℕ) → Option (BlockConfig D)
  fill_all strtod b [] = some b
  fill_all strtod b ((k, v) ∷ entries) =
      let (rv, b') = fill strtod b k v in
      elim (eqb_ℤ rv (negsuc 0)) [ true ↦ none | false ↦ fill_all strtod b' entries ]

  abbrev pub store : BlockConfig D → Globals D → Globals D
  store cleared g = g
  store (logger_block c) g = record g { log = logger_configure c g.log }
  store (servo_block c) g = record g { servo_config = c }
  store (device_block c) g = record g { device_config = c }

  abbrev pub zero_of : BlockKind → BlockConfig D
  zero_of logging = logger_block zero_logger_config
  zero_of servo = servo_block zero_servo_config
  zero_of device = device_block zero_device_config
  zero_of (unknown name) = cleared

  -- What a document configures, and the result: a block with an entry that fails ends it, and a block of
  -- another kind is passed over.
  abbrev pub described : (strtod : List ℕ → D) → Document → Globals D → Outcome D
  described strtod [] g = returned (pos 0) g
  described strtod ((kind, entries) ∷ doc) g = elim (fill_all strtod (zero_of kind) entries) [
    | none ↦ returned (negsuc 0) g
    | some b ↦ described strtod doc (store b g)
  ]
