-- ===== src/Config/Parser/Block.antt =====
-- The parser's loop on the tokens of one block: of a known kind, or of another name.
use external_servo.Prelude.{
  ℕ, ◌≡◌, refl, ◌∙◌, Bool, true, false, Option, none, some, List, [], ◌∷◌, Bool-cases,
}
use mathlib.Core.Logic.{inl, inr}
use external_servo.Prelude.Int.{negsuc, eqb_ℤ}
use external_servo.Double.{Double}
use external_servo.Config.Types.{LoggerConfig, ServoConfig, DeviceConfig}
use external_servo.Config.Parser.{servo_config_parser}
use external_servo.Config.State.{
  Token, key_token, value_token, block_mapping_start, block_end, scalar, BlockConfig, cleared,
  logger_block, servo_block, device_block, Globals, Outcome, returned,
}
use external_servo.Config.Parser.Document.{
  BlockKind, logging, servo, device, unknown, IsProper, name_of, entry_tokens, fill, fill_all,
  store, zero_of,
}
use external_servo.Config.Parser.Feed.{IsKnown, feed, inside, between}

-- the member of the union is the block's
data IsMember {ℓ} {D : Type ℓ} : BlockKind → BlockConfig D → Type ℓ where
  is_logging : (c : LoggerConfig) → IsMember logging (logger_block c)
  is_servo : (c : ServoConfig D) → IsMember servo (servo_block c)
  is_device : (c : DeviceConfig) → IsMember device (device_block c)

module _ {ℓ} {D : Type ℓ} ⦃d : Double D⦄ where
  feed_block :
      (strtod : List ℕ → D) (kind : BlockKind) (ts : List Token) (key val : Option (List ℕ))
      (b : BlockConfig D) (x y : Bool) (g : Globals D)
      → IsKnown kind
      → feed strtod
          (key_token ∷ scalar (name_of kind) ∷ value_token ∷ block_mapping_start ∷ ts)
          (between key val b x y g)
        ≡ feed strtod ts (inside kind (zero_of kind) (name_of kind) val x y g)
  unfolding servo_config_parser
  feed_block strtod logging ts key val b x y g h = refl
  feed_block strtod servo ts key val b x y g h = refl
  feed_block strtod device ts key val b x y g h = refl
  feed_block strtod (unknown name) ts key val b x y g h = absurd h

  zero_of-IsMember : (kind : BlockKind) → IsKnown kind → IsMember {D = D} kind (zero_of kind)
  zero_of-IsMember logging h = is_logging _
  zero_of-IsMember servo h = is_servo _
  zero_of-IsMember device h = is_device _
  zero_of-IsMember (unknown name) h = absurd h

  fill-IsMember :
      (strtod : List ℕ → D) (kind : BlockKind) (b : BlockConfig D) (k v : List ℕ)
      → IsMember kind b
      → IsMember kind (fill strtod b k v).1
  fill-IsMember strtod _ _ k v (is_logging c) = is_logging _
  fill-IsMember strtod _ _ k v (is_servo c) = is_servo _
  fill-IsMember strtod _ _ k v (is_device c) = is_device _

  -- one entry
  feed_entry :
      (strtod : List ℕ → D) (kind : BlockKind) (ts : List Token) (name k v : List ℕ)
      (val : Option (List ℕ)) (b : BlockConfig D) (x y : Bool) (g : Globals D)
      → IsMember kind b
      → feed strtod
          (key_token ∷ scalar k ∷ value_token ∷ scalar v ∷ ts)
          (inside kind b name val x y g)
        ≡ (let (rv, b') = fill strtod b k v in
            elim (eqb_ℤ rv (negsuc 0)) [
              | true ↦ returned (negsuc 0) g
              | false ↦ feed strtod ts (inside kind b' k (some v) false true g)
            ])
  unfolding servo_config_parser
  feed_entry strtod _ ts name k v val _ x y g (is_logging c) = refl
  feed_entry strtod _ ts name k v val _ x y g (is_servo c) = refl
  feed_entry strtod _ ts name k v val _ x y g (is_device c) = refl

  -- the end of the block
  feed_end :
      (strtod : List ℕ → D) (kind : BlockKind) (ts : List Token) (key : List ℕ)
      (val : Option (List ℕ)) (b : BlockConfig D) (x y : Bool) (g : Globals D)
      → IsMember kind b
      → feed strtod (block_end ∷ ts) (inside kind b key val x y g)
        ≡ feed strtod ts (between (some key) val b x y (store b g))
  unfolding servo_config_parser
  feed_end strtod _ ts key val _ x y g (is_logging c) = refl
  feed_end strtod _ ts key val _ x y g (is_servo c) = refl
  feed_end strtod _ ts key val _ x y g (is_device c) = refl

  -- the entries and the end of a block: the loop goes on, with what it then comes to, or the file is refused
  feed_entries :
      (strtod : List ℕ → D) (kind : BlockKind) (entries : List (List ℕ × List ℕ)) (ts : List Token)
      (key : List ℕ) (val : Option (List ℕ)) (b : BlockConfig D) (x y : Bool) (g : Globals D)
      (next : BlockConfig D → Outcome D)
      → IsMember kind b
      → ((key : Option (List ℕ)) (val : Option (List ℕ)) (b : BlockConfig D) (x y : Bool)
          → feed strtod ts (between key val b x y (store b g)) ≡ next b)
      → feed strtod (entry_tokens entries (block_end ∷ ts)) (inside kind b key val x y g)
        ≡ elim (fill_all strtod b entries) [ none ↦ returned (negsuc 0) g | some b' ↦ next b' ]
  feed_entries strtod kind [] ts key val b x y g next m k =
      feed_end strtod kind ts key val b x y g m ∙ k (some key) val b x y
  feed_entries strtod kind ((name, v) ∷ entries) ts key val b x y g next m k =
      let b' : BlockConfig D = (fill strtod b name v).1 in
      let tail : feed strtod (entry_tokens entries (block_end ∷ ts))
            (inside kind b' name (some v) false true g)
          ≡ elim (fill_all strtod b' entries) [
            | none ↦ returned (negsuc 0) g
            | some b'' ↦ next b''
          ] =
        feed_entries strtod kind entries ts name (some v) b' false true g next
          (fill-IsMember strtod kind b name v m) k in
      feed_entry strtod kind (entry_tokens entries (block_end ∷ ts)) key name v val b x y g m
      ∙ (elim (Bool-cases (eqb_ℤ (fill strtod b name v).0 (negsuc 0))) [
        | inl e ↦ rw e
        | inr e ↦ rw e tail
      ])

  -- a block of another kind: its start, its entries with its end, and what the description makes of it
  pub feed_unknown :
      (strtod : List ℕ → D) (name : List ℕ) (ts : List Token) (key val : Option (List ℕ))
      (b : BlockConfig D) (x y : Bool) (g : Globals D)
      → IsProper (unknown name)
      → feed strtod
          (key_token ∷ scalar name ∷ value_token ∷ block_mapping_start ∷ ts)
          (between key val b x y g)
        ≡ feed strtod ts (between (some name) val b x y g)
  unfolding servo_config_parser
  feed_unknown strtod name ts key val b x y g (l, s, v) = rw (feed, l, s, v)

  pub feed_skipped :
      (strtod : List ℕ → D) (entries : List (List ℕ × List ℕ)) (ts : List Token)
      (key val : Option (List ℕ)) (b : BlockConfig D) (x y : Bool) (g : Globals D)
      (next : Outcome D)
      → ((key : Option (List ℕ)) → feed strtod ts (between key val b x y g) ≡ next)
      → feed strtod (entry_tokens entries (block_end ∷ ts)) (between key val b x y g) ≡ next
  unfolding servo_config_parser
  feed_skipped strtod [] ts key val b x y g next k = k key
  feed_skipped strtod ((name, v) ∷ entries) ts key val b x y g next k =
      feed_skipped strtod entries ts (some name) val b x y g next k

  pub fill_all-cleared :
      (strtod : List ℕ → D) (entries : List (List ℕ × List ℕ))
      → fill_all strtod cleared entries ≡ some cleared
  fill_all-cleared strtod [] = refl
  fill_all-cleared strtod ((k, v) ∷ entries) = fill_all-cleared strtod entries

  pub feed_known :
      (strtod : List ℕ → D) (kind : BlockKind) (entries : List (List ℕ × List ℕ)) (ts : List Token)
      (key val : Option (List ℕ)) (b : BlockConfig D) (x y : Bool) (g : Globals D)
      (next : BlockConfig D → Outcome D)
      → IsKnown kind
      → ((key val : Option (List ℕ)) (b : BlockConfig D) (x y : Bool)
          → feed strtod ts (between key val b x y (store b g)) ≡ next b)
      → feed strtod
          (key_token
            ∷ scalar (name_of kind)
            ∷ value_token
            ∷ block_mapping_start
            ∷ entry_tokens entries (block_end ∷ ts))
          (between key val b x y g)
        ≡ elim (fill_all strtod (zero_of kind) entries) [
          | none ↦ returned (negsuc 0) g
          | some b' ↦ next b'
        ]
  feed_known strtod kind entries ts key val b x y g next h k =
      feed_block strtod kind (entry_tokens entries (block_end ∷ ts)) key val b x y g h
      ∙ feed_entries strtod kind entries ts (name_of kind) val (zero_of kind) x y g next
          (zero_of-IsMember kind h) k
