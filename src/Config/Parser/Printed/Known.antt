-- ===== src/Config/Parser/Printed/Known.antt =====
-- What a block makes of entries whose keys its table has: every value is assigned.
use external_servo.Prelude.{
  ℕ, ◌≡◌, refl, ◌∙◌, ap, Bool, true, false, none, some, List, [], ◌∷◌, Option-cases, inl, inr,
  arith,
}
use external_servo.Prelude.Int.{ℤ, pos, negsuc, eqb_ℤ}
use external_servo.Double.{Double}
use external_servo.Config.Tables.{FieldInfo}
use external_servo.Config.Fields.{get_field_info}
use external_servo.Config.Fields.Range.{unchecked}
use external_servo.Config.State.{BlockConfig}
use external_servo.Config.Parser.Document.{fill, fill_all}

module _ {ℓ κ} {D : Type ℓ} {C : Type κ} ⦃d : Double D⦄ (strtod : List ℕ → D) {I : Type 0}
    (tbl : List (FieldInfo D I)) (assign : I → D → List ℕ → C → C) (block : C → BlockConfig D)
    (fills : (c : C) (k v : List ℕ)
      → fill strtod (block c) k v
        ≡ (let (rv, c') = unchecked strtod tbl assign c k v in (rv, block c'))) where
  -- the table has the keys
  abbrev pub all_in : List (List ℕ × List ℕ) → Bool
  all_in [] = true
  all_in ((k, v) ∷ entries) = elim (get_field_info k tbl) [
    | none ↦ false
    | some field ↦ all_in entries
  ]

  abbrev pub assigned : C → List (List ℕ × List ℕ) → C
  assigned c [] = c
  assigned c ((k, v) ∷ entries) = assigned (unchecked strtod tbl assign c k v).1 entries

  all_in-cons :
      (c : C) (k v : List ℕ) (entries : List (List ℕ × List ℕ))
      → all_in ((k, v) ∷ entries) ≡ true
      → (unchecked strtod tbl assign c k v ≡ (pos 0, (unchecked strtod tbl assign c k v).1))
        × (all_in entries ≡ true)
  all_in-cons c k v entries h = elim (Option-cases (get_field_info k tbl)) [
    | inl missing ↦ absurd (grind (arith, (rw (all_in, missing) at h)))
    | inr (field, found) ↦ (rw (unchecked, found), rw (all_in, found) at h)
  ]

  pub fill_all-assigned :
      (c : C) (entries : List (List ℕ × List ℕ))
      → all_in entries ≡ true
      → fill_all strtod (block c) entries ≡ some (block (assigned c entries))
  fill_all-assigned c [] h = refl
  fill_all-assigned c ((k, v) ∷ entries) h =
      let (known, h') = all_in-cons c k v entries h in
      ap
        (λ (r : ℤ × BlockConfig D). elim (eqb_ℤ r.0 (negsuc 0)) [
          | true ↦ none
          | false ↦ fill_all strtod r.1 entries
        ])
        (fills c k v)
      ∙ ap
          (λ (r : ℤ × C). elim (eqb_ℤ r.0 (negsuc 0)) [
            | true ↦ none
            | false ↦ fill_all strtod (block r.1) entries
          ])
          known
      ∙ fill_all-assigned (unchecked strtod tbl assign c k v).1 entries h'
