-- ===== src/Servo/Range.antt =====
-- The range of the hardware for a frequency, and what the two tests of the servos make sure of: they
-- do not catch a NaN.
use external_servo.Prelude.{◌≡◌, false, true, ◌⊎◌, inl, inr, Bool-cases, arith}
use external_servo.Double.{Double, IsOrdered, IsNan, le, nought}

module _ {ℓ} {D : Type ℓ} ⦃d : Double D⦄ where
  -- from -top to top, which a NaN is not
  abbrev pub InRange : D → D → Type 0
  InRange top x = (le (d.neg top) x ≡ true) × (le x top ≡ true)

  -- NaN, or in the range
  unfoldable pub IsLimited : D → D → Type 0
  IsLimited top x = IsNan x ⊎ InRange top x

  le_refl : (x : D) → d.same x x ≡ true → le x x ≡ true
  le_refl x h = ground arith

  module _ (o : IsOrdered D) (top : D) (p : le nought top ≡ true) where
    -- What is neither below -top nor above top can be NaN.
    pub not_outside : (x : D) → d.lt x (d.neg top) ≡ false → d.lt top x ≡ false → IsLimited top x
    unfolding IsLimited
    not_outside x f g =
        let number : d.same top top ≡ true = o.same_of_le nought top p in
        elim (Bool-cases (d.same x x)) [
          | inr nan ↦ inl nan
          | inl h ↦ inr (
            o.le_total x (d.neg top) h (rw (o.same-neg top) number) f,
            o.le_total top x number h g,
          )
        ]

    pub IsLimited-top : IsLimited top top
    unfolding IsLimited
    IsLimited-top = inr (o.le-neg top p, le_refl top (o.same_of_le nought top p))

    pub IsLimited-neg : IsLimited top (d.neg top)
    unfolding IsLimited
    IsLimited-neg =
        inr (le_refl (d.neg top) (rw (o.same-neg top) (o.same_of_le nought top p)), o.le-neg top p)
