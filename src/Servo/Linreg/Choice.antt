-- ===== src/Servo/Linreg/Choice.antt =====
-- servo/linreg/linreg.c: with the points on a line `update_size` chooses a size whose result is that line.
use external_servo.Prelude.{
  ℕ, suc, ◌+◌, ◌-◌, ◌^◌, ◌≤◌, ◌<◌, ◌≡◌, refl, ap, ◌∙◌, inl, inr, ◌⊎◌, Bool, true, false, some, List,
  [], ◌∷◌, ◌==◌, ◌&&◌, ◌||◌, leb, ltb, get_elem?, arith, Bool-cases, not-ltb→le, ltb→lt, length,
}
use external_servo.Double.{Double, nought, nonzero}
use external_servo.Servo.Points.{Point, Result}
use external_servo.Servo.Linreg.{best_size}
use external_servo.Servo.Linreg.Regress.{regressions}
use external_servo.Servo.Linreg.Line.{Found}
use external_servo.Servo.Linreg.Warmup.{Blank}

module _ {ℓ} {D : Type ℓ} ⦃d : Double D⦄ where
  open d use {literal, mul}

  -- From a size on, the sizes that have too few points have no result yet.
  abbrev pub Unused : ℕ → ℕ → List (Result D) → Type 0
  Unused num size [] = Unit
  Unused num size (res ∷ rs) = (num < 2 ^ size → Blank res) × Unused num (size + 1) rs

  -- Each result, from a size on, is none yet for want of points, or is the line.
  abbrev pub Settled : ℕ → D → D → ℕ → List (Result D) → Type ℓ
  Settled num a b size [] = Unit
  Settled num a b size (res ∷ rs) =
      (((num < 2 ^ size) × Blank res) ⊎ ((2 ^ size ≤ num) × (res.slope ≡ b) × (res.intercept ≡ a)))
      × Settled num a b (size + 1) rs

  pub regressions-Unused :
      (history : List (Point D)) (r : Point D) (num : ℕ) (y0 : D) (size : ℕ) (rs : List (Result D))
      → Unused num size rs
      → Unused num size (regressions history r num y0 size rs)
  unfolding regressions
  regressions-Unused history r num y0 size [] u = tt
  regressions-Unused history r num y0 size (res ∷ rs) (now, u) =
      elim (Bool-cases (ltb num (2 ^ size))) [
        | inl few ↦ rw few (now, u)
        | inr enough ↦ rw enough (
          (λ few. absurd (omega (arith, not-ltb→le num (2 ^ size) enough))),
          regressions-Unused history r num y0 (size + 1) rs u,
        )
      ]

  pub some_regressions :
      (history : List (Point D)) (r : Point D) (num : ℕ) (y0 : D) (size : ℕ) (rs : List (Result D))
      → 1 ≤ length rs
      → 1 ≤ length (regressions history r num y0 size rs)
  unfolding regressions
  some_regressions history r num y0 size [] h = h
  some_regressions history r num y0 size (res ∷ rs) h = elim (Bool-cases (ltb num (2 ^ size))) [
    | inl few ↦ rw few (omega arith)
    | inr enough ↦ rw enough (omega arith)
  ]

  pub settled :
      (num : ℕ) (a b : D) (size : ℕ) (rs : List (Result D))
      → Found num a b size rs
      → Unused num size rs
      → Settled num a b size rs
  settled num a b size [] f u = tt
  settled num a b size (res ∷ rs) (f, fs) (u, us) =
      let now : ((num < 2 ^ size) × Blank res)
          ⊎ ((2 ^ size ≤ num) × (res.slope ≡ b) × (res.intercept ≡ a)) =
        elim (Bool-cases (ltb num (2 ^ size))) [
          | inl few ↦ inl (ltb→lt num (2 ^ size) few, u (ltb→lt num (2 ^ size) few))
          | inr enough ↦
              let full = not-ltb→le num (2 ^ size) enough in
              elim f [
                | inl few ↦ absurd (omega arith)
                | inr (slope, intercept) ↦ inr (full, slope, intercept)
              ]
        ] in
      (now, settled num a b (size + 1) rs fs us)

  -- the result of the size `r`, of results from a size on
  abbrev pub Picked : ℕ → D → D → ℕ → List (Result D) → ℕ → Type ℓ
  Picked num a b size rs r =
      (res : Result D) × (get_elem? rs (r - size) ≡ some res)
      × (res.slope ≡ b)
      × (res.intercept ≡ a)
      × (2 ^ r ≤ num)
      × (size ≤ r)

  earlier :
      (num : ℕ) (a b : D) (size r : ℕ) (res : Result D) (rs : List (Result D))
      → Picked num a b (size + 1) rs r
      → Picked num a b size (res ∷ rs) r
  earlier num a b size r res rs (found, e, slope, intercept, full, le) =
      let i : r - size ≡ suc (r - (size + 1)) = omega arith in
      (found, ap (get_elem? (res ∷ rs)) i ∙ e, slope, intercept, full, omega arith)

  -- the test of the loop
  abbrev better : ℕ → D → Result D → Bool
  better best best_err res =
      best == 0 && nonzero res.slope
      || d.lt res.err (mul best_err (literal 105 2)) && leb 10 res.err_updates

  Blank-better :
      (best : ℕ) (best_err : D) (res : Result D) → Blank res → better best best_err res ≡ false
  unfolding Blank
  Blank-better best best_err res (slope, updates) = ground arith

  -- The loop keeps a result that it took, or takes a later one.
  taken :
      (num : ℕ) (a b : D) (size : ℕ) (res : Result D) (rs : List (Result D)) (r : ℕ)
      → 2 ^ size ≤ num
      → res.slope ≡ b
      → res.intercept ≡ a
      → (r ≡ size) ⊎ Picked num a b (size + 1) rs r
      → Picked num a b size (res ∷ rs) r
  taken num a b size res rs r full slope intercept (inl same) =
      let here : r - size ≡ 0 = omega arith in
      (res, ap (get_elem? (res ∷ rs)) here, slope, intercept, rw same full, omega arith)
  taken num a b size res rs r full slope intercept (inr p) = earlier num a b size r res rs p

  best_size-Picked :
      (num : ℕ) (a b : D) (size best : ℕ) (best_err : D) (rs : List (Result D))
      → Settled num a b size rs
      → (best_size size best best_err rs ≡ best)
        ⊎ Picked num a b size rs (best_size size best best_err rs)
  unfolding best_size
  best_size-Picked num a b size best best_err [] h = inl refl
  best_size-Picked num a b size best best_err (res ∷ rs) (now, h) =
      elim (Bool-cases (better best best_err res)) [
        | inr keep ↦ rw keep (elim (best_size-Picked num a b (size + 1) best best_err rs h) [
          | inl same ↦ inl same
          | inr p ↦ inr (earlier num a b size _ res rs p)
        ])
        | inl chosen ↦ rw chosen (elim now [
          | inl (few, blank) ↦ absurd (
              let no : better best best_err res ≡ false = Blank-better best best_err res blank in
              grind (arith, chosen, no))
          | inr (full, slope, intercept) ↦ inr (
              taken num a b size res rs _ full slope intercept
                (best_size-Picked num a b (size + 1) size res.err rs h))
        ])
      ]

  -- With four points there is a result of the line.
  pub first-Picked :
      (num : ℕ) (a b : D) (rs : List (Result D))
      → Settled num a b 2 rs
      → 1 ≤ length rs
      → 4 ≤ num
      → nonzero b ≡ true
      → Picked num a b 2 rs (best_size 2 0 nought rs)
  unfolding best_size
  first-Picked num a b [] h l k n = absurd (omega arith)
  first-Picked num a b (res ∷ rs) (inl (few, blank), h) l k n = absurd (omega arith)
  first-Picked num a b (res ∷ rs) (inr (full, slope, intercept), h) l k n =
      let chosen : better 0 nought res ≡ true = rw (slope, n) in
      rw chosen
        (taken num a b 2 res rs _ full slope intercept (best_size-Picked num a b 3 2 res.err rs h))
