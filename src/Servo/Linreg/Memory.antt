-- ===== src/Servo/Linreg/Memory.antt =====
-- servo/linreg/linreg.c: the arrays are never read or written out of bounds, whatever the samples.
use external_servo.Prelude.{
  ℕ, zero, suc, ◌+◌, ◌-◌, ◌%◌, ◌^◌, ◌≤◌, ◌<◌, ◌≡◌, refl, ap, ◌∙◌, ◌⊎◌, inl, inr, Bool, true, not,
  List, [], ◌∷◌, map, ltb, Holds, yields, Holds-bind, Holds-if, read_in, write_in, length, arith,
  if-both, lt→ltb, le→not-ltb, ◌&&◌, ◌==◌,
}
use external_servo.Prelude.Int.{ℤ, pos, neg_ℤ, ◌*ℤ◌, eqb_ℤ}
use external_servo.Double.{Double, nought}
use external_servo.Config.Types.{ServoConfig}
use external_servo.Servo.Base.{Servo, ServoState, jump, locked}
use external_servo.Servo.Linreg.{
  move_reference, update_reference, advance_reference, add_sample, best_size, update_size,
  set_frequency, step_clock, must_step, step_or_track, use_size, linreg_sample, linreg_reset,
  linreg_leap, linreg_servo_create,
}
use external_servo.Servo.Points.{
  Result, LinregServo, Sums, add_point, no_sums, sum_points, regress_sizes, regress,
}

length-map {ℓ κ} :
    {A : Type ℓ} {B : Type κ} (f : A → B) (xs : List A) → length (map f xs) ≡ length xs
length-map f [] = refl
length-map f (x ∷ xs) = ap suc (length-map f xs)

module _ {ℓ} {D : Type ℓ} ⦃d : Double D⦄ where
  -- the sizes of the arrays and the ranges of the indices
  unfoldable pub IsValid : LinregServo D → Type 0
  IsValid s =
      length s.points ≡ 64
      × length s.results ≡ 5
      × s.last_point < 64
      × s.num_points ≤ 64
      × s.size ≤ 6

  move_reference-IsValid :
      (s : LinregServo D) (x y : ℤ) → IsValid s → IsValid (move_reference s x y)
  unfolding move_reference IsValid
  move_reference-IsValid s x y (p, r, l, n, z) = (p, length-map _ s.results ∙ r, l, n, z)

  -- Fields that the invariant does not read can change.
  pub update_reference-IsValid :
      (s : LinregServo D) (t : ℕ) → IsValid s → IsValid (update_reference s t)
  unfolding update_reference IsValid advance_reference
  update_reference-IsValid s t v =
      if-both IsValid (s.last_update == 0) {x = s} {y = advance_reference s t} v
        (move_reference-IsValid _ _ _ v)

  -- with the frequency kept
  abbrev pub Keeps : LinregServo D → LinregServo D → Type ℓ
  Keeps s s' = IsValid s' × s'.clock_freq ≡ s.clock_freq

  pub add_sample-IsValid :
      (s : LinregServo D) (offset : ℤ) (weight : D)
      → IsValid s
      → Holds (Keeps s) (add_sample s offset weight)
  unfolding add_sample IsValid
  add_sample-IsValid s offset weight (p, r, l, n, z) =
      Holds-bind (write_in s.points ((s.last_point + 1) % 64) _ (omega arith))
        (λ ys e. yields ((e ∙ p, r, omega arith, ground arith, z), refl))

  sum_points-total :
      (s : LinregServo D) (k i : ℕ) (acc : Sums D)
      → length s.points ≡ 64
      → Holds (λ acc'. Unit {0}) (sum_points s k i acc)
  unfolding sum_points
  sum_points-total s zero i acc p = yields tt
  sum_points-total s (suc k) i acc p =
      Holds-bind (read_in s.points ((64 + s.last_point - i) % 64) (omega arith))
        (λ q e. sum_points-total s k (i + 1) (add_point s.reference q acc) p)

  regress_sizes-total :
      (s : LinregServo D) (y0 : D) (size i : ℕ) (acc : Sums D) (rs : List (Result D))
      → length s.points ≡ 64
      → Holds (λ rs'. length rs' ≡ length rs) (regress_sizes s y0 size i acc rs)
  unfolding regress_sizes
  regress_sizes-total s y0 size i acc [] p = yields refl
  regress_sizes-total s y0 size i acc (res ∷ rs) p =
      Holds-if (ltb s.num_points (2 ^ size)) (yields refl) (
        Holds-bind (sum_points-total s (2 ^ size - i) i acc p) (λ acc' u.
          Holds-bind (regress_sizes-total s y0 (size + 1) (2 ^ size) acc' rs p)
            (λ rs' e. yields (ap suc e))))

  pub regress-IsValid : (s : LinregServo D) → IsValid s → Holds (Keeps s) (regress s)
  unfolding regress IsValid
  regress-IsValid s (p, r, l, n, z) =
      Holds-bind (read_in s.points s.last_point (omega arith)) (λ q e.
        Holds-bind (regress_sizes-total s _ 2 0 no_sums s.results p)
          (λ rs' m. yields ((p, m ∙ r, l, n, z), refl)))

  -- The size chosen is 0 or one of the sizes that `results` has.
  best_size-range :
      (size best : ℕ) (best_err : D) (rs : List (Result D))
      → 2 ≤ size
      → (best ≡ 0) ⊎ (2 ≤ best × best < size)
      → (best_size size best best_err rs ≡ 0)
        ⊎ (2 ≤ best_size size best best_err rs × best_size size best best_err rs < size + length rs)
  unfolding best_size
  best_size-range size best best_err [] h b = ground arith
  best_size-range size best best_err (res ∷ rs) h b =
      let here = best_size-range (size + 1) size res.err rs (omega arith) (inr (omega arith)) in
      let there = best_size-range (size + 1) best best_err rs (omega arith) (ground arith) in
      ground arith

  -- the size that `use_size` finds
  abbrev pub Sized : LinregServo D → Type 0
  Sized s = IsValid s × ((s.size ≡ 0) ⊎ (2 ≤ s.size))

  pub update_size-Sized : (s : LinregServo D) → IsValid s → Sized (update_size s)
  unfolding update_size IsValid
  update_size-Sized s (p, r, l, n, z) =
      let range = best_size-range 2 0 (nought {D = D}) s.results (omega arith) (inl refl) in
      ((p, r, l, n, ground arith), ground arith)

  -- the result of a sample
  abbrev pub IsKept : D × ServoState × LinregServo D → Type 0
  IsKept r = let (ppb, state, s) = r in IsValid s

  set_frequency-IsValid :
      (servo : Servo D) (state : ServoState) (s : LinregServo D)
      → IsValid s
      → 2 ≤ s.size
      → Holds IsKept (set_frequency servo state s)
  unfolding set_frequency IsValid
  set_frequency-IsValid servo state s (p, r, l, n, z) h =
      Holds-bind (read_in s.results (s.size - 2) (omega arith)) (λ res e. yields (p, r, l, n, z))

  pub step_clock-IsValid :
      (s : LinregServo D) (offset : ℤ) → IsValid s → IsValid (step_clock s offset)
  unfolding step_clock IsValid
  step_clock-IsValid s offset v = move_reference-IsValid s (pos 0) (neg_ℤ offset) v

  use_size-IsValid :
      (servo : Servo D) (s : LinregServo D) (offset : ℤ)
      → Sized s
      → Holds IsKept (use_size servo s offset)
  unfolding use_size IsValid step_or_track step_clock move_reference
  use_size-IsValid servo s offset (v, h) = elim h [
    | inl e ↦ rw (lt→ltb s.size 2 (omega arith)) (yields v)
    | inr e ↦ rw (le→not-ltb s.size 2 e) (
        Holds-bind (read_in s.results (s.size - 2) (omega arith)) (λ res e'.
          Holds-if (must_step servo res.intercept)
            (set_frequency-IsValid servo jump _ (step_clock-IsValid s offset v) e)
            (set_frequency-IsValid servo locked s v e)))
  ]

  -- A sample is answered, and the structure stays well formed.
  pub linreg_sample-IsValid :
      (servo : Servo D) (s : LinregServo D) (offset : ℤ) (local_ts : ℕ) (weight : D)
      → IsValid s
      → Holds IsKept (linreg_sample servo s offset local_ts weight)
  unfolding linreg_sample
  linreg_sample-IsValid servo s offset local_ts weight v =
      Holds-bind (add_sample-IsValid _ offset weight (update_reference-IsValid s local_ts v))
        (λ s1 (v1, e1).
          Holds-bind (regress-IsValid s1 v1)
            (λ s2 (v2, e2). use_size-IsValid servo _ offset (update_size-Sized s2 v2)))

  -- The structure is well formed from its creation on, and stays so over the operations besides `sample`.
  pub linreg_servo_create-IsValid :
      (alloc : ℕ → Bool) (cfg : ServoConfig D)
      → alloc 1880 ≡ true
      → Holds IsValid (linreg_servo_create alloc cfg)
  unfolding linreg_servo_create IsValid
  linreg_servo_create-IsValid alloc cfg h =
      rw h (yields (refl, refl, omega arith, omega arith, omega arith))

  pub linreg_reset-IsValid : (s : LinregServo D) → IsValid s → IsValid (linreg_reset s)
  unfolding linreg_reset IsValid
  linreg_reset-IsValid s (p, r, l, n, z) =
      (p, length-map _ s.results ∙ r, l, omega arith, omega arith)

  pub linreg_leap-IsValid :
      (s : LinregServo D) (leap : ℤ) → IsValid s → IsValid (linreg_leap s leap)
  unfolding linreg_leap IsValid
  linreg_leap-IsValid s leap v =
      let moved = move_reference s (pos 0) (s.leap *ℤ pos 1_000_000_000) in
      if-both IsValid (not (eqb_ℤ s.leap (pos 0)) && eqb_ℤ leap (pos 0)) {x = moved} {y = s}
        (move_reference-IsValid s _ _ v) v
