-- ===== src/Servo/Linreg/Warmup.antt =====
-- servo/linreg/linreg.c: the first samples after the creation or a reset.
use mathlib.Core.Path.{subst}
use external_servo.Prelude.{
  ℕ, suc, ◌+◌, ◌%◌, Bool, Option, ◌>>=◌, length, Holds-weaken, ◌≤◌, ◌≡◌, refl, ap, ◌∙◌, true, false,
  some, List, [], ◌∷◌, map, Holds, yields, Holds-bind, read_in, write_in, arith, if-both, lt→ltb,
  All, ◌==◌,
}
use external_servo.Prelude.Int.{ℤ, neg_ℤ}
use external_servo.Double.{Double, nought, nonzero}
use external_servo.Config.Types.{ServoConfig}
use external_servo.Servo.Base.{Servo, ServoState, unlocked}
use external_servo.Servo.Linreg.{
  update_reference, advance_reference, move_reference, add_sample, update_size, use_size,
  linreg_sample, linreg_servo_create, linreg_reset, reset_result, best_size, shift_intercept,
}
use external_servo.Servo.Points.{Result, LinregServo, no_sums, regress, regress_sizes}
use external_servo.Servo.Linreg.Memory.{IsValid, update_reference-IsValid, linreg_reset-IsValid}
use external_servo.Servo.Linreg.Frequency.{update_reference-clock_freq}

module _ {ℓ} {D : Type ℓ} ⦃d : Double D⦄ where
  -- No size has a result.
  unfoldable pub Blank : Result D → Type 0
  Blank res = nonzero res.slope ≡ false × res.err_updates ≡ 0

  -- Well formed, with no results and `n` points.
  abbrev pub Fresh : ℕ → LinregServo D → Type 0
  Fresh n s = IsValid s × All Blank s.results × s.num_points ≡ n

  shift-Blank :
      (x y : ℤ) (rs : List (Result D)) → All Blank rs → All Blank (map (shift_intercept x y) rs)
  unfolding Blank shift_intercept
  shift-Blank x y [] b = b
  shift-Blank x y (res ∷ rs) b = (b.0, shift-Blank x y rs b.1)

  reset-Blank :
      d.same nought nought ≡ true → (rs : List (Result D)) → All Blank (map reset_result rs)
  unfolding Blank reset_result
  reset-Blank e [] = tt
  reset-Blank e (res ∷ rs) = ((rw e, refl), reset-Blank e rs)

  no_size :
      (size : ℕ) (best_err : D) (rs : List (Result D))
      → All Blank rs
      → best_size size 0 best_err rs ≡ 0
  unfolding best_size Blank
  no_size size best_err [] b = refl
  no_size size best_err (res ∷ rs) b =
      let more = no_size (size + 1) best_err rs b.1 in let (blank, updates) = b.0 in ground arith

  update_reference-Fresh :
      (s : LinregServo D) (t n : ℕ) → Fresh n s → Fresh n (update_reference s t)
  unfolding update_reference advance_reference move_reference
  update_reference-Fresh s t k (v, b, n) = (
    update_reference-IsValid s t v,
    if-both (λ s'. All Blank s'.results) (s.last_update == 0) {x = s} {y = advance_reference s t} b
        (shift-Blank _ _ s.results b),
    if-both (λ s'. s'.num_points ≡ k) (s.last_update == 0) {x = s} {y = advance_reference s t} n n,
  )

  add_sample-Fresh :
      (s : LinregServo D) (offset : ℤ) (weight : D) (n : ℕ)
      → n ≤ 2
      → Fresh n s
      → Holds (λ s'. Fresh (n + 1) s' × s'.clock_freq ≡ s.clock_freq) (add_sample s offset weight)
  unfolding add_sample IsValid
  add_sample-Fresh s offset weight n h ((p, r, l, m, z), b, e) =
      Holds-bind (write_in s.points ((s.last_point + 1) % 64) _ (omega arith))
        (λ ys f. yields (((f ∙ p, r, omega arith, ground arith, z), b, ground arith), refl))

  few_points :
      (s : LinregServo D) (y0 : D) (rs : List (Result D))
      → s.num_points ≤ 3
      → regress_sizes s y0 2 0 no_sums rs ≡ some rs
  unfolding regress_sizes
  few_points s y0 [] h = refl
  few_points s y0 (res ∷ rs) h = rw (lt→ltb s.num_points 4 (omega arith))

  regress-Fresh :
      (s : LinregServo D) (n : ℕ)
      → n ≤ 3
      → Fresh n s
      → Holds (λ s'. Fresh n s' × s'.clock_freq ≡ s.clock_freq) (regress s)
  unfolding regress IsValid
  regress-Fresh s n h ((p, r, l, m, z), b, e) =
      Holds-bind (read_in s.points s.last_point (omega arith)) (λ q f.
        rw (few_points s _ s.results (omega arith)) (yields (((p, r, l, m, z), b, e), refl)))

  -- The answer to one of the first samples.
  abbrev pub Waits : LinregServo D → ℕ → D × ServoState × LinregServo D → Type ℓ
  Waits s n r =
      let (ppb, state, s') = r in
      ppb ≡ d.neg s.clock_freq × state ≡ unlocked × Fresh n s' × s'.clock_freq ≡ s.clock_freq

  use_size-Waits :
      (servo : Servo D) (s s2 : LinregServo D) (offset : ℤ) (n : ℕ)
      → Fresh n s2
      → s2.clock_freq ≡ s.clock_freq
      → Holds (Waits s n) (use_size servo (update_size s2) offset)
  unfolding use_size update_size IsValid
  use_size-Waits servo s s2 offset n ((p, r, l, m, z), b, e) f =
      rw (no_size 2 (nought {D = D}) s2.results b)
        (yields (ap d.neg f, refl, ((p, r, l, m, omega arith), b, e), f))

  -- The first three samples leave the frequency as it is.
  pub linreg_sample-Waits :
      (servo : Servo D) (s : LinregServo D) (offset : ℤ) (local_ts : ℕ) (weight : D) (n : ℕ)
      → n ≤ 2
      → Fresh n s
      → Holds (Waits s (n + 1)) (linreg_sample servo s offset local_ts weight)
  unfolding linreg_sample
  linreg_sample-Waits servo s offset local_ts weight n h f =
      Holds-bind (add_sample-Fresh _ offset weight n h (update_reference-Fresh s local_ts n f))
        (λ s1 (f1, e1). Holds-bind (regress-Fresh s1 (n + 1) (omega arith) f1) (λ s2 (f2, e2).
          use_size-Waits servo s s2 offset (n + 1) f2
            (e2 ∙ e1 ∙ update_reference-clock_freq s local_ts)))

  pub linreg_reset-Fresh :
      d.same nought nought ≡ true → (s : LinregServo D) → IsValid s → Fresh 0 (linreg_reset s)
  unfolding linreg_reset
  linreg_reset-Fresh e s v = (linreg_reset-IsValid s v, reset-Blank e s.results, refl)

  linreg_servo_create-Fresh :
      (alloc : ℕ → Bool) (cfg : ServoConfig D)
      → d.same nought nought ≡ true
      → alloc 1880 ≡ true
      → Holds
          (λ s. Fresh 0 s × s.clock_freq ≡ d.of_int (neg_ℤ cfg.intial_adj))
          (linreg_servo_create alloc cfg)
  unfolding linreg_servo_create IsValid Blank
  linreg_servo_create-Fresh alloc cfg e h =
      let unused : Result D = record {
        slope = nought;
        intercept = nought;
        err = nought;
        err_updates = 0;
      } in
      let blank : Blank unused = (rw e, refl) in
      rw h (
        yields (
          (
            (refl, refl, omega arith, omega arith, omega arith),
            (blank, (blank, (blank, (blank, (blank, tt))))),
            refl,
          ),
          refl,
        ))

  -- the answers to samples in a row, each an offset, a time stamp and a weight
  abbrev pub sample_all :
      Servo D → LinregServo D → List (ℤ × ℕ × D) → Option (List (D × ServoState) × LinregServo D)
  sample_all servo s [] = some ([], s)
  sample_all servo s ((offset, local_ts, weight) ∷ samples) = do
    (ppb, state, s') ← linreg_sample servo s offset local_ts weight
    (answers, s'') ← sample_all servo s' samples
    some ((ppb, state) ∷ answers, s'')

  -- Every answer is unlocked and with the frequency that the clock has, and the samples are counted.
  abbrev pub Unmoved : D → List (ℤ × ℕ × D) → List (D × ServoState) × LinregServo D → Type ℓ
  Unmoved freq samples r =
      let (answers, s) = r in
      All (λ a. (a.0 ≡ d.neg freq) × (a.1 ≡ unlocked)) answers
      × (length answers ≡ length samples)
      × (s.num_points ≡ length samples)
      × (s.clock_freq ≡ freq)

  sample_all-from :
      (servo : Servo D) (s : LinregServo D) (n : ℕ) (samples : List (ℤ × ℕ × D))
      → n + length samples ≤ 3
      → Fresh n s
      → Holds
          (λ r.
            All (λ a. (a.0 ≡ d.neg s.clock_freq) × (a.1 ≡ unlocked)) r.0
            × (length r.0 ≡ length samples)
            × (r.1.num_points ≡ n + length samples)
            × (r.1.clock_freq ≡ s.clock_freq))
          (sample_all servo s samples)
  sample_all-from servo s n [] h (v, b, e) = yields (tt, refl, omega (arith, e), refl)
  sample_all-from servo s n ((offset, local_ts, weight) ∷ samples) h f =
      Holds-bind (linreg_sample-Waits servo s offset local_ts weight n (omega arith) f)
        (λ (ppb, state, s') (is, out, f', same).
          Holds-bind (sample_all-from servo s' (n + 1) samples (omega arith) f')
            (λ (answers, s'') (all, size, count, kept).
              yields (((is, out), rw same at all), ap suc size, omega (arith, count), kept ∙ same)))

  sample_all-first :
      (servo : Servo D) (s : LinregServo D) (samples : List (ℤ × ℕ × D))
      → length samples ≤ 3
      → Fresh 0 s
      → Holds (Unmoved s.clock_freq samples) (sample_all servo s samples)
  sample_all-first servo s samples h f =
      Holds-weaken (sample_all-from servo s 0 samples (omega arith) f)
        (λ r (all, size, count, kept). (all, size, omega (arith, count), kept))

  -- Right after the creation of a regression servo, where its memory can be had, and right after a
  -- reset of a well-formed one, up to three samples in a row, of whatever offsets and stamps, are
  -- all answered: each with the state unlocked and the negation of the frequency that the clock
  -- has (after the creation the negation of the configured one), which is kept, and each is
  -- counted. Zero is the same as itself.
  pub sample_all-Unmoved :
      (servo : Servo D) (alloc : ℕ → Bool) (cfg : ServoConfig D) (s : LinregServo D)
      (samples : List (ℤ × ℕ × D))
      → d.same nought nought ≡ true
      → alloc 1880 ≡ true
      → IsValid s
      → length samples ≤ 3
      → Holds
          (λ new.
            Holds
              (Unmoved (d.of_int (neg_ℤ cfg.intial_adj)) samples)
              (sample_all servo new samples))
          (linreg_servo_create alloc cfg)
        × Holds (Unmoved s.clock_freq samples) (sample_all servo (linreg_reset s) samples)
  unfolding linreg_reset
  sample_all-Unmoved servo alloc cfg s samples e h v few = (
    Holds-weaken (linreg_servo_create-Fresh alloc cfg e h) (λ new (f, freq).
        subst (λ x. Holds (Unmoved x samples) (sample_all servo new samples)) freq
          (sample_all-first servo new samples few f)),
    sample_all-first servo (linreg_reset s) samples few (linreg_reset-Fresh e s v),
  )
