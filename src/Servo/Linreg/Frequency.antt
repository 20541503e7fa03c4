-- ===== src/Servo/Linreg/Frequency.antt =====
-- servo/linreg/linreg.c: the frequency that a sample answers with, and the first samples.
use external_servo.Prelude.{
  true, ℕ, ◌-◌, ◌≤◌, ◌≡◌, refl, ◌∙◌, inl, inr, Holds, yields, Holds-bind, Holds-if, read_in,
  Holds-weaken, get_elem?, arith, Bool-cases, if-both, lt→ltb, le→not-ltb, ◌==◌,
}
use external_servo.Prelude.Int.{ℤ}
use external_servo.Double.{le, Double, IsOrdered, nought}
use external_servo.Servo.Base.{Servo, ServoState, jump, locked}
use external_servo.Servo.Range.{IsLimited, not_outside, IsLimited-top, IsLimited-neg}
use external_servo.Servo.Linreg.{
  clamp_clock_freq, update_reference, advance_reference, move_reference, update_size, must_step,
  step_or_track, step_clock, set_frequency, use_size, linreg_sample,
}
use external_servo.Servo.Points.{LinregServo}
use external_servo.Servo.Linreg.Memory.{
  IsValid, Sized, update_reference-IsValid, add_sample-IsValid, regress-IsValid, update_size-Sized,
  step_clock-IsValid,
}

module _ {ℓ} {D : Type ℓ} ⦃d : Double D⦄ where
  -- The answer is the negated frequency of the clock, which is in the range of the hardware or NaN.
  abbrev pub Answers : D → D × ServoState × LinregServo D → Type ℓ
  Answers top r = let (ppb, state, s) = r in ppb ≡ d.neg s.clock_freq × IsLimited top s.clock_freq

  pub update_reference-clock_freq :
      (s : LinregServo D) (t : ℕ) → (update_reference s t).clock_freq ≡ s.clock_freq
  unfolding update_reference advance_reference move_reference
  update_reference-clock_freq s t =
      if-both (λ s'. s'.clock_freq ≡ s.clock_freq) (s.last_update == 0) {x = s}
        {y = advance_reference s t} refl refl

  module _ (o : IsOrdered D) (servo : Servo D) (p : le nought servo.max_frequency ≡ true) where
    clamp-IsLimited :
        (x : D) → IsLimited servo.max_frequency (clamp_clock_freq servo.max_frequency x)
    unfolding clamp_clock_freq
    clamp-IsLimited x = elim (Bool-cases (d.lt servo.max_frequency x)) [
      | inl t ↦ rw t (IsLimited-top o servo.max_frequency p)
      | inr f ↦ elim (Bool-cases (d.lt x (d.neg servo.max_frequency))) [
        | inl t ↦ rw (f, t) (IsLimited-neg o servo.max_frequency p)
        | inr g ↦ rw (f, g) (not_outside o servo.max_frequency p x g f)
      ]
    ]

    set_frequency-Answers :
        (state : ServoState) (s : LinregServo D)
        → IsValid s
        → 2 ≤ s.size
        → Holds (Answers servo.max_frequency) (set_frequency servo state s)
    unfolding set_frequency IsValid
    set_frequency-Answers state s (p, l, last, n, z) h =
        Holds-bind (read_in s.results (s.size - 2) (omega arith))
          (λ res e. yields (refl, clamp-IsLimited _))

    sized_read :
        (s : LinregServo D)
        → IsValid s
        → 2 ≤ s.size
        → Holds (λ res. Unit {0}) (get_elem? s.results (s.size - 2))
    unfolding IsValid
    sized_read s (p, l, last, n, z) h =
        Holds-weaken (read_in s.results (s.size - 2) (omega arith)) (λ res e. tt)

    use_size-Answers :
        (s : LinregServo D) (offset : ℤ)
        → Sized s
        → IsLimited servo.max_frequency s.clock_freq
        → Holds (Answers servo.max_frequency) (use_size servo s offset)
    unfolding use_size step_or_track step_clock move_reference
    use_size-Answers s offset (v, h) r = elim h [
      | inl e ↦ rw (lt→ltb s.size 2 (omega arith)) (yields (refl, r))
      | inr e ↦ rw (le→not-ltb s.size 2 e) (
          Holds-bind (sized_read s v e) (λ res e'.
            Holds-if (must_step servo res.intercept)
              (set_frequency-Answers jump _ (step_clock-IsValid s offset v) e)
              (set_frequency-Answers locked s v e)))
    ]

    -- Given a greatest frequency that is not negative and a last frequency that is in the range of
    -- the hardware or NaN: a sample of the regression servo on a well-formed structure is answered
    -- by the negated frequency of the clock, which is again in that range or NaN (the tests of the
    -- limits do not catch a NaN, as the slope of points with one time stamp is).
    pub linreg_sample-IsLimited :
        (s : LinregServo D) (offset : ℤ) (local_ts : ℕ) (weight : D)
        → IsValid s
        → IsLimited servo.max_frequency s.clock_freq
        → Holds (Answers servo.max_frequency) (linreg_sample servo s offset local_ts weight)
    unfolding linreg_sample update_size
    linreg_sample-IsLimited s offset local_ts weight v r =
        Holds-bind (add_sample-IsValid _ offset weight (update_reference-IsValid s local_ts v))
          (λ s1 (v1, e1). Holds-bind (regress-IsValid s1 v1) (λ s2 (v2, e2).
            use_size-Answers _ offset (update_size-Sized s2 v2)
              (rw (e2 ∙ e1 ∙ update_reference-clock_freq s local_ts) r)))
