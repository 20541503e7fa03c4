-- ===== src/Servo/Pi/Frequency.antt =====
-- servo/pi/pi.c: the bounds of the frequency and of the gains.
use external_servo.Prelude.{true, ℕ, ◌≡◌, refl, false, arith, ◌⊎◌, inl, inr}
use external_servo.Prelude.Int.{ℤ}
use external_servo.Double.{le, Double, IsOrdered, nought}
use external_servo.Servo.Base.{Servo, ServoState}
use external_servo.Servo.Range.{IsLimited, not_outside, IsLimited-top, IsLimited-neg}
use external_servo.Servo.Pi.{
  PiServo, clamp_frequency, measured_drift, pi_sample, pi_cases, first_sample, second_sample,
  later_sample, scaled_gain, pi_sync_interval,
}

module _ {ℓ} {D : Type ℓ} ⦃d : Double D⦄ where
  -- where the frequency that a call answers comes from
  abbrev Origin : D → D → D → Type ℓ
  Origin top last ppb =
      (ppb ≡ last)
      ⊎ (ppb ≡ top)
      ⊎ (ppb ≡ d.neg top)
      ⊎ (d.lt ppb (d.neg top) ≡ false × d.lt top ppb ≡ false)

  clamp_frequency-Origin : (top last x : D) → Origin top last (clamp_frequency top x)
  unfolding clamp_frequency
  clamp_frequency-Origin top last x = ground arith

  second_sample-Origin :
      (servo : Servo D) (s : PiServo D) (offset : ℤ) (local_ts : ℕ)
      → let (ppb, st, s') = second_sample servo s offset local_ts in
        Origin servo.max_frequency s.last_freq ppb
  unfolding second_sample
  second_sample-Origin servo s offset local_ts =
      let s' = record s { offset_1 = offset; local_1 = local_ts } in
      let clamped = clamp_frequency-Origin servo.max_frequency s.last_freq (measured_drift s') in
      ground arith

  later_sample-Origin :
      (servo : Servo D) (s : PiServo D) (offset : ℤ) (weight : D)
      → let (ppb, st, s') = later_sample servo s offset weight in
        Origin servo.max_frequency s.last_freq ppb
  unfolding later_sample
  later_sample-Origin servo s offset weight = ground arith

  pi_cases-Origin :
      (servo : Servo D) (s : PiServo D) (offset : ℤ) (local_ts : ℕ) (weight : D)
      (state : ServoState)
      → let (ppb, st, s') = pi_cases servo s offset local_ts weight state in
        Origin servo.max_frequency s.last_freq ppb
  unfolding pi_cases first_sample
  pi_cases-Origin servo s offset local_ts weight state =
      let second = second_sample-Origin servo s offset local_ts in
      let later = later_sample-Origin servo s offset weight in ground arith

  -- Given a greatest frequency that is not negative and a last frequency that is in the range of
  -- the hardware or NaN: every call of the PI servo answers with a frequency that is in that range
  -- or NaN (the tests of the limits do not catch a NaN, as it comes of a gain that is NaN), and
  -- keeps it as the last one.
  pub pi_sample-IsLimited :
      (o : IsOrdered D) (servo : Servo D) (s : PiServo D) (offset : ℤ) (local_ts : ℕ) (weight : D)
      (state : ServoState)
      → le nought servo.max_frequency ≡ true
      → IsLimited servo.max_frequency s.last_freq
      → let (ppb, st, s') = pi_sample servo s offset local_ts weight state in
        IsLimited servo.max_frequency ppb × s'.last_freq ≡ ppb
  unfolding pi_sample
  pi_sample-IsLimited o servo s offset local_ts weight state p r = (
    elim (pi_cases-Origin servo s offset local_ts weight state) [
      | inl e ↦ rw e r
      | inr (inl e) ↦ rw e (IsLimited-top o servo.max_frequency p)
      | inr (inr (inl e)) ↦ rw e (IsLimited-neg o servo.max_frequency p)
      | inr (inr (inr (f, g))) ↦ not_outside o servo.max_frequency p _ f g
    ],
    refl,
  )

  bounded :
      (o : IsOrdered D) (scale exponent norm interval : D)
      → d.lt (d.div norm interval) (scaled_gain scale exponent norm interval) ≡ false
  unfolding scaled_gain
  bounded o scale exponent norm interval =
      let irrefl = o.lt_irrefl (d.div norm interval) in ground arith

  -- Each gain is at most its norm over the interval.
  pub pi_sync_interval-bounded :
      (o : IsOrdered D) (s : PiServo D) (interval : D)
      → d.lt (d.div s.configured_pi_kp_norm_max interval) (pi_sync_interval s interval).kp ≡ false
        × d.lt (d.div s.configured_pi_ki_norm_max interval) (pi_sync_interval s interval).ki ≡ false
  unfolding pi_sync_interval
  pi_sync_interval-bounded o s interval = (bounded o _ _ _ _, bounded o _ _ _ _)
