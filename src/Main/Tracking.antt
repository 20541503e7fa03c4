-- ===== src/Main/Tracking.antt =====
-- The servos behind their front: what each keeps between its samples, and the range of the frequency
-- that a sample reports.
use external_servo.Prelude.{
  true, ℕ, ◌≡◌, refl, sym, ap, ◌∙◌, ◌⊎◌, inl, inr, Holds, yields, Holds-bind, Holds-both, arith,
}
use external_servo.Prelude.Int.{ℤ}
use external_servo.Double.{le, Double, IsOrdered, IsSigned, nought}
use external_servo.Servo.Base.{Servo, ServoState, unlocked, jump, locked, locked_stable}
use external_servo.Servo.Range.{IsLimited}
use external_servo.Servo.Pi.Frequency.{pi_sample-IsLimited}
use external_servo.Servo.Linreg.Memory
use external_servo.Servo.Linreg.Memory.{linreg_sample-IsValid}
use external_servo.Servo.Linreg.Frequency.{linreg_sample-IsLimited}
use external_servo.Servo.Ntpshm.{ntpshm_sample}
use external_servo.Servo.Dispatch.{
  Kind, pi_servo, linear_reg, ntp_shm, ServoObject, settle, check_offset_threshold, sample_kind,
  servo_sample,
}

module _ {ℓ} {D : Type ℓ} ⦃d : Double D⦄ where
  le-neg-neg : IsSigned D → (x y : D) → le (d.neg x) (d.neg y) ≡ le y x
  le-neg-neg laws x y = rw (laws.lt-neg-neg x y, laws.same-neg-neg x y)

  pub IsLimited-neg_of : IsSigned D → (top x : D) → IsLimited top x → IsLimited top (d.neg x)
  unfolding IsLimited
  IsLimited-neg_of laws top x (inl nan) = inl (laws.same-neg-neg x x ∙ nan)
  IsLimited-neg_of laws top x (inr (low, high)) = inr (
    le-neg-neg laws top x ∙ high,
    ap (le (d.neg x)) (sym (laws.neg-neg top)) ∙ le-neg-neg laws x (d.neg top) ∙ low,
  )

  -- What a servo keeps between its samples, with the range of its frequency.
  abbrev pub Fits : D → Kind D → Type 0
  Fits top (pi_servo s) = IsLimited top s.last_freq
  Fits top (linear_reg s) = Memory.IsValid s × IsLimited top s.clock_freq
  Fits top (ntp_shm s) = Unit

  abbrev Answered : D → D × ServoState × Kind D → Type 0
  Answered top r =
      let (ppb, state, kind) = r in Fits top kind × ((state ≡ unlocked) ⊎ IsLimited top ppb)

  sample_kind-Fits :
      IsOrdered D
      → IsSigned D
      → (servo : Servo D) (kind : Kind D) (offset : ℤ) (local_ts : ℕ) (weight : D)
        (state : ServoState)
      → le nought servo.max_frequency ≡ true
      → Fits servo.max_frequency kind
      → Holds (Answered servo.max_frequency) (sample_kind servo kind offset local_ts weight state)
  unfolding sample_kind ntpshm_sample
  sample_kind-Fits o laws servo (pi_servo s) offset local_ts weight state p f =
      let (answer, kept) = pi_sample-IsLimited o servo s offset local_ts weight state p f in
      yields (rw kept answer, inr answer)
  sample_kind-Fits o laws servo (linear_reg s) offset local_ts weight state p (v, r) =
      Holds-bind
        (Holds-both (linreg_sample-IsValid servo s offset local_ts weight v)
          (linreg_sample-IsLimited o servo p s offset local_ts weight v r))
        (λ answer (valid, (is, range)). yields (
          (valid, range),
          inr (rw is (IsLimited-neg_of laws servo.max_frequency answer.2.clock_freq range)),
        ))
  sample_kind-Fits o laws servo (ntp_shm s) offset local_ts weight state p f = yields (tt, inl refl)

  -- The front keeps the greatest frequency, and reports no jump and no lock by itself.
  check-max_frequency :
      (s : Servo D) (offset : ℤ)
      → (check_offset_threshold s offset).1.max_frequency ≡ s.max_frequency
  unfolding check_offset_threshold
  check-max_frequency s offset = ground arith

  settle-max_frequency :
      (s : Servo D) (offset : ℤ) (state : ServoState)
      → (settle s offset state).1.max_frequency ≡ s.max_frequency
  unfolding settle
  settle-max_frequency s offset unlocked = refl
  settle-max_frequency s offset jump = refl
  settle-max_frequency s offset locked = check-max_frequency s offset
  settle-max_frequency s offset locked_stable = refl

  settle-unlocked :
      (s : Servo D) (offset : ℤ) (state : ServoState)
      → state ≡ unlocked
      → (settle s offset state).0 ≡ unlocked
  unfolding settle
  settle-unlocked s offset state e = rw e

  -- what holds of a servo, and of a sample's answer
  abbrev pub IsTracking : ServoObject D → Type 0
  IsTracking servo =
      (le nought servo.base.max_frequency ≡ true) × Fits servo.base.max_frequency servo.kind

  abbrev pub Sampled : D → D × ServoState × ServoObject D → Type ℓ
  Sampled top r =
      let (ppb, state, servo) = r in
      (servo.base.max_frequency ≡ top) × IsTracking servo × ((state ≡ unlocked) ⊎ IsLimited top ppb)

  pub servo_sample-Sampled :
      IsOrdered D
      → IsSigned D
      → (servo : ServoObject D) (offset : ℤ) (local_ts : ℕ) (weight : D) (state : ServoState)
      → IsTracking servo
      → Holds (Sampled servo.base.max_frequency) (servo_sample servo offset local_ts weight state)
  unfolding servo_sample
  servo_sample-Sampled o laws servo offset local_ts weight state (p, f) =
      Holds-bind (sample_kind-Fits o laws servo.base servo.kind offset local_ts weight state p f)
        (λ (ppb, state', kind) (fits, answer).
          let same = settle-max_frequency servo.base offset state' in
          yields (
            same,
            (rw same p, rw same fits),
            (elim answer [
              | inl e ↦ inl (settle-unlocked servo.base offset state' e)
              | inr r ↦ inr r
            ]),
          ))
