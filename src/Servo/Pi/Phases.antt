-- ===== src/Servo/Pi/Phases.antt =====
-- servo/pi/pi.c: the states that the servo goes through, as a machine on its sample count.
use external_servo.Prelude.{
  ℕ, ◌≤◌, ◌<◌, ◌≡◌, refl, ap, true, false, Bool, arith, inl, inr, ◌+◌, ◌&&◌, ◌||◌, if◌then◌else◌,
  Bool-cases, leb, ◌==◌,
}
use external_servo.Prelude.Int.{ℤ, pos, pos_part, neg_part}
use external_servo.Double.{Double, nonzero}
use external_servo.Servo.Base.{Servo, ServoState, unlocked, jump, locked, llabs, sub_u64, exceeds}
use external_servo.Servo.Pi.{
  PiServo, pi_sample, pi_cases, first_sample, second_sample, later_sample, must_jump, too_early,
}

llabs_lem : (x : ℤ) → llabs x ≡ pos (pos_part x + neg_part x)
unfolding llabs
llabs_lem x = ground arith

module _ {ℓ} {D : Type ℓ} ⦃d : Double D⦄ where
  open d use {literal, of_int, add, mul, div, lt}

  -- An offset, of either sign, is above a threshold; a threshold of zero is none.
  abbrev pub above : D → ℤ → Bool
  above threshold offset =
      nonzero threshold && lt threshold (of_int (pos (pos_part offset + neg_part offset)))

  -- The clock is to be stepped: at the first update there is a threshold more.
  abbrev pub steps : Servo D → ℤ → Bool
  steps servo offset =
      servo.first_update && above servo.first_step_threshold offset
      || above servo.step_threshold offset

  -- The seconds between the two stamps, and a thousandth more, are less than 0.016 over the integral
  -- gain, or than 1000 where that is less.
  abbrev pub soon : PiServo D → ℕ → Bool
  soon s local_ts =
      let seconds = div (of_int (pos (sub_u64 local_ts s.local_0))) (literal 1_000_000_000 0) in
      let needed = div (literal 16 3) s.ki in
      lt (add seconds (mul seconds (literal 1 3)))
        (if lt (literal 1000 0) needed then literal 1000 0 else needed)

  -- A call on a sample: what it reports, and the count that it leaves.
  pub data Step (servo : Servo D) (s : PiServo D) (offset : ℤ) (local_ts : ℕ) (st : ServoState)
      (c' : ℕ) : Type 0 where
    start : s.count ≡ 0 → st ≡ unlocked → c' ≡ 1 → Step servo s offset local_ts st c'
    restart :
        s.count ≡ 1
        → local_ts ≤ s.local_0
        → st ≡ unlocked
        → c' ≡ 0
        → Step servo s offset local_ts st c'
    wait :
        s.count ≡ 1
        → s.local_0 < local_ts
        → soon s local_ts ≡ true
        → st ≡ unlocked
        → c' ≡ 1
        → Step servo s offset local_ts st c'
    settle :
        s.count ≡ 1
        → s.local_0 < local_ts
        → soon s local_ts ≡ false
        → steps servo offset ≡ false
        → st ≡ locked
        → c' ≡ 2
        → Step servo s offset local_ts st c'
    leap :
        s.count ≡ 1
        → s.local_0 < local_ts
        → soon s local_ts ≡ false
        → steps servo offset ≡ true
        → st ≡ jump
        → c' ≡ 2
        → Step servo s offset local_ts st c'
    track :
        s.count ≡ 2
        → above servo.step_threshold offset ≡ false
        → st ≡ locked
        → c' ≡ 2
        → Step servo s offset local_ts st c'
    lose :
        s.count ≡ 2
        → above servo.step_threshold offset ≡ true
        → st ≡ unlocked
        → c' ≡ 0
        → Step servo s offset local_ts st c'

  above_lem :
      (threshold : D) (offset : ℤ)
      → exceeds threshold (of_int (llabs offset)) ≡ above threshold offset
  above_lem threshold offset = ap (λ x. exceeds threshold (of_int x)) (llabs_lem offset)

  must_jump-steps : (servo : Servo D) (offset : ℤ) → must_jump servo offset ≡ steps servo offset
  unfolding must_jump
  must_jump-steps servo offset =
      rw (above_lem servo.first_step_threshold offset, above_lem servo.step_threshold offset)

  later_sample-Step :
      (servo : Servo D) (s : PiServo D) (offset : ℤ) (local_ts : ℕ) (weight : D)
      → s.count ≡ 2
      → let (ppb, st, s') = later_sample servo s offset weight in
        Step servo s offset local_ts st s'.count
  unfolding later_sample
  later_sample-Step servo s offset local_ts weight h =
      let same = above_lem servo.step_threshold offset in
      elim (Bool-cases (above servo.step_threshold offset)) [
        | inl over ↦ lose h over (ground (arith, same)) (ground (arith, same))
        | inr within ↦ track h within (ground (arith, same)) (ground (arith, same))
      ]

  second_sample-Step :
      (servo : Servo D) (s : PiServo D) (offset : ℤ) (local_ts : ℕ)
      → s.count ≡ 1
      → let (ppb, st, s') = second_sample servo s offset local_ts in
        Step servo s offset local_ts st s'.count
  unfolding second_sample too_early
  second_sample-Step servo s offset local_ts h =
      let same = must_jump-steps servo offset in
      elim (Bool-cases (leb local_ts s.local_0)) [
        | inl back ↦ restart h (ground arith) (rw back) (rw back)
        | inr on ↦
            let later : s.local_0 < local_ts = ground arith in
            elim (Bool-cases (soon s local_ts)) [
              | inl early ↦ wait h later early (rw (on, early)) (rw (on, early) h)
              | inr apart ↦ elim (Bool-cases (steps servo offset)) [
                | inl far ↦ leap h later apart far (rw (on, apart, same, far)) (rw (on, apart))
                | inr near ↦ settle h later apart near (rw (on, apart, same, near)) (rw (on, apart))
              ]
            ]
      ]

  -- With at most two samples counted, every call of the PI servo follows its machine. The first
  -- sample is unlocked. So is the second, if its stamp is not later, with no sample counted then,
  -- or if it comes sooner than the least time that the integral gain asks for, with one still
  -- counted; otherwise it is a jump where the offset, of either sign, is above the step threshold,
  -- or at the first update the first one, and locked where it is not, with two samples counted.
  -- From then on the servo is locked while the offset is not above the step threshold, and
  -- unlocked with no sample counted when it is.
  pub pi_sample-Step :
      (servo : Servo D) (s : PiServo D) (offset : ℤ) (local_ts : ℕ) (weight : D)
      (state : ServoState)
      → s.count ≤ 2
      → let (ppb, st, s') = pi_sample servo s offset local_ts weight state in
        Step servo s offset local_ts st s'.count
  unfolding pi_sample pi_cases first_sample
  pi_sample-Step servo s offset local_ts weight state h = elim (Bool-cases (s.count == 0)) [
    | inl new ↦ rw new (start (ground arith) refl refl)
    | inr counting ↦ elim (Bool-cases (s.count == 1)) [
      | inl one ↦ rw (counting, one) (second_sample-Step servo s offset local_ts (ground arith))
      | inr two ↦
          let both : (s.count == 2) ≡ true = ground arith in
          rw (counting, two, both) (later_sample-Step servo s offset local_ts weight (ground arith))
    ]
  ]
