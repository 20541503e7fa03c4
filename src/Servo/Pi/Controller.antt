-- ===== src/Servo/Pi/Controller.antt =====
-- servo/pi/pi.c: in lock the servo is a discrete proportional and integral controller, whose integral
-- stands still while its output is limited.
use external_servo.Prelude.{
  ℕ, ◌≡◌, refl, ap, ◌∙◌, Bool, false, ◌||◌, List, [], ◌∷◌, if◌then◌else◌, All, map, arith,
}
use external_servo.Prelude.Int.{ℤ}
use external_servo.Double.{Double}
use external_servo.Servo.Base.{Servo, ServoState, unlocked, locked, llabs, exceeds}
use external_servo.Servo.Pi.{PiServo, clamp_frequency, pi_sample, pi_cases, later_sample}

-- an offset, its time stamp and its weight
abbrev pub Measured {ℓ} : Type ℓ → Type ℓ
Measured D = ℤ × ℕ × D

module _ {ℓ} {D : Type ℓ} ⦃d : Double D⦄ where
  open d use {of_int, add, mul, neg, lt}

  -- a gain times a weighted offset
  abbrev term : D → ℤ → D → D
  term k offset weight = mul (mul k (of_int offset)) weight

  -- the sum of the two terms and the integral
  abbrev output : PiServo D → D → Measured D → D
  output gains integral (offset, local_ts, weight) =
      add (add (term gains.kp offset weight) integral) (term gains.ki offset weight)

  abbrev is_limited : D → D → Bool
  is_limited top x = lt x (neg top) || lt top x

  -- the integral after a sample
  abbrev integrated : D → PiServo D → D → Measured D → D
  integrated top gains integral (offset, local_ts, weight) =
      if is_limited top (output gains integral (offset, local_ts, weight))
      then integral
      else add integral (term gains.ki offset weight)

  -- The controller: its outputs, and its last integral.
  unfoldable pub control : D → PiServo D → D → List (Measured D) → List D × D
  control top gains integral [] = ([], integral)
  control top gains integral (x ∷ xs) =
      let (outputs, last) = control top gains (integrated top gains integral x) xs in
      (clamp_frequency top (output gains integral x) ∷ outputs, last)

  -- The servo: the frequencies and states that it answers, and its last structure.
  pub answers : Servo D → PiServo D → List (Measured D) → List (D × ServoState) × PiServo D
  answers servo s [] = ([], s)
  answers servo s ((offset, local_ts, weight) ∷ xs) =
      let (ppb, state, s') = pi_sample servo s offset local_ts weight unlocked in
      let (rest, last) = answers servo s' xs in ((ppb, state) ∷ rest, last)

  -- The structure after a sample in lock.
  abbrev after : Servo D → PiServo D → Measured D → PiServo D
  after servo s x = record s {
    drift = integrated servo.max_frequency s s.drift x;
    last_freq = clamp_frequency servo.max_frequency (output s s.drift x);
  }

  locked_sample :
      (servo : Servo D) (s : PiServo D) (offset : ℤ) (local_ts : ℕ) (weight : D)
      → s.count ≡ 2
      → exceeds servo.step_threshold (of_int (llabs offset)) ≡ false
      → pi_sample servo s offset local_ts weight unlocked ≡ (
        clamp_frequency servo.max_frequency (output s s.drift (offset, local_ts, weight)),
        locked,
        after servo s (offset, local_ts, weight),
      )
  unfolding pi_sample pi_cases later_sample clamp_frequency
  locked_sample servo s offset local_ts weight c e = ground arith

  -- what the servo comes to, after what the controller comes to
  abbrev pub Controlled : Servo D → PiServo D → List (Measured D) → Type ℓ
  Controlled servo s xs =
      let (replies, last) = answers servo s xs in
      let (outputs, integral) = control servo.max_frequency s s.drift xs in
      (replies ≡ map (λ u. (u, locked)) outputs) × (last.drift ≡ integral) × (last.count ≡ 2)

  control-after :
      (servo : Servo D) (s : PiServo D) (x : Measured D) (integral : D) (xs : List (Measured D))
      → control servo.max_frequency (after servo s x) integral xs
        ≡ control servo.max_frequency s integral xs
  unfolding control
  control-after servo s x integral [] = refl
  control-after servo s x integral (y ∷ xs) =
      ap (λ r. (clamp_frequency servo.max_frequency (output s integral y) ∷ r.0, r.1))
        (control-after servo s x (integrated servo.max_frequency s integral y) xs)

  -- In lock, for every sequence of samples whose offsets are within the step threshold: the servo
  -- answers each with the output of the controller, limited to the range of the hardware, stays
  -- locked, and its drift is the integral of the controller.
  pub answers-control :
      (servo : Servo D) (s : PiServo D) (xs : List (Measured D))
      → s.count ≡ 2
      → All (λ x. exceeds servo.step_threshold (of_int (llabs x.0)) ≡ false) xs
      → Controlled servo s xs
  unfolding control answers
  answers-control servo s [] c a = (refl, refl, c)
  answers-control servo s ((offset, local_ts, weight) ∷ xs) c (e, a) =
      let x : Measured D = (offset, local_ts, weight) in
      let (replies, drift, count) = answers-control servo (after servo s x) xs c a in
      let here = locked_sample servo s offset local_ts weight c e in
      let same = control-after servo s x (integrated servo.max_frequency s s.drift x) xs in
      let u : D = clamp_frequency servo.max_frequency (output s s.drift x) in
      (
        ap (λ r. (r.0, r.1) ∷ (answers servo r.2 xs).0) here
            ∙ ap (λ rest. (u, locked) ∷ rest) (replies ∙ ap (λ r. map (λ u. (u, locked)) r.0) same),
        ap (λ r. (answers servo r.2 xs).1.drift) here ∙ drift ∙ ap (λ r. r.1) same,
        ap (λ r. (answers servo r.2 xs).1.count) here ∙ count,
      )
