-- ===== src/Tests/Servos.antt =====
-- The servos at concrete inputs, with whole numbers for the doubles.
use external_servo.Prelude.Word.{of_u64}
use external_servo.Prelude.{
  inr, if◌then◌else◌, leb, ℕ, ◌≡◌, ◌<◌, ◌+◌, ◌-◌, ◌%◌, zero, suc, refl, true, some, List, [], ◌∷◌,
  arith, replicate, Holds, get_elem?,
}
use external_servo.Prelude.Int.{pos_nonzero, ◌*ℤ◌, ◌+ℤ◌, ℤ, pos, negsuc, neg_ℤ, ◌/ℤ◌}
use external_servo.Double.{whole, whole-IsOrdered}
use external_servo.Servo.Base.{locked, locked_stable, Servo, unlocked, jump}
use external_servo.Servo.Range.{IsLimited}
use external_servo.Servo.Pi.{
  clamp_frequency, must_jump, too_early, first_sample, second_sample, pi_cases, PiServo, pi_sample,
}
use external_servo.Servo.Pi.Phases.{Step, pi_sample-Step}
use external_servo.Servo.Pi.Frequency.{pi_sample-IsLimited}
use external_servo.Servo.Pi.Controller.{Measured, control, Controlled, answers-control}
use external_servo.Servo.Linreg.{linreg_servo_create, linreg_sample, add_sample, linreg_reset}
use external_servo.Servo.Points.{Point, Result, LinregServo, regress}
use external_servo.Servo.Dispatch.{settle}
use external_servo.Servo.Dispatch.Stable.{Report, in_threshold, settle_all, settle-stable}
use external_servo.Servo.Linreg.Memory.{IsValid, IsKept, linreg_sample-IsValid}
use external_servo.Servo.Linreg.Regress.{
  Stored, new_point, regressions, regress_lem, add_sample-Stored,
}
use external_servo.Servo.Linreg.Frequency.{Answers, linreg_sample-IsLimited}
use external_servo.Servo.Linreg.Warmup.{sample_all, Unmoved, sample_all-Unmoved}
use external_servo.Config.State.{zero_servo_config}

abbrev pub servo : Servo ℤ
servo = record {
  max_frequency = pos 900;
  step_threshold = pos 0;
  first_step_threshold = pos 20_000;
  first_update = true;
  offset_threshold = pos 100;
  num_offset_values = pos 2;
  curr_offset_values = pos 2;
}

abbrev pub pi : PiServo ℤ
pi = record {
  offset_0 = pos 300;
  offset_1 = pos 0;
  local_0 = 1_000_000_000;
  local_1 = 0;
  drift = pos 0;
  kp = pos 1;
  ki = pos 1;
  last_freq = pos 0;
  count = 1;
  configured_pi_kp = pos 0;
  configured_pi_ki = pos 0;
  configured_pi_kp_scale = pos 0;
  configured_pi_kp_exponent = pos 0;
  configured_pi_kp_norm_max = pos 4;
  configured_pi_ki_scale = pos 0;
  configured_pi_ki_exponent = pos 0;
  configured_pi_ki_norm_max = pos 6;
}

pi_sample-Step_example :
    let (ppb, st, s') = pi_sample servo pi (pos 200) 2_000_000_000 (pos 1) unlocked in
    Step servo pi (pos 200) 2_000_000_000 st s'.count
pi_sample-Step_example =
    pi_sample-Step servo pi (pos 200) 2_000_000_000 (pos 1) unlocked (omega arith)

-- The first sample, and a second one 30 microseconds off.
abbrev new_pi : PiServo ℤ
new_pi = record pi { count = 0 }

pi_jumps :
    let (ppb, st, s') = pi_sample servo new_pi (pos 30_000) 1_000_000_000 (pos 1) unlocked in
    let (ppb', st', s'') = pi_sample servo s' (pos 30_000) 2_000_000_000 (pos 1) unlocked in
    st' ≡ jump
unfolding pi_sample pi_cases first_sample second_sample too_early ◌+ℤ◌ ◌/ℤ◌ ◌*ℤ◌ must_jump
pi_jumps = refl

pub zero-IsLimited : IsLimited (pos 900) (pos 0)
unfolding IsLimited neg_ℤ
zero-IsLimited = inr (refl, refl)

pi_sample-IsLimited_example :
    let (ppb, st, s') = pi_sample servo pi (pos 200) 2_000_000_000 (pos 1) unlocked in
    IsLimited (pos 900) ppb × s'.last_freq ≡ ppb
pi_sample-IsLimited_example =
    pi_sample-IsLimited whole-IsOrdered servo pi (pos 200) 2_000_000_000 (pos 1) unlocked refl
      zero-IsLimited

-- in lock, with samples of which the second is limited
abbrev locked_pi : PiServo ℤ
locked_pi = record pi { count = 2; drift = pos 5 }

abbrev measured : List (Measured ℤ)
measured = (pos 20, 0, pos 1) ∷ (pos 600, 0, pos 1) ∷ (negsuc 9, 0, pos 1) ∷ []

answers-control_example : Controlled servo locked_pi measured
answers-control_example = answers-control servo locked_pi measured refl (refl, (refl, (refl, tt)))

controlled : control (pos 900) locked_pi (pos 5) measured ≡ (pos 45 ∷ pos 900 ∷ pos 5 ∷ [], pos 15)
unfolding control clamp_frequency ◌+ℤ◌ ◌*ℤ◌ neg_ℤ
controlled = refl

abbrev origin : Point ℤ
origin = record { x = 0; y = 0; w = pos 0 }

abbrev no_result : Result ℤ
no_result = record { slope = pos 0; intercept = pos 0; err = pos 0; err_updates = 0 }

abbrev linreg : LinregServo ℤ
linreg = record {
  points = replicate 64 origin;
  reference = origin;
  num_points = 0;
  last_point = 0;
  x_remainder = pos 0;
  last_update = 0;
  results = replicate 5 no_result;
  size = 0;
  clock_freq = pos 0;
  update_interval = pos 1;
  frequency_ratio = pos 1;
  leap = pos 0;
}

linreg-IsValid : IsValid linreg
unfolding IsValid
linreg-IsValid = (refl, refl, omega arith, omega arith, omega arith)

linreg_sample-IsValid_example :
    Holds IsKept (linreg_sample servo linreg (pos 70) 1_000_000_000 (pos 1))
linreg_sample-IsValid_example =
    linreg_sample-IsValid servo linreg (pos 70) 1_000_000_000 (pos 1) linreg-IsValid

linreg_sample-IsLimited_example :
    Holds (Answers (pos 900)) (linreg_sample servo linreg (pos 70) 1_000_000_000 (pos 1))
linreg_sample-IsLimited_example =
    linreg_sample-IsLimited whole-IsOrdered servo refl linreg (pos 70) 1_000_000_000 (pos 1)
      linreg-IsValid zero-IsLimited

abbrev three_samples : List (ℤ × ℕ × ℤ)
three_samples =
    (pos 70, 1_000_000_000, pos 1)
    ∷ (pos 60, 2_000_000_000, pos 1)
    ∷ (pos 50, 3_000_000_000, pos 1)
    ∷ []

sample_all-Unmoved_example :
    Holds
      (λ s.
        Holds
          (Unmoved (neg_ℤ (zero_servo_config {D = ℤ}).intial_adj) three_samples)
          (sample_all servo s three_samples))
      (linreg_servo_create (λ n. true) zero_servo_config)
    × Holds (Unmoved (pos 0) three_samples) (sample_all servo (linreg_reset linreg) three_samples)
sample_all-Unmoved_example =
    sample_all-Unmoved servo (λ n. true) zero_servo_config linreg three_samples refl refl
      linreg-IsValid (omega arith)

linreg-Stored : Stored [] linreg
unfolding Stored
linreg-Stored = (refl, omega arith, omega arith, λ i h. absurd (omega arith))

add_sample-Stored_example :
    Holds (Stored (new_point linreg (pos 70) (pos 1) ∷ [])) (add_sample linreg (pos 70) (pos 1))
add_sample-Stored_example = add_sample-Stored linreg (pos 70) (pos 1) [] linreg-Stored

-- With one point stored.
abbrev one_point : LinregServo ℤ
one_point = record linreg { num_points = 1 }

one_Stored : Stored (origin ∷ []) one_point
unfolding Stored
one_Stored = (refl, omega arith, omega arith, stored)
  where
    stored :
        (i : ℕ)
        → i < 1
        → get_elem? (replicate 64 origin) ((64 + 0 - i) % 64) ≡ get_elem? (origin ∷ []) i
    stored zero h = refl
    stored (suc i) h = absurd (omega arith)

regress_lem_example :
    regress one_point
    ≡ some (record one_point {
      results = regressions (origin ∷ []) origin 1 (pos 0) 2 (replicate 5 no_result);
    })
unfolding of_u64
regress_lem_example = regress_lem one_point origin [] one_Stored (omega arith)

abbrev reports : List Report
reports = (pos 5, locked) ∷ (pos 700, locked) ∷ (pos 3, unlocked) ∷ []

settle-stable_example :
    let (state, servo') = settle (settle_all servo reports) (negsuc 8) locked in
    state ≡ (
      if leb 2 (in_threshold (pos 100) ((negsuc 8, locked) ∷ reports))
      then locked_stable
      else locked)
settle-stable_example =
    settle-stable servo 2 reports (negsuc 8) (pos_nonzero 100 (omega arith)) refl refl
