-- ===== src/Tests/Nans.antt =====
-- A regression servo whose points have one time stamp, over whole numbers with a NaN for the doubles.
use external_servo.Prelude.{
  ◌/◌, ◌^◌, ◌≡◌, refl, false, Bool, Option, some, none, replicate, if◌then◌else◌, arith,
}
use external_servo.Prelude.Int.{ℤ, pos, ◌+ℤ◌, ◌-ℤ◌, ◌*ℤ◌, ◌/ℤ◌, neg_ℤ, ltb_ℤ, eqb_ℤ}
use external_servo.Prelude.Word.{to_u64, of_u64, wrap64}
use external_servo.Double.{Double, IsOrdered, IsSigned}
use external_servo.Servo.Base.{Servo, ServoState}
use external_servo.Servo.Points.{
  Point, LinregServo, add_point, sum_points, update_err, solve, regress_sizes, regress,
}
use external_servo.Servo.Linreg.{
  linreg_sample, add_sample, update_reference, advance_reference, move_reference, shift_intercept,
  update_size, best_size, use_size, step_or_track, set_frequency, clamp_clock_freq, must_step,
}

-- `none` is NaN
abbrev both : (ℤ → ℤ → ℤ) → Option ℤ → Option ℤ → Option ℤ
both f (some x) (some y) = some (f x y)
both f _ _ = none

abbrev compares : (ℤ → ℤ → Bool) → Option ℤ → Option ℤ → Bool
compares f (some x) (some y) = f x y
compares f _ _ = false

abbrev over : Option ℤ → Option ℤ → Option ℤ
over (some x) (some y) = if eqb_ℤ y (pos 0) then none else some (x /ℤ y)
over _ _ = none

abbrev opposite : Option ℤ → Option ℤ
opposite (some x) = some (neg_ℤ x)
opposite none = none

abbrev size_of : Option ℤ → Option ℤ
size_of (some x) = some (if ltb_ℤ x (pos 0) then neg_ℤ x else x)
size_of none = none

abbrev cut : Option ℤ → ℤ
cut (some x) = wrap64 x
cut none = pos 0

instance abbrev with_nan : Double (Option ℤ)
with_nan = record {
  literal = λ m k. some (pos (m / 10 ^ k));
  of_int = λ x. some x;
  to_int64 = cut;
  add = both (◌+ℤ◌);
  sub = both (◌-ℤ◌);
  mul = both (◌*ℤ◌);
  div = over;
  neg = opposite;
  lt = compares ltb_ℤ;
  same = compares eqb_ℤ;
  fabs = size_of;
  pow = λ x y. x;
  round = λ x. x;
}

-- The laws hold with a NaN too.
with_nan-IsOrdered : IsOrdered (Option ℤ)
unfolding neg_ℤ
with_nan-IsOrdered = record {
  lt_irrefl = λ x. ground arith;
  le_total = λ x y h k l. ground arith;
  same_of_le = λ x y h. ground arith;
  same-neg = λ x. ground arith;
  le-neg = λ x h. ground arith;
}

with_nan-IsSigned : IsSigned (Option ℤ)
unfolding neg_ℤ
with_nan-IsSigned = record {
  lt-neg-neg = λ x y. ground arith;
  same-neg-neg = λ x y. ground arith;
  neg-neg = λ x. ground arith;
}

abbrev servo : Servo (Option ℤ)
servo = record {
  max_frequency = some (pos 900);
  step_threshold = some (pos 0);
  first_step_threshold = some (pos 0);
  first_update = false;
  offset_threshold = pos 0;
  num_offset_values = pos 0;
  curr_offset_values = pos 0;
}

abbrev point : Point (Option ℤ)
point = record { x = 7; y = 7; w = some (pos 1) }

-- after three samples with the stamp 7
abbrev linreg : LinregServo (Option ℤ)
linreg = record {
  points = replicate 64 point;
  reference = point;
  num_points = 3;
  last_point = 2;
  x_remainder = some (pos 0);
  last_update = 7;
  results = replicate 5 (record {
    slope = some (pos 0);
    intercept = some (pos 0);
    err = some (pos 0);
    err_updates = 0;
  });
  size = 0;
  clock_freq = some (pos 0);
  update_interval = some (pos 1);
  frequency_ratio = some (pos 1);
  leap = pos 0;
}

abbrev frequency : Option (Option ℤ × ServoState × LinregServo (Option ℤ)) → Option (Option ℤ)
frequency none = none
frequency (some (ppb, state, s)) = some ppb

-- The fourth such sample is answered by a NaN.
linreg_nan : frequency (linreg_sample servo linreg (pos 0) 7 (some (pos 1))) ≡ some none
unfolding linreg_sample add_sample update_reference advance_reference move_reference shift_intercept
    update_size best_size use_size step_or_track set_frequency clamp_clock_freq must_step add_point
    sum_points update_err solve regress_sizes regress to_u64 of_u64 wrap64 neg_ℤ ◌+ℤ◌ ◌-ℤ◌ ◌*ℤ◌ ◌/ℤ◌
linreg_nan = refl
