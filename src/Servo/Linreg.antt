-- ===== src/Servo/Linreg.antt =====
-- servo/linreg/linreg.c: the servo by linear regression over the last 4 to 64 points, in front of the
-- regression of Servo.Points.
pub mod Memory
pub mod Regress
pub mod Frequency
pub mod Warmup
pub mod Line
pub mod Choice
pub mod Steer
use external_servo.Prelude.{
  ℕ, zero, suc, ◌+◌, ◌-◌, ◌/◌, ◌%◌, ◌^◌, Bool, true, false, not, ◌&&◌, ◌||◌, Option, none, some,
  ◌>>=◌, List, [], ◌∷◌, map, if◌then◌else◌, ◌==◌, ltb, leb, get_elem?, set?, replicate,
}
use external_servo.Prelude.Int.{ℤ, pos, neg_ℤ, ◌*ℤ◌, eqb_ℤ}
use external_servo.Prelude.Word.{to_u64, of_u64}
use external_servo.Double.{Double, nought, one, nonzero}
use external_servo.Config.Types.{ServoConfig}
use external_servo.Servo.Base.{Servo, ServoState, unlocked, jump, locked, sub_u64, exceeds}
use external_servo.Servo.Points.{Point, Result, LinregServo, Sums, no_sums, regress}

module _ {ℓ} {D : Type ℓ} ⦃d : Double D⦄ where
  open d use {literal, of_int, to_int64, add, sub, mul, div, neg, lt, fabs}

  -- an intercept for the new reference
  unfoldable pub shift_intercept : ℤ → ℤ → Result D → Result D
  shift_intercept x y res = record res {
    intercept = add res.intercept (sub (mul (of_int x) res.slope) (of_int y));
  }

  unfoldable pub move_reference : LinregServo D → ℤ → ℤ → LinregServo D
  move_reference s x y =
      let r = s.reference in
      record s {
        reference = record r { x = (r.x + to_u64 x) % 2 ^ 64; y = (r.y + to_u64 y) % 2 ^ 64 };
        results = map (shift_intercept x y) s.results;
      }

  -- the body of the `if` of `update_reference`
  unfoldable pub advance_reference : LinregServo D → ℕ → LinregServo D
  advance_reference s local_ts =
      let y_interval = of_u64 (sub_u64 local_ts s.last_update) in
      let x_interval =
        add (div (of_int y_interval) (add one (div s.clock_freq (literal 1_000_000_000 0))))
          s.x_remainder in
      move_reference (record s { x_remainder = sub x_interval (of_int (to_int64 x_interval)) })
        (to_int64 x_interval) y_interval

  unfoldable pub update_reference : LinregServo D → ℕ → LinregServo D
  update_reference s local_ts =
      let s' = if s.last_update == 0 then s else advance_reference s local_ts in
      record s' { last_update = local_ts }

  unfoldable pub add_sample : LinregServo D → ℤ → D → Option (LinregServo D)
  add_sample s offset weight = do
    let last = (s.last_point + 1) % 64
    let r = s.reference
    points ← set? s.points last (record { x = r.x; y = sub_u64 r.y (to_u64 offset); w = weight })
    some (record s {
      last_point = last;
      points = points;
      num_points = if ltb s.num_points 64 then s.num_points + 1 else s.num_points;
    })

  -- The loop of `update_size`, from `size` on.
  unfoldable pub best_size : ℕ → ℕ → D → List (Result D) → ℕ
  best_size size best best_err [] = best
  best_size size best best_err (res ∷ rs) =
      if best == 0 && nonzero res.slope
        || lt res.err (mul best_err (literal 105 2)) && leb 10 res.err_updates
      then best_size (size + 1) size res.err rs
      else best_size (size + 1) best best_err rs

  unfoldable pub update_size : LinregServo D → LinregServo D
  update_size s = record s { size = best_size 2 0 nought s.results }

  -- the frequency within the allowed maximum
  unfoldable pub clamp_clock_freq : D → D → D
  clamp_clock_freq top x = if lt top x then top else if lt x (neg top) then neg top else x

  unfoldable pub must_step : Servo D → D → Bool
  must_step servo intercept =
      servo.first_update && exceeds servo.first_step_threshold (fabs intercept)
      || exceeds servo.step_threshold (fabs intercept)

  -- `linreg_sample` from the choice of the frequency on
  unfoldable pub set_frequency :
      Servo D → ServoState → LinregServo D → Option (D × ServoState × LinregServo D)
  set_frequency servo state s = do
    res ← get_elem? s.results (s.size - 2)
    let corr_interval = if leb s.size 4 then 1 else s.size / 2
    let freq = clamp_clock_freq servo.max_frequency (
        add (mul (literal 1_000_000_000 0) (sub res.slope one))
          (div (div res.intercept s.update_interval) (of_int (pos corr_interval))))
    some (
      neg freq,
      state,
      record s {
        clock_freq = freq;
        frequency_ratio = div res.slope (add one (div freq (literal 1_000_000_000 0)));
      },
    )

  -- the step of the clock by the offset
  unfoldable pub step_clock : LinregServo D → ℤ → LinregServo D
  step_clock s offset =
      let s' = move_reference s (pos 0) (neg_ℤ offset) in
      record s' { last_update = sub_u64 s.last_update (to_u64 offset) }

  unfoldable pub step_or_track :
      Servo D → LinregServo D → ℤ → Bool → Option (D × ServoState × LinregServo D)
  step_or_track servo s offset stepped =
      if stepped
      then set_frequency servo jump (step_clock s offset)
      else set_frequency servo locked s

  -- `linreg_sample` once the size is chosen
  unfoldable pub use_size : Servo D → LinregServo D → ℤ → Option (D × ServoState × LinregServo D)
  use_size servo s offset =
      let sized = do
        res ← get_elem? s.results (s.size - 2)
        step_or_track servo s offset (must_step servo res.intercept)
      in if ltb s.size 2 then some (neg s.clock_freq, unlocked, s) else sized

  -- the result, `*state` and the new structure
  unfoldable pub linreg_sample :
      Servo D → LinregServo D → ℤ → ℕ → D → Option (D × ServoState × LinregServo D)
  linreg_sample servo s offset local_ts weight = do
    s1 ← add_sample (update_reference s local_ts) offset weight
    s2 ← regress s1
    use_size servo (update_size s2) offset

  unfoldable pub linreg_sync_interval : LinregServo D → D → LinregServo D
  linreg_sync_interval s interval = record s { update_interval = interval }

  unfoldable pub reset_result : Result D → Result D
  reset_result res = record res { slope = nought; err_updates = 0 }

  unfoldable pub linreg_reset : LinregServo D → LinregServo D
  linreg_reset s = record s {
    num_points = 0;
    last_update = 0;
    size = 0;
    frequency_ratio = one;
    results = map reset_result s.results;
  }

  unfoldable pub linreg_rate_ratio : LinregServo D → D
  linreg_rate_ratio s = s.frequency_ratio

  -- (the product is one of type `int`, for a leap of -1, 0 or 1)
  unfoldable pub linreg_leap : LinregServo D → ℤ → LinregServo D
  linreg_leap s leap =
      let moved = move_reference s (pos 0) (s.leap *ℤ pos 1_000_000_000) in
      let s' = if not (eqb_ℤ s.leap (pos 0)) && eqb_ℤ leap (pos 0) then moved else s in
      record s' { leap = leap }

  -- `alloc` says which sizes `calloc` can serve: 1880 bytes for the structure.
  unfoldable pub linreg_servo_create : (ℕ → Bool) → ServoConfig D → Option (LinregServo D)
  linreg_servo_create alloc cfg =
      if not (alloc 1880)
      then none
      else some (record {
        points = replicate 64 (record { x = 0; y = 0; w = nought });
        reference = record { x = 0; y = 0; w = nought };
        num_points = 0;
        last_point = 0;
        x_remainder = nought;
        last_update = 0;
        results =
            replicate 5
              (record { slope = nought; intercept = nought; err = nought; err_updates = 0 });
        size = 0;
        clock_freq = of_int (neg_ℤ cfg.intial_adj);
        update_interval = nought;
        frequency_ratio = one;
        leap = pos 0;
      })
