-- ===== src/Servo/Pi.antt =====
-- servo/pi/pi.c: the proportional-integral servo. The debug messages are left out.
pub mod Phases
pub mod Frequency
pub mod Controller
use external_servo.Prelude.{
  ℕ, ◌+◌, ◌-◌, ◌%◌, ◌^◌, Bool, true, false, not, Option, none, some, if◌then◌else◌, ◌==◌, leb, ◌&&◌,
  ◌||◌,
}
use external_servo.Prelude.Int.{ℤ, pos, ◌-ℤ◌}
use external_servo.Prelude.Word.{wrap64}
use external_servo.Double.{Double, nought, nonzero}
use external_servo.Config.Types.{ServoConfig}
use external_servo.Servo.Base.{Servo, ServoState, unlocked, jump, locked, llabs, sub_u64, exceeds}

-- `struct pi_servo`, less the common part
pub record PiServo {ℓ} (D : Type ℓ) : Type ℓ where
  pub offset_0 : ℤ
  pub offset_1 : ℤ
  pub local_0 : ℕ
  pub local_1 : ℕ
  pub drift : D
  pub kp : D
  pub ki : D
  pub last_freq : D
  pub count : ℕ
  pub configured_pi_kp : D
  pub configured_pi_ki : D
  pub configured_pi_kp_scale : D
  pub configured_pi_kp_exponent : D
  pub configured_pi_kp_norm_max : D
  pub configured_pi_ki_scale : D
  pub configured_pi_ki_exponent : D
  pub configured_pi_ki_norm_max : D

module _ {ℓ} {D : Type ℓ} ⦃d : Double D⦄ where
  open d use {literal, of_int, add, sub, mul, div, neg, lt, pow}

  -- the two tests that clamp a frequency
  unfoldable pub clamp_frequency : D → D → D
  clamp_frequency top x = if lt x (neg top) then neg top else if lt top x then top else x

  -- Whether the first two samples are too close together to estimate the frequency.
  unfoldable pub too_early : PiServo D → Bool
  too_early s =
      let diff = div (of_int (pos (sub_u64 s.local_1 s.local_0))) (literal 1_000_000_000 0) in
      let localdiff = add diff (mul diff (literal 1 3)) in
      let interval = div (literal 16 3) s.ki in
      lt localdiff (if lt (literal 1000 0) interval then literal 1000 0 else interval)

  -- The drift by the measured frequency offset.
  unfoldable pub measured_drift : PiServo D → D
  unfolding wrap64
  measured_drift s = add s.drift (
      div (mul (sub (literal 1_000_000_000 0) s.drift) (of_int (wrap64 (s.offset_1 -ℤ s.offset_0))))
        (of_int (pos (sub_u64 s.local_1 s.local_0))))

  unfoldable pub must_jump : Servo D → ℤ → Bool
  unfolding llabs
  must_jump servo offset =
      servo.first_update && exceeds servo.first_step_threshold (of_int (llabs offset))
      || exceeds servo.step_threshold (of_int (llabs offset))

  -- `case 0`
  unfoldable pub first_sample : PiServo D → ℤ → ℕ → D × ServoState × PiServo D
  first_sample s offset local_ts =
      (s.last_freq, unlocked, record s { offset_0 = offset; local_0 = local_ts; count = 1 })

  -- `case 1`
  unfoldable pub second_sample : Servo D → PiServo D → ℤ → ℕ → D × ServoState × PiServo D
  second_sample servo s offset local_ts =
      let s' = record s { offset_1 = offset; local_1 = local_ts } in
      let drift = clamp_frequency servo.max_frequency (measured_drift s') in
      if leb s'.local_1 s'.local_0
      then (s.last_freq, unlocked, record s' { count = 0 })
      else if too_early s'
      then (s.last_freq, unlocked, s')
      else (
        drift,
        (if must_jump servo offset then jump else locked),
        record s' { drift = drift; count = 2 },
      )

  -- `case 2`
  unfoldable pub later_sample : Servo D → PiServo D → ℤ → D → D × ServoState × PiServo D
  unfolding llabs
  later_sample servo s offset weight =
      let ki_term = mul (mul s.ki (of_int offset)) weight in
      let ppb = add (add (mul (mul s.kp (of_int offset)) weight) s.drift) ki_term in
      if exceeds servo.step_threshold (of_int (llabs offset))
      then (s.last_freq, unlocked, record s { count = 0 })
      else if lt ppb (neg servo.max_frequency)
      then (neg servo.max_frequency, locked, s)
      else if lt servo.max_frequency ppb
      then (servo.max_frequency, locked, s)
      else (ppb, locked, record s { drift = add s.drift ki_term })

  -- `state` is what `*state` holds before the call; a count above 2 leaves it.
  unfoldable pub pi_cases :
      Servo D → PiServo D → ℤ → ℕ → D → ServoState → D × ServoState × PiServo D
  pi_cases servo s offset local_ts weight state =
      if s.count == 0
      then first_sample s offset local_ts
      else if s.count == 1
      then second_sample servo s offset local_ts
      else if s.count == 2
      then later_sample servo s offset weight
      else (s.last_freq, state, s)

  -- the result, `*state` and the new structure
  unfoldable pub pi_sample :
      Servo D → PiServo D → ℤ → ℕ → D → ServoState → D × ServoState × PiServo D
  pi_sample servo s offset local_ts weight state =
      let (ppb, state', s') = pi_cases servo s offset local_ts weight state in
      (ppb, state', record s' { last_freq = ppb })

  -- a scaled gain, at most its norm over the interval
  unfoldable pub scaled_gain : D → D → D → D → D
  scaled_gain scale exponent norm_max interval =
      let k = mul scale (pow interval exponent) in
      if lt (div norm_max interval) k then div norm_max interval else k

  unfoldable pub pi_sync_interval : PiServo D → D → PiServo D
  unfolding scaled_gain
  pi_sync_interval s interval = record s {
    kp =
        scaled_gain s.configured_pi_kp_scale s.configured_pi_kp_exponent s.configured_pi_kp_norm_max
          interval;
    ki =
        scaled_gain s.configured_pi_ki_scale s.configured_pi_ki_exponent s.configured_pi_ki_norm_max
          interval;
  }

  unfoldable pub pi_reset : PiServo D → PiServo D
  pi_reset s = record s { count = 0 }

  -- The gains that are used: constants, or the configured scales, or the defaults.
  unfoldable pub choose_gains : ServoConfig D → PiServo D → PiServo D
  choose_gains cfg s =
      if nonzero s.configured_pi_kp && nonzero s.configured_pi_ki
      then record s {
        configured_pi_kp_scale = s.configured_pi_kp;
        configured_pi_ki_scale = s.configured_pi_ki;
        configured_pi_kp_exponent = nought;
        configured_pi_ki_exponent = nought;
        configured_pi_kp_norm_max = literal 1 0;
        configured_pi_ki_norm_max = literal 2 0;
      }
      else if not (nonzero s.configured_pi_kp_scale) || not (nonzero s.configured_pi_ki_scale)
      then (if cfg.sw_ts == 0
          then record s {
            configured_pi_kp_scale = literal 7 1;
            configured_pi_ki_scale = literal 3 1;
          }
          else record s {
            configured_pi_kp_scale = literal 1 1;
            configured_pi_ki_scale = literal 1 3;
          })
      else s

  -- `alloc` says which sizes `calloc` can serve: 232 bytes for the structure.
  unfoldable pub pi_servo_create : (ℕ → Bool) → ServoConfig D → Option (PiServo D)
  unfolding choose_gains
  pi_servo_create alloc cfg =
      if not (alloc 232)
      then none
      else some (
          choose_gains cfg (record {
            offset_0 = pos 0;
            offset_1 = pos 0;
            local_0 = 0;
            local_1 = 0;
            drift = of_int cfg.intial_adj;
            kp = nought;
            ki = nought;
            last_freq = of_int cfg.intial_adj;
            count = 0;
            configured_pi_kp = cfg.kp;
            configured_pi_ki = cfg.ki;
            configured_pi_kp_scale = cfg.kp_scale;
            configured_pi_kp_exponent = cfg.kp_exponent;
            configured_pi_kp_norm_max = cfg.kp_norm_max;
            configured_pi_ki_scale = cfg.ki_scale;
            configured_pi_ki_exponent = cfg.ki_exponent;
            configured_pi_ki_norm_max = cfg.ki_norm_max;
          }))
