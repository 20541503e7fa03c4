-- ===== src/Servo/Dispatch.antt =====
-- servo/servo.c: the servo in front of the three kinds of servo. The pointers to functions that a
-- kind sets at its creation are a case distinction; destroying a servo frees it and is left out.
pub mod Stable
use external_servo.Prelude.{
  ℕ, Bool, true, false, not, ◌&&◌, ◌||◌, Option, none, some, ◌>>=◌, List, [], ◌∷◌, if◌then◌else◌,
}
use external_servo.Prelude.Int.{ℤ, pos, ◌-ℤ◌, ltb_ℤ, eqb_ℤ}
use external_servo.Prelude.Word.{wrap32}
use external_servo.Double.{Double, nought, one}
use external_servo.Config.Types.{ServoConfig}
use external_servo.Servo.Base.{Servo, ServoState, unlocked, jump, locked, locked_stable, llabs}
use external_servo.Servo.Pi.{PiServo, pi_servo_create, pi_sample, pi_sync_interval, pi_reset}
use external_servo.Servo.Linreg.{
  linreg_servo_create, linreg_sample, linreg_sync_interval, linreg_reset, linreg_rate_ratio,
  linreg_leap,
}
use external_servo.Servo.Points.{LinregServo}
use external_servo.Servo.Ntpshm.{
  NtpshmServo, ShmApi, ntpshm_servo_create, ntpshm_sample, ntpshm_sync_interval, ntpshm_reset,
  ntpshm_leap,
}

-- the structure that the common part stands in
pub data Kind {ℓ} (D : Type ℓ) : Type ℓ where
  pi_servo : PiServo D → Kind D
  linear_reg : LinregServo D → Kind D
  ntp_shm : NtpshmServo → Kind D

pub record ServoObject {ℓ} (D : Type ℓ) : Type ℓ where
  pub base : Servo D
  pub kind : Kind D

-- `check_offset_threshold`
unfoldable pub check_offset_threshold {ℓ} : {D : Type ℓ} → Servo D → ℤ → Bool × Servo D
check_offset_threshold s offset =
    let s' =
      if ltb_ℤ (llabs offset) s.offset_threshold && not (eqb_ℤ s.curr_offset_values (pos 0))
      then record s { curr_offset_values = s.curr_offset_values -ℤ pos 1 }
      else s in
    if eqb_ℤ s.offset_threshold (pos 0)
    then (false, s)
    else (eqb_ℤ s'.curr_offset_values (pos 0), s')

-- The `switch` of `servo_sample`: the state that is reported, for the one that the kind reports.
unfoldable pub settle {ℓ} : {D : Type ℓ} → Servo D → ℤ → ServoState → ServoState × Servo D
settle s offset unlocked = (unlocked, record s { curr_offset_values = s.num_offset_values })
settle s offset jump =
    (jump, record s { curr_offset_values = s.num_offset_values; first_update = false })
settle s offset locked =
    let (stable, s') = check_offset_threshold s offset in
    ((if stable then locked_stable else locked), record s' { first_update = false })
settle s offset locked_stable = (locked_stable, s)

module _ {ℓ} {D : Type ℓ} ⦃d : Double D⦄ where
  open d use {of_int, to_int64, mul, lt}

  -- `servo->sample`
  unfoldable pub sample_kind :
      Servo D → Kind D → ℤ → ℕ → D → ServoState → Option (D × ServoState × Kind D)
  sample_kind servo (pi_servo s) offset local_ts weight state =
      let (ppb, state', s') = pi_sample servo s offset local_ts weight state in
      some (ppb, state', pi_servo s')
  sample_kind servo (linear_reg s) offset local_ts weight state = do
    (ppb, state', s') ← linreg_sample servo s offset local_ts weight
    some (ppb, state', linear_reg s')
  sample_kind servo (ntp_shm s) offset local_ts weight state =
      let (ppb, state', s') = ntpshm_sample s offset local_ts in some (ppb, state', ntp_shm s')

  unfoldable pub servo_sample :
      ServoObject D → ℤ → ℕ → D → ServoState → Option (D × ServoState × ServoObject D)
  servo_sample servo offset local_ts weight state = do
    (r, state', kind) ← sample_kind servo.base servo.kind offset local_ts weight state
    let (state'', base) = settle servo.base offset state'
    some (r, state'', record { base = base; kind = kind })

  -- a threshold in seconds as nanoseconds; one that is not positive is none
  unfoldable pub threshold_ns : D → D
  threshold_ns seconds =
      if lt nought seconds then mul seconds (of_int (pos 1_000_000_000)) else nought

  -- (`to_int64` stands for the conversion to `int`, which is defined for values in its range.)
  unfoldable pub common_part : ServoConfig D → Servo D
  unfolding threshold_ns
  common_part cfg =
      let whole = to_int64 cfg.max_frequency in
      record {
        max_frequency =
            if not (eqb_ℤ whole (pos 0)) && lt (of_int whole) cfg.max_frequency
            then of_int whole
            else cfg.max_frequency;
        step_threshold = threshold_ns cfg.step_threshold;
        first_step_threshold = threshold_ns cfg.first_step_threshold;
        first_update = true;
        offset_threshold = cfg.offset_threshold;
        num_offset_values = cfg.num_offset_values;
        curr_offset_values = cfg.num_offset_values;
      }

  unfoldable pub create_kind : (ℕ → Bool) → ShmApi → ServoConfig D → Option (Kind D)
  create_kind alloc api cfg =
      let pi = do s ← pi_servo_create alloc cfg; some (pi_servo s)
      in let linreg = do s ← linreg_servo_create alloc cfg; some (linear_reg s)
        in let ntpshm = do s ← ntpshm_servo_create alloc api cfg; some (ntp_shm s)
          in if eqb_ℤ cfg.type (pos 0)
            then pi
            else if eqb_ℤ cfg.type (pos 1)
            then linreg
            else if eqb_ℤ cfg.type (pos 2)
            then ntpshm
            else none

  unfoldable pub servo_create : (ℕ → Bool) → ShmApi → ServoConfig D → Option (ServoObject D)
  servo_create alloc api cfg = do
    kind ← create_kind alloc api cfg
    some (record { base = common_part cfg; kind = kind })

  unfoldable pub servo_sync_interval : ServoObject D → D → ServoObject D
  servo_sync_interval servo interval = elim servo.kind [
    | pi_servo s ↦ record servo { kind = pi_servo (pi_sync_interval s interval) }
    | linear_reg s ↦ record servo { kind = linear_reg (linreg_sync_interval s interval) }
    | ntp_shm s ↦ record servo { kind = ntp_shm (ntpshm_sync_interval s interval) }
  ]

  unfoldable pub servo_reset : ServoObject D → ServoObject D
  servo_reset servo = elim servo.kind [
    | pi_servo s ↦ record servo { kind = pi_servo (pi_reset s) }
    | linear_reg s ↦ record servo { kind = linear_reg (linreg_reset s) }
    | ntp_shm s ↦ record servo { kind = ntp_shm (ntpshm_reset s) }
  ]

  -- Only the regression has a rate ratio.
  unfoldable pub servo_rate_ratio : ServoObject D → D
  servo_rate_ratio servo = elim servo.kind [
    | pi_servo s ↦ one
    | linear_reg s ↦ linreg_rate_ratio s
    | ntp_shm s ↦ one
  ]

  unfoldable pub servo_leap : ServoObject D → ℤ → ServoObject D
  servo_leap servo leap = elim servo.kind [
    | pi_servo s ↦ servo
    | linear_reg s ↦ record servo { kind = linear_reg (linreg_leap s leap) }
    | ntp_shm s ↦ record servo { kind = ntp_shm (ntpshm_leap s leap) }
  ]

  -- (converted to `int`)
  unfoldable pub servo_offset_threshold : ServoObject D → ℤ
  servo_offset_threshold servo = wrap32 servo.base.offset_threshold
