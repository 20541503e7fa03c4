-- ===== src/Tmv/Convert.antt =====
-- tmv.h: round trips of the conversions.
use external_servo.Prelude.{ℕ, ◌+◌, ◌*◌, ◌^◌, ◌≡◌, arith}
use external_servo.Prelude.Int.{pos, negsuc, ◌+ℤ◌, ◌*ℤ◌, ◌/ℤ◌, ◌%ℤ◌, ◌≤ℤ◌, clamp_ℤ}
use external_servo.Prelude.Word.{IsInt64, wrap64_of_IsInt64}
use external_servo.Tmv.{
  Tmv, ns_per_sec, Timestamp, tmv_to_timespec, timespec_to_tmv, tmv_to_timestamp, timestamp_to_tmv,
  tmv_to_time_interval, correction_to_tmv, min_tmv_to_time_interval, max_tmv_to_time_interval,
}

timespec_value : (t : Tmv) → (t /ℤ pos ns_per_sec) *ℤ pos ns_per_sec +ℤ t %ℤ pos ns_per_sec ≡ t
unfolding ◌/ℤ◌ ◌%ℤ◌ ◌*ℤ◌ ◌+ℤ◌
timespec_value (pos n) = ground arith
timespec_value (negsuc n) = ground arith

-- Every time survives the way to a `timespec` and back.
pub timespec_to_tmv-tmv_to_timespec :
    (t : Tmv) → IsInt64 t → timespec_to_tmv (tmv_to_timespec t) ≡ t
unfolding timespec_to_tmv tmv_to_timespec
timespec_to_tmv-tmv_to_timespec t h = rw (timespec_value t) (wrap64_of_IsInt64 t h)

-- A correction survives the way to a time interval and back, clamped to 48 bits.
pub correction_to_tmv-tmv_to_time_interval :
    (x : Tmv)
    → correction_to_tmv (tmv_to_time_interval x)
      ≡ clamp_ℤ min_tmv_to_time_interval max_tmv_to_time_interval x
unfolding tmv_to_time_interval correction_to_tmv
correction_to_tmv-tmv_to_time_interval (pos n) = ground arith
correction_to_tmv-tmv_to_time_interval (negsuc n) = ground arith

-- The seconds that the two fields of a `struct Timestamp` hold.
abbrev pub seconds : Timestamp → ℕ
seconds ts = ts.seconds_msb * 2 ^ 32 + ts.seconds_lsb

-- A time that is not negative survives the way to a `struct Timestamp` and back.
pub timestamp_to_tmv-tmv_to_timestamp :
    (x : Tmv)
    → IsInt64 x
    → pos 0 ≤ℤ x
    → let ts = tmv_to_timestamp x in
      timestamp_to_tmv (record { sec = seconds ts; nsec = ts.nanoseconds }) ≡ x
unfolding tmv_to_timestamp timestamp_to_tmv
timestamp_to_tmv-tmv_to_timestamp (pos n) h k = ground arith
timestamp_to_tmv-tmv_to_timestamp (negsuc n) h k = absurd (omega arith)
