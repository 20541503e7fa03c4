-- ===== src/Tests/Times.antt =====
-- The conversions of times at concrete inputs.
use external_servo.Prelude.{◌≡◌, arith, ◌↔◌}
use external_servo.Prelude.Int.{pos, negsuc, ◌+ℤ◌, ◌-ℤ◌, ◌≤ℤ◌, clamp_ℤ}
use external_servo.Tmv.{
  tmv_add, tmv_sub, tmv_cmp, timespec_to_tmv, tmv_to_timespec, correction_to_tmv,
  tmv_to_time_interval, tmv_to_timestamp, timestamp_to_tmv, min_tmv_to_time_interval,
  max_tmv_to_time_interval,
}
use external_servo.Tmv.Laws.{tmv_add_exact, tmv_sub_exact, tmv_cmp-le}
use external_servo.Tmv.Convert.{
  timespec_to_tmv-tmv_to_timespec, correction_to_tmv-tmv_to_time_interval,
  timestamp_to_tmv-tmv_to_timestamp, seconds,
}

tmv_add_exact_example : tmv_add (pos 5) (negsuc 7) ≡ pos 5 +ℤ negsuc 7
unfolding ◌+ℤ◌
tmv_add_exact_example = tmv_add_exact (pos 5) (negsuc 7) (omega arith, omega arith)

tmv_sub_exact_example : tmv_sub (pos 5) (negsuc 7) ≡ pos 5 -ℤ negsuc 7
unfolding ◌-ℤ◌
tmv_sub_exact_example = tmv_sub_exact (pos 5) (negsuc 7) (omega arith, omega arith)

tmv_cmp-le_example : (tmv_cmp (negsuc 3) (pos 4) ≤ℤ pos 0) ↔ (negsuc 3 ≤ℤ pos 4)
tmv_cmp-le_example = tmv_cmp-le (negsuc 3) (pos 4)

timespec_to_tmv-tmv_to_timespec_example :
    timespec_to_tmv (tmv_to_timespec (negsuc 1_500_000_000)) ≡ negsuc 1_500_000_000
timespec_to_tmv-tmv_to_timespec_example =
    timespec_to_tmv-tmv_to_timespec (negsuc 1_500_000_000) (omega arith, omega arith)

correction_to_tmv-tmv_to_time_interval_example :
    correction_to_tmv (tmv_to_time_interval (negsuc 140_737_488_355_400))
    ≡ clamp_ℤ min_tmv_to_time_interval max_tmv_to_time_interval (negsuc 140_737_488_355_400)
correction_to_tmv-tmv_to_time_interval_example =
    correction_to_tmv-tmv_to_time_interval (negsuc 140_737_488_355_400)

timestamp_to_tmv-tmv_to_timestamp_example :
    let ts = tmv_to_timestamp (pos 5_000_000_000_000_000_123) in
    timestamp_to_tmv (record { sec = seconds ts; nsec = ts.nanoseconds })
    ≡ pos 5_000_000_000_000_000_123
timestamp_to_tmv-tmv_to_timestamp_example =
    timestamp_to_tmv-tmv_to_timestamp (pos 5_000_000_000_000_000_123) (omega arith, omega arith)
      (omega arith)
