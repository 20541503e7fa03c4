-- ===== src/Msg/Stamps.antt =====
-- The times that the monitor's records stand for, when their seconds fit the low word: what
-- `timestamp_ntohns`, `process_rx_sync_msg` and `process_delay_timing_msg` make of them.
use Prim.Native.Nat.{bit_or, bit_or-bitwise, digits, max}
use external_servo.Prelude.{
  ℕ, zero, suc, ◌+◌, ◌*◌, ◌/◌, ◌^◌, ◌≤◌, ◌<◌, ◌≡◌, refl, ◌∙◌, lt→ltb, arith,
}
use external_servo.Prelude.Int.{pos, ◌+ℤ◌, ◌-ℤ◌}
use external_servo.Prelude.Word.{of_u64, wrap64_of_IsInt64}
use external_servo.Tmv.{Timestamp}
use external_servo.Msg.{
  SlaveRxSyncTimingRecord, SlaveDelayTimingRecord, timestamp_ntohns, shift_right16,
  process_rx_sync_msg, process_delay_timing_msg,
}

or_digits-zero : (n a : ℕ) → a ≤ n → digits (λ b. b) max n a 0 ≡ a
or_digits-zero zero zero h = refl
or_digits-zero zero (suc a) h = absurd (omega arith)
or_digits-zero (suc n) zero h = refl
or_digits-zero (suc n) (suc a) h = omega (arith, or_digits-zero n (suc a / 2) (omega arith))

bit_or-zero : (a : ℕ) → bit_or a 0 ≡ a
bit_or-zero a = bit_or-bitwise a 0 ∙ or_digits-zero a a (omega arith)

-- the nanoseconds since the epoch
abbrev pub stamp_ns : Timestamp → ℕ
stamp_ns ts = (ts.seconds_msb * 2 ^ 32 + ts.seconds_lsb) * 1000000000 + ts.nanoseconds

-- the widths of the fields, and a time before the year 2106
abbrev pub IsEarly : Timestamp → Type 0
IsEarly ts = (ts.seconds_msb ≡ 0) × (ts.seconds_lsb < 2 ^ 32) × (ts.nanoseconds < 2 ^ 32)

pub timestamp_ntohns_lem : (ts : Timestamp) → IsEarly ts → timestamp_ntohns ts ≡ stamp_ns ts
unfolding timestamp_ntohns
timestamp_ntohns_lem ts (m, l, n) = rw (m, bit_or-zero ts.seconds_lsb) (omega arith)

early_of_u64 : (ts : Timestamp) → IsEarly ts → of_u64 (timestamp_ntohns ts) ≡ pos (stamp_ns ts)
unfolding of_u64
early_of_u64 ts (m, l, n) =
    rw (timestamp_ntohns_lem ts (m, l, n), lt→ltb (stamp_ns ts) (2 ^ 63) (omega arith))

shift_right16-of_u64 : (c : ℕ) → c < 2 ^ 63 → shift_right16 (of_u64 c) ≡ pos (c / 2 ^ 16)
unfolding of_u64 shift_right16
shift_right16-of_u64 c h = rw (lt→ltb c (2 ^ 63) h)

pos-+ℤ : (a b : ℕ) → pos a +ℤ pos b ≡ pos (a + b)
unfolding ◌+ℤ◌
pos-+ℤ a b = ground arith

pub process_rx_sync_msg_lem :
    (r : SlaveRxSyncTimingRecord)
    → IsEarly r.sync_origin_timestamp
    → IsEarly r.sync_event_ingress_timestamp
    → r.total_correction_field < 2 ^ 63
    → process_rx_sync_msg r ≡ (
      pos (stamp_ns r.sync_origin_timestamp + r.total_correction_field / 2 ^ 16),
      pos (stamp_ns r.sync_event_ingress_timestamp),
    )
unfolding process_rx_sync_msg ◌+ℤ◌
process_rx_sync_msg_lem r (m, l, n) e c = rw (
  early_of_u64 r.sync_origin_timestamp (m, l, n),
  early_of_u64 r.sync_event_ingress_timestamp e,
  shift_right16-of_u64 r.total_correction_field c,
  wrap64_of_IsInt64
      (pos (stamp_ns r.sync_origin_timestamp) +ℤ pos (r.total_correction_field / 2 ^ 16))
      (ground arith),
  pos-+ℤ (stamp_ns r.sync_origin_timestamp) (r.total_correction_field / 2 ^ 16),
)

pub process_delay_timing_msg_lem :
    (r : SlaveDelayTimingRecord)
    → IsEarly r.delay_origin_timestamp
    → IsEarly r.delay_response_timestamp
    → r.total_correction_field < 2 ^ 63
    → process_delay_timing_msg r ≡ (
      pos (stamp_ns r.delay_origin_timestamp),
      pos (stamp_ns r.delay_response_timestamp) -ℤ pos (r.total_correction_field / 2 ^ 16),
    )
unfolding process_delay_timing_msg ◌-ℤ◌
process_delay_timing_msg_lem r e (m, l, n) c = rw (
  early_of_u64 r.delay_origin_timestamp e,
  early_of_u64 r.delay_response_timestamp (m, l, n),
  shift_right16-of_u64 r.total_correction_field c,
  wrap64_of_IsInt64
      (pos (stamp_ns r.delay_response_timestamp) -ℤ pos (r.total_correction_field / 2 ^ 16))
      (ground arith),
)
