-- ===== src/Msg.antt =====
-- msg.c and msg.h: the messages of the monitor, read from the bytes of a buffer. A read out of the
-- buffer is a fault (`none`). A field in network order is read by its most significant byte first,
-- which is what the load of the packed field and its `ntohs`, `ntohl` or `__be64_to_cpu` make of it.
pub mod Encode
pub mod Stamps
pub mod Process
use Prim.Native.Nat.{bit_or}
use external_servo.Prelude.{
  ℕ, zero, suc, ◌+◌, ◌-◌, ◌*◌, ◌/◌, ◌%◌, ◌^◌, Bool, Option, none, some, ◌>>=◌, List, if◌then◌else◌,
  ◌==◌, get_elem?,
}
use external_servo.Prelude.Int.{ℤ, pos, negsuc, ◌+ℤ◌, ◌-ℤ◌}
use external_servo.Prelude.Word.{of_u64, wrap64}
use external_servo.Tmv.{ns_per_sec, Timestamp}

-- `struct slave_rx_sync_timing_record`, in host order
pub record SlaveRxSyncTimingRecord : Type 0 where
  pub sequence_id : ℕ
  pub sync_origin_timestamp : Timestamp
  pub total_correction_field : ℕ
  pub scaled_cumulative_rate_offset : ℕ
  pub sync_event_ingress_timestamp : Timestamp

-- `struct slave_delay_timing_record`, in host order
pub record SlaveDelayTimingRecord : Type 0 where
  pub sequence_id : ℕ
  pub delay_origin_timestamp : Timestamp
  pub total_correction_field : ℕ
  pub delay_response_timestamp : Timestamp

-- what `process_message` writes through its pointers
pub record Received : Type 0 where
  pub tlv_type : ℕ
  pub master_time : ℤ
  pub slave_time : ℤ

abbrev pub signaling : ℕ
signaling = 0xC

abbrev pub tlv_slave_rx_sync_timing_data : ℕ
tlv_slave_rx_sync_timing_data = 0x8004

abbrev pub slave_delay_timing_data_np : ℕ
slave_delay_timing_data_np = 0x7f00

-- `sizeof(struct PortIdentity)`, and of the structures with it
abbrev port_identity_size : ℕ
port_identity_size = 10

abbrev ptp_header_size : ℕ
ptp_header_size = 24 + port_identity_size

-- `suffix` of `struct signaling_msg`
abbrev suffix_at : ℕ
suffix_at = ptp_header_size + port_identity_size

-- `record` of the TLVs, behind the type, the length and a port
abbrev record_at : ℕ
record_at = suffix_at + 4 + port_identity_size

-- `k` bytes from `off` on
pub read_be : List ℕ → ℕ → ℕ → Option ℕ
read_be buffer off zero = some 0
read_be buffer off (suc k) = do
  b ← get_elem? buffer off
  rest ← read_be buffer (off + 1) k
  some (b * 256 ^ k + rest)

pub read_timestamp : List ℕ → ℕ → Option Timestamp
unfolding read_be
read_timestamp buffer off = do
  msb ← read_be buffer off 2
  lsb ← read_be buffer (off + 2) 4
  ns ← read_be buffer (off + 6) 4
  some (record { seconds_msb = msb; seconds_lsb = lsb; nanoseconds = ns })

pub read_sync_record : List ℕ → ℕ → Option SlaveRxSyncTimingRecord
unfolding read_timestamp
read_sync_record buffer off = do
  seq ← read_be buffer off 2
  origin ← read_timestamp buffer (off + 2)
  correction ← read_be buffer (off + 12) 8
  rate ← read_be buffer (off + 20) 4
  ingress ← read_timestamp buffer (off + 24)
  some (record {
    sequence_id = seq;
    sync_origin_timestamp = origin;
    total_correction_field = correction;
    scaled_cumulative_rate_offset = rate;
    sync_event_ingress_timestamp = ingress;
  })

pub read_delay_record : List ℕ → ℕ → Option SlaveDelayTimingRecord
unfolding read_timestamp
read_delay_record buffer off = do
  seq ← read_be buffer off 2
  origin ← read_timestamp buffer (off + 2)
  correction ← read_be buffer (off + 12) 8
  response ← read_timestamp buffer (off + 20)
  some (record {
    sequence_id = seq;
    delay_origin_timestamp = origin;
    total_correction_field = correction;
    delay_response_timestamp = response;
  })

-- The shift is by 16, and of type `int`, so that the seconds have 32 bits.
unfoldable pub timestamp_ntohns : Timestamp → ℕ
timestamp_ntohns ts =
    bit_or ts.seconds_lsb (ts.seconds_msb * 2 ^ 16 % 2 ^ 32) * ns_per_sec + ts.nanoseconds

-- `corr >> 16` of an `int64_t`
unfoldable pub shift_right16 : ℤ → ℤ
shift_right16 (pos n) = pos (n / 2 ^ 16)
shift_right16 (negsuc n) = negsuc (n / 2 ^ 16)

-- t1 and t2
unfoldable pub process_rx_sync_msg : SlaveRxSyncTimingRecord → ℤ × ℤ
process_rx_sync_msg sync =
    let t1 = of_u64 (timestamp_ntohns sync.sync_origin_timestamp) in
    let t2 = of_u64 (timestamp_ntohns sync.sync_event_ingress_timestamp) in
    (wrap64 (t1 +ℤ shift_right16 (of_u64 sync.total_correction_field)), t2)

-- t3 and t4
unfoldable pub process_delay_timing_msg : SlaveDelayTimingRecord → ℤ × ℤ
process_delay_timing_msg delay =
    let t3 = of_u64 (timestamp_ntohns delay.delay_origin_timestamp) in
    let t4 = of_u64 (timestamp_ntohns delay.delay_response_timestamp) in
    (t3, wrap64 (t4 -ℤ shift_right16 (of_u64 delay.total_correction_field)))

-- The record behind a TLV of this type. Both records are looked for in a build with
-- `LINUX_PTP`, as the makefile has it.
pub process_tlv : List ℕ → ℕ → Received → Option Received
process_tlv buffer type m =
    let sync = do
      r ← read_sync_record buffer record_at
      let (t1, t2) = process_rx_sync_msg r
      some (record { tlv_type = type; master_time = t1; slave_time = t2 })
    in let delay = do
      r ← read_delay_record buffer record_at
      let (t3, t4) = process_delay_timing_msg r
      some (record { tlv_type = type; master_time = t4; slave_time = t3 })
      in if type == tlv_slave_rx_sync_timing_data
        then sync
        else if type == slave_delay_timing_data_np
        then delay
        else some (record m { tlv_type = type })

-- The type of the first TLV, and its record, are looked for where the structures have them.
pub process_message : List ℕ → Received → Option Received
process_message buffer m =
    let suffix = do type ← read_be buffer suffix_at 2; process_tlv buffer type m
    in do msmt ← get_elem? buffer 0; if msmt % 16 == signaling then suffix else some m
