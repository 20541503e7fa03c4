-- ===== src/Msg/Process.antt =====
-- `process_message` as a parser of the monitor's messages: the times of the record of a signalling
-- message, and that no message is read outside its bytes.
use external_servo.Prelude.{
  ℕ, zero, suc, ◌+◌, ◌/◌, ◌%◌, ◌^◌, ◌≤◌, ◌<◌, ◌≡◌, refl, ap, some, List, ◌∷◌, ◌++◌, length,
  length-append, Holds, yields, Holds-bind, Holds-if, Holds-weaken, read_in, ◌==◌, arith,
}
use mathlib.Core.List.{append_assoc}
use mathlib.Core.Path.{subst}
use external_servo.Prelude.Int.{pos, ◌-ℤ◌}
use external_servo.Tmv.{Timestamp}
use external_servo.Msg.Stamps.{
  stamp_ns, IsEarly, process_rx_sync_msg_lem, process_delay_timing_msg_lem,
}
use external_servo.Msg.{
  SlaveRxSyncTimingRecord, SlaveDelayTimingRecord, Received, signaling,
  tlv_slave_rx_sync_timing_data, slave_delay_timing_data_np, read_be, read_timestamp,
  read_sync_record, read_delay_record, process_tlv, process_message,
}
use external_servo.Msg.Encode.{
  IsStamp, bytes, At, At-from, read_be-At, sync_bytes, delay_bytes, IsSync, IsDelay,
  read_sync_record-At, read_delay_record-At,
}

-- A message: the first byte, the rest of the header and the target's port, the type of the TLV, its
-- length and its source's port, and the record.
abbrev pub message : ℕ → List ℕ → ℕ → List ℕ → List ℕ → List ℕ
message first head type port body = first ∷ (head ++ (bytes 2 type ++ (port ++ body)))

message-type :
    (first : ℕ) (head : List ℕ) (type : ℕ) (port body : List ℕ)
    → length head ≡ 43
    → type < 2 ^ 16
    → read_be (message first head type port body) 44 2 ≡ some type
message-type first head type port body h t =
    read_be-At (message first head type port body) 44 2 type t
      (At-from (first ∷ head) (bytes 2 type) (port ++ body) 44 (omega arith))

message-record :
    (first : ℕ) (head : List ℕ) (type : ℕ) (port body rest : List ℕ)
    → length head ≡ 43
    → length port ≡ 12
    → At (message first head type port (body ++ rest)) 58 body
message-record first head type port body rest h p =
    let before : List ℕ = first ∷ (head ++ (bytes 2 type ++ port)) in
    let grouped : before ++ (body ++ rest) ≡ message first head type port (body ++ rest) =
      ap (◌∷◌ first) (append_assoc head (bytes 2 type ++ port) (body ++ rest)) in
    subst (λ z. At z 58 body) grouped
      (At-from before body rest 58 (omega (arith, length-append head (bytes 2 type ++ port))))

-- The fields have the widths of the structure, with times before 2106 and a correction that is not
-- negative.
abbrev pub IsEarlySync : SlaveRxSyncTimingRecord → Type 0
IsEarlySync r =
    r.sequence_id < 2 ^ 16
    × IsEarly r.sync_origin_timestamp
    × r.total_correction_field < 2 ^ 63
    × r.scaled_cumulative_rate_offset < 2 ^ 32
    × IsEarly r.sync_event_ingress_timestamp

abbrev pub IsEarlyDelay : SlaveDelayTimingRecord → Type 0
IsEarlyDelay r =
    r.sequence_id < 2 ^ 16
    × IsEarly r.delay_origin_timestamp
    × r.total_correction_field < 2 ^ 63
    × IsEarly r.delay_response_timestamp

IsEarly-IsStamp : (ts : Timestamp) → IsEarly ts → IsStamp ts
IsEarly-IsStamp ts (m, l, n) = (omega arith, l, n)

-- A signalling message with the record of a received Sync, whose seconds fit 32 bits and whose
-- correction is not negative, yields its times in nanoseconds: the master time with the correction
-- added, and the slave time.
pub process_message-sync :
    (first : ℕ) (head port rest : List ℕ) (r : SlaveRxSyncTimingRecord) (m : Received)
    → first % 16 ≡ signaling
    → length head ≡ 43
    → length port ≡ 12
    → IsEarlySync r
    → process_message
        (message first head tlv_slave_rx_sync_timing_data port (sync_bytes r ++ rest))
        m
      ≡ some (record {
        tlv_type = tlv_slave_rx_sync_timing_data;
        master_time = pos (stamp_ns r.sync_origin_timestamp + r.total_correction_field / 2 ^ 16);
        slave_time = pos (stamp_ns r.sync_event_ingress_timestamp);
      })
unfolding process_message process_tlv
process_message-sync first head port rest r m f h p (s, o, c, q, i) =
    let buffer : List ℕ =
      message first head tlv_slave_rx_sync_timing_data port (sync_bytes r ++ rest) in
    let fits : IsSync r = (
      s,
      IsEarly-IsStamp r.sync_origin_timestamp o,
      omega arith,
      q,
      IsEarly-IsStamp r.sync_event_ingress_timestamp i,
    ) in
    rw (
      f,
      message-type first head tlv_slave_rx_sync_timing_data port (sync_bytes r ++ rest) h
          (omega arith),
      read_sync_record-At buffer 58 r fits
          (message-record first head tlv_slave_rx_sync_timing_data port (sync_bytes r) rest h p),
      process_rx_sync_msg_lem r o i c,
    )

-- A signalling message with the record of a delay measurement, whose seconds fit 32 bits and whose
-- correction is not negative, yields its times in nanoseconds: the slave time, and the master time
-- with the correction subtracted.
pub process_message-delay :
    (first : ℕ) (head port rest : List ℕ) (r : SlaveDelayTimingRecord) (m : Received)
    → first % 16 ≡ signaling
    → length head ≡ 43
    → length port ≡ 12
    → IsEarlyDelay r
    → process_message (message first head slave_delay_timing_data_np port (delay_bytes r ++ rest)) m
      ≡ some (record {
        tlv_type = slave_delay_timing_data_np;
        master_time =
            pos (stamp_ns r.delay_response_timestamp) -ℤ pos (r.total_correction_field / 2 ^ 16);
        slave_time = pos (stamp_ns r.delay_origin_timestamp);
      })
unfolding process_message process_tlv
process_message-delay first head port rest r m f h p (s, o, c, e) =
    let buffer : List ℕ =
      message first head slave_delay_timing_data_np port (delay_bytes r ++ rest) in
    let fits : IsDelay r = (
      s,
      IsEarly-IsStamp r.delay_origin_timestamp o,
      omega arith,
      IsEarly-IsStamp r.delay_response_timestamp e,
    ) in
    rw (
      f,
      message-type first head slave_delay_timing_data_np port (delay_bytes r ++ rest) h
          (omega arith),
      read_delay_record-At buffer 58 r fits
          (message-record first head slave_delay_timing_data_np port (delay_bytes r) rest h p),
      process_delay_timing_msg_lem r o e c,
    )

-- reads inside the buffer
read_be_in :
    (buffer : List ℕ) (off k : ℕ)
    → off + k ≤ length buffer
    → Holds (λ v. Unit {0}) (read_be buffer off k)
unfolding read_be
read_be_in buffer off zero h = yields tt
read_be_in buffer off (suc k) h =
    Holds-bind (read_in buffer off (omega arith))
      (λ b e. Holds-bind (read_be_in buffer (off + 1) k (omega arith)) (λ rest u. yields tt))

read_timestamp_in :
    (buffer : List ℕ) (off : ℕ)
    → off + 10 ≤ length buffer
    → Holds (λ v. Unit {0}) (read_timestamp buffer off)
unfolding read_timestamp
read_timestamp_in buffer off h = Holds-bind (read_be_in buffer off 2 (omega arith)) (λ a u.
    Holds-bind (read_be_in buffer (off + 2) 4 (omega arith))
      (λ b v. Holds-bind (read_be_in buffer (off + 6) 4 (omega arith)) (λ c w. yields tt)))

read_sync_record_in :
    (buffer : List ℕ) (off : ℕ)
    → off + 34 ≤ length buffer
    → Holds (λ v. Unit {0}) (read_sync_record buffer off)
unfolding read_sync_record
read_sync_record_in buffer off h = Holds-bind (read_be_in buffer off 2 (omega arith)) (λ a u.
    Holds-bind (read_timestamp_in buffer (off + 2) (omega arith)) (λ b v.
      Holds-bind (read_be_in buffer (off + 12) 8 (omega arith)) (λ c w.
        Holds-bind (read_be_in buffer (off + 20) 4 (omega arith)) (λ d x.
          Holds-bind (read_timestamp_in buffer (off + 24) (omega arith)) (λ e y. yields tt)))))

read_delay_record_in :
    (buffer : List ℕ) (off : ℕ)
    → off + 30 ≤ length buffer
    → Holds (λ v. Unit {0}) (read_delay_record buffer off)
unfolding read_delay_record
read_delay_record_in buffer off h = Holds-bind (read_be_in buffer off 2 (omega arith)) (λ a u.
    Holds-bind (read_timestamp_in buffer (off + 2) (omega arith)) (λ b v.
      Holds-bind (read_be_in buffer (off + 12) 8 (omega arith))
        (λ c w. Holds-bind (read_timestamp_in buffer (off + 20) (omega arith)) (λ e y. yields tt))))

process_tlv_in :
    (buffer : List ℕ) (type : ℕ) (m : Received)
    → 92 ≤ length buffer
    → Holds (λ r. r.tlv_type ≡ type) (process_tlv buffer type m)
unfolding process_tlv
process_tlv_in buffer type m h =
    Holds-if (type == tlv_slave_rx_sync_timing_data)
      (Holds-bind (read_sync_record_in buffer 58 (omega arith)) (λ r u. yields refl))
      (Holds-if (type == slave_delay_timing_data_np)
        (Holds-bind (read_delay_record_in buffer 58 (omega arith)) (λ r u. yields refl))
        (yields refl))

-- In a buffer of at least 92 bytes no message, of whatever bytes, is read outside of the buffer.
pub process_message-safe :
    (buffer : List ℕ) (m : Received)
    → 92 ≤ length buffer
    → Holds (λ r. Unit {0}) (process_message buffer m)
unfolding process_message
process_message-safe buffer m h = Holds-bind (read_in buffer 0 (omega arith)) (λ b e.
    Holds-if (b % 16 == signaling)
      (Holds-bind (read_be_in buffer 44 2 (omega arith))
        (λ type u. Holds-weaken (process_tlv_in buffer type m h) (λ r k. tt)))
      (yields tt))
