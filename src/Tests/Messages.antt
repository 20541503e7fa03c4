-- ===== src/Tests/Messages.antt =====
-- The messages of the monitor at concrete inputs.
use external_servo.Prelude.{
  ℕ, ◌+◌, ◌*◌, ◌/◌, ◌^◌, ◌≡◌, refl, some, [], ◌∷◌, ◌++◌, replicate, Holds, arith,
}
use external_servo.Prelude.Int.{pos, ◌-ℤ◌}
use external_servo.Tmv.{Timestamp}
use external_servo.Msg.{
  SlaveRxSyncTimingRecord, SlaveDelayTimingRecord, Received, tlv_slave_rx_sync_timing_data,
  slave_delay_timing_data_np, process_message,
}
use external_servo.Msg.Encode.{sync_bytes, delay_bytes}
use external_servo.Msg.Stamps.{stamp_ns}
use external_servo.Msg.Process.{
  message, process_message-sync, process_message-delay, process_message-safe,
}

abbrev pub stamp : ℕ → ℕ → Timestamp
stamp s n = record { seconds_msb = 0; seconds_lsb = s; nanoseconds = n }

abbrev pub sync : SlaveRxSyncTimingRecord
sync = record {
  sequence_id = 7;
  sync_origin_timestamp = stamp 1_650_000_000 250;
  total_correction_field = 3 * 65536;
  scaled_cumulative_rate_offset = 0;
  sync_event_ingress_timestamp = stamp 1_650_000_000 1250;
}

abbrev pub delay : SlaveDelayTimingRecord
delay = record {
  sequence_id = 8;
  delay_origin_timestamp = stamp 1_650_000_000 5000;
  total_correction_field = 2 * 65536;
  delay_response_timestamp = stamp 1_650_000_000 5900;
}

abbrev pub nothing : Received
nothing = record { tlv_type = 0; master_time = pos 0; slave_time = pos 0 }

process_message-sync_example :
    process_message
      (message 12
        (replicate 43 0)
        tlv_slave_rx_sync_timing_data
        (replicate 12 0)
        (sync_bytes sync ++ []))
      nothing
    ≡ some (record {
      tlv_type = tlv_slave_rx_sync_timing_data;
      master_time =
          pos (stamp_ns sync.sync_origin_timestamp + sync.total_correction_field / 2 ^ 16);
      slave_time = pos (stamp_ns sync.sync_event_ingress_timestamp);
    })
process_message-sync_example =
    process_message-sync 12 (replicate 43 0) (replicate 12 0) [] sync nothing refl refl refl (
      omega arith,
      (refl, omega arith, omega arith),
      omega arith,
      omega arith,
      (refl, omega arith, omega arith),
    )

process_message-delay_example :
    process_message
      (message 12
        (replicate 43 0)
        slave_delay_timing_data_np
        (replicate 12 0)
        (delay_bytes delay ++ []))
      nothing
    ≡ some (record {
      tlv_type = slave_delay_timing_data_np;
      master_time =
          pos (stamp_ns delay.delay_response_timestamp)
          -ℤ pos (delay.total_correction_field / 2 ^ 16);
      slave_time = pos (stamp_ns delay.delay_origin_timestamp);
    })
process_message-delay_example =
    process_message-delay 12 (replicate 43 0) (replicate 12 0) [] delay nothing refl refl refl
      (omega arith, (refl, omega arith, omega arith), omega arith, (refl, omega arith, omega arith))

process_message-safe_example : Holds (λ r. Unit {0}) (process_message (12 ∷ replicate 99 1) nothing)
process_message-safe_example = process_message-safe (12 ∷ replicate 99 1) nothing (omega arith)
