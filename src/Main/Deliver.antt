-- ===== src/Main/Deliver.antt =====
-- main.c and msg.c together: the bytes of a datagram come to `clock_update` and `path_delay` as the
-- times of its record, whatever an earlier message left in the buffer.
use external_servo.Prelude.{
  ℕ, ◌+◌, ◌/◌, ◌%◌, ◌^◌, ◌≤◌, ◌≡◌, ap, ◌∙◌, true, false, some, ◌>>=◌, List, [], ◌∷◌, ◌++◌, length,
  drop, take-length, Option-cases, inl, inr, arith, ◌==◌,
}
use mathlib.Core.List.{append_assoc}
use external_servo.Prelude.Int.{pos, ◌-ℤ◌}
use external_servo.Double.{Double}
use external_servo.Msg.{
  SlaveRxSyncTimingRecord, SlaveDelayTimingRecord, Received, signaling,
  tlv_slave_rx_sync_timing_data, slave_delay_timing_data_np, process_message,
}
use external_servo.Msg.Encode.{bytes, sync_bytes, delay_bytes}
use external_servo.Msg.Stamps.{stamp_ns}
use external_servo.Msg.Process.{
  message, IsEarlySync, IsEarlyDelay, process_message-sync, process_message-delay,
}
use external_servo.Main.{
  Program, datagram, clock_update, path_delay, dispatched, handled, stored, round,
}

message-append :
    (first : ℕ) (head : List ℕ) (type : ℕ) (port body rest : List ℕ)
    → message first head type port body ++ rest ≡ message first head type port (body ++ rest)
message-append first head type port body rest = ap (◌∷◌ first) (
    append_assoc head (bytes 2 type ++ (port ++ body)) rest
    ∙ ap (λ z. head ++ (bytes 2 type ++ z)) (append_assoc port body rest))

-- a datagram that fits stands in front of what is left of the buffer
stored-fits :
    (bs buffer : List ℕ)
    → length bs ≤ length buffer
    → stored bs buffer ≡ bs ++ drop (length bs) buffer
stored-fits bs buffer h = ap (λ z. z ++ drop (length bs) buffer) (take-length bs (length buffer) h)

abbrev pub sync_message : ℕ → List ℕ → List ℕ → SlaveRxSyncTimingRecord → List ℕ
sync_message first head port r =
    message first head tlv_slave_rx_sync_timing_data port (sync_bytes r)

abbrev pub delay_message : ℕ → List ℕ → List ℕ → SlaveDelayTimingRecord → List ℕ
delay_message first head port r = message first head slave_delay_timing_data_np port (delay_bytes r)

-- the times that `process_message` passes on
abbrev pub sync_received : SlaveRxSyncTimingRecord → Received
sync_received r = record {
  tlv_type = tlv_slave_rx_sync_timing_data;
  master_time = pos (stamp_ns r.sync_origin_timestamp + r.total_correction_field / 2 ^ 16);
  slave_time = pos (stamp_ns r.sync_event_ingress_timestamp);
}

abbrev pub delay_received : SlaveDelayTimingRecord → Received
delay_received r = record {
  tlv_type = slave_delay_timing_data_np;
  master_time =
      pos (stamp_ns r.delay_response_timestamp) -ℤ pos (r.total_correction_field / 2 ^ 16);
  slave_time = pos (stamp_ns r.delay_origin_timestamp);
}

module _ {ℓ} {D : Type ℓ} ⦃d : Double D⦄ where
  -- the state with a message
  abbrev pub with_message : Program D → List ℕ → Received → Program D
  with_message p bs m = record p { buffer = stored bs p.buffer; received = m }

  round-sync :
      (p : Program D) (first : ℕ) (head port : List ℕ) (r : SlaveRxSyncTimingRecord)
      → first % 16 ≡ signaling
      → length head ≡ 43
      → length port ≡ 12
      → IsEarlySync r
      → length (sync_message first head port r) ≤ length p.buffer
      → let m = sync_received r in
        round p (datagram (sync_message first head port r)) ≡ (
          clock_update p.device_config p.tsp p.servo m.master_time m.slave_time
          >>= (λ (acts, tsp, servo). some (
            true,
            acts,
            record (with_message p (sync_message first head port r) m) { tsp = tsp; servo = servo },
          )))
  unfolding round handled dispatched
  round-sync p first head port r f h l early fits =
      let bs = sync_message first head port r in
      let left = drop (length bs) p.buffer in
      let placed : stored bs p.buffer
          ≡ message first head tlv_slave_rx_sync_timing_data port (sync_bytes r ++ left) =
        stored-fits bs p.buffer fits
        ∙ message-append first head tlv_slave_rx_sync_timing_data port (sync_bytes r) left in
      let parsed : process_message (stored bs p.buffer) p.received ≡ some (sync_received r) =
        ap (λ z. process_message z p.received) placed
        ∙ process_message-sync first head port left r p.received f h l early in
      let filled : (length bs == 0) ≡ false = ground arith in
      let m = sync_received r in
      elim (Option-cases (clock_update p.device_config p.tsp p.servo m.master_time m.slave_time)) [
        | inl e ↦ rw (filled, parsed, e)
        | inr (next, e) ↦ rw (filled, parsed, e)
      ]

  round-delay :
      (p : Program D) (first : ℕ) (head port : List ℕ) (r : SlaveDelayTimingRecord)
      → first % 16 ≡ signaling
      → length head ≡ 43
      → length port ≡ 12
      → IsEarlyDelay r
      → length (delay_message first head port r) ≤ length p.buffer
      → let m = delay_received r in
        round p (datagram (delay_message first head port r)) ≡ (
          path_delay p.tsp m.slave_time m.master_time >>= (λ tsp.
            some (
              true,
              [],
              record (with_message p (delay_message first head port r) m) { tsp = tsp },
            )))
  unfolding round handled dispatched
  round-delay p first head port r f h l early fits =
      let bs = delay_message first head port r in
      let left = drop (length bs) p.buffer in
      let placed : stored bs p.buffer
          ≡ message first head slave_delay_timing_data_np port (delay_bytes r ++ left) =
        stored-fits bs p.buffer fits
        ∙ message-append first head slave_delay_timing_data_np port (delay_bytes r) left in
      let parsed : process_message (stored bs p.buffer) p.received ≡ some (delay_received r) =
        ap (λ z. process_message z p.received) placed
        ∙ process_message-delay first head port left r p.received f h l early in
      let filled : (length bs == 0) ≡ false = ground arith in
      let m = delay_received r in
      elim (Option-cases (path_delay p.tsp m.slave_time m.master_time)) [
        | inl e ↦ rw (filled, parsed, e)
        | inr (next, e) ↦ rw (filled, parsed, e)
      ]

  -- A datagram with a Sync record (a delay record), which fits the buffer, whose seconds fit 32
  -- bits and whose correction is not negative, makes a round of the loop update the clock (the
  -- path delay) with exactly the times of the record, whatever an earlier message left in the
  -- buffer.
  pub round-delivers :
      (p : Program D) (first : ℕ) (head port : List ℕ) (r : SlaveRxSyncTimingRecord)
      (q : SlaveDelayTimingRecord)
      → first % 16 ≡ signaling
      → length head ≡ 43
      → length port ≡ 12
      → IsEarlySync r
      → IsEarlyDelay q
      → length (sync_message first head port r) ≤ length p.buffer
      → length (delay_message first head port q) ≤ length p.buffer
      → let m = sync_received r in
        let n = delay_received q in
        (round p (datagram (sync_message first head port r)) ≡ (
          clock_update p.device_config p.tsp p.servo m.master_time m.slave_time
          >>= (λ (acts, tsp, servo). some (
            true,
            acts,
            record (with_message p (sync_message first head port r) m) { tsp = tsp; servo = servo },
          ))))
        × (round p (datagram (delay_message first head port q)) ≡ (
            path_delay p.tsp n.slave_time n.master_time >>= (λ tsp. some (
              true,
              [],
              record (with_message p (delay_message first head port q) n) { tsp = tsp },
            ))))
  round-delivers p first head port r q f h l early early' fits fits' = (
    round-sync p first head port r f h l early fits,
    round-delay p first head port q f h l early' fits',
  )
