-- ===== src/Msg/Encode.antt =====
-- The layout of the messages of the monitor, as bytes, and that the reads of msg.c find its fields.
use external_servo.Prelude.{
  ℕ, zero, suc, ◌+◌, ◌*◌, ◌/◌, ◌%◌, ◌^◌, ◌<◌, ◌≡◌, ap, some, List, [], ◌∷◌, ◌++◌, length, get_elem?,
  get_elem?-at, length-append, arith,
}
use native.Mathlib.Nat.{mod-lt, one-le-pow, div-add-mod'}
use mathlib.Core.List.{append_assoc}
use mathlib.Core.Path.{subst}
use external_servo.Tmv.{Timestamp}
use external_servo.Msg.{
  SlaveRxSyncTimingRecord, SlaveDelayTimingRecord, read_be, read_timestamp, read_sync_record,
  read_delay_record,
}

-- `n` as `k` bytes, the most significant first
abbrev pub bytes : ℕ → ℕ → List ℕ
bytes zero n = []
bytes (suc k) n = n / 256 ^ k ∷ bytes k (n % 256 ^ k)

-- The bytes `bs` stand at `off`.
abbrev pub At : List ℕ → ℕ → List ℕ → Type 0
At buffer off [] = Unit {0}
At buffer off (b ∷ bs) = (get_elem? buffer off ≡ some b) × At buffer (off + 1) bs

At-append :
    (buffer : List ℕ) (off : ℕ) (xs ys : List ℕ) (next : ℕ)
    → next ≡ off + length xs
    → At buffer off (xs ++ ys)
    → At buffer off xs × At buffer next ys
At-append buffer off [] ys next e a = (tt, (rw (let z : next ≡ off = omega arith in z) a))
At-append buffer off (x ∷ xs) ys next e (h, a) =
    let (here, there) = At-append buffer (off + 1) xs ys next (omega arith) a in ((h, here), there)

pub read_be-At :
    (buffer : List ℕ) (off k n : ℕ)
    → n < 256 ^ k
    → At buffer off (bytes k n)
    → read_be buffer off k ≡ some n
unfolding read_be
read_be-At buffer off zero n h a = ap some (omega arith)
read_be-At buffer off (suc k) n h (b, a) =
    let low : n % 256 ^ k < 256 ^ k = mod-lt n (one-le-pow k 256 (omega arith)) in
    let value : n / 256 ^ k * 256 ^ k + n % 256 ^ k ≡ n = div-add-mod' n (256 ^ k) in
    rw (b, read_be-At buffer (off + 1) k (n % 256 ^ k) low a, value)

pub At-from : (xs bs ys : List ℕ) (off : ℕ) → off ≡ length xs → At (xs ++ (bs ++ ys)) off bs
At-from xs [] ys off e = tt
At-from xs (b ∷ bs) ys off e = (
  get_elem?-at xs b (bs ++ ys) off e,
  subst (λ z. At z (off + 1) bs) (append_assoc xs (b ∷ []) (bs ++ ys))
      (At-from (xs ++ (b ∷ [])) bs ys (off + 1) (omega (arith, length-append xs (b ∷ [])))),
)

abbrev pub stamp_bytes : Timestamp → List ℕ
stamp_bytes ts = bytes 2 ts.seconds_msb ++ (bytes 4 ts.seconds_lsb ++ bytes 4 ts.nanoseconds)

-- the fields have the widths of the structure
abbrev pub IsStamp : Timestamp → Type 0
IsStamp ts = ts.seconds_msb < 2 ^ 16 × ts.seconds_lsb < 2 ^ 32 × ts.nanoseconds < 2 ^ 32

read_timestamp-At :
    (buffer : List ℕ) (off : ℕ) (ts : Timestamp)
    → IsStamp ts
    → At buffer off (stamp_bytes ts)
    → read_timestamp buffer off ≡ some ts
unfolding read_timestamp
read_timestamp-At buffer off ts (m, l, n) a =
    let (msb, b) =
      At-append buffer off (bytes 2 ts.seconds_msb)
        (bytes 4 ts.seconds_lsb ++ bytes 4 ts.nanoseconds) (off + 2) (omega arith) a in
    let (lsb, ns) =
      At-append buffer (off + 2) (bytes 4 ts.seconds_lsb) (bytes 4 ts.nanoseconds) (off + 6)
        (omega arith) b in
    rw (
      read_be-At buffer off 2 ts.seconds_msb m msb,
      read_be-At buffer (off + 2) 4 ts.seconds_lsb l lsb,
      read_be-At buffer (off + 6) 4 ts.nanoseconds n ns,
    )

-- the bytes of the record from its correction on
abbrev sync_tail : SlaveRxSyncTimingRecord → List ℕ
sync_tail r =
    bytes 8 r.total_correction_field
    ++ (bytes 4 r.scaled_cumulative_rate_offset ++ stamp_bytes r.sync_event_ingress_timestamp)

abbrev pub sync_bytes : SlaveRxSyncTimingRecord → List ℕ
sync_bytes r = bytes 2 r.sequence_id ++ (stamp_bytes r.sync_origin_timestamp ++ sync_tail r)

abbrev pub IsSync : SlaveRxSyncTimingRecord → Type 0
IsSync r =
    r.sequence_id < 2 ^ 16
    × IsStamp r.sync_origin_timestamp
    × r.total_correction_field < 2 ^ 64
    × r.scaled_cumulative_rate_offset < 2 ^ 32
    × IsStamp r.sync_event_ingress_timestamp

pub read_sync_record-At :
    (buffer : List ℕ) (off : ℕ) (r : SlaveRxSyncTimingRecord)
    → IsSync r
    → At buffer off (sync_bytes r)
    → read_sync_record buffer off ≡ some r
unfolding read_sync_record
read_sync_record-At buffer off r (s, o, c, q, i) a =
    let (seq, a1) =
      At-append buffer off (bytes 2 r.sequence_id)
        (stamp_bytes r.sync_origin_timestamp ++ sync_tail r) (off + 2) (omega arith) a in
    let (origin, a2) =
      At-append buffer (off + 2) (stamp_bytes r.sync_origin_timestamp) (sync_tail r) (off + 12)
        (omega arith) a1 in
    let (corr, a3) =
      At-append buffer (off + 12) (bytes 8 r.total_correction_field)
        (bytes 4 r.scaled_cumulative_rate_offset ++ stamp_bytes r.sync_event_ingress_timestamp)
        (off + 20) (omega arith) a2 in
    let (rate, ingress) =
      At-append buffer (off + 20) (bytes 4 r.scaled_cumulative_rate_offset)
        (stamp_bytes r.sync_event_ingress_timestamp) (off + 24) (omega arith) a3 in
    rw (
      read_be-At buffer off 2 r.sequence_id s seq,
      read_timestamp-At buffer (off + 2) r.sync_origin_timestamp o origin,
      read_be-At buffer (off + 12) 8 r.total_correction_field c corr,
      read_be-At buffer (off + 20) 4 r.scaled_cumulative_rate_offset q rate,
      read_timestamp-At buffer (off + 24) r.sync_event_ingress_timestamp i ingress,
    )

-- the bytes of the record from its correction on
abbrev delay_tail : SlaveDelayTimingRecord → List ℕ
delay_tail r = bytes 8 r.total_correction_field ++ stamp_bytes r.delay_response_timestamp

abbrev pub delay_bytes : SlaveDelayTimingRecord → List ℕ
delay_bytes r = bytes 2 r.sequence_id ++ (stamp_bytes r.delay_origin_timestamp ++ delay_tail r)

abbrev pub IsDelay : SlaveDelayTimingRecord → Type 0
IsDelay r =
    r.sequence_id < 2 ^ 16
    × IsStamp r.delay_origin_timestamp
    × r.total_correction_field < 2 ^ 64
    × IsStamp r.delay_response_timestamp

pub read_delay_record-At :
    (buffer : List ℕ) (off : ℕ) (r : SlaveDelayTimingRecord)
    → IsDelay r
    → At buffer off (delay_bytes r)
    → read_delay_record buffer off ≡ some r
unfolding read_delay_record
read_delay_record-At buffer off r (s, o, c, p) a =
    let (seq, a1) =
      At-append buffer off (bytes 2 r.sequence_id)
        (stamp_bytes r.delay_origin_timestamp ++ delay_tail r) (off + 2) (omega arith) a in
    let (origin, a2) =
      At-append buffer (off + 2) (stamp_bytes r.delay_origin_timestamp) (delay_tail r) (off + 12)
        (omega arith) a1 in
    let (corr, response) =
      At-append buffer (off + 12) (bytes 8 r.total_correction_field)
        (stamp_bytes r.delay_response_timestamp) (off + 20) (omega arith) a2 in
    rw (
      read_be-At buffer off 2 r.sequence_id s seq,
      read_timestamp-At buffer (off + 2) r.delay_origin_timestamp o origin,
      read_be-At buffer (off + 12) 8 r.total_correction_field c corr,
      read_timestamp-At buffer (off + 20) r.delay_response_timestamp p response,
    )
