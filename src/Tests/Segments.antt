-- ===== src/Tests/Segments.antt =====
-- The shared memory segment at concrete samples, and its reader.
use external_servo.Prelude.Word.{to_u64}
use external_servo.Prelude.{◌/◌, ◌*◌, ℕ, ◌≡◌, ◌<◌, ◌+◌, refl, arith}
use external_servo.Prelude.Int.{pos}
use external_servo.Double.{whole}
use external_servo.Servo.Base.{sub_u64}
use external_servo.Servo.Ntpshm.{ShmTime, next_int, sample_writes, write_all}
use external_servo.Servo.Ntpshm.Protocol.{published}
use external_servo.Servo.Ntpshm.Reader
use external_servo.Servo.Ntpshm.Reader.{Sample, Moment, seen, payload, seen-payload}

abbrev segment : ShmTime
segment = record {
  mode = pos 0;
  count = pos 7;
  clock_time_stamp_sec = 0;
  clock_time_stamp_usec = 0;
  receive_time_stamp_sec = 0;
  receive_time_stamp_usec = 0;
  leap = pos 0;
  precision = pos 0;
  nsamples = pos 0;
  valid = pos 1;
  clock_time_stamp_nsec = 0;
  receive_time_stamp_nsec = 0;
}

-- one sample after another, a second apart
abbrev source : ℕ → Sample
source n = record { leap = pos 0; offset = pos 70; local_ts = (n + 1) * 1_000_000_000 }

-- the moments of a read around the end of a sample, in the window before the next one is marked
abbrev moment : ℕ → ℕ → Moment
moment n k = record { samples = n; writes = k }

read_moments :
    (seen source segment (moment 0 12)).count ≡ (seen source segment (moment 1 1)).count
    × (seen source segment (moment 1 0)).valid ≡ pos 1
unfolding seen write_all sample_writes
read_moments = (refl, refl)

seen-payload_example :
    payload (seen source segment (moment 0 12)) ≡ payload (Reader.segment source segment 1)
seen-payload_example =
    seen-payload source segment (seen source segment) (moment 0 12) (moment 0 12) (moment 1 0)
      (moment 1 1) (λ m h. refl) (omega arith) (omega arith) (omega arith) (omega arith)
      (omega arith) (omega arith) (omega arith) (omega arith) (omega arith) read_moments.0
      read_moments.1

-- The reader of the comment in the code, which takes the mark before it compares the counters, can take
-- it before the first of them and read a sample half written.
torn :
    (seen source segment (moment 1 0)).valid ≡ pos 1
    × (seen source segment (moment 1 2)).count ≡ (seen source segment (moment 1 11)).count
    × (seen source segment (moment 1 4)).clock_time_stamp_sec ≡ 1
    × (seen source segment (moment 1 4)).receive_time_stamp_sec ≡ 1
    × (seen source segment (moment 1 4)).clock_time_stamp_nsec ≡ 999_999_930
    × (seen source segment (moment 0 12)).clock_time_stamp_sec ≡ 0
unfolding seen write_all sample_writes
torn = (refl, refl, refl, refl, refl, refl)

published_example :
    let t' = write_all (sample_writes (pos 0) (pos 70) 1_000_000_000) segment in
    t'.valid ≡ pos 1
    × t'.count ≡ next_int (next_int (pos 7))
    × t'.clock_time_stamp_sec * 1_000_000_000 + t'.clock_time_stamp_nsec
      ≡ sub_u64 1_000_000_000 (to_u64 (pos 70))
    × t'.receive_time_stamp_sec * 1_000_000_000 + t'.receive_time_stamp_nsec ≡ 1_000_000_000
    × t'.clock_time_stamp_nsec < 1_000_000_000
    × t'.receive_time_stamp_nsec < 1_000_000_000
    × t'.clock_time_stamp_usec ≡ t'.clock_time_stamp_nsec / 1000
    × t'.receive_time_stamp_usec ≡ t'.receive_time_stamp_nsec / 1000
published_example = published segment (pos 0) (pos 70) 1_000_000_000
