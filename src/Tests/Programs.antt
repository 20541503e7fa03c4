-- ===== src/Tests/Programs.antt =====
-- The loop of the program at a concrete state, with whole numbers for the doubles.
use external_servo.Prelude.{
  ◌>>=◌, none, some, true, ◌≡◌, arith, ℕ, refl, List, [], ◌∷◌, All, Holds, replicate,
  length-replicate,
}
use external_servo.Prelude.Int.{ℤ, pos}
use external_servo.Double.{whole, whole-IsOrdered, whole-IsSigned}
use external_servo.Servo.Dispatch.{pi_servo}
use external_servo.Config.State.{zero_device_config}
use external_servo.Msg.{tlv_slave_rx_sync_timing_data}
use external_servo.Msg.Encode.{sync_bytes}
use external_servo.Msg.Process.{message}
use external_servo.Main.{Program, Event, datagram, timeout, recv_failed, poll_failed}
use external_servo.Clockadj.{Clockadj, Request, no_timex}
use external_servo.Main.Start.{Environment, Start, failed, exited, ready}
use external_servo.Main.{clock_update, path_delay, round}
use external_servo.Main.Deliver.{
  sync_message, delay_message, sync_received, delay_received, with_message, round-delivers,
}
use external_servo.Main.Update.{IsBounded}
use external_servo.Main.Receive.{IsRunning, rounds, rounds-IsRunning}
use external_servo.Tests.Filters.{median-Computes, exchange}
use external_servo.Tests.Servos.{servo, pi, zero-IsLimited}
use external_servo.Tests.Messages.{delay, sync, nothing}

abbrev pub program : Program ℤ
program = record {
  tsp = exchange;
  servo = record { base = servo; kind = pi_servo pi };
  clockadj = record {
    realtime_leap_bit = pos 0;
    realtime_hz = pos 100;
    realtime_nominal_tick = pos 10_000;
  };
  device_config = zero_device_config;
  buffer = replicate 1500 0;
  received = nothing;
}

-- a message, no event, a failed read, and a failed poll
abbrev pub events : List Event
events =
    datagram
      (message 12 (replicate 43 0) tlv_slave_rx_sync_timing_data (replicate 12 0) (sync_bytes sync))
    ∷ timeout
    ∷ recv_failed
    ∷ poll_failed
    ∷ []

program-IsRunning : IsRunning (pos 900) program
program-IsRunning = record {
  full = length-replicate {A = ℕ} 1500 0;
  filter = median-Computes.0;
  same = refl;
  tracking = (refl, zero-IsLimited);
}

rounds-IsRunning_example :
    Holds (λ r. All (IsBounded (pos 900)) r.0 × IsRunning (pos 900) r.1) (rounds program events)
rounds-IsRunning_example =
    rounds-IsRunning whole-IsOrdered whole-IsSigned (pos 900) program events program-IsRunning

-- The start with one device for the frequency and the time of day, a median of 3 delays and a PI servo.
abbrev pub environment : Environment
environment = record {
  socket = pos 3;
  open_device = λ name. pos 4;
  alloc = λ n. true;
  api = record { shmget = λ key. pos 0; shmat = λ id. none };
  hz = pos 100;
  limits = none;
  caps = some (pos 900);
  frequency = some no_timex;
}

abbrev pub statics : Clockadj
statics = record { realtime_leap_bit = pos 0; realtime_hz = pos 0; realtime_nominal_tick = pos 0 }

abbrev pub program_of : Start ℤ → Program ℤ
program_of failed = program
program_of exited = program
program_of (ready requests p) = p

abbrev pub requests_of : Start ℤ → List Request
requests_of failed = []
requests_of exited = []
requests_of (ready requests p) = requests

abbrev header : List ℕ
header = replicate 43 0

abbrev ports : List ℕ
ports = replicate 12 0

round-delivers_example :
    (round program (datagram (sync_message 12 header ports sync)) ≡ (
      clock_update program.device_config program.tsp program.servo
        (sync_received sync).master_time
        (sync_received sync).slave_time
      >>= (λ (acts, tsp, servo). some (
        true,
        acts,
        record (with_message program (sync_message 12 header ports sync) (sync_received sync)) {
          tsp = tsp;
          servo = servo;
        },
      ))))
    × (round program (datagram (delay_message 12 header ports delay)) ≡ (
        path_delay program.tsp (delay_received delay).slave_time (delay_received delay).master_time
        >>= (λ tsp. some (
          true,
          [],
          record (with_message program
              (delay_message 12 header ports delay)
              (delay_received delay)) { tsp = tsp },
        ))))
round-delivers_example =
    round-delivers program 12 header ports sync delay refl refl refl
      (
        omega arith,
        (refl, omega arith, omega arith),
        omega arith,
        omega arith,
        (refl, omega arith, omega arith),
      )
      (omega arith, (refl, omega arith, omega arith), omega arith, (refl, omega arith, omega arith))
      (omega arith) (omega arith)
