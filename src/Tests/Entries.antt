-- ===== src/Tests/Entries.antt =====
-- The whole program on a configuration file, with whole numbers for the doubles.
use external_servo.Filter.Median.{mmedian_create}
use external_servo.Prelude.Word.{wrap64, wrap32}
use external_servo.Servo.Pi.{pi_sync_interval, pi_servo_create}
use external_servo.Filter.Dispatch.{filter_create}
use external_servo.Tsproc.{tsproc_create}
use external_servo.Prelude.{
  inr, none, some, true, ◌≡◌, arith, refl, ◌∙◌, List, [], ◌∷◌, All, get_elem?,
}
use external_servo.Prelude.Int.{◌/ℤ◌, neg_ℤ, ◌*ℤ◌, ◌+ℤ◌, ℤ, pos}
use external_servo.Double.{le, whole, whole-IsOrdered, whole-IsSigned}
use external_servo.Servo.Dispatch.{servo_create, common_part, servo_sync_interval, create_kind}
use external_servo.Servo.Range.{IsLimited}
use external_servo.Config.Tables.{text}
use external_servo.Config.State.{Globals, Outcome, running, faulted, returned}
use external_servo.Config.Fields.{atoi, update_servo_config, update_device_config}
use external_servo.Config.Parser.Document.{Document, servo, device, tokens, described}
use external_servo.Clockadj.{clockadj_get_freq}
use external_servo.Uds.{uds_create}
use external_servo.Uds.Life.{Created}
use external_servo.Main.{Action, Program}
use external_servo.Main.Start.{Start, ready, start}
use external_servo.Main.Update.{IsBounded}
use external_servo.Main.Receive.{IsRunning}
use external_servo.Uds.Calls.{held}
use external_servo.Main.Polls.{Poll, timed_out, readable}
use external_servo.Main.Polls
use external_servo.Main.Creation.{initial_frequency}
use external_servo.Main.Entry.{
  CommandOption, parse_options, Machine, served, first_globals, configuration, socket_of, polled,
  begin, main,
}
use external_servo.Main.Serves.{configuration-described, socket_of-Created, main-serves}
use external_servo.Tests.Messages.{nothing}
use external_servo.Tests.Sockets.{kernel, kernel-IsPosix, world}
use external_servo.Tests.Programs.{environment, statics, program_of, requests_of}

abbrev document : Document
document =
    (servo, (text "type", text "pi") ∷ (text "step_threshold", text "2") ∷ [])
    ∷ (
      device,
      (text "freq_device", text "/dev/ptp0")
          ∷ (text "tod_device", text "/dev/ptp0")
          ∷ (text "monitor_uds_address", text "/var/run/monitor")
          ∷ (text "tsproc_mode", text "raw")
          ∷ (text "delay_filter", text "moving_median")
          ∷ (text "delay_filter_length", text "3")
          ∷ [],
    )
    ∷ []

abbrev machine : Machine ℤ
machine = record {
  log_opens = true;
  scan = λ name. some (get_elem? (tokens document));
  initialises = true;
  strtod = atoi;
  kernel = kernel;
  world = world;
  environment = environment;
}

-- two file options: the last one counts
abbrev options : List CommandOption
options = (102, text "old.yml") ∷ (63, []) ∷ (102, text "config.yml") ∷ []

abbrev globals_of : Outcome ℤ → Globals ℤ
globals_of (returned rv g) = g
globals_of running = first_globals true
globals_of faulted = first_globals true

abbrev configured : Globals ℤ
configured = globals_of (described atoi document (first_globals true))

options_config_file : parse_options none options ≡ some (text "config.yml")
unfolding parse_options
options_config_file = refl

document-configured : described atoi document (first_globals true) ≡ returned (pos 0) configured
unfolding update_servo_config update_device_config
document-configured = refl

configured_filter_len : configured.device_config.filter_len ≡ pos 3
unfolding update_servo_config update_device_config first_globals atoi wrap32 wrap64
configured_filter_len = refl

abbrev begun : Start ℤ
begun = begin machine nothing statics configured

begun-ready : begun ≡ ready (requests_of begun) (program_of begun)
unfolding start wrap32 ◌+ℤ◌ ◌*ℤ◌ tsproc_create filter_create mmedian_create clockadj_get_freq
    servo_create create_kind pi_servo_create update_servo_config update_device_config first_globals
    uds_create wrap64
begun-ready = refl

begun-positive : le (pos 0) (program_of begun).servo.base.max_frequency ≡ true
unfolding start wrap32 ◌+ℤ◌ ◌*ℤ◌ tsproc_create filter_create mmedian_create clockadj_get_freq
    servo_create create_kind pi_servo_create update_servo_config update_device_config first_globals
    uds_create wrap64 servo_sync_interval common_part
begun-positive = refl

begun-IsLimited :
    IsLimited
      (program_of begun).servo.base.max_frequency
      (initial_frequency (program_of begun).servo.kind)
unfolding start IsLimited wrap32 ◌+ℤ◌ ◌*ℤ◌ tsproc_create filter_create mmedian_create
    clockadj_get_freq servo_create create_kind pi_servo_create servo_sync_interval pi_sync_interval
    wrap64 neg_ℤ ◌/ℤ◌ common_part update_servo_config update_device_config first_globals uds_create
begun-IsLimited = inr (refl, refl)

-- nothing in time, two reads, and a failure
abbrev polls : List Poll
polls = timed_out ∷ readable ∷ readable ∷ Polls.failed ∷ []

main-serves_example :
    (actions : List (Action ℤ)) × (q : Program ℤ) × (main machine nothing statics options 100 polls
      ≡ served (polled machine configured polls).1 (requests_of begun) actions q)
    × (held (polled machine configured polls).1.calls ≡ held (socket_of machine configured).1.calls)
    × All (IsBounded (program_of begun).servo.base.max_frequency) actions
    × IsRunning (program_of begun).servo.base.max_frequency q
main-serves_example =
    main-serves whole-IsOrdered whole-IsSigned machine nothing statics options 100
      (text "config.yml") document configured 3 (requests_of begun) (program_of begun) polls
      options_config_file refl refl (tt, (tt, tt)) (omega arith) document-configured (omega arith)
      configured_filter_len begun-ready begun-positive begun-IsLimited

configuration-configured :
    configuration machine (text "config.yml") 100 ≡ returned (pos 0) configured
configuration-configured =
    configuration-described machine 100 (text "config.yml") document refl refl (tt, (tt, tt))
      (omega arith)
    ∙ document-configured

socket_of-Created_example :
    Created configured.device_config.uds_address world (socket_of machine configured)
socket_of-Created_example =
    socket_of-Created machine (text "config.yml") 100 (pos 0) configured kernel-IsPosix
      configuration-configured
