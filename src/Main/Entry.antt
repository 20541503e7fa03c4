-- ===== src/Main/Entry.antt =====
-- main.c from the command line to the loop: the options, the configuration file, the socket, the start
-- and the rounds.
use external_servo.Prelude.{
  ℕ, Bool, true, false, Option, none, some, List, [], ◌∷◌, if◌then◌else◌, ◌==◌,
}
use external_servo.Prelude.Int.{ℤ, pos, ltb_ℤ}
use external_servo.Double.{Double}
use external_servo.Config.State.{
  Token, Globals, Outcome, running, faulted, returned, zero_servo_config, zero_device_config,
}
use external_servo.Config.Parser.{servo_config_parse}
use external_servo.Logger.{first_logger, sys_log_init}
use external_servo.Clockadj.{Clockadj, Request}
use external_servo.Msg.{Received}
use external_servo.Uds.Calls.{Kernel, World}
use external_servo.Uds.{uds_create}
use external_servo.Main.{Action, Program, Event}
use external_servo.Main.Start.{Environment, Start, failed, exited, ready, start}
use external_servo.Main.Receive.{rounds}
use external_servo.Main.Polls.{Poll, events_of}

-- an option as `getopt` returns it, with `optarg`
abbrev pub CommandOption : Type 0
CommandOption = ℕ × List ℕ

-- the loop over the options: the name of the configuration file, if any
unfoldable pub parse_options : Option (List ℕ) → List CommandOption → Option (List ℕ)
parse_options config_file [] = config_file
parse_options config_file ((opt, optarg) ∷ options) =
    parse_options (if opt == 102 then some optarg else config_file) options

-- What `main` finds: whether the log can be opened, the tokens of a file (none where it cannot be
-- opened), whether the scanner can be set up, `strtod`, the kernel of the sockets, and what else is
-- asked at the start.
pub record Machine {ℓ} (D : Type ℓ) : Type ℓ where
  pub log_opens : Bool
  pub scan : List ℕ → Option (ℕ → Option Token)
  pub initialises : Bool
  pub strtod : List ℕ → D
  pub kernel : Kernel
  pub world : World
  pub environment : Environment

-- how far `main` comes: it returns -1 with no file, with one that it cannot take, or at its start;
-- it goes on parsing; a part faults or exits; or the loop serves the events, which also ends at a failure of `poll`
pub data Run {ℓ} (D : Type ℓ) : Type ℓ where
  no_file : Run D
  bad_file : Globals D → Run D
  parsing : Run D
  faulty : Run D
  not_started : World → Run D
  gone : World → Run D
  served : World → List Request → List (Action D) → Program D → Run D

module _ {ℓ} {D : Type ℓ} ⦃d : Double D⦄ where
  -- the statics, after `sys_log_init`
  unfoldable pub first_globals : Bool → Globals D
  unfolding sys_log_init
  first_globals log_opens = record {
    log = sys_log_init log_opens first_logger;
    servo_config = zero_servo_config;
    device_config = zero_device_config;
  }

  -- the file, with the fuel of the parser
  unfoldable pub configuration : Machine D → List ℕ → ℕ → Outcome D
  configuration machine name fuel = elim (machine.scan name) [
    | none ↦
        servo_config_parse machine.strtod false machine.initialises (λ n. none) fuel
          (first_globals machine.log_opens)
    | some scan ↦
        servo_config_parse machine.strtod true machine.initialises scan fuel
          (first_globals machine.log_opens)
  ]

  -- the socket of the configuration
  abbrev pub socket_of : Machine D → Globals D → (ℤ × Option (List ℕ)) × World
  socket_of machine g = uds_create g.device_config.uds_address machine.kernel machine.world

  -- the start, with the descriptor of the socket
  abbrev pub begin : Machine D → Received → Clockadj → Globals D → Start D
  begin machine m c g =
      start (record machine.environment { socket = (socket_of machine g).0.0 }) m g c

  -- what the loop reads from that socket, and the calls up to its end
  abbrev pub polled : Machine D → Globals D → List Poll → List Event × World
  polled machine g polls =
      events_of polls (socket_of machine g).0.0 machine.kernel (socket_of machine g).1

  -- after the rounds
  abbrev pub finished : World → List Request → Option (List (Action D) × Program D) → Run D
  finished w requests none = faulty
  finished w requests (some (actions, p)) = served w requests actions p

  abbrev serve : Machine D → Globals D → List Poll → Start D → Run D
  serve machine g polls failed = not_started (socket_of machine g).1
  serve machine g polls exited = gone (socket_of machine g).1
  serve machine g polls (ready requests p) =
      finished (polled machine g polls).1 requests (rounds p (polled machine g polls).0)

  abbrev after_configuration : Machine D → Received → Clockadj → List Poll → Outcome D → Run D
  after_configuration machine m c polls running = parsing
  after_configuration machine m c polls faulted = faulty
  after_configuration machine m c polls (returned rv g) =
      let next = serve machine g polls (begin machine m c g) in
      if ltb_ℤ rv (pos 0) then bad_file g else next

  unfoldable pub main : Machine D → Received → Clockadj → List CommandOption → ℕ → List Poll → Run D
  main machine m c options fuel polls = elim (parse_options none options) [
    | none ↦ no_file
    | some name ↦ after_configuration machine m c polls (configuration machine name fuel)
  ]
