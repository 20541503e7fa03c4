-- ===== src/Main/Serves.antt =====
-- main.c: what a run of the whole program comes to, from its configuration file on.
use external_servo.Prelude.{
  ℕ, ◌≡◌, ◌<◌, ap, ◌∙◌, inl, inr, Bool, true, false, none, some, List, get_elem?, length,
  take-length, All, result, Option-cases, arith,
}
use mathlib.Core.Path.{subst}
use external_servo.Prelude.Int.{ℤ, pos}
use external_servo.Double.{le, Double, IsOrdered, IsSigned, nought}
use external_servo.Config.State.{Globals, returned}
use external_servo.Config.Parser.Document.{Document, IsProper, tokens, described}
use external_servo.Config.Parser.Refine.{servo_config_parse-described}
use external_servo.Config.Parser.Strings.{GlobalsFit, OutcomeFits, servo_config_parse-OutcomeFits}
use external_servo.Servo.Range.{IsLimited}
use external_servo.Clockadj.{Clockadj, Request}
use external_servo.Msg.{Received}
use external_servo.Uds.Calls.{IsPosix, held}
use external_servo.Uds.Life.{Created, uds_create-Created}
use external_servo.Main.{Action, Program}
use external_servo.Main.Start.{Environment, ready}
use external_servo.Main.Update.{IsBounded}
use external_servo.Main.Receive.{IsRunning, rounds}
use external_servo.Main.Polls.{Poll, events_of-held}
use external_servo.Main.Whole.{start-rounds}
use external_servo.Main.Creation.{initial_frequency}
use external_servo.Main.Entry.{
  polled, CommandOption, parse_options, Machine, served, first_globals, configuration, socket_of,
  begin, finished, main,
}

first_globals-GlobalsFit {ℓ} :
    (D : Type ℓ) ⦃d : Double D⦄ (log_opens : Bool) → GlobalsFit (first_globals {D = D} log_opens)
unfolding first_globals
first_globals-GlobalsFit D true = omega arith
first_globals-GlobalsFit D false = omega arith

module _ {ℓ} {D : Type ℓ} ⦃d : Double D⦄ where
  configuration-OutcomeFits :
      (machine : Machine D) (name : List ℕ) (fuel : ℕ)
      → OutcomeFits (configuration machine name fuel)
  unfolding configuration
  configuration-OutcomeFits machine name fuel = elim (Option-cases (machine.scan name)) [
    | inl missing ↦
        rw (configuration, missing)
          (servo_config_parse-OutcomeFits machine.strtod false machine.initialises (λ n. none) fuel
            (first_globals machine.log_opens) (first_globals-GlobalsFit D machine.log_opens))
    | inr (scan, found) ↦
        rw (configuration, found)
          (servo_config_parse-OutcomeFits machine.strtod true machine.initialises scan fuel
            (first_globals machine.log_opens) (first_globals-GlobalsFit D machine.log_opens))
  ]

  -- Whatever the configuration file holds: when the parser returns, the socket that `main` then
  -- creates, on a kernel that answers as the manual says, is refused with no descriptor left open, or
  -- it is the one descriptor more that is open, bound to the whole configured address.
  pub socket_of-Created :
      (machine : Machine D) (name : List ℕ) (fuel : ℕ) (rv : ℤ) (g : Globals D)
      → IsPosix machine.kernel
      → configuration machine name fuel ≡ returned rv g
      → Created g.device_config.uds_address machine.world (socket_of machine g)
  socket_of-Created machine name fuel rv g posix e =
      let (tag, (tod, freq, fits)) =
        subst OutcomeFits e (configuration-OutcomeFits machine name fuel) in
      subst (λ path. Created path machine.world (socket_of machine g))
        (take-length g.device_config.uds_address 107 (omega arith))
        (uds_create-Created machine.kernel g.device_config.uds_address machine.world posix)

  main-served :
      (machine : Machine D) (m : Received) (c : Clockadj) (options : List CommandOption) (fuel : ℕ)
      (name : List ℕ) (g : Globals D) (requests : List Request) (p : Program D) (polls : List Poll)
      (actions : List (Action D)) (q : Program D)
      → parse_options none options ≡ some name
      → configuration machine name fuel ≡ returned (pos 0) g
      → begin machine m c g ≡ ready requests p
      → rounds p (polled machine g polls).0 ≡ some (actions, q)
      → main machine m c options fuel polls ≡ served (polled machine g polls).1 requests actions q
  unfolding main
  main-served machine m c options fuel name g requests p polls actions q named parsed begun runs =
      rw (main, named, parsed, begun) (ap (finished (polled machine g polls).1 requests) runs)

  pub configuration-described :
      (machine : Machine D) (fuel : ℕ) (name : List ℕ) (doc : Document)
      → machine.scan name ≡ some (get_elem? (tokens doc))
      → machine.initialises ≡ true
      → All (λ block. IsProper block.0) doc
      → length (tokens doc) < fuel
      → configuration machine name fuel
        ≡ described machine.strtod doc (first_globals machine.log_opens)
  unfolding configuration
  configuration-described machine fuel name doc file ok proper h =
      rw (configuration, file, ok)
        (servo_config_parse-described machine.strtod doc fuel (first_globals machine.log_opens)
          proper h)

  -- Given, by the last -f option, a configuration file with a document of blocks whose entries are
  -- accepted, and a positive filter length in it: where the start then comes to the loop, with a
  -- greatest frequency that is not negative and a first frequency in its range or NaN, the run of
  -- the program comes there with the socket of that configuration and serves every sequence of
  -- answers of poll, with what the kernel then lets it read, without a fault in any part; every
  -- frequency that it sets is in that range or NaN, which no test of the servos catches, and no
  -- descriptor is opened or closed by the loop.
  pub main-serves :
      IsOrdered D
      → IsSigned D
      → (machine : Machine D) (m : Received) (c : Clockadj) (options : List CommandOption)
        (fuel : ℕ) (name : List ℕ) (doc : Document) (g : Globals D) (n : ℕ)
        (requests : List Request) (p : Program D) (polls : List Poll)
      → parse_options none options ≡ some name
      → machine.scan name ≡ some (get_elem? (tokens doc))
      → machine.initialises ≡ true
      → All (λ block. IsProper block.0) doc
      → length (tokens doc) < fuel
      → described machine.strtod doc (first_globals machine.log_opens) ≡ returned (pos 0) g
      → 0 < n
      → g.device_config.filter_len ≡ pos n
      → begin machine m c g ≡ ready requests p
      → le nought p.servo.base.max_frequency ≡ true
      → IsLimited p.servo.base.max_frequency (initial_frequency p.servo.kind)
      → (actions : List (Action D)) × (q : Program D) × (main machine m c options fuel polls
          ≡ served (polled machine g polls).1 requests actions q)
        × (held (polled machine g polls).1.calls ≡ held (socket_of machine g).1.calls)
        × All (IsBounded p.servo.base.max_frequency) actions
        × IsRunning p.servo.base.max_frequency q
  main-serves o laws machine m c options fuel name doc g n requests p polls named file ok proper h
        means positive e begun q r =
      let env : Environment = record machine.environment { socket = (socket_of machine g).0.0 } in
      let (reached, runs, (bounded, state)) = result (
        start-rounds o laws env m g c n requests p (polled machine g polls).0 positive e begun q
          r) in
      let parsed = configuration-described machine fuel name doc file ok proper h ∙ means in
      (
        reached.0,
        reached.1,
        main-served machine m c options fuel name g requests p polls reached.0 reached.1 named
            parsed begun runs,
        events_of-held polls (socket_of machine g).0.0 machine.kernel (socket_of machine g).1,
        bounded,
        state,
      )
