-- ===== src/Main/Whole.antt =====
-- main.c from the start through its loop: the state that the start leads to, and what follows for
-- every run.
use external_servo.Prelude.{
  true, ℕ, ◌<◌, ◌≡◌, refl, sym, ◌∙◌, Option, none, some, List, if-both, All, Holds, Every, missing,
  there, always, replicate, length-replicate,
}
use mathlib.Core.Path.{subst}
use external_servo.Prelude.Int.{ℤ, pos, ltb_ℤ}
use external_servo.Prelude.Word.{wrap32}
use external_servo.Double.{le, Double, IsOrdered, IsSigned, nought, one}
use external_servo.Config.Types.{ServoConfig, DeviceConfig}
use external_servo.Config.State.{Globals}
use external_servo.Filter.Dispatch.Refine
use external_servo.Tsproc.{Tsproc, tsproc_create}
use external_servo.Servo.Range.{IsLimited}
use external_servo.Servo.Dispatch.{ServoObject, servo_sync_interval}
use external_servo.Clockadj.{Clockadj, Request, clockadj_get_freq}
use external_servo.Msg.{Received}
use external_servo.Main.{Program, Event, device_init}
use external_servo.Main.Start.{
  Environment, Start, failed, exited, ready, phc_caps_get, system_clock, tuned, limited,
  with_tsproc, start,
}
use external_servo.Main.Update.{IsBounded}
use external_servo.Main.Receive.{IsRunning, rounds, rounds-IsRunning}
use external_servo.Main.Creation.{
  initial_frequency, device_init-filter_len, IsMade, made-Fits, servo_create-IsMade,
  sync_interval-IsMade, tsproc_create-Every,
}

module _ {ℓ} {D : Type ℓ} ⦃d : Double D⦄ where
  -- What holds of the state that the start leads to, given its range.
  abbrev Starts : Start D → Type ℓ
  Starts failed = Unit
  Starts exited = Unit
  Starts (ready requests p) =
      le nought p.servo.base.max_frequency ≡ true
      → IsLimited p.servo.base.max_frequency (initial_frequency p.servo.kind)
      → IsRunning p.servo.base.max_frequency p

  Starts-elim {κ μ} :
      {A : Type κ} {P : A → Type μ} {o : Option A} (f : A → Start D) (other : Start D)
      → Starts other
      → Every P o
      → ((a : A) → P a → Starts (f a))
      → Starts (elim o [ none ↦ other | some a ↦ f a ])
  Starts-elim f other h missing next = h
  Starts-elim f other h (there p) next = next _ p

  ready-IsRunning :
      (servo : ServoObject D) (tsp : Tsproc D) (c : Clockadj) (dev : DeviceConfig) (m : Received)
      → Refine.IsValid tsp.delay_filter
      → IsMade servo.kind
      → let p : Program D = record {
        tsp = tsp;
        servo = servo_sync_interval servo one;
        clockadj = c;
        device_config = dev;
        buffer = replicate 1500 0;
        received = m;
      } in
        le nought p.servo.base.max_frequency ≡ true
        → IsLimited p.servo.base.max_frequency (initial_frequency p.servo.kind)
        → IsRunning p.servo.base.max_frequency p
  ready-IsRunning servo tsp c dev m v made q r = record {
    full = length-replicate {A = ℕ} 1500 0;
    filter = v;
    same = refl;
    tracking = (
      q,
      made-Fits _ (servo_sync_interval servo one).kind
          (sync_interval-IsMade servo.base servo.kind one made) r,
    );
  }

  tuned-Starts :
      (env : Environment) (m : Received) (tsp : Tsproc D) (c : Clockadj) (dev : DeviceConfig)
      (cfg : ServoConfig D) (requests : List Request) (fadj : D)
      → Refine.IsValid tsp.delay_filter
      → Starts (tuned env m tsp c dev cfg requests fadj)
  tuned-Starts env m tsp c dev cfg requests fadj v =
      Starts-elim _ failed tt
        (servo_create-IsMade env.alloc env.api
          (record cfg { intial_adj = wrap32 (d.to_int64 (d.neg fadj)) }))
        (λ servo made. ready-IsRunning servo tsp c dev m v made)

  limited-Starts :
      (env : Environment) (m : Received) (g : Globals D) (c : Clockadj) (dev : DeviceConfig)
      (tsp : Tsproc D) (max_adj : ℤ)
      → Refine.IsValid tsp.delay_filter
      → Starts (limited env m g c dev tsp max_adj)
  limited-Starts env m g c dev tsp max_adj v =
      let (requests, c', limit) = system_clock D env c dev.tod_clk_id max_adj in
      Starts-elim _ exited tt (always (clockadj_get_freq {D = D} c' dev.freq_clk_id env.frequency))
        (λ fadj u.
          tuned-Starts env m tsp c' dev (record g.servo_config { max_frequency = d.of_int limit })
            requests fadj v)

  with_tsproc-Starts :
      (env : Environment) (m : Received) (g : Globals D) (c : Clockadj) (dev : DeviceConfig)
      (tsp : Tsproc D)
      → Refine.IsValid tsp.delay_filter
      → Starts (with_tsproc env m g c dev tsp)
  with_tsproc-Starts env m g c dev tsp v =
      Starts-elim _ failed tt (always (phc_caps_get D env c dev.freq_clk_id).1)
        (λ n u. limited-Starts env m g c dev tsp n v)

  start-Starts :
      (env : Environment) (m : Received) (g : Globals D) (c : Clockadj) (n : ℕ)
      → 0 < n
      → g.device_config.filter_len ≡ pos n
      → Starts (start env m g c)
  unfolding start
  start-Starts env m g c n h e =
      let (rv, dev) = device_init env.open_device (record g.device_config { fd = env.socket }) in
      let long : dev.filter_len ≡ pos n =
        device_init-filter_len env.open_device (record g.device_config { fd = env.socket }) ∙ e in
      if-both Starts (ltb_ℤ env.socket (pos 0)) tt (
        if-both Starts (ltb_ℤ rv (pos 0)) tt (
          Starts-elim _ failed tt
            (subst
              (λ k.
                Every (λ tsp. Refine.IsValid tsp.delay_filter)
                  (tsproc_create {D = D} env.alloc dev.mode dev.filter k))
              (sym long) (tsproc_create-Every env.alloc dev.mode dev.filter n h))
            (λ tsp v. with_tsproc-Starts env m g c dev tsp v)))

  -- Whatever the environment answers: where the program, configured with a positive filter length,
  -- comes to its loop with a greatest frequency that is not negative and a first frequency in its
  -- range or NaN, no sequence of events faults in any part of it, and every frequency that the
  -- loop sets is in that range or NaN.
  pub start-rounds :
      IsOrdered D
      → IsSigned D
      → (env : Environment) (m : Received) (g : Globals D) (c : Clockadj) (n : ℕ)
        (requests : List Request) (p : Program D) (es : List Event)
      → 0 < n
      → g.device_config.filter_len ≡ pos n
      → start env m g c ≡ ready requests p
      → le nought p.servo.base.max_frequency ≡ true
      → IsLimited p.servo.base.max_frequency (initial_frequency p.servo.kind)
      → Holds
          (λ r.
            All (IsBounded p.servo.base.max_frequency) r.0
            × IsRunning p.servo.base.max_frequency r.1)
          (rounds p es)
  start-rounds o laws env m g c n requests p es h e begun q r =
      rounds-IsRunning o laws p.servo.base.max_frequency p es
        (subst Starts begun (start-Starts env m g c n h e) q r)
