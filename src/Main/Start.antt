-- ===== src/Main/Start.antt =====
-- main.c from the parsed configuration to the loop: the devices, the time stamp processor, the limits of
-- the clock and the servo.
use external_servo.Prelude.{
  ℕ, Bool, not, Option, none, some, List, [], ◌∷◌, ◌++◌, if◌then◌else◌, replicate,
}
use external_servo.Prelude.Int.{ℤ, pos, negsuc, ltb_ℤ, eqb_ℤ}
use external_servo.Prelude.Word.{wrap32}
use external_servo.Double.{Double, one}
use external_servo.Tsproc.{Tsproc, tsproc_create}
use external_servo.Config.Types.{ServoConfig, DeviceConfig}
use external_servo.Config.State.{Globals}
use external_servo.Servo.Dispatch.{servo_create, servo_sync_interval}
use external_servo.Servo.Ntpshm.{ShmApi}
use external_servo.Clockadj.{
  Timex, Request, Clockadj, clock_realtime, clockadj_init, clockadj_set_freq, clockadj_get_freq,
  sysclk_set_leap, sysclk_max_freq,
}
use external_servo.Msg.{Received}
use external_servo.Main.{clock_invalid, device_init, Program}

-- What the kernel and the devices answer at the start: the descriptor of the socket, the devices,
-- `calloc`, the shared memory, `sysconf`, the reading of the system clock's limits, the capabilities
-- of a device (none where `ioctl` fails), and the reading of the clock's frequency.
pub record Environment : Type 0 where
  pub socket : ℤ
  pub open_device : List ℕ → ℤ
  pub alloc : ℕ → Bool
  pub api : ShmApi
  pub hz : ℤ
  pub limits : Option Timex
  pub caps : Option ℤ
  pub frequency : Option Timex

-- the start of the program: it returns -1, exits at an error of the clock, or comes to the loop
pub data Start {ℓ} (D : Type ℓ) : Type ℓ where
  failed : Start D
  exited : Start D
  ready : List Request → Program D → Start D

module _ {ℓ} (D : Type ℓ) ⦃d : Double D⦄ where
  -- the result, and `caps->max_adj` where it is written
  unfoldable pub phc_caps_get : Environment → Clockadj → ℤ → ℤ × Option ℤ
  phc_caps_get env c clkid =
      if eqb_ℤ clkid clock_realtime
      then (pos 0, some (sysclk_max_freq D c env.limits))
      else if not (eqb_ℤ clkid clock_invalid)
      then elim env.caps [ none ↦ (negsuc 0, none) | some max_adj ↦ (pos 0, some max_adj) ]
      else (pos 0, none)

  -- The system clock, if it is the time of day: its statics, the greatest frequency, and the requests.
  abbrev pub system_clock : Environment → Clockadj → ℤ → ℤ → List Request × Clockadj × ℤ
  system_clock env c tod_clk_id max_adj =
      let c' = clockadj_init env.hz c tod_clk_id in
      let (leap, c'') = sysclk_set_leap c' (pos 0) in
      if eqb_ℤ tod_clk_id clock_realtime
      then (leap ∷ [], c'', sysclk_max_freq D c' env.limits)
      else ([], c, max_adj)

module _ {ℓ} {D : Type ℓ} ⦃d : Double D⦄ where
  -- from the frequency of the clock on
  abbrev pub tuned :
      Environment
      → Received
      → Tsproc D
      → Clockadj
      → DeviceConfig
      → ServoConfig D
      → List Request
      → D
      → Start D
  tuned env m tsp c dev cfg requests fadj =
      elim (servo_create env.alloc env.api
        (record cfg { intial_adj = wrap32 (d.to_int64 (d.neg fadj)) })) [
          | none ↦ failed
          | some servo ↦
              ready (requests ++ (clockadj_set_freq c dev.freq_clk_id fadj ∷ [])) (record {
                tsp = tsp;
                servo = servo_sync_interval servo one;
                clockadj = c;
                device_config = dev;
                buffer = replicate 1500 0;
                received = m;
              })
        ]

  -- with the limit of the frequency
  abbrev pub limited :
      Environment → Received → Globals D → Clockadj → DeviceConfig → Tsproc D → ℤ → Start D
  limited env m g c dev tsp max_adj =
      let (requests, c', limit) = system_clock D env c dev.tod_clk_id max_adj in
      elim (clockadj_get_freq {D = D} c' dev.freq_clk_id env.frequency) [
        | none ↦ exited
        | some fadj ↦
            tuned env m tsp c' dev (record g.servo_config { max_frequency = d.of_int limit })
              requests fadj
      ]

  -- (The limit is not written where `ioctl` fails, and for the invalid clock, which `device_init` does not
  -- leave when it succeeds.)
  abbrev pub with_tsproc :
      Environment → Received → Globals D → Clockadj → DeviceConfig → Tsproc D → Start D
  with_tsproc env m g c dev tsp =
      let (rv, max_adj) = phc_caps_get D env c dev.freq_clk_id in
      elim max_adj [ none ↦ failed | some n ↦ limited env m g c dev tsp n ]

  -- `main` from the parsed configuration to its loop. The variables that the loop reads before they are
  -- written are arguments: the last message, and a buffer whose bytes are not written stands for zeros.
  unfoldable pub start : Environment → Received → Globals D → Clockadj → Start D
  unfolding device_init phc_caps_get
  start env m g c =
      let (rv, dev) = device_init env.open_device (record g.device_config { fd = env.socket }) in
      if ltb_ℤ env.socket (pos 0)
      then failed
      else if ltb_ℤ rv (pos 0)
      then failed
      else elim (tsproc_create {D = D} env.alloc dev.mode dev.filter dev.filter_len) [
        | none ↦ failed
        | some tsp ↦ with_tsproc env m g c dev tsp
      ]
