-- ===== src/Main.antt =====
-- main.c, and the identifiers of clocks of utils.h: the devices, the start of the program, and its loop
-- from a datagram to the calls of clockadj.c. A fault of a part is `none`.
pub mod Clocks
pub mod Start
pub mod Tracking
pub mod Update
pub mod Receive
pub mod Creation
pub mod Whole
pub mod Deliver
pub mod Polls
pub mod Entry
pub mod Serves
use external_servo.Prelude.{
  ℕ, zero, suc, ◌+◌, ◌/◌, ◌%◌, ◌^◌, Bool, true, false, not, ◌&&◌, Option, none, some, ◌>>=◌, List,
  [], ◌∷◌, ◌++◌, if◌then◌else◌, ◌==◌, length, take, drop,
}
use external_servo.Prelude.Int.{ℤ, pos, negsuc, ◌+ℤ◌, ◌*ℤ◌, neg_ℤ, ltb_ℤ, eqb_ℤ}
use external_servo.Prelude.Word.{to_u64, wrap64, wrap32}
use external_servo.Double.{Double, one}
use external_servo.Tsproc.{
  Tsproc, tsproc_create, tsproc_down_ts, tsproc_up_ts, tsproc_update_offset, tsproc_update_delay,
  tsproc_set_clock_rate_ratio, tsproc_reset,
}
use external_servo.Config.Types.{ServoConfig, DeviceConfig}
use external_servo.Config.Tables.{same_text}
use external_servo.Config.State.{Globals}
use external_servo.Servo.Base.{ServoState, unlocked, jump, locked, locked_stable}
use external_servo.Servo.Dispatch.{
  ServoObject, servo_create, servo_sample, servo_rate_ratio, servo_sync_interval,
}
use external_servo.Servo.Ntpshm.{ShmApi}
use external_servo.Clockadj.{
  Timex, Request, Clockadj, clock_realtime, clockadj_init, clockadj_set_freq, clockadj_get_freq,
  clockadj_set_phase, clockadj_step, sysclk_set_leap, sysclk_set_sync, sysclk_max_freq,
}
use external_servo.Msg.{
  Received, tlv_slave_rx_sync_timing_data, slave_delay_timing_data_np, process_message,
}

abbrev pub clock_invalid : ℤ
clock_invalid = negsuc 0

-- `~x` of an `int`
abbrev bit_not : ℤ → ℤ
bit_not (pos n) = negsuc n
bit_not (negsuc n) = pos n

-- `(~(clockid_t)(fd) << 3) | CLOCKFD`: the three low digits are free for the 3.
unfoldable pub fd_to_clockid : ℤ → ℤ
fd_to_clockid fd = wrap32 (bit_not fd *ℤ pos 8 +ℤ pos 3)

-- `x >> 3` of an `int`
abbrev shift_right3 : ℤ → ℤ
shift_right3 (pos n) = pos (n / 8)
shift_right3 (negsuc n) = negsuc (n / 8)

-- of type `unsigned int`, and stored as an `int`
unfoldable pub clockid_to_fd : ℤ → ℤ
clockid_to_fd clk = wrap32 (bit_not (shift_right3 clk))

-- `fd` is what `open` answers.
unfoldable pub phc_init : ℤ → ℤ
phc_init fd = if ltb_ℤ fd (pos 0) then clock_invalid else fd_to_clockid fd

-- `open_device` is the descriptor of a device, or negative.
unfoldable pub device_init : (List ℕ → ℤ) → DeviceConfig → ℤ × DeviceConfig
unfolding phc_init fd_to_clockid
device_init open_device cfg =
    let freq = phc_init (open_device cfg.freq_device) in
    let tod = phc_init (open_device cfg.tod_device) in
    if length cfg.freq_device == 0 && (length cfg.tod_device == 0)
    then (pos 0, record cfg { freq_clk_id = clock_realtime; tod_clk_id = clock_realtime })
    else if same_text cfg.freq_device cfg.tod_device
    then (if eqb_ℤ freq clock_invalid
        then (negsuc 0, cfg)
        else (pos 0, record cfg { freq_clk_id = freq; tod_clk_id = freq }))
    else if eqb_ℤ tod clock_invalid
    then (negsuc 0, cfg)
    else if eqb_ℤ freq clock_invalid
    then (negsuc 0, record cfg { tod_clk_id = tod })
    else (pos 0, record cfg { tod_clk_id = tod; freq_clk_id = freq })

-- a call of clockadj.c
pub data Action {ℓ} (D : Type ℓ) : Type ℓ where
  set_freq : ℤ → D → Action D
  step : ℤ → ℤ → Action D
  set_phase : ℤ → ℤ → Action D
  set_sync : Action D

-- the variables of the loop of `main`; `buffer` is `data`, the buffer of `MAX_PKT_LEN` bytes
pub record Program {ℓ} (D : Type ℓ) : Type ℓ where
  pub tsp : Tsproc D
  pub servo : ServoObject D
  pub clockadj : Clockadj
  pub device_config : DeviceConfig
  pub buffer : List ℕ
  pub received : Received

-- a round of the loop: `poll` fails, times out, finds another event, or a datagram is there, which
-- `recvfrom` may fail to read
pub data Event : Type 0 where
  poll_failed : Event
  timeout : Event
  other_event : Event
  datagram : List ℕ → Event
  recv_failed : Event

-- The bytes of a datagram stand in front of those of the last ones; `recvfrom` cuts it to the buffer.
abbrev pub stored : List ℕ → List ℕ → List ℕ
stored bytes buffer = take (length buffer) bytes ++ drop (length bytes) buffer

module _ {ℓ} {D : Type ℓ} ⦃d : Double D⦄ where
  -- the request that a call makes
  unfoldable pub request : Clockadj → Action D → Request
  request c (set_freq clkid freq) = clockadj_set_freq c clkid freq
  request c (step clkid offset) = clockadj_step clkid offset
  request c (set_phase clkid offset) = clockadj_set_phase clkid offset
  request c set_sync = sysclk_set_sync c

  -- after a frequency or a phase
  abbrev pub synced : DeviceConfig → List (Action D)
  synced dev = if eqb_ℤ dev.freq_clk_id clock_realtime then set_sync ∷ [] else []

  -- The `switch` of `clock_update`. (The phase is a double converted to `long`.)
  unfoldable pub actions : DeviceConfig → ServoState → D → ℤ → List (Action D)
  unfolding neg_ℤ wrap64
  actions dev unlocked adj offset = []
  actions dev jump adj offset =
      set_freq dev.freq_clk_id (d.neg adj) ∷ step dev.tod_clk_id (wrap64 (neg_ℤ offset)) ∷ []
  actions dev locked adj offset = set_freq dev.freq_clk_id (d.neg adj) ∷ synced dev
  actions dev locked_stable adj offset =
      set_phase dev.freq_clk_id (d.to_int64 (d.neg adj)) ∷ synced dev

  abbrev pub after_sample : ServoState → Tsproc D → Tsproc D
  after_sample jump tsp = tsproc_reset tsp false
  after_sample _ tsp = tsp

  -- `clock_update` from the offset on
  abbrev pub sampled :
      DeviceConfig
      → Tsproc D
      → ServoObject D
      → ℤ
      → ℤ
      → D
      → Option (List (Action D) × Tsproc D × ServoObject D)
  sampled dev tsp servo t2 offset weight = do
    (adj, state, servo') ← servo_sample servo offset (to_u64 t2) weight unlocked
    let tsp' = after_sample state (tsproc_set_clock_rate_ratio tsp (servo_rate_ratio servo'))
    some (actions dev state adj offset, tsp', servo')

  -- with the reply of `tsproc_update_offset`
  abbrev pub replied :
      DeviceConfig
      → Tsproc D
      → ServoObject D
      → ℤ
      → ℤ × Option ℤ × Option D
      → Option (List (Action D) × Tsproc D × ServoObject D)
  replied dev tsp servo t2 (rv, some offset, some weight) =
      let next = sampled dev tsp servo t2 offset weight in
      if eqb_ℤ rv (pos 0) then next else some ([], tsp, servo)
  replied dev tsp servo t2 (rv, _, _) = if eqb_ℤ rv (pos 0) then none else some ([], tsp, servo)

  unfoldable pub clock_update :
      DeviceConfig
      → Tsproc D
      → ServoObject D
      → ℤ
      → ℤ
      → Option (List (Action D) × Tsproc D × ServoObject D)
  unfolding actions servo_sample servo_rate_ratio tsproc_update_offset tsproc_down_ts
      tsproc_set_clock_rate_ratio tsproc_reset
  clock_update dev tsp servo t1 t2 = do
    reply ← tsproc_update_offset (tsproc_down_ts tsp t1 t2) true
    replied dev (tsproc_down_ts tsp t1 t2) servo t2 reply

  unfoldable pub path_delay : Tsproc D → ℤ → ℤ → Option (Tsproc D)
  unfolding tsproc_update_delay tsproc_up_ts
  path_delay tsp t3 t4 = do
    (rv, delay, tsp') ← tsproc_update_delay (tsproc_up_ts tsp t3 t4) true
    some tsp'

  -- the `switch` on the type of the message, which keeps the times of the last one
  unfoldable pub dispatched : Program D → Option (List (Action D) × Program D)
  unfolding clock_update path_delay
  dispatched p =
      let m = p.received in
      let sync = do
        (acts, tsp, servo) ← clock_update p.device_config p.tsp p.servo m.master_time m.slave_time
        some (acts, record p { tsp = tsp; servo = servo })
      in let delay = do
        tsp ← path_delay p.tsp m.slave_time m.master_time
        some ([], record p { tsp = tsp })
        in if m.tlv_type == tlv_slave_rx_sync_timing_data
          then sync
          else if m.tlv_type == slave_delay_timing_data_np
          then delay
          else some ([], p)

  -- a count that is not zero
  unfoldable pub handled : Program D → Option (List (Action D) × Program D)
  unfolding dispatched
  handled p = do m ← process_message p.buffer p.received; dispatched (record p { received = m })

  -- A round: whether the loop goes on, the calls, and the state. (The -1 of a failed `recvfrom` is a
  -- count of 65535.)
  unfoldable pub round : Program D → Event → Option (Bool × List (Action D) × Program D)
  unfolding handled
  round p poll_failed = some (false, [], p)
  round p timeout = some (true, [], p)
  round p other_event = some (true, [], p)
  round p recv_failed = do (acts, q) ← handled p; some (true, acts, q)
  round p (datagram bytes) =
      let received = do
        (acts, q) ← handled (record p { buffer = stored bytes p.buffer })
        some (true, acts, q)
      in if length bytes == 0 then some (true, [], p) else received
