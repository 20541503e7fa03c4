-- ===== src/Clockadj.antt =====
-- clockadj.c: the requests that the program makes of the kernel's clocks. A request is the
-- `struct timex` that `clock_adjtime` gets; what the call answers is an argument. Error messages are
-- left out.
pub mod Step
pub mod Compare
pub mod Limits
use external_servo.Prelude.{
  ℕ, zero, suc, ◌+◌, ◌-◌, ◌*◌, ◌^◌, Bool, true, false, not, ◌&&◌, Option, none, some, List, [], ◌∷◌,
  if◌then◌else◌,
}
use external_servo.Prelude.Int.{
  ℤ, pos, negsuc, ◌+ℤ◌, ◌-ℤ◌, ◌*ℤ◌, ◌/ℤ◌, ◌%ℤ◌, neg_ℤ, ltb_ℤ, leb_ℤ, eqb_ℤ,
}
use external_servo.Prelude.Word.{to_u64, wrap64, wrap32}
use external_servo.Double.{Double, nought}
use external_servo.Tmv.{ns_per_sec, Timespec}

-- `struct timex`: the fields that the program uses
pub record Timex : Type 0 where
  pub modes : ℕ
  pub offset : ℤ
  pub freq : ℤ
  pub status : ℤ
  pub constant : ℤ
  pub tolerance : ℤ
  pub tick : ℤ
  pub tv_sec : ℤ
  pub tv_usec : ℤ

-- a call of `clock_adjtime`
pub record Request : Type 0 where
  pub clkid : ℤ
  pub tx : Timex

-- the static variables
pub record Clockadj : Type 0 where
  pub realtime_leap_bit : ℤ
  pub realtime_hz : ℤ
  pub realtime_nominal_tick : ℤ

abbrev pub clock_realtime : ℤ
clock_realtime = pos 0

abbrev adj_offset : ℕ
adj_offset = 0x1

abbrev adj_frequency : ℕ
adj_frequency = 0x2

abbrev adj_maxerror : ℕ
adj_maxerror = 0x4

abbrev adj_status : ℕ
adj_status = 0x10

abbrev adj_tai : ℕ
adj_tai = 0x80

abbrev adj_setoffset : ℕ
adj_setoffset = 0x100

abbrev adj_nano : ℕ
adj_nano = 0x2000

abbrev adj_tick : ℕ
adj_tick = 0x4000

-- after `memset`
abbrev pub no_timex : Timex
no_timex = record {
  modes = 0;
  offset = pos 0;
  freq = pos 0;
  status = pos 0;
  constant = pos 0;
  tolerance = pos 0;
  tick = pos 0;
  tv_sec = pos 0;
  tv_usec = pos 0;
}

-- `hz` is what `sysconf(_SC_CLK_TCK)` answers.
pub clockadj_init : ℤ → Clockadj → ℤ → Clockadj
clockadj_init hz c clkid =
    let tick = (pos 1_000_000 +ℤ hz /ℤ pos 2) /ℤ hz in
    if not (eqb_ℤ clkid clock_realtime)
    then c
    else if ltb_ℤ (pos 0) hz
    then record c { realtime_hz = hz; realtime_nominal_tick = tick }
    else record c { realtime_hz = hz }

-- whether the tick of the system clock is set along with its frequency
unfoldable pub uses_tick : Clockadj → ℤ → Bool
uses_tick c clkid = eqb_ℤ clkid clock_realtime && not (eqb_ℤ c.realtime_nominal_tick (pos 0))

pub clockadj_set_phase : ℤ → ℤ → Request
clockadj_set_phase clkid offset = record {
  clkid = clkid;
  tx = record no_timex { modes = adj_offset + adj_nano; offset = offset };
}

-- `step *= -1` wraps at the least `int64_t`.
pub clockadj_step : ℤ → ℤ → Request
clockadj_step clkid step =
    let sign = if ltb_ℤ step (pos 0) then negsuc 0 else pos 1 in
    let step' = if ltb_ℤ step (pos 0) then wrap64 (neg_ℤ step) else step in
    let sec = sign *ℤ (step' /ℤ pos ns_per_sec) in
    let usec = sign *ℤ (step' %ℤ pos ns_per_sec) in
    let tx = record no_timex { modes = adj_setoffset + adj_nano } in
    record {
      clkid = clkid;
      tx =
          if ltb_ℤ usec (pos 0)
          then record tx { tv_sec = sec -ℤ pos 1; tv_usec = usec +ℤ pos 1_000_000_000 }
          else record tx { tv_sec = sec; tv_usec = usec };
    }

-- the status bit of a leap: -1 deletes a second (`STA_DEL`), 1 inserts one (`STA_INS`)
pub leap_status : ℤ → ℤ
leap_status leap =
    if eqb_ℤ leap (negsuc 0) then pos 0x20 else if eqb_ℤ leap (pos 1) then pos 0x10 else pos 0

pub sysclk_set_leap : Clockadj → ℤ → Request × Clockadj
unfolding leap_status
sysclk_set_leap c leap =
    let tx = record no_timex { modes = adj_status; status = leap_status leap } in
    (record { clkid = clock_realtime; tx = tx }, record c { realtime_leap_bit = tx.status })

pub sysclk_set_tai_offset : ℤ → Request
sysclk_set_tai_offset offset = record {
  clkid = clock_realtime;
  tx = record no_timex { modes = adj_tai; constant = offset };
}

pub sysclk_set_sync : Clockadj → Request
sysclk_set_sync c = record {
  clkid = clock_realtime;
  tx = record no_timex { modes = adj_status + adj_maxerror; status = c.realtime_leap_bit };
}

module _ {ℓ} {D : Type ℓ} ⦃d : Double D⦄ where
  open d use {literal, of_int, to_int64, add, sub, mul, div, round}

  pub clockadj_set_freq : Clockadj → ℤ → D → Request
  unfolding uses_tick
  clockadj_set_freq c clkid freq =
      let tick = to_int64 (
        add (round (div (div freq (literal 1000 0)) (of_int c.realtime_hz)))
          (of_int c.realtime_nominal_tick)) in
      let rest = sub freq (
        mul (mul (literal 1000 0) (of_int c.realtime_hz))
          (of_int (tick -ℤ c.realtime_nominal_tick))) in
      record {
        clkid = clkid;
        tx =
            if uses_tick c clkid
            then record no_timex {
              modes = adj_tick + adj_frequency;
              tick = tick;
              freq = to_int64 (mul rest (literal 65536 3));
            }
            else record no_timex {
              modes = adj_frequency;
              freq = to_int64 (mul freq (literal 65536 3));
            };
      }

  -- The frequency in the structure that the kernel answers with. On its error (`none`) the program exits.
  unfoldable pub clockadj_get_freq : Clockadj → ℤ → Option Timex → Option D
  unfolding uses_tick
  clockadj_get_freq c clkid none = none
  clockadj_get_freq c clkid (some tx) =
      let f = div (of_int tx.freq) (literal 65536 3) in
      let ticks =
        mul (mul (literal 1000 0) (of_int c.realtime_hz))
          (of_int (tx.tick -ℤ c.realtime_nominal_tick)) in
      some (if uses_tick c clkid && not (eqb_ℤ tx.tick (pos 0)) then add f ticks else f)

module _ {ℓ} (D : Type ℓ) ⦃d : Double D⦄ where
  -- the limit from the kernel's tolerance, or the default
  pub tolerance_freq : Option Timex → ℤ
  tolerance_freq none = pos 500_000
  tolerance_freq (some tx) =
      let f = wrap32 (d.to_int64 (d.div (d.of_int tx.tolerance) (d.literal 65536 3))) in
      if eqb_ℤ f (pos 0) then pos 500_000 else f

  -- The products are of type `long`, and the result an `int`.
  pub clockadj_max_freq : Clockadj → ℤ → Option Timex → ℤ
  unfolding uses_tick
  clockadj_max_freq c clkid answer =
      let f = tolerance_freq answer in
      let by_tick = wrap32 (((c.realtime_nominal_tick /ℤ pos 10) *ℤ pos 1000) *ℤ c.realtime_hz) in
      if uses_tick c clkid && leb_ℤ (pos 1000 *ℤ c.realtime_hz) (pos 2 *ℤ f) then by_tick else f

  pub sysclk_max_freq : Clockadj → Option Timex → ℤ
  unfolding clockadj_max_freq
  sysclk_max_freq c answer = clockadj_max_freq c clock_realtime answer
