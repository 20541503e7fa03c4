-- ===== src/Tsproc.antt =====
-- tsproc.c: time stamps of both directions to a delay and an offset. The debug messages are left
-- out. A call that can fault returns an `Option`; behind it stand the C result, what goes through the
-- pointers (`none` where nothing is written), and the new state.
pub mod Laws
pub mod Delay
pub mod Offset
use external_servo.Prelude.{
  ℕ, Bool, true, false, not, Option, none, some, if◌then◌else◌, ◌==◌, ◌&&◌, ◌||◌, ◌>>=◌,
}
use external_servo.Prelude.Int.{ℤ, pos, negsuc, eqb_ℤ, ltb_ℤ}
use external_servo.Tmv.{Tmv, tmv_add, tmv_sub, tmv_div, tmv_sign, tmv_is_zero, tmv_zero}
use external_servo.Filter.Dispatch.{Filter, filter_create, filter_sample, filter_reset}
use external_servo.Double.{Double, one}

-- `enum tsproc_mode`
pub data TsprocMode : Type 0 where
  filter : TsprocMode
  raw : TsprocMode
  filter_weight : TsprocMode
  raw_weight : TsprocMode

-- `struct tsproc`
pub record Tsproc {ℓ} (D : Type ℓ) : Type ℓ where
  pub mode : TsprocMode
  pub clock_rate_ratio : D
  pub t1 : Tmv
  pub t2 : Tmv
  pub t3 : Tmv
  pub t4 : Tmv
  pub filtered_delay : Tmv
  pub filtered_delay_valid : Bool
  pub delay_filter : Filter

unfoldable pub weighting : TsprocMode → Bool
weighting filter = false
weighting raw = false
weighting filter_weight = true
weighting raw_weight = true

-- The value of the enumeration, which the configuration can leave out of its range.
unfoldable pub mode_of : ℤ → Option TsprocMode
mode_of m =
    if eqb_ℤ m (pos 0)
    then some filter
    else if eqb_ℤ m (pos 1)
    then some raw
    else if eqb_ℤ m (pos 2)
    then some filter_weight
    else if eqb_ℤ m (pos 3)
    then some raw_weight
    else none

-- what `*delay` gets
unfoldable pub chosen_delay : TsprocMode → Tmv → Tmv → Tmv
chosen_delay filter filtered raw_delay = filtered
chosen_delay filter_weight filtered raw_delay = filtered
chosen_delay raw filtered raw_delay = raw_delay
chosen_delay raw_weight filtered raw_delay = raw_delay

module _ {ℓ} {D : Type ℓ} ⦃d : Double D⦄ where
  -- `alloc` says which sizes `calloc` can serve: 72 bytes for the structure.
  unfoldable pub tsproc_create : (ℕ → Bool) → ℤ → ℤ → ℤ → Option (Tsproc D)
  unfolding mode_of
  tsproc_create alloc mode delay_filter filter_length = if not (alloc 72) then none else (do
    m ← mode_of mode
    f ← filter_create alloc delay_filter filter_length
    some (record {
      mode = m;
      clock_rate_ratio = one;
      t1 = pos 0;
      t2 = pos 0;
      t3 = pos 0;
      t4 = pos 0;
      filtered_delay = pos 0;
      filtered_delay_valid = false;
      delay_filter = f;
    }))

  unfoldable pub tsproc_down_ts : Tsproc D → Tmv → Tmv → Tsproc D
  tsproc_down_ts tsp remote_ts local_ts = record tsp { t1 = remote_ts; t2 = local_ts }

  unfoldable pub tsproc_up_ts : Tsproc D → Tmv → Tmv → Tsproc D
  tsproc_up_ts tsp local_ts remote_ts = record tsp { t3 = local_ts; t4 = remote_ts }

  unfoldable pub tsproc_set_clock_rate_ratio : Tsproc D → D → Tsproc D
  tsproc_set_clock_rate_ratio tsp ratio = record tsp { clock_rate_ratio = ratio }

  unfoldable pub tsproc_set_delay : Tsproc D → Tmv → Tsproc D
  tsproc_set_delay tsp delay = record tsp { filtered_delay = delay; filtered_delay_valid = true }

  -- ((t2 - t3) * rr + (t4 - t1)) / 2
  unfoldable pub get_raw_delay : Tsproc D → Option Tmv
  get_raw_delay tsp =
      let t23 = tmv_sub tsp.t2 tsp.t3 in
      let t23' =
        if not (d.same tsp.clock_rate_ratio one)
        then d.to_int64 (d.mul (d.of_int t23) tsp.clock_rate_ratio)
        else t23 in
      let t41 = tmv_sub tsp.t4 tsp.t1 in tmv_div (tmv_add t23' t41) (pos 2)

  -- `wanted` says whether the pointer `delay` is not NULL.
  unfoldable pub tsproc_update_delay : Tsproc D → Bool → Option (ℤ × Option Tmv × Tsproc D)
  tsproc_update_delay tsp wanted =
      if tmv_is_zero tsp.t2 == 1 || (tmv_is_zero tsp.t3 == 1)
      then some (negsuc 0, none, tsp)
      else (do
        raw_delay ← get_raw_delay tsp
        (filtered, f) ← filter_sample tsp.delay_filter raw_delay
        let tsp' = record tsp {
          filtered_delay = filtered;
          filtered_delay_valid = true;
          delay_filter = f;
        }
        let delay = if wanted then some (chosen_delay tsp.mode filtered raw_delay) else none
        some (pos 0, delay, tsp'))

  -- `(raw_delay, delay)` of the mode, or `none` for the early return of -1; the outer `none` is a
  -- fault. In the modes that do not compute it, `raw_delay` stays zero.
  unfoldable pub mode_delay : TsprocMode → Tsproc D → Option (Option (Tmv × Tmv))
  mode_delay filter tsp =
      if not tsp.filtered_delay_valid then some none else some (some (tmv_zero, tsp.filtered_delay))
  mode_delay raw tsp =
      if tmv_is_zero tsp.t3 == 1 then some none else (do r ← get_raw_delay tsp; some (some (r, r)))
  mode_delay raw_weight tsp =
      if tmv_is_zero tsp.t3 == 1 then some none else (do r ← get_raw_delay tsp; some (some (r, r)))
  mode_delay filter_weight tsp =
      if tmv_is_zero tsp.t3 == 1 || not tsp.filtered_delay_valid
      then some none
      else (do r ← get_raw_delay tsp; some (some (r, tsp.filtered_delay)))

  -- what `*weight` gets
  unfoldable pub sample_weight : Tsproc D → Tmv → D
  unfolding weighting
  sample_weight tsp raw_delay =
      if weighting tsp.mode
        && ltb_ℤ (pos 0) (tmv_sign tsp.filtered_delay)
        && ltb_ℤ (pos 0) (tmv_sign raw_delay)
      then (let w = d.div (d.of_int tsp.filtered_delay) (d.of_int raw_delay) in
          if d.lt one w then one else w)
      else one

  -- what is left to do when the mode has a delay: offset = t2 - t1 - delay
  unfoldable pub offset_reply : Tsproc D → Bool → Option (Tmv × Tmv) → ℤ × Option Tmv × Option D
  unfolding sample_weight
  offset_reply tsp wanted none = (negsuc 0, none, none)
  offset_reply tsp wanted (some (raw_delay, delay)) = (
    pos 0,
    some (tmv_sub (tmv_sub tsp.t2 tsp.t1) delay),
    if wanted then some (sample_weight tsp raw_delay) else none,
  )

  -- `wanted` says whether the pointer `weight` is not NULL. The state does not change.
  unfoldable pub tsproc_update_offset : Tsproc D → Bool → Option (ℤ × Option Tmv × Option D)
  tsproc_update_offset tsp wanted =
      if tmv_is_zero tsp.t1 == 1 || (tmv_is_zero tsp.t2 == 1)
      then some (negsuc 0, none, none)
      else (do found ← mode_delay tsp.mode tsp; some (offset_reply tsp wanted found))

  unfoldable pub tsproc_reset : Tsproc D → Bool → Tsproc D
  unfolding tmv_zero
  tsproc_reset tsp full =
      let cleared = record tsp { t1 = tmv_zero; t2 = tmv_zero; t3 = tmv_zero; t4 = tmv_zero } in
      if full
      then record cleared {
        clock_rate_ratio = one;
        delay_filter = filter_reset tsp.delay_filter;
        filtered_delay_valid = false;
      }
      else cleared
