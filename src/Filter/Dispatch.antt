-- ===== src/Filter/Dispatch.antt =====
-- filter/filter.c: the filter behind its function pointers. An `enum filter_type` is the integer that
-- the caller passes, since the configuration can hold any.
pub mod Refine
use mathlib.Core.Option
use external_servo.Prelude.{ℕ, Bool, Option, none, some, if◌then◌else◌}
use external_servo.Prelude.Int.{ℤ, pos, eqb_ℤ}
use external_servo.Tmv.{Tmv}
use external_servo.Filter.Average.{Mave, mave_create, mave_accumulate, mave_reset}
use external_servo.Filter.Median.{Mmedian, mmedian_create, mmedian_sample, mmedian_reset}

-- `struct filter` with the structure around it: which functions it points to
pub data Filter : Type 0 where
  mave : Mave → Filter
  mmedian : Mmedian → Filter

abbrev pub filter_moving_average : ℤ
filter_moving_average = pos 0

abbrev pub filter_moving_median : ℤ
filter_moving_median = pos 1

unfoldable pub filter_create : (ℕ → Bool) → ℤ → ℤ → Option Filter
filter_create alloc type length =
    if eqb_ℤ type filter_moving_average
    then Option.map mave (mave_create alloc length)
    else if eqb_ℤ type filter_moving_median
    then Option.map mmedian (mmedian_create alloc length)
    else none

unfoldable pub filter_sample : Filter → Tmv → Option (Tmv × Filter)
filter_sample (mave m) sample = Option.map (λ (r, m'). (r, mave m')) (mave_accumulate m sample)
filter_sample (mmedian m) sample = Option.map (λ (r, m'). (r, mmedian m')) (mmedian_sample m sample)

unfoldable pub filter_reset : Filter → Filter
filter_reset (mave m) = mave (mave_reset m)
filter_reset (mmedian m) = mmedian (mmedian_reset m)
