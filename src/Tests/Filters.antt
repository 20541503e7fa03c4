-- ===== src/Tests/Filters.antt =====
-- The filters and the time stamp processor at concrete inputs.
use external_servo.Prelude.{
  Holds, ℕ, ◌≡◌, refl, sym, ap, ◌∙◌, none, true, false, Option, some, List, [], ◌∷◌, arith,
  replicate,
}
use external_servo.Prelude.Int.{ℤ, pos, negsuc, pos_nonzero, ◌+ℤ◌, ◌-ℤ◌}
use external_servo.Tmv.{tmv_sign, Tmv, tmv_zero, tmv_sub, tmv_add, tmv_div, tmv_is_zero}
use external_servo.Double.{whole}
use external_servo.Filter.Ring.{push_window}
use external_servo.Filter.Window.{Agree, run, windowed}
use external_servo.Filter.Average.{Mave, mave_create, mave_accumulate}
use external_servo.Filter.Median.{Mmedian, mmedian_create, mmedian_sample}
use external_servo.Filter.Median.Refine
use external_servo.Filter.Median.Refine.{run-mmedian_create}
use external_servo.Filter.Median.Bag.{mmedian_sample-bag}
use mathlib.Core.Path.{subst}
use mathlib.Core.Option.{some-injective}
use mathlib.Core.List.Perm
use mathlib.Core.Quot
use external_servo.Filter.Dispatch.{
  mmedian, filter_create, filter_sample, filter_reset, filter_moving_median,
}
use external_servo.Filter.Dispatch.Refine.{
  Computes, spec_of_type, run-filter_create, run-filter_reset, create-IsValid,
}
use external_servo.Tsproc.{
  offset_reply, get_raw_delay, mode_delay, Tsproc, raw, raw_weight, tsproc_update_offset,
}
use external_servo.Tsproc.Offset.{Symmetric, update_offset_exact}
use external_servo.Tsproc.Delay.{Updated, update_delay_lem}

abbrev samples : List Tmv
samples = pos 5 ∷ pos 1 ∷ negsuc 2 ∷ pos 9 ∷ pos 7 ∷ []

abbrev pub new_median : Mmedian
new_median = record {
  cnt = 0;
  len = 3;
  index = 0;
  order = replicate 3 0;
  samples = replicate 3 (pos 0);
}

abbrev new_average : ℕ → Mave
new_average n = record { cnt = 0; len = n; index = 0; sum = pos 0; val = replicate n (pos 0) }

median_created : filter_create (λ n. true) filter_moving_median (pos 3) ≡ some (mmedian new_median)
unfolding filter_create mmedian_create tmv_zero
median_created = refl

mmedian_created : mmedian_create (λ n. true) (pos 3) ≡ some new_median
unfolding mmedian_create tmv_zero
mmedian_created = refl

average_created : mave_create (λ n. true) (pos 3) ≡ some (new_average 3)
unfolding mave_create
average_created = refl

empty_created : mave_create (λ n. true) (pos 0) ≡ some (new_average 0)
unfolding mave_create
empty_created = refl

-- A new moving average of length zero faults at its first sample.
empty_faults : mave_accumulate (new_average 0) (pos 4) ≡ none
unfolding mave_accumulate
empty_faults = refl

run-filter_create_example :
    Agree
      (run filter_sample (mmedian new_median) samples)
      (windowed (spec_of_type filter_moving_median) 3 [] samples)
run-filter_create_example =
    run-filter_create (λ n. true) filter_moving_median 3 samples (omega arith) median_created

pub median-Computes : Computes (spec_of_type filter_moving_median) (mmedian new_median)
median-Computes = (create-IsValid (λ n. true) filter_moving_median 3 (omega arith) median_created).0

run-filter_reset_example :
    Agree
      (run filter_sample (filter_reset (mmedian new_median)) samples)
      (windowed (spec_of_type filter_moving_median) 3 [] samples)
run-filter_reset_example =
    run-filter_reset (spec_of_type filter_moving_median) samples (mmedian new_median)
      median-Computes

-- The local clock is 100 ahead, and either way takes 40.
abbrev pub exchange : Tsproc ℤ
exchange = record {
  mode = raw;
  clock_rate_ratio = pos 1;
  t1 = pos 1000;
  t2 = pos 1140;
  t3 = pos 1300;
  t4 = pos 1240;
  filtered_delay = pos 0;
  filtered_delay_valid = false;
  delay_filter = mmedian new_median;
}

exchange-Symmetric : Symmetric exchange (pos 40) (pos 100)
unfolding ◌+ℤ◌ ◌-ℤ◌
exchange-Symmetric = record {
  down = refl;
  up = refl;
  fits = ((omega arith, omega arith), (omega arith, omega arith), (omega arith, omega arith));
  fits_offset = ((omega arith, omega arith), (omega arith, omega arith));
}

update_offset_exact_example :
    (w : Option ℤ) × (tsproc_update_offset exchange true ≡ some (pos 0, some (pos 100), w))
update_offset_exact_example =
    update_offset_exact exchange (pos 40) (pos 100) true exchange-Symmetric refl
      (pos_nonzero 1000 (omega arith)) (pos_nonzero 1140 (omega arith))
      (pos_nonzero 1300 (omega arith)) tt

update_delay_lem_example : Updated (spec_of_type filter_moving_median) exchange true
update_delay_lem_example =
    update_delay_lem (spec_of_type filter_moving_median) exchange true median-Computes
      (pos_nonzero 1140 (omega arith)) (pos_nonzero 1300 (omega arith))

-- With weights, the first offset: the raw delay of 40 and the ratio one.
abbrev weighted : Tsproc ℤ
weighted = record exchange {
  mode = raw_weight;
  filtered_delay = pos 40;
  filtered_delay_valid = true;
}

weighted_offset : tsproc_update_offset weighted true ≡ some (pos 0, some (pos 100), some (pos 1))
unfolding tsproc_update_offset tmv_is_zero mode_delay get_raw_delay tmv_div tmv_add tmv_sub
    offset_reply tmv_sign
weighted_offset = refl

-- A moving median that has seen one sample: 5, or 7.
abbrev after_five : Mmedian
after_five = record {
  cnt = 1;
  len = 3;
  index = 1;
  order = replicate 3 0;
  samples = pos 5 ∷ pos 0 ∷ pos 0 ∷ [];
}

abbrev after_seven : Mmedian
after_seven = record after_five { samples = pos 7 ∷ pos 0 ∷ pos 0 ∷ [] }

new_median-IsValid : Refine.IsValid new_median
new_median-IsValid = (Refine.create-IsValid (λ n. true) 3 mmedian_created).0

mmedian_sample-IsValid_example :
    Holds
      (λ r.
        Refine.IsValid r.1
        × (r.1.len ≡ 3)
        × (Refine.contents r.1 ≡ push_window 3 (Refine.contents new_median) (pos 5)))
      (mmedian_sample new_median (pos 5))
mmedian_sample-IsValid_example = Refine.mmedian_sample-IsValid new_median (pos 5) new_median-IsValid

-- what a call from the new filter leaves
called-IsValid :
    (s r : Tmv) (m : Mmedian) → mmedian_sample new_median s ≡ some (r, m) → Refine.IsValid m
called-IsValid s r m e =
    let t = Refine.step new_median s new_median-IsValid in
    subst Refine.IsValid (ap (λ z. z.1) (some-injective _ _ (sym t.returns ∙ e))) t.valid

five-called : mmedian_sample new_median (pos 5) ≡ some (pos 5, after_five)
unfolding mmedian_sample
five-called = refl

seven-called : mmedian_sample new_median (pos 7) ≡ some (pos 7, after_seven)
unfolding mmedian_sample
seven-called = refl

mmedian_sample-bag_example :
    (r : Tmv) × (m : Mmedian) × (n : Mmedian) × (mmedian_sample after_five (pos 7) ≡ some (r, m))
    × (mmedian_sample after_seven (pos 5) ≡ some (r, n))
mmedian_sample-bag_example =
    mmedian_sample-bag after_five after_seven (pos 7) (pos 5)
      (called-IsValid (pos 5) (pos 5) after_five five-called)
      (called-IsValid (pos 7) (pos 7) after_seven seven-called)
      (Quot.sound (Perm.swap (pos 7) (pos 5) []))
