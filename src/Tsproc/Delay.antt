-- ===== src/Tsproc/Delay.antt =====
-- tsproc.c: what `tsproc_update_delay` stores and passes on.
use external_servo.Prelude.{
  ◌≡◌, ◌≢◌, refl, ◌⊎◌, inl, inr, Bool, true, Option, none, some, List, if◌then◌else◌, arith,
  Bool-cases,
}
use external_servo.Prelude.Int.{ℤ, pos, ◌+ℤ◌, ◌-ℤ◌, ◌/ℤ◌}
use external_servo.Prelude.Word.{wrap64}
use external_servo.Double.{Double, one}
use external_servo.Tmv.{Tmv}
use external_servo.Tmv.Laws.{
  tmv_div_pos, is_zero_false, wrap64-tmv_sub, wrap64-add, tmv_add_wrapped,
}
use external_servo.Filter.Dispatch.Refine.{Computes, contents, len, step}
use external_servo.Filter.Ring.{push_window}
use external_servo.Tsproc.{
  TsprocMode, filter, raw, filter_weight, raw_weight, Tsproc, get_raw_delay, tsproc_update_delay,
  chosen_delay,
}

-- The delay that is passed on is the filtered one in the modes with a filter, and the raw one in the
-- others.
abbrev pub Passes : TsprocMode → Tmv → Tmv → Tmv → Type 0
Passes mode filtered raw_delay passed =
    ((mode ≡ filter ⊎ mode ≡ filter_weight) × (passed ≡ filtered))
    ⊎ ((mode ≡ raw ⊎ mode ≡ raw_weight) × (passed ≡ raw_delay))

chosen_delay-Passes :
    (mode : TsprocMode) (filtered raw_delay : Tmv)
    → Passes mode filtered raw_delay (chosen_delay mode filtered raw_delay)
unfolding chosen_delay
chosen_delay-Passes filter filtered raw_delay = inl (inl refl, refl)
chosen_delay-Passes filter_weight filtered raw_delay = inl (inr refl, refl)
chosen_delay-Passes raw filtered raw_delay = inr (inl refl, refl)
chosen_delay-Passes raw_weight filtered raw_delay = inr (inr refl, refl)

module _ {ℓ} {D : Type ℓ} ⦃d : Double D⦄ where
  -- The time that the two messages of an exchange are on their way, as 64 bits hold it: the time
  -- from the first stamp to the last, less that between the middle ones, which are of the other clock
  -- and are scaled by the ratio of the clocks where it is not one.
  abbrev pub travel : Tsproc D → ℤ
  travel tsp =
      if d.same tsp.clock_rate_ratio one
      then wrap64 (tsp.t2 -ℤ tsp.t3 +ℤ (tsp.t4 -ℤ tsp.t1))
      else wrap64 (
          d.to_int64 (d.mul (d.of_int (wrap64 (tsp.t2 -ℤ tsp.t3))) tsp.clock_rate_ratio)
          +ℤ (tsp.t4 -ℤ tsp.t1))

  get_raw_delay-travel : (tsp : Tsproc D) → get_raw_delay tsp ≡ some (travel tsp /ℤ pos 2)
  unfolding get_raw_delay
  get_raw_delay-travel tsp = elim (Bool-cases (d.same tsp.clock_rate_ratio one)) [
    | inl same ↦ rw (
      same,
      tmv_div_pos _ 2 (omega arith),
      wrap64-tmv_sub tsp.t2 tsp.t3,
      wrap64-tmv_sub tsp.t4 tsp.t1,
      wrap64-add (tsp.t2 -ℤ tsp.t3) (tsp.t4 -ℤ tsp.t1),
    )
    | inr other ↦ rw (
      other,
      tmv_div_pos _ 2 (omega arith),
      wrap64-tmv_sub tsp.t2 tsp.t3,
      wrap64-tmv_sub tsp.t4 tsp.t1,
      tmv_add_wrapped _ (tsp.t4 -ℤ tsp.t1),
    )
  ]

  -- What `tsproc_update_delay` does with both stamps of its direction there.
  pub record Updated (spec : List Tmv → Option Tmv) (tsp : Tsproc D) (wanted : Bool) : Type ℓ where
    pub filtered : Tmv
    pub passed : Tmv
    pub next : Tsproc D
    pub meant :
        spec (push_window (len tsp.delay_filter) (contents tsp.delay_filter) (travel tsp /ℤ pos 2))
        ≡ some filtered
    pub passes : Passes tsp.mode filtered (travel tsp /ℤ pos 2) passed
    pub returns :
        tsproc_update_delay tsp wanted ≡ some (pos 0, (if wanted then some passed else none), next)
    pub stored : next ≡ record tsp {
      filtered_delay = filtered;
      filtered_delay_valid = true;
      delay_filter = next.delay_filter;
    }
    pub valid : Computes spec next.delay_filter
    pub kept :
        (len next.delay_filter ≡ len tsp.delay_filter)
        × (contents next.delay_filter
            ≡ push_window (len tsp.delay_filter) (contents tsp.delay_filter) (travel tsp /ℤ pos 2))

  -- With both stamps of its direction there, the delay update never faults: the raw delay is half
  -- of the time that the two messages of the exchange are on their way (as 64 bits hold it, the
  -- middle part scaled by the ratio of the clocks where that is not one); the filter, which keeps
  -- its length, holds its window with the raw delay added, what it makes of that is stored as the
  -- filtered delay, marked valid, and nothing else changes; the delay passed on is the filtered
  -- one in the modes filter and filter_weight and the raw one in raw and raw_weight.
  pub update_delay_lem :
      (spec : List Tmv → Option Tmv) (tsp : Tsproc D) (wanted : Bool)
      → Computes spec tsp.delay_filter
      → tsp.t2 ≢ pos 0
      → tsp.t3 ≢ pos 0
      → Updated spec tsp wanted
  unfolding tsproc_update_delay
  update_delay_lem spec tsp wanted v z2 z3 =
      let r = travel tsp /ℤ pos 2 in
      let t = step spec tsp.delay_filter r v in
      record {
        filtered = t.result;
        passed = chosen_delay tsp.mode t.result r;
        next = record tsp {
          filtered_delay = t.result;
          filtered_delay_valid = true;
          delay_filter = t.next;
        };
        meant = t.meant;
        passes = chosen_delay-Passes tsp.mode t.result r;
        returns =
            rw (
              is_zero_false tsp.t2 z2,
              is_zero_false tsp.t3 z3,
              get_raw_delay-travel tsp,
              t.returns,
            );
        stored = refl;
        valid = t.valid;
        kept = (t.same_len, t.held);
      }
