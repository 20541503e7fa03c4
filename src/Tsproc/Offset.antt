-- ===== src/Tsproc/Offset.antt =====
-- tsproc.c: what the delay and the offset are on a path whose two directions take equally long.
use mathlib.Core.Path.{ap₂}
use external_servo.Prelude.{◌≡◌, ◌≢◌, ap, ◌∙◌, Bool, true, Option, none, some, if◌then◌else◌, arith}
use external_servo.Prelude.Int.{ℤ, pos, negsuc, ◌+ℤ◌, ◌-ℤ◌, ◌/ℤ◌, int_laws}
use external_servo.Prelude.Word.{IsInt64}
use external_servo.Tmv.{Tmv, tmv_sub, tmv_zero}
use external_servo.Tmv.Laws.{tmv_add_exact, tmv_sub_exact, tmv_div_pos, is_zero_false}
use external_servo.Double.{Double, one}
use external_servo.Tsproc.{
  Tsproc, TsprocMode, filter, raw, filter_weight, raw_weight, get_raw_delay, mode_delay,
  tsproc_update_offset, offset_reply, sample_weight,
}

half_double : (x : ℤ) → (x +ℤ x) /ℤ pos 2 ≡ x
unfolding ◌+ℤ◌ ◌/ℤ◌
half_double (pos n) = ground arith
half_double (negsuc n) = ground arith

both_ways :
    (t1 t3 delay offset : ℤ)
    → ((t1 +ℤ delay +ℤ offset) -ℤ t3) +ℤ ((t3 -ℤ offset +ℤ delay) -ℤ t1) ≡ delay +ℤ delay
both_ways t1 t3 delay offset = omega int_laws

one_way : (t1 delay offset : ℤ) → (t1 +ℤ delay +ℤ offset) -ℤ t1 ≡ delay +ℤ offset
one_way t1 delay offset = omega int_laws

take_delay : (delay offset : ℤ) → (delay +ℤ offset) -ℤ delay ≡ offset
take_delay delay offset = omega int_laws

-- The four stamps of an exchange: the local clock is ahead by `offset`, either way takes `delay`, and
-- no intermediate value leaves `int64_t`.
pub record Symmetric {ℓ} {D : Type ℓ} (tsp : Tsproc D) (delay offset : ℤ) : Type 0 where
  pub down : tsp.t2 ≡ tsp.t1 +ℤ delay +ℤ offset
  pub up : tsp.t4 ≡ tsp.t3 -ℤ offset +ℤ delay
  pub fits : IsInt64 (tsp.t2 -ℤ tsp.t3) × IsInt64 (tsp.t4 -ℤ tsp.t1) × IsInt64 (delay +ℤ delay)
  pub fits_offset : IsInt64 (delay +ℤ offset) × IsInt64 offset

module _ {ℓ} {D : Type ℓ} ⦃d : Double D⦄ where
  -- On a symmetric path, at the ratio one, `get_raw_delay` is the delay of the path.
  pub get_raw_delay_exact :
      (tsp : Tsproc D) (delay offset : ℤ)
      → Symmetric tsp delay offset
      → d.same tsp.clock_rate_ratio one ≡ true
      → get_raw_delay tsp ≡ some delay
  unfolding get_raw_delay
  get_raw_delay_exact tsp delay offset s r =
      let sum : (tsp.t2 -ℤ tsp.t3) +ℤ (tsp.t4 -ℤ tsp.t1) ≡ delay +ℤ delay =
        ap₂ (λ a b. (a -ℤ tsp.t3) +ℤ (b -ℤ tsp.t1)) s.down s.up
        ∙ both_ways tsp.t1 tsp.t3 delay offset in
      rw
        (
          r,
          tmv_sub_exact _ _ s.fits.0,
          tmv_sub_exact _ _ s.fits.1,
          tmv_add_exact (tsp.t2 -ℤ tsp.t3) (tsp.t4 -ℤ tsp.t1) (rw sum s.fits.2),
          sum,
        )
        (tmv_div_pos (delay +ℤ delay) 2 (omega arith) ∙ ap some (half_double delay))

-- In the modes that filter, the filtered delay is there, and is that of the path.
abbrev pub Settled : TsprocMode → Bool → Tmv → ℤ → Type 0
Settled filter valid filtered delay = (valid ≡ true) × (filtered ≡ delay)
Settled filter_weight valid filtered delay = (valid ≡ true) × (filtered ≡ delay)
Settled raw valid filtered delay = Unit {0}
Settled raw_weight valid filtered delay = Unit {0}

module _ {ℓ} {D : Type ℓ} ⦃d : Double D⦄ where
  -- A mode's delay on a symmetric path.
  mode_delay_exact :
      (mode : TsprocMode) (tsp : Tsproc D) (delay offset : ℤ)
      → Symmetric tsp delay offset
      → d.same tsp.clock_rate_ratio one ≡ true
      → tsp.t3 ≢ pos 0
      → Settled mode tsp.filtered_delay_valid tsp.filtered_delay delay
      → (r : Tmv) × (mode_delay mode tsp ≡ some (some (r, delay)))
  unfolding mode_delay
  mode_delay_exact filter tsp delay offset s q z f = (tmv_zero, rw (f.0, f.1))
  mode_delay_exact raw tsp delay offset s q z f =
      (delay, rw (is_zero_false tsp.t3 z, get_raw_delay_exact tsp delay offset s q))
  mode_delay_exact raw_weight tsp delay offset s q z f =
      (delay, rw (is_zero_false tsp.t3 z, get_raw_delay_exact tsp delay offset s q))
  mode_delay_exact filter_weight tsp delay offset s q z f =
      (delay, rw (is_zero_false tsp.t3 z, get_raw_delay_exact tsp delay offset s q, f.0, f.1))

  -- On a symmetric path, at the ratio one, with the stamps there and the filter settled, the offset
  -- of every mode is exactly that of the clocks.
  pub update_offset_exact :
      (tsp : Tsproc D) (delay offset : ℤ) (wanted : Bool)
      → Symmetric tsp delay offset
      → d.same tsp.clock_rate_ratio one ≡ true
      → tsp.t1 ≢ pos 0
      → tsp.t2 ≢ pos 0
      → tsp.t3 ≢ pos 0
      → Settled tsp.mode tsp.filtered_delay_valid tsp.filtered_delay delay
      → (w : Option D) × (tsproc_update_offset tsp wanted ≡ some (pos 0, some offset, w))
  unfolding tsproc_update_offset offset_reply
  update_offset_exact tsp delay offset wanted s q z1 z2 z3 f =
      let (r, e) = mode_delay_exact tsp.mode tsp delay offset s q z3 f in
      let moved : tsp.t2 -ℤ tsp.t1 ≡ delay +ℤ offset =
        ap (λ t. t -ℤ tsp.t1) s.down ∙ one_way tsp.t1 delay offset in
      let first : tmv_sub tsp.t2 tsp.t1 ≡ delay +ℤ offset =
        tmv_sub_exact _ _ (rw moved s.fits_offset.0) ∙ moved in
      let second : tmv_sub (tmv_sub tsp.t2 tsp.t1) delay ≡ offset =
        ap (λ t. tmv_sub t delay) first
        ∙ tmv_sub_exact _ _ (rw (take_delay delay offset) s.fits_offset.1)
        ∙ take_delay delay offset in
      (
        if wanted then some (sample_weight tsp r) else none,
        rw (is_zero_false tsp.t1 z1, is_zero_false tsp.t2 z2, e, second),
      )
