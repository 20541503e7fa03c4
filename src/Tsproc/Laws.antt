-- ===== src/Tsproc/Laws.antt =====
-- tsproc.c: when it answers, what it leaves, and the bound on the weight.
use external_servo.Prelude.{
  ◌≡◌, refl, Bool, true, false, Option, none, some, arith, Option-cases, inl, inr,
}
use external_servo.Prelude.Int.{ℤ, negsuc}
use external_servo.Tmv.{Tmv, tmv_is_zero}
use external_servo.Tmv.Laws.{tmv_div_pos}
use external_servo.Double.{Double, IsOrdered, one}
use external_servo.Tsproc.{
  Tsproc, get_raw_delay, mode_delay, tsproc_update_offset, tsproc_update_delay, offset_reply,
  sample_weight, tsproc_reset,
}

module _ {ℓ} {D : Type ℓ} ⦃d : Double D⦄ where
  pub get_raw_delay_total : (tsp : Tsproc D) → (r : Tmv) × (get_raw_delay tsp ≡ some r)
  unfolding get_raw_delay
  get_raw_delay_total tsp = (_, tmv_div_pos _ 2 (omega arith))

  sample_weight-le :
      (laws : IsOrdered D) (tsp : Tsproc D) (r : Tmv) → d.lt one (sample_weight tsp r) ≡ false
  unfolding sample_weight
  sample_weight-le laws tsp r = ground (arith, laws.lt_irrefl one)

  reply-weight :
      (laws : IsOrdered D) (tsp : Tsproc D) (wanted : Bool) (found : Option (Tmv × Tmv)) {c : ℤ}
      {o : Option Tmv} {w : D}
      → offset_reply tsp wanted found ≡ (c, o, some w)
      → d.lt one w ≡ false
  unfolding offset_reply
  reply-weight laws tsp wanted none e = ground arith
  reply-weight laws tsp true (some (r, delay)) {w} e =
      let is : sample_weight tsp r ≡ w = ground arith in rw (← is) (sample_weight-le laws tsp r)
  reply-weight laws tsp false (some (r, delay)) e = ground arith

  -- The weight that an offset comes with is never above one.
  pub update_offset-weight :
      (laws : IsOrdered D) (tsp : Tsproc D) (wanted : Bool) {c : ℤ} {o : Option Tmv} {w : D}
      → tsproc_update_offset tsp wanted ≡ some (c, o, some w)
      → d.lt one w ≡ false
  unfolding tsproc_update_offset
  update_offset-weight laws tsp wanted {c} {o} {w} e =
      elim (Option-cases (mode_delay tsp.mode tsp)) [
        | inl k ↦ ground arith
        | inr (found, k) ↦
            let reply : offset_reply tsp wanted found ≡ (c, o, some w) = ground arith in
            reply-weight laws tsp wanted found reply
      ]

  -- After a reset, whichever, no offset and no delay comes before new stamps.
  pub update-reset :
      (tsp : Tsproc D) (full wanted : Bool)
      → (tsproc_update_offset (tsproc_reset tsp full) wanted ≡ some (negsuc 0, none, none))
        × (tsproc_update_delay (tsproc_reset tsp full) wanted
            ≡ some (negsuc 0, none, tsproc_reset tsp full))
  unfolding tsproc_update_offset tsproc_update_delay tsproc_reset tmv_is_zero
  update-reset tsp true wanted = (refl, refl)
  update-reset tsp false wanted = (refl, refl)
