-- ===== src/Main/Update.antt =====
-- `clock_update` and `path_delay`: with every kind of servo the calls that set a frequency stay in its
-- range or are NaN, and no part faults.
use external_servo.Prelude.{
  ◌≡◌, refl, sym, ◌⊎◌, inl, inr, true, Option, none, some, List, [], All, if-both, Holds, yields,
  Holds-bind, Holds-if, arith, ◌==◌, ◌||◌, not,
}
use mathlib.Core.Path.{subst}
use external_servo.Prelude.Int.{ℤ, pos, negsuc, eqb_ℤ}
use external_servo.Prelude.Word.{to_u64}
use external_servo.Double.{Double, IsOrdered, IsSigned}
use external_servo.Config.Types.{DeviceConfig}
use external_servo.Tmv.{Tmv, tmv_is_zero}
use external_servo.Tsproc.Laws.{get_raw_delay_total}
use external_servo.Filter.Dispatch.Refine
use external_servo.Tsproc.{
  Tsproc, TsprocMode, filter, raw, filter_weight, raw_weight, mode_delay, offset_reply,
  tsproc_update_offset, tsproc_update_delay, tsproc_down_ts, tsproc_up_ts,
  tsproc_set_clock_rate_ratio, tsproc_reset,
}
use external_servo.Servo.Base.{ServoState, unlocked, jump, locked, locked_stable}
use external_servo.Servo.Range.{IsLimited}
use external_servo.Servo.Dispatch.{servo_rate_ratio, ServoObject, servo_sample}
use external_servo.Main.{
  Action, set_freq, step, set_phase, set_sync, actions, synced, after_sample, sampled, replied,
  clock_update, path_delay,
}
use external_servo.Main.Tracking.{IsLimited-neg_of, IsTracking, servo_sample-Sampled}

module _ {ℓ} {D : Type ℓ} ⦃d : Double D⦄ where
  -- a call that sets a frequency sets one in range, or NaN
  abbrev pub IsBounded : D → Action D → Type 0
  IsBounded top (set_freq clkid freq) = IsLimited top freq
  IsBounded top (step clkid offset) = Unit
  IsBounded top (set_phase clkid offset) = Unit
  IsBounded top set_sync = Unit

  synced-IsBounded : (top : D) (dev : DeviceConfig) → All (IsBounded top) (synced dev)
  synced-IsBounded top dev =
      if-both (All (IsBounded top)) (eqb_ℤ dev.freq_clk_id (pos 0)) (tt, tt) tt

  actions-IsBounded :
      IsSigned D
      → (top : D) (dev : DeviceConfig) (state : ServoState) (adj : D) (offset : ℤ)
      → (state ≡ unlocked) ⊎ IsLimited top adj
      → All (IsBounded top) (actions dev state adj offset)
  unfolding actions
  actions-IsBounded laws top dev unlocked adj offset h = tt
  actions-IsBounded laws top dev jump adj offset (inr h) =
      (IsLimited-neg_of laws top adj h, (tt, tt))
  actions-IsBounded laws top dev locked adj offset (inr h) =
      (IsLimited-neg_of laws top adj h, synced-IsBounded top dev)
  actions-IsBounded laws top dev locked_stable adj offset (inr h) = (tt, synced-IsBounded top dev)
  actions-IsBounded laws top dev jump adj offset (inl e) = absurd (ground arith)
  actions-IsBounded laws top dev locked adj offset (inl e) = absurd (ground arith)
  actions-IsBounded laws top dev locked_stable adj offset (inl e) = absurd (ground arith)

  -- the reply of `tsproc_update_offset` to a caller that wants the weight
  abbrev IsReply : ℤ × Option Tmv × Option D → Type ℓ
  IsReply r =
      let (rv, offset, weight) = r in
      (rv ≡ negsuc 0) ⊎ ((rv ≡ pos 0) × (o : Tmv) × (w : D) × (offset ≡ some o) × (weight ≡ some w))

  offset_reply-IsReply :
      (tsp : Tsproc D) (found : Option (Tmv × Tmv)) → IsReply (offset_reply tsp true found)
  unfolding offset_reply
  offset_reply-IsReply tsp none = inl refl
  offset_reply-IsReply tsp (some (r, delay)) = inr (refl, _, _, refl, refl)

  mode_delay_total :
      (mode : TsprocMode) (tsp : Tsproc D) → Holds (λ found. Unit {0}) (mode_delay mode tsp)
  unfolding mode_delay
  mode_delay_total filter tsp = Holds-if (not tsp.filtered_delay_valid) (yields tt) (yields tt)
  mode_delay_total raw tsp =
      let (r, e) = get_raw_delay_total tsp in
      Holds-if (tmv_is_zero tsp.t3 == 1) (yields tt) (rw e (yields tt))
  mode_delay_total raw_weight tsp =
      let (r, e) = get_raw_delay_total tsp in
      Holds-if (tmv_is_zero tsp.t3 == 1) (yields tt) (rw e (yields tt))
  mode_delay_total filter_weight tsp =
      let (r, e) = get_raw_delay_total tsp in
      Holds-if (tmv_is_zero tsp.t3 == 1 || not tsp.filtered_delay_valid) (yields tt)
        (rw e (yields tt))

  update_offset-IsReply : (tsp : Tsproc D) → Holds IsReply (tsproc_update_offset tsp true)
  unfolding tsproc_update_offset
  update_offset-IsReply tsp =
      Holds-if (tmv_is_zero tsp.t1 == 1 || (tmv_is_zero tsp.t2 == 1)) (yields (inl refl)) (
        Holds-bind (mode_delay_total tsp.mode tsp)
          (λ found u. yields (offset_reply-IsReply tsp found)))

  after_sample-filter :
      (state : ServoState) (tsp : Tsproc D)
      → (after_sample state tsp).delay_filter ≡ tsp.delay_filter
  unfolding tsproc_reset
  after_sample-filter unlocked tsp = refl
  after_sample-filter jump tsp = refl
  after_sample-filter locked tsp = refl
  after_sample-filter locked_stable tsp = refl

  -- the calls, the time stamp processor and the servo after an update
  abbrev pub Updates : D → Tsproc D → List (Action D) × Tsproc D × ServoObject D → Type ℓ
  Updates top tsp r =
      let (acts, tsp', servo) = r in
      All (IsBounded top) acts
      × (servo.base.max_frequency ≡ top)
      × IsTracking servo
      × (tsp'.delay_filter ≡ tsp.delay_filter)

  sampled-Updates :
      IsOrdered D
      → IsSigned D
      → (dev : DeviceConfig) (tsp : Tsproc D) (servo : ServoObject D) (t2 offset : ℤ) (weight : D)
      → IsTracking servo
      → Holds (Updates servo.base.max_frequency tsp) (sampled dev tsp servo t2 offset weight)
  unfolding servo_sample tsproc_set_clock_rate_ratio
  sampled-Updates o laws dev tsp servo t2 offset weight h =
      Holds-bind (servo_sample-Sampled o laws servo offset (to_u64 t2) weight unlocked h)
        (λ (adj, state, servo') (same, tracking, answer). yields (
          actions-IsBounded laws servo.base.max_frequency dev state adj offset answer,
          same,
          tracking,
          after_sample-filter state (tsproc_set_clock_rate_ratio tsp (servo_rate_ratio servo')),
        ))

  replied-refused :
      (dev : DeviceConfig) (tsp : Tsproc D) (servo : ServoObject D) (t2 : ℤ) (offset : Option Tmv)
      (weight : Option D)
      → replied dev tsp servo t2 (negsuc 0, offset, weight) ≡ some ([], tsp, servo)
  replied-refused dev tsp servo t2 none weight = refl
  replied-refused dev tsp servo t2 (some offset) none = refl
  replied-refused dev tsp servo t2 (some offset) (some weight) = refl

  replied-Updates :
      IsOrdered D
      → IsSigned D
      → (dev : DeviceConfig) (tsp : Tsproc D) (servo : ServoObject D) (t2 : ℤ)
        (r : ℤ × Option Tmv × Option D)
      → IsTracking servo
      → IsReply r
      → Holds (Updates servo.base.max_frequency tsp) (replied dev tsp servo t2 r)
  replied-Updates o laws dev tsp servo t2 (rv, offset, weight) h (inl e) =
      let refused : (rv, offset, weight) ≡ (negsuc 0, offset, weight) =
        λ i. (e i, offset, weight) in
      subst (λ r. Holds (Updates servo.base.max_frequency tsp) (replied dev tsp servo t2 r))
        (sym refused)
        (rw (replied-refused dev tsp servo t2 offset weight) (yields (tt, refl, h, refl)))
  replied-Updates o laws dev tsp servo t2 (rv, offset, weight) h (inr (e, x, w, eo, ew)) =
      let accepted : (rv, offset, weight) ≡ (pos 0, some x, some w) = λ i. (e i, eo i, ew i) in
      subst (λ r. Holds (Updates servo.base.max_frequency tsp) (replied dev tsp servo t2 r))
        (sym accepted) (sampled-Updates o laws dev tsp servo t2 x w h)

  pub clock_update-Updates :
      IsOrdered D
      → IsSigned D
      → (dev : DeviceConfig) (tsp : Tsproc D) (servo : ServoObject D) (t1 t2 : ℤ) → IsTracking servo
      → Holds (Updates servo.base.max_frequency tsp) (clock_update dev tsp servo t1 t2)
  unfolding clock_update
  clock_update-Updates o laws dev tsp servo t1 t2 h =
      Holds-bind (update_offset-IsReply (tsproc_down_ts tsp t1 t2))
        (λ r reply. replied-Updates o laws dev (tsproc_down_ts tsp t1 t2) servo t2 r h reply)

  update_delay-IsValid :
      (tsp : Tsproc D)
      → Refine.IsValid tsp.delay_filter
      → Holds (λ r. Refine.IsValid r.2.delay_filter) (tsproc_update_delay tsp true)
  unfolding tsproc_update_delay
  update_delay-IsValid tsp v =
      let (r, e) = get_raw_delay_total tsp in
      let t = Refine.step (Refine.spec_of tsp.delay_filter) tsp.delay_filter r (v, refl) in
      Holds-if (tmv_is_zero tsp.t2 == 1 || (tmv_is_zero tsp.t3 == 1)) (yields v)
        (rw (e, t.returns) (yields t.valid.0))

  pub path_delay-IsValid :
      (tsp : Tsproc D) (t3 t4 : ℤ)
      → Refine.IsValid tsp.delay_filter
      → Holds (λ tsp'. Refine.IsValid tsp'.delay_filter) (path_delay tsp t3 t4)
  unfolding path_delay
  path_delay-IsValid tsp t3 t4 v =
      Holds-bind (update_delay-IsValid (tsproc_up_ts tsp t3 t4) v)
        (λ (rv, delay, tsp') v'. yields v')
