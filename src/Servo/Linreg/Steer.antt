-- ===== src/Servo/Linreg/Steer.antt =====
-- servo/linreg/linreg.c: the frequency that `linreg_sample` answers with, with exact arithmetic and the
-- points on a line.
use external_servo.Prelude.{
  ℕ, ◌/◌, ◌^◌, ◌≤◌, ◌≡◌, refl, true, false, some, List, ◌∷◌, if◌then◌else◌, leb, ltb, take, All,
  arith, le→not-ltb, length, Holds, yields,
}
use external_servo.Prelude.Int.{ℤ, pos}
use external_servo.Prelude.Word.{of_u64}
use external_servo.Double.{Double, IsField, one, nonzero}
use external_servo.Servo.Base.{sub_u64, Servo, ServoState, locked}
use external_servo.Servo.Points.{Point, LinregServo, no_sums}
use external_servo.Servo.Linreg.{
  step_or_track, update_reference, add_sample, update_size, use_size, must_step, set_frequency,
  clamp_clock_freq, linreg_sample,
}
use external_servo.Servo.Linreg.Regress.{Stored, sums, regressions, regress_lem}
use external_servo.Servo.Linreg.Line.{OnLine, IsSpread, regressions-Found}
use external_servo.Servo.Linreg.Choice.{
  Unused, Picked, regressions-Unused, some_regressions, settled, first-Picked,
}

module _ {ℓ} {D : Type ℓ} ⦃d : Double D⦄ where
  open d use {literal, of_int, add, sub, mul, div, neg}

  -- The frequency of the clock that follows the line, with its intercept corrected over the intervals of
  -- the size, as far as the hardware can.
  abbrev pub steer : Servo D → D → D → D → ℕ → D
  steer servo interval a b size = clamp_clock_freq servo.max_frequency (
      add (mul (literal 1_000_000_000 0) (sub b one))
        (div (div a interval) (of_int (pos (if leb size 4 then 1 else size / 2)))))

  -- the answer of a size with points enough
  abbrev pub Steers : Servo D → LinregServo D → D → D → D × ServoState × LinregServo D → Type ℓ
  Steers servo s a b r =
      let (ppb, state, s') = r in
      (state ≡ locked)
      × (2 ≤ s'.size)
      × (2 ^ s'.size ≤ s.num_points)
      × (ppb ≡ neg (steer servo s.update_interval a b s'.size))
      × (s'.clock_freq ≡ steer servo s.update_interval a b s'.size)

  use_size-Steers :
      (servo : Servo D) (s : LinregServo D) (a b : D) (offset : ℤ)
      → Picked s.num_points a b 2 s.results s.size
      → must_step servo a ≡ false
      → Holds (Steers servo s a b) (use_size servo s offset)
  unfolding use_size step_or_track set_frequency
  use_size-Steers servo s a b offset (res, e, slope, intercept, full, le) calm =
      let sized : ltb s.size 2 ≡ false = le→not-ltb s.size 2 le in
      rw (sized, e, intercept, calm, slope) (yields (refl, le, full, refl, refl))

  -- With exact arithmetic, and the points that are stored with the new sample on a line: the sample
  -- is answered in lock by the frequency that makes the clock follow that line and corrects its
  -- intercept over the intervals of the size that is chosen, limited to the range of the hardware.
  -- The conditions: four points and one result at least, the slope not zero, an intercept that calls
  -- for no step, no size with a weight or a variance of zero, and no result yet in a size that has
  -- too few points.
  pub linreg_sample-Steers :
      IsField D
      → (servo : Servo D) (s s1 : LinregServo D) (offset : ℤ) (local_ts : ℕ) (weight : D)
        (newest : Point D) (history : List (Point D)) (a b : D)
      → add_sample (update_reference s local_ts) offset weight ≡ some s1
      → Stored (newest ∷ history) s1
      → 4 ≤ s1.num_points
      → 1 ≤ length s1.results
      → All (OnLine s1.reference a b) (take s1.num_points (newest ∷ history))
      → ((size : ℕ)
          → 2 ≤ size
          → 2 ^ size ≤ s1.num_points
          → IsSpread (sums s1.reference no_sums (take (2 ^ size) (newest ∷ history))))
      → Unused s1.num_points 2 s1.results
      → nonzero b ≡ true
      → must_step servo a ≡ false
      → Holds (Steers servo s1 a b) (linreg_sample servo s offset local_ts weight)
  unfolding linreg_sample update_size
  linreg_sample-Steers f servo s s1 offset local_ts weight newest history a b added v four
        some_results on spread unused n calm =
      let y0 = d.of_int (of_u64 (sub_u64 newest.y s1.reference.y)) in
      let rs = regressions (newest ∷ history) s1.reference s1.num_points y0 2 s1.results in
      let line =
        settled s1.num_points a b 2 rs
          (regressions-Found f (newest ∷ history) s1.reference s1.num_points y0 a b 2 s1.results on
            spread (omega arith))
          (regressions-Unused (newest ∷ history) s1.reference s1.num_points y0 2 s1.results
            unused) in
      rw (added, regress_lem s1 newest history v (omega arith))
        (use_size-Steers servo (update_size (record s1 { results = rs })) a b offset
          (first-Picked s1.num_points a b rs line
            (some_regressions _ _ _ y0 2 s1.results some_results) four n)
          calm)
