-- ===== src/Servo/Dispatch/Stable.antt =====
-- servo/servo.c: when the servo reports that it is stable.
use external_servo.Prelude.{
  ℕ, zero, suc, ◌+◌, ◌-◌, ◌≡◌, ◌≢◌, refl, ap, ◌∙◌, Bool, true, false, ◌==◌, leb, List, [], ◌∷◌,
  if◌then◌else◌, arith,
}
use external_servo.Prelude.Int.{ℤ, pos, negsuc, ◌-ℤ◌, ltb_ℤ, eqb_ℤ}
use external_servo.Servo.Base.{Servo, ServoState, unlocked, jump, locked, locked_stable, llabs}
use external_servo.Servo.Dispatch.{settle, check_offset_threshold}

-- the offset of a sample and the state that the kind of servo reports for it
abbrev pub Report : Type 0
Report = ℤ × ServoState

-- The number of samples locked and within the threshold since the lock began, the reports the newest first.
unfoldable pub in_threshold : ℤ → List Report → ℕ
in_threshold threshold [] = 0
in_threshold threshold ((offset, unlocked) ∷ rs) = 0
in_threshold threshold ((offset, jump) ∷ rs) = 0
in_threshold threshold ((offset, locked) ∷ rs) =
    let n = in_threshold threshold rs in if ltb_ℤ (llabs offset) threshold then n + 1 else n
in_threshold threshold ((offset, locked_stable) ∷ rs) = in_threshold threshold rs

eqb_ℤ-zero : (x : ℤ) → x ≢ pos 0 → eqb_ℤ x (pos 0) ≡ false
eqb_ℤ-zero (pos zero) h = absurd (h refl)
eqb_ℤ-zero (pos (suc n)) h = ground arith
eqb_ℤ-zero (negsuc n) h = ground arith

left_over : (b : Bool) (n k : ℕ) → (if b then n - k - 1 else n - k) ≡ n - (if b then k + 1 else k)
left_over true n k = omega arith
left_over false n k = refl

done_lem : (n k : ℕ) → (n - k == 0) ≡ leb n k
done_lem n k = ground arith

module _ {ℓ} {D : Type ℓ} where
  -- the servo after some reports
  unfoldable pub settle_all : Servo D → List Report → Servo D
  settle_all servo [] = servo
  settle_all servo ((offset, state) ∷ rs) =
      let (state', servo') = settle (settle_all servo rs) offset state in servo'

  -- `n` is what is left to count.
  abbrev Counts : Servo D → ℕ → ℤ → Servo D → Type 0
  Counts servo left threshold servo' =
      servo'.curr_offset_values ≡ pos left
      × servo'.num_offset_values ≡ servo.num_offset_values
      × servo'.offset_threshold ≡ threshold

  check-counts :
      (s : Servo D) (offset : ℤ) (left : ℕ) (threshold : ℤ)
      → threshold ≢ pos 0
      → s.curr_offset_values ≡ pos left
      → s.offset_threshold ≡ threshold
      → let (stable, s') = check_offset_threshold s offset in
        let left' = if ltb_ℤ (llabs offset) threshold then left - 1 else left in
        s'.curr_offset_values ≡ pos left'
        × s'.num_offset_values ≡ s.num_offset_values
        × s'.offset_threshold ≡ threshold
        × stable ≡ (left' == 0)
  unfolding check_offset_threshold ◌-ℤ◌
  check-counts s offset left threshold h c e =
      let z = eqb_ℤ-zero threshold h in rw (e, c, z) (ground arith)

  settle_all-Counts :
      (servo : Servo D) (n : ℕ) (threshold : ℤ) (rs : List Report)
      → threshold ≢ pos 0
      → Counts servo n threshold servo
      → servo.num_offset_values ≡ pos n
      → Counts servo (n - in_threshold threshold rs) threshold (settle_all servo rs)
  unfolding settle_all in_threshold settle
  settle_all-Counts servo n threshold [] h c e =
      let z : n ≡ n - 0 = omega arith in (c.0 ∙ ap pos z, refl, c.2)
  settle_all-Counts servo n threshold ((offset, unlocked) ∷ rs) h c e =
      let z : n ≡ n - 0 = omega arith in
      let (curr, num, top) = settle_all-Counts servo n threshold rs h c e in
      (num ∙ e ∙ ap pos z, num, top)
  settle_all-Counts servo n threshold ((offset, jump) ∷ rs) h c e =
      let z : n ≡ n - 0 = omega arith in
      let (curr, num, top) = settle_all-Counts servo n threshold rs h c e in
      (num ∙ e ∙ ap pos z, num, top)
  settle_all-Counts servo n threshold ((offset, locked) ∷ rs) h c e =
      let (curr, num, top) = settle_all-Counts servo n threshold rs h c e in
      let (curr', num', top', stable) =
        check-counts (settle_all servo rs) offset (n - in_threshold threshold rs) threshold h curr
          top in
      (
        curr' ∙ ap pos (left_over (ltb_ℤ (llabs offset) threshold) n (in_threshold threshold rs)),
        num' ∙ num,
        top',
      )
  settle_all-Counts servo n threshold ((offset, locked_stable) ∷ rs) h c e =
      settle_all-Counts servo n threshold rs h c e

  -- A new servo that has a threshold and is to see `n` samples within it: after any reports, a locked
  -- sample is reported stable exactly when `n` samples since the lock began were within the threshold.
  pub settle-stable :
      (servo : Servo D) (n : ℕ) (rs : List Report) (offset : ℤ)
      → servo.offset_threshold ≢ pos 0
      → servo.num_offset_values ≡ pos n
      → servo.curr_offset_values ≡ pos n
      → let (state, servo') = settle (settle_all servo rs) offset locked in
        state ≡ (
          if leb n (in_threshold servo.offset_threshold ((offset, locked) ∷ rs))
          then locked_stable
          else locked)
  unfolding settle in_threshold
  settle-stable servo n rs offset h num curr =
      let threshold = servo.offset_threshold in
      let k = in_threshold threshold rs in
      let (curr', num', top') = settle_all-Counts servo n threshold rs h (curr, refl, refl) num in
      let (a, b, c, stable) =
        check-counts (settle_all servo rs) offset (n - k) threshold h curr' top' in
      let over = left_over (ltb_ℤ (llabs offset) threshold) n k in
      let k' = if ltb_ℤ (llabs offset) threshold then k + 1 else k in
      rw (stable ∙ ap (λ m. m == 0) over ∙ done_lem n k')
