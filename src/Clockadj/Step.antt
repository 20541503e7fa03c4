-- ===== src/Clockadj/Step.antt =====
-- clockadj.c: the request that steps a clock has the value of the step, with a part below the second
-- that is not negative.
use external_servo.Prelude.{
  ℕ, suc, ◌+◌, ◌*◌, ◌/◌, ◌%◌, ◌^◌, ◌<◌, ◌≡◌, zero, if◌then◌else◌, ap, ◌∙◌, lt→ltb, arith,
}
use external_servo.Prelude.Int.{
  ℤ, pos, negsuc, neg_part, ◌+ℤ◌, ◌-ℤ◌, ◌*ℤ◌, ◌/ℤ◌, ◌%ℤ◌, neg_ℤ, neg_ℕ, ◌≤ℤ◌, ◌<ℤ◌, ltb_ℤ,
}
use external_servo.Prelude.Word.{IsInt64, wrap64, wrap64_of_IsInt64}
use external_servo.Tmv.{ns_per_sec}
use external_servo.Clockadj.{Timex, no_timex, clockadj_step}

negated : (n : ℕ) → suc n < 2 ^ 63 → wrap64 (neg_ℤ (negsuc n)) ≡ pos (suc n)
unfolding neg_ℤ
negated n h =
    let e : neg_ℤ (negsuc n) ≡ pos (suc n) = opposite n in
    ap wrap64 e ∙ wrap64_of_IsInt64 (pos (suc n)) (omega arith, omega arith)
  where
    opposite : (n : ℕ) → neg_ℤ (negsuc n) ≡ pos (suc n)
    opposite n = ground arith

times_minus_one : (k : ℕ) → negsuc 0 *ℤ pos k ≡ neg_ℕ k
unfolding ◌*ℤ◌
times_minus_one k = ground arith

-- the borrow of a second
abbrev Normal : ℤ → ℤ → ℤ → Type 0
Normal step sec usec =
    (sec *ℤ pos ns_per_sec +ℤ usec ≡ step) × pos 0 ≤ℤ usec × usec <ℤ pos ns_per_sec

whole_seconds : (q : ℕ) → Normal (neg_ℕ (q * ns_per_sec)) (neg_ℕ q) (pos 0)
unfolding ◌*ℤ◌ ◌+ℤ◌
whole_seconds q = ground arith

borrowed :
    (q r : ℕ)
    → suc r < ns_per_sec
    → Normal (neg_ℕ (q * ns_per_sec + suc r)) (neg_ℕ q -ℤ pos 1) (negsuc r +ℤ pos 1_000_000_000)
unfolding ◌*ℤ◌ ◌+ℤ◌ ◌-ℤ◌
borrowed q r h = ground arith

-- the end of `clockadj_step`, at seconds and nanoseconds that are negated
finished : ℕ → ℕ → Timex
finished q r =
    let tx = record no_timex { modes = 8448 } in
    if ltb_ℤ (neg_ℕ r) (pos 0)
    then record tx { tv_sec = neg_ℕ q -ℤ pos 1; tv_usec = neg_ℕ r +ℤ pos 1_000_000_000 }
    else record tx { tv_sec = neg_ℕ q; tv_usec = neg_ℕ r }

finished_lem :
    (q r : ℕ)
    → r < ns_per_sec
    → Normal (neg_ℕ (q * ns_per_sec + r)) (finished q r).tv_sec (finished q r).tv_usec
unfolding finished
finished_lem q zero h =
    let z : q * ns_per_sec + 0 ≡ q * ns_per_sec = omega arith in rw z (whole_seconds q)
finished_lem q (suc r) h = rw (lt→ltb 0 (0 + suc r) (omega arith)) (borrowed q r h)

step-negsuc :
    (clkid : ℤ) (n : ℕ)
    → suc n < 2 ^ 63
    → let tx = (clockadj_step clkid (negsuc n)).tx in Normal (negsuc n) tx.tv_sec tx.tv_usec
unfolding clockadj_step ◌/ℤ◌ ◌%ℤ◌ finished
step-negsuc clkid n h =
    let value : suc n / ns_per_sec * ns_per_sec + suc n % ns_per_sec ≡ suc n = omega arith in
    let f = finished_lem (suc n / ns_per_sec) (suc n % ns_per_sec) (omega arith) in
    rw
      (
        lt→ltb 0 (0 + suc n) (omega arith),
        negated n h,
        times_minus_one (suc n / ns_per_sec),
        times_minus_one (suc n % ns_per_sec),
      )
      (rw value at f)

-- A step in the range of `int64_t`, its least value apart, is requested as seconds and nanoseconds that
-- make it up, with the nanoseconds from zero to below a second.
pub clockadj_step_lem :
    (clkid step : ℤ)
    → IsInt64 step
    → neg_part step < 2 ^ 63
    → let tx = (clockadj_step clkid step).tx in
      (tx.tv_sec *ℤ pos ns_per_sec +ℤ tx.tv_usec ≡ step)
      × pos 0 ≤ℤ tx.tv_usec
      × tx.tv_usec <ℤ pos ns_per_sec
unfolding clockadj_step ◌/ℤ◌ ◌%ℤ◌ ◌*ℤ◌ ◌+ℤ◌ ◌-ℤ◌
clockadj_step_lem clkid (pos n) v h = ground arith
clockadj_step_lem clkid (negsuc n) v h = step-negsuc clkid n h
