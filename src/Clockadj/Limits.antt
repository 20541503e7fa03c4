-- ===== src/Clockadj/Limits.antt =====
-- clockadj.c: the limit of the frequency is never zero.
use external_servo.Prelude.{
  ℕ, zero, suc, ◌+◌, ◌*◌, ◌/◌, ◌^◌, ◌≤◌, ◌<◌, ◌≢◌, Option, none, some, if◌then◌else◌, lt→ltb,
  if-both, arith,
}
use native.Mathlib.Nat.{div-mul-le_self, mul-le-mul_right}
use external_servo.Prelude.Int.{ℤ, pos, negsuc, ◌+ℤ◌, ◌*ℤ◌, ◌/ℤ◌, eqb_ℤ, pos_nonzero}
use external_servo.Prelude.Word.{wrap32}
use external_servo.Double.{Double}
use external_servo.Clockadj.{
  Timex, Clockadj, clock_realtime, clockadj_init, tolerance_freq, clockadj_max_freq,
}

-- the product of `clockadj_max_freq` for the system clock
in_int :
    (hz : ℕ)
    → 0 < hz
    → hz ≤ 100_000
    → let x = (1_000_000 + hz / 2) / hz / 10 * 1000 * hz in 0 < x × x < 2 ^ 31
in_int hz h k =
    let n = (1_000_000 + hz / 2) / hz in
    let low : 10 ≤ n = grind arith in
    let high : n * hz ≤ 1_000_000 + hz / 2 = div-mul-le_self (1_000_000 + hz / 2) hz in
    let tens : n / 10 * 10 ≤ n = omega arith in
    let few : n / 10 * 10 * hz ≤ n * hz = mul-le-mul_right hz tens in
    let once : 1 * hz ≤ n / 10 * hz = mul-le-mul_right hz (omega arith) in
    (grind arith, grind arith)

by_tick_nonzero :
    (hz : ℕ)
    → 0 < hz
    → hz ≤ 100_000
    → wrap32 ((((pos 1_000_000 +ℤ pos hz /ℤ pos 2) /ℤ pos hz /ℤ pos 10) *ℤ pos 1000) *ℤ pos hz)
      ≢ pos 0
unfolding wrap32 ◌+ℤ◌ ◌*ℤ◌ ◌/ℤ◌
by_tick_nonzero hz h k e = let (low, high) = in_int hz h k in ground arith

module _ {ℓ} (D : Type ℓ) ⦃d : Double D⦄ where
  tolerance_freq_nonzero : (answer : Option Timex) → tolerance_freq D answer ≢ pos 0
  unfolding tolerance_freq
  tolerance_freq_nonzero none = pos_nonzero 500_000 (omega arith)
  tolerance_freq_nonzero (some tx) =
      cases (wrap32 (d.to_int64 (d.div (d.of_int tx.tolerance) (d.literal 65536 3))))
    where
      cases : (f : ℤ) → (if eqb_ℤ f (pos 0) then pos 500_000 else f) ≢ pos 0
      cases (pos zero) e = pos_nonzero 500_000 (omega arith) e
      cases (pos (suc n)) e = ground arith
      cases (negsuc n) e = ground arith

  -- After the initialisation with a tick rate of 1 to 100000 per second, the limit of no clock is zero.
  pub clockadj_max_freq-init :
      (hz : ℕ) (c : Clockadj) (clkid : ℤ) (answer : Option Timex)
      → 0 < hz
      → hz ≤ 100_000
      → clockadj_max_freq D (clockadj_init (pos hz) c clock_realtime) clkid answer ≢ pos 0
  unfolding clockadj_max_freq clockadj_init
  clockadj_max_freq-init hz c clkid answer h k =
      rw (lt→ltb 0 (hz + 0) (omega arith))
        (if-both (λ f. f ≢ pos 0) _ (by_tick_nonzero hz h k) (tolerance_freq_nonzero answer))
