-- ===== src/Servo/Ntpshm/Counter.antt =====
-- servo/ntpshm/ntpshm.c: the counter of the segment, an `int` that wraps.
use external_servo.Prelude.{ℕ, zero, suc, ◌+◌, ◌-◌, ◌%◌, ◌^◌, ◌≤◌, ◌<◌, ◌≡◌, ap, ◌∙◌, arith}
use external_servo.Prelude.Int.{ℤ, pos, negsuc, ◌+ℤ◌}
use external_servo.Servo.Ntpshm.{next_int}

abbrev pub IsInt32 : ℤ → Type 0
IsInt32 (pos n) = n < 2 ^ 31
IsInt32 (negsuc n) = n < 2 ^ 31

abbrev unsigned : ℤ → ℕ
unsigned (pos n) = n
unsigned (negsuc n) = 2 ^ 32 - 1 - n

abbrev pub iterate : ℕ → ℤ → ℤ
iterate zero x = x
iterate (suc n) x = next_int (iterate n x)

next_int-IsInt32 : (x : ℤ) → IsInt32 x → IsInt32 (next_int x)
unfolding next_int ◌+ℤ◌
next_int-IsInt32 (pos n) h = ground arith
next_int-IsInt32 (negsuc n) h = ground arith

unsigned-next_int : (x : ℤ) → IsInt32 x → unsigned (next_int x) ≡ (unsigned x + 1) % 2 ^ 32
unfolding next_int ◌+ℤ◌
unsigned-next_int (pos n) h = ground arith
unsigned-next_int (negsuc n) h = ground arith

unsigned-lt : (x : ℤ) → IsInt32 x → unsigned x < 2 ^ 32
unsigned-lt (pos n) h = omega arith
unsigned-lt (negsuc n) h = omega arith

iterate-unsigned :
    (n : ℕ) (x : ℤ)
    → IsInt32 x
    → IsInt32 (iterate n x) × (unsigned (iterate n x) ≡ (unsigned x + n) % 2 ^ 32)
iterate-unsigned zero x h = (h, omega (arith, unsigned-lt x h))
iterate-unsigned (suc n) x h =
    let (int, eq) = iterate-unsigned n x h in
    (next_int-IsInt32 (iterate n x) int, omega (arith, unsigned-next_int (iterate n x) int, eq))

-- Fewer than 2 ^ 32 increments do not come back to the same counter.
pub iterate_injective :
    (a b : ℕ) (x : ℤ) → IsInt32 x → a ≤ b → b < a + 2 ^ 32 → iterate a x ≡ iterate b x → a ≡ b
iterate_injective a b x h le near e =
    let (i, p) = iterate-unsigned a x h in
    let (j, q) = iterate-unsigned b x h in
    let same : unsigned (iterate a x) ≡ unsigned (iterate b x) = ap unsigned e in
    omega (arith, p, q, same)

pub iterate-add : (a b : ℕ) (x : ℤ) → iterate a (iterate b x) ≡ iterate (a + b) x
iterate-add zero b x = let e : b ≡ 0 + b = omega arith in ap (λ n. iterate n x) e
iterate-add (suc a) b x =
    let e : suc (a + b) ≡ suc a + b = omega arith in
    ap next_int (iterate-add a b x) ∙ ap (λ n. iterate n x) e
