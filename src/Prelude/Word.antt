-- ===== src/Prelude/Word.antt =====
-- `int64_t` as an integer in range, and its conversions to and from `uint64_t`, which is a number
-- below 2 ^ 64. Signed results are wrapped (the program is built without overflow traps).
use Prim.Native.Nat.{ℕ, ◌+◌, ◌-◌, ◌%◌, ◌^◌, ◌≤◌, ◌<◌}
use mathlib.Core.Path.{◌≡◌}
use native.Mathlib.Omega.{arith}
use external_servo.Prelude.Tests.{ltb, if◌then◌else◌}
use external_servo.Prelude.Int.{ℤ, pos, negsuc, pos_part, neg_part, ◌+ℤ◌, ◌-ℤ◌}

-- `(uint64_t) x`
unfoldable pub to_u64 : ℤ → ℕ
to_u64 (pos n) = n % 2 ^ 64
to_u64 (negsuc n) = 2 ^ 64 - 1 - n % 2 ^ 64

-- `(int64_t) w`
unfoldable pub of_u64 : ℕ → ℤ
of_u64 w = if ltb w (2 ^ 63) then pos w else negsuc (2 ^ 64 - 1 - w)

-- the value that an `int64_t` holds after an assignment
unfoldable pub wrap64 : ℤ → ℤ
unfolding to_u64 of_u64
wrap64 x = of_u64 (to_u64 x)

-- the value that an `int` holds after an assignment
unfoldable pub wrap32 : ℤ → ℤ
unfolding to_u64
wrap32 x = let w = to_u64 x % 2 ^ 32 in if ltb w (2 ^ 31) then pos w else negsuc (2 ^ 32 - 1 - w)

abbrev pub IsInt64 : ℤ → Type 0
IsInt64 x = (pos_part x < 2 ^ 63) × (neg_part x ≤ 2 ^ 63)

pub to_u64-lt : (x : ℤ) → to_u64 x < 2 ^ 64
unfolding to_u64
to_u64-lt (pos n) = omega arith
to_u64-lt (negsuc n) = omega arith

pub to_u64-of_u64 : (w : ℕ) → w < 2 ^ 64 → to_u64 (of_u64 w) ≡ w
unfolding to_u64 of_u64
to_u64-of_u64 w h = ground arith

pub of_u64-IsInt64 : (w : ℕ) → w < 2 ^ 64 → IsInt64 (of_u64 w)
unfolding of_u64
of_u64-IsInt64 w h = ground arith

pub of_u64-to_u64 : (x : ℤ) → IsInt64 x → of_u64 (to_u64 x) ≡ x
unfolding to_u64 of_u64
of_u64-to_u64 (pos n) h = ground arith
of_u64-to_u64 (negsuc n) h = ground arith

pub wrap64_of_IsInt64 : (x : ℤ) → IsInt64 x → wrap64 x ≡ x
unfolding wrap64
wrap64_of_IsInt64 x h = of_u64-to_u64 x h

pub to_u64-add : (a b : ℤ) → (to_u64 a + to_u64 b) % 2 ^ 64 ≡ to_u64 (a +ℤ b)
unfolding to_u64 ◌+ℤ◌
to_u64-add (pos m) (pos n) = ground arith
to_u64-add (pos m) (negsuc n) = ground arith
to_u64-add (negsuc m) (pos n) = ground arith
to_u64-add (negsuc m) (negsuc n) = ground arith

pub to_u64-sub : (a b : ℤ) → (to_u64 a + 2 ^ 64 - to_u64 b) % 2 ^ 64 ≡ to_u64 (a -ℤ b)
unfolding to_u64 ◌-ℤ◌
to_u64-sub (pos m) (pos n) = ground arith
to_u64-sub (pos m) (negsuc n) = ground arith
to_u64-sub (negsuc m) (pos n) = ground arith
to_u64-sub (negsuc m) (negsuc n) = ground arith
