-- ===== src/Filter/Average.antt =====
-- filter/average/mave.c: the moving average, by a running sum. A call returns its result and the
-- new state; `none` is a fault, such as an access out of bounds or a division by zero.
pub mod Sum
pub mod Refine
use external_servo.Prelude.{
  ℕ, suc, ◌+◌, ◌*◌, ◌%◌, Bool, true, false, Option, none, some, List, if◌then◌else◌, ltb, ◌==◌,
  get_elem?, set?, replicate, ◌>>=◌,
}
use external_servo.Prelude.Int.{ℤ, pos, negsuc}
use external_servo.Tmv.{Tmv, tmv_add, tmv_sub, tmv_div, tmv_zero}

-- `struct mave`, less the function pointers
pub record Mave : Type 0 where
  pub cnt : ℕ
  pub len : ℕ
  pub index : ℕ
  pub sum : Tmv
  pub val : List Tmv

unfoldable pub mave_accumulate : Mave → Tmv → Option (Tmv × Mave)
mave_accumulate m v = do
  old ← get_elem? m.val m.index
  let sum = tmv_sub m.sum old
  val ← set? m.val m.index v
  index ← if m.len == 0 then none else some ((1 + m.index) % m.len)
  let sum' = tmv_add sum v
  let cnt = if ltb m.cnt m.len then m.cnt + 1 else m.cnt
  result ← tmv_div sum' (pos cnt)
  some (result, record m { cnt = cnt; index = index; sum = sum'; val = val })

-- `memset` clears `len` values, the whole buffer.
unfoldable pub mave_reset : Mave → Mave
unfolding tmv_zero
mave_reset m = record m { cnt = 0; index = 0; sum = tmv_zero; val = replicate m.len (pos 0) }

-- `alloc` says which sizes `calloc` can serve: 56 bytes for the structure, 8 for a `tmv_t`. A
-- negative `int` turns into a size above 2 ^ 63, which no `calloc` can serve. A length of zero is
-- not refused.
unfoldable pub mave_create : (ℕ → Bool) → ℤ → Option Mave
mave_create alloc (negsuc n) = none
mave_create alloc (pos n) =
    if alloc 56
    then if alloc (n * 8)
      then some (record { cnt = 0; len = n; index = 0; sum = pos 0; val = replicate n (pos 0) })
      else none
    else none
