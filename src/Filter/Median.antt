-- ===== src/Filter/Median.antt =====
-- filter/median/mmedian.c: the moving median. `order` holds the indices of the samples in use,
-- sorted by value. A call returns its result and the new state; `none` is a fault, such as an access
-- out of bounds.
pub mod Loops
pub mod Values
pub mod Indices
pub mod Room
pub mod Insertion
pub mod Refine
pub mod Bag
use mathlib.Core.Option
use external_servo.Prelude.{
  ℕ, zero, suc, ◌+◌, ◌-◌, ◌*◌, ◌/◌, ◌%◌, ◌^◌, Bool, true, false, Option, none, some, List,
  if◌then◌else◌, ltb, ◌==◌, get_elem?, set?, replicate, ◌>>=◌,
}
use external_servo.Prelude.Int.{ℤ, pos, negsuc, leb_ℤ, ltb_ℤ}
use external_servo.Prelude.Word.{to_u64}
use external_servo.Tmv.{Tmv, tmv_add, tmv_div, tmv_cmp, tmv_zero}

-- `struct mmedian`, less the function pointers
pub record Mmedian : Type 0 where
  pub cnt : ℕ
  pub len : ℕ
  pub index : ℕ
  pub order : List ℕ
  pub samples : List Tmv

-- `for (i = 0; i < cnt; i++) if (order[i] == index) break;`, from `i` on. The fuel is above `cnt - i`.
pub find_index : ℕ → List ℕ → ℕ → ℕ → ℕ → Option ℕ
find_index zero order cnt index i = none
find_index (suc fuel) order cnt index i =
    let rest = find_index fuel order cnt index (i + 1) in
    let test = (do o ← get_elem? order i; if o == index then some i else rest) in
    if ltb i cnt then test else some i

-- `for (; i + 1 < cnt; i++) order[i] = order[i + 1];`
pub remove_index : ℕ → List ℕ → ℕ → ℕ → Option (List ℕ)
remove_index zero order cnt i = none
remove_index (suc fuel) order cnt i =
    let shift = (do
      o ← get_elem? order (i + 1)
      order' ← set? order i o
      remove_index fuel order' cnt (i + 1)) in
    if ltb (i + 1) cnt then shift else some order

-- `for (i = cnt - 1; i > 0; i--) …; order[i] = index;`, from `i` on down
pub insert_index : List Tmv → ℕ → ℕ → List ℕ → Option (List ℕ)
insert_index samples index zero order = set? order 0 index
insert_index samples index (suc i) order = do
  o ← get_elem? order i
  a ← get_elem? samples o
  b ← get_elem? samples index
  let rest = set? order (suc i) o >>= insert_index samples index i
  if leb_ℤ (tmv_cmp a b) (pos 0) then set? order (suc i) index else rest

-- Either one more sample, or the replaced one's index out of `order`.
pub make_room : ℕ → ℕ → ℕ → List ℕ → Option (ℕ × List ℕ)
unfolding find_index remove_index
make_room cnt len index order = if ltb cnt len then some (cnt + 1, order) else (do
  i ← find_index (cnt + 1) order cnt index 0
  order' ← remove_index (cnt + 1) order cnt i
  some (cnt, order'))

pub median_at : List Tmv → List ℕ → ℕ → Option Tmv
median_at samples order cnt =
    if cnt % 2 == 1 then (do o ← get_elem? order (cnt / 2); get_elem? samples o) else (do
      o ← get_elem? order (cnt / 2 - 1)
      a ← get_elem? samples o
      p ← get_elem? order (cnt / 2)
      b ← get_elem? samples p
      tmv_div (tmv_add a b) (pos 2))

-- The fault of `%` is the `none` for `len == 0`.
unfoldable pub mmedian_sample : Mmedian → Tmv → Option (Tmv × Mmedian)
unfolding make_room insert_index median_at
mmedian_sample m sample = do
  samples ← set? m.samples m.index sample
  (cnt, order) ← make_room m.cnt m.len m.index m.order
  order' ← insert_index samples m.index (cnt - 1) order
  index ← if m.len == 0 then none else some ((1 + m.index) % m.len)
  result ← median_at samples order' cnt
  some (result, record m { cnt = cnt; index = index; order = order'; samples = samples })

unfoldable pub mmedian_reset : Mmedian → Mmedian
mmedian_reset m = record m { cnt = 0; index = 0 }

-- `alloc` says which sizes `calloc` can serve. `length` is an `int`; the sizes are those of a 64-bit
-- build: 56 bytes for the structure, 4 for an `int`, 8 for a `tmv_t`.
unfoldable pub mmedian_create : (ℕ → Bool) → ℤ → Option Mmedian
mmedian_create alloc (negsuc n) = none
mmedian_create alloc (pos n) =
    if ltb n 1
    then none
    else if alloc 56
    then if alloc (n * 4)
      then if alloc (n * 8)
        then some (record {
          cnt = 0;
          len = n;
          index = 0;
          order = replicate n 0;
          samples = replicate n tmv_zero;
        })
        else none
      else none
    else none
