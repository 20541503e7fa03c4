-- ===== src/Filter/Average/Refine.antt =====
-- The moving average refines the average of the bounded window.
use mathlib.Core.Path.{subst}
use external_servo.Prelude.{
  ℕ, ◌+◌, ◌%◌, ◌<◌, ◌≡◌, refl, sym, ap, ◌∙◌, Bool, false, Option, some, none, List, [], arith,
  length, get_elem?, set?, replicate, length-replicate, ◌==◌, lt→ltb,
}
use external_servo.Prelude.Int.{pos, ◌-ℤ◌, ◌/ℤ◌}
use external_servo.Prelude.Word.{wrap64}
use external_servo.Tmv.{Tmv, tmv_add, tmv_sub, tmv_div}
use external_servo.Tmv.Laws.{tmv_add-wrap64, tmv_sub-wrap64, tmv_div_pos}
use external_servo.Filter.Ring.{push_ring, next_cnt, length-window}
use external_servo.Filter.Window
use external_servo.Filter.Window.{Agree, Refines, run, windowed}
use external_servo.Filter.Average.{Mave, mave_accumulate, mave_create, mave_reset}
use external_servo.Filter.Average.Sum.{
  total, IsValid, contents, total-window, written, total-replicate,
}

-- The specification: the sum, as 64 bits hold it, over the number of samples.
unfoldable pub average : List Tmv → Option Tmv
unfolding total
average xs = tmv_div (wrap64 (total xs)) (pos (length xs))

abbrev Stepped : Mave → Tmv → Type 0
Stepped = Refines mave_accumulate average IsValid contents (λ m. m.len)

sample_parts :
    (m : Mave) (v old : Tmv) (new : List Tmv) (result : Tmv)
    → get_elem? m.val m.index ≡ some old
    → set? m.val m.index v ≡ some new
    → 0 < m.len
    → tmv_div (tmv_add (tmv_sub m.sum old) v) (pos (next_cnt m.cnt m.len)) ≡ some result
    → mave_accumulate m v
      ≡ some (
        result,
        record m {
          cnt = next_cnt m.cnt m.len;
          index = (1 + m.index) % m.len;
          sum = tmv_add (tmv_sub m.sum old) v;
          val = new;
        },
      )
unfolding mave_accumulate
sample_parts m v old new result a b c d =
    let some_slots : (m.len == 0) ≡ false = ground arith in rw (a, b, some_slots, d)

-- A call never faults, returns the average of the window with the new sample, and leaves the filter
-- valid with that window.
pub step : (m : Mave) (v : Tmv) → IsValid m → Stepped m v
unfolding average
step m v k =
    let p = push_ring m.cnt m.len m.index m.val v k.ring in
    let w = written m v p.new k p.stored in
    let n = next_cnt m.cnt m.len in
    let summed : tmv_add (tmv_sub m.sum w.old) v ≡ wrap64 (total p.new) =
      ap (λ s. tmv_add (tmv_sub s w.old) v) k.summed
      ∙ ap (λ s. tmv_add s v) (tmv_sub-wrap64 (total m.val) w.old)
      ∙ tmv_add-wrap64 (total m.val -ℤ w.old) v
      ∙ ap wrap64 (sym w.sum) in
    let some_cnt : 0 < n = ground (arith, k.ring) in
    let divided = tmv_div_pos (tmv_add (tmv_sub m.sum w.old) v) n some_cnt in
    let all = total-window n m.len ((1 + m.index) % m.len) p.new p.ring w.clear in
    let size = length-window n m.len ((1 + m.index) % m.len) p.new p.ring in
    record {
      result = tmv_add (tmv_sub m.sum w.old) v /ℤ pos n;
      next = record m {
        cnt = n;
        index = (1 + m.index) % m.len;
        sum = tmv_add (tmv_sub m.sum w.old) v;
        val = p.new;
      };
      returns =
          sample_parts m v w.old p.new _ w.read p.stored (omega (arith, k.ring.index_lt)) divided;
      meant = rw (← p.shifted, all, size, ← summed) divided;
      held = p.shifted;
      valid = record { ring = p.ring; summed = summed; clear = w.clear };
      same_len = refl;
    }

run_refines :
    (ss : List Tmv) (m : Mave)
    → IsValid m
    → Agree (run mave_accumulate m ss) (windowed average m.len (contents m) ss)
run_refines = Window.run_refines mave_accumulate average IsValid contents (λ m. m.len) step

abbrev fresh : ℕ → Mave
fresh n = record { cnt = 0; len = n; index = 0; sum = pos 0; val = replicate n (pos 0) }

wrap64-zero : pos 0 ≡ wrap64 (pos 0)
unfolding wrap64
wrap64-zero = refl

fresh-IsValid : (n : ℕ) → 0 < n → IsValid (fresh n)
fresh-IsValid n h = record {
  ring = record {
    length_buf = length-replicate n (pos 0);
    cnt_le = omega arith;
    index_lt = h;
    filling = λ k. refl;
  };
  summed = wrap64-zero ∙ ap wrap64 (sym (total-replicate n));
  clear = ap (λ k. replicate k (pos 0)) (omega arith);
}

created : (alloc : ℕ → Bool) (n : ℕ) {m : Mave} → mave_create alloc (pos n) ≡ some m → m ≡ fresh n
unfolding mave_create
created alloc n e = ground arith

-- A new filter of a positive length is valid and empty.
pub create-IsValid :
    (alloc : ℕ → Bool) (n : ℕ) {m : Mave}
    → 0 < n
    → mave_create alloc (pos n) ≡ some m
    → IsValid m × (m.len ≡ n) × (contents m ≡ [])
create-IsValid alloc n h e =
    let empty : contents (fresh n) ≡ [] = rw (lt→ltb 0 n h) in
    rw (created alloc n e) (fresh-IsValid n h, refl, empty)

-- From its creation with a positive length on the moving average returns, for every sequence of
-- samples, the averages of the windows of the latest `n` samples, and never faults.
pub run-mave_create :
    (alloc : ℕ → Bool) (n : ℕ) (ss : List Tmv) {m : Mave}
    → 0 < n
    → mave_create alloc (pos n) ≡ some m
    → Agree (run mave_accumulate m ss) (windowed average n [] ss)
run-mave_create alloc n ss {m} h e =
    let (valid, size, empty) = create-IsValid alloc n h e in
    subst (λ k. Agree (run mave_accumulate m ss) (windowed average k [] ss)) size
      (rw empty at (run_refines ss m valid))

reset-fresh : (m : Mave) → mave_reset m ≡ fresh m.len
unfolding mave_reset
reset-fresh m = refl

-- A reset empties the window of a valid filter.
pub reset-IsValid :
    (m : Mave)
    → IsValid m
    → IsValid (mave_reset m) × ((mave_reset m).len ≡ m.len) × (contents (mave_reset m) ≡ [])
reset-IsValid m v =
    let some_slots : 0 < m.len = omega (arith, v.ring.index_lt) in
    rw (reset-fresh m) (fresh-IsValid m.len some_slots, refl, rw (lt→ltb 0 m.len some_slots))

-- A new moving average of length zero faults at its first sample.
pub mave_accumulate-mave_create_zero :
    (alloc : ℕ → Bool) (v : Tmv) {m : Mave}
    → mave_create alloc (pos 0) ≡ some m
    → mave_accumulate m v ≡ none
unfolding mave_accumulate
mave_accumulate-mave_create_zero alloc v e = rw (created alloc 0 e)
