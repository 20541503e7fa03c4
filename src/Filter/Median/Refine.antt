-- ===== src/Filter/Median/Refine.antt =====
-- The moving median refines the median of the bounded window.
use mathlib.Core.List.{Perm, map}
use mathlib.Core.List.Pairwise
use mathlib.Core.List.Perm
use mathlib.Core.Path.{subst}
use external_servo.Prelude.{
  Holds, yields, ℕ, ◌+◌, ◌-◌, ◌%◌, ◌≤◌, ◌<◌, ◌≡◌, ◌≢◌, refl, sym, ap, ◌∙◌, Bool, some, List, [],
  ◌∷◌, ◌++◌, arith, length, set?, take, All, take-append, length-append, length-replicate,
  replicate, false, lt→ltb, ◌==◌,
}
use external_servo.Prelude.Int.{pos}
use external_servo.Tmv.{Tmv, tmv_zero}
use external_servo.Filter.Ring.{
  push_window, IsRing, Pushed, push_ring, next_cnt, window, window-perm,
}
use external_servo.Filter.Window
use external_servo.Filter.Window.{Agree, Refines, run, windowed}
use external_servo.Filter.Median.{
  Mmedian, mmedian_sample, mmedian_create, mmedian_reset, make_room, insert_index, median_at,
}
use external_servo.Filter.Median.Indices.{value, upto, fresh-ne, perm-lt, values-perm, value-set?}
use external_servo.Filter.Median.Room.{Room, room}
use external_servo.Filter.Median.Insertion.{
  Inserted, inserted, length-map, median_at-middle, middle_total,
}
use external_servo.Filter.Median.Values.{IsSorted, median, sort_unique}

pub record IsValid (m : Mmedian) : Type 0 where
  pub ring : IsRing m.cnt m.len m.index m.samples
  pub length_order : length m.order ≡ m.len
  pub indices : Perm (take m.cnt m.order) (upto m.cnt)
  pub ordered : IsSorted (map (value m.samples) (take m.cnt m.order))

-- the samples that the filter holds, oldest first
abbrev pub contents : Mmedian → List Tmv
contents m = window m.cnt m.len m.index m.samples

abbrev Stepped : Mmedian → Tmv → Type 0
Stepped = Refines mmedian_sample median IsValid contents (λ m. m.len)

values_kept :
    (s s' : List Tmv) (i : ℕ) (v : Tmv) (u : List ℕ)
    → set? s i v ≡ some s'
    → All (λ o. i ≢ o) u
    → map (value s') u ≡ map (value s) u
values_kept s s' i v [] e a = refl
values_kept s s' i v (o ∷ u) e a = λ j. value-set? s i o v a.0 e j ∷ values_kept s s' i v u e a.1 j

-- A call whose parts go well.
sample_parts :
    (m : Mmedian) (s : Tmv) (new : List Tmv) (n : ℕ) (before after : List ℕ) (result : Tmv)
    → set? m.samples m.index s ≡ some new
    → make_room m.cnt m.len m.index m.order ≡ some (n, before)
    → insert_index new m.index (n - 1) before ≡ some after
    → 0 < m.len
    → median_at new after n ≡ some result
    → mmedian_sample m s
      ≡ some (
        result,
        record m { cnt = n; index = (1 + m.index) % m.len; order = after; samples = new },
      )
unfolding mmedian_sample
sample_parts m s new n before after result a b c d e =
    let some_slots : (m.len == 0) ≡ false = ground arith in rw (a, b, c, some_slots, e)

-- The used indices have the samples of the new window.
pushed-Perm :
    (m : Mmedian) (s : Tmv) (p : Pushed m.cnt m.len m.index m.samples s) (u : List ℕ)
    → Perm u (upto (next_cnt m.cnt m.len))
    → Perm (map (value p.new) u) (window (next_cnt m.cnt m.len) m.len ((1 + m.index) % m.len) p.new)
pushed-Perm m s p u all =
    let n = next_cnt m.cnt m.len in
    let fits : n ≤ length p.new = omega (arith, p.ring.cnt_le, p.ring.length_buf) in
    Perm.trans (Perm.map (value p.new) all)
      (Perm.trans (values-perm p.new n fits) (Perm.symm (window-perm n m.len _ p.new p.ring)))

finish :
    (m : Mmedian) (s : Tmv)
    → IsValid m
    → (p : Pushed m.cnt m.len m.index m.samples s)
    → (r : Room (value m.samples) m.cnt m.len m.index m.order)
    → Inserted p.new m.index r.used r.free r.rest
    → Stepped m s
unfolding median
finish m s v p r i =
    let n = next_cnt m.cnt m.len in
    let fits : n ≤ length p.new = omega (arith, p.ring.cnt_le, p.ring.length_buf) in
    let all : Perm i.indices (upto n) = Perm.trans i.same r.indices in
    let size : n ≡ length i.indices = r.count ∙ sym i.count in
    let values = map (value p.new) i.indices in
    let used : Perm values (window n m.len ((1 + m.index) % m.len) p.new) =
      pushed-Perm m s p i.indices all in
    let (result, is) =
      middle_total values (omega (arith, length-map (value p.new) i.indices, i.count)) in
    let taken : take n (i.indices ++ r.rest) ≡ i.indices = take-append i.indices r.rest n size in
    record {
      result = result;
      next = record m {
        cnt = n;
        index = (1 + m.index) % m.len;
        order = i.indices ++ r.rest;
        samples = p.new;
      };
      returns =
          sample_parts m s p.new n (r.used ++ (r.free ∷ r.rest)) (i.indices ++ r.rest) result
            p.stored r.made
            (ap (λ k. insert_index p.new m.index k (r.used ++ (r.free ∷ r.rest)))
                (omega (arith, r.count))
              ∙ i.done)
            (omega (arith, v.ring.index_lt))
            (median_at-middle p.new i.indices r.rest n size (omega (arith, r.count))
                (perm-lt n (length p.new) i.indices fits all)
              ∙ is);
      meant = rw (← p.shifted, ← sort_unique i.ordered used) is;
      held = p.shifted;
      valid = record {
        ring = p.ring;
        length_order = omega (
          arith,
          v.length_order,
          r.total,
          i.count,
          length-append i.indices r.rest,
          length-append r.used (r.free ∷ r.rest),
        );
        indices = rw taken all;
        ordered = rw taken i.ordered;
      };
      same_len = refl;
    }

-- A call never faults, returns the median of the window with the new sample, and leaves the filter
-- valid with that window.
pub step : (m : Mmedian) (s : Tmv) → IsValid m → Stepped m s
step m s v =
    let p = push_ring m.cnt m.len m.index m.samples s v.ring in
    let n = next_cnt m.cnt m.len in
    let r =
      room (value m.samples) m.cnt m.len m.index m.order m.samples v.ring v.length_order v.indices
        v.ordered in
    let slots : length p.new ≡ m.len = p.ring.length_buf in
    let fits : n ≤ length p.new = omega (arith, p.ring.cnt_le) in
    let kept =
      values_kept m.samples p.new m.index s r.used p.stored (fresh-ne n m.index r.used r.indices) in
    finish m s v p r (
      inserted p.new m.index r.used r.free r.rest (omega (arith, v.ring.index_lt))
        (perm-lt n (length p.new) (m.index ∷ r.used) fits r.indices).1 (rw kept r.ordered))

-- Every call of a well-formed moving median is answered and leaves it well formed, with its length
-- and with the window that has the new sample: the used part of the incrementally kept order holds
-- the index of each slot in use exactly once, in the order of their samples, the arrays have the
-- length of the filter, and the next slot is one of them, right behind those in use while there
-- are free ones.
pub mmedian_sample-IsValid :
    (m : Mmedian) (s : Tmv)
    → IsValid m
    → Holds
        (λ r. IsValid r.1 × (r.1.len ≡ m.len) × (contents r.1 ≡ push_window m.len (contents m) s))
        (mmedian_sample m s)
mmedian_sample-IsValid m s v =
    let t = step m s v in rw t.returns (yields (t.valid, t.same_len, t.held))

run_refines :
    (ss : List Tmv) (m : Mmedian)
    → IsValid m
    → Agree (run mmedian_sample m ss) (windowed median m.len (contents m) ss)
run_refines = Window.run_refines mmedian_sample median IsValid contents (λ m. m.len) step

abbrev fresh : ℕ → Mmedian
fresh n = record {
  cnt = 0;
  len = n;
  index = 0;
  order = replicate n 0;
  samples = replicate n (pos 0);
}

fresh-IsValid : (n : ℕ) → 0 < n → IsValid (fresh n)
fresh-IsValid n h = record {
  ring = record {
    length_buf = length-replicate n (pos 0);
    cnt_le = omega arith;
    index_lt = h;
    filling = λ k. refl;
  };
  length_order = length-replicate n 0;
  indices = Perm.rfl;
  ordered = Pairwise.nil;
}

created :
    (alloc : ℕ → Bool) (n : ℕ) {m : Mmedian}
    → mmedian_create alloc (pos n) ≡ some m
    → (0 < n) × (m ≡ fresh n)
unfolding mmedian_create tmv_zero
created alloc n e = ground arith

-- A new filter of a positive length is valid and empty.
pub create-IsValid :
    (alloc : ℕ → Bool) (n : ℕ) {m : Mmedian}
    → mmedian_create alloc (pos n) ≡ some m
    → IsValid m × (m.len ≡ n) × (contents m ≡ [])
create-IsValid alloc n e =
    let (h, is) = created alloc n e in
    let empty : contents (fresh n) ≡ [] = rw (lt→ltb 0 n h) in
    rw is (fresh-IsValid n h, refl, empty)

-- From its creation on the moving median returns, for every sequence of samples, the medians of the
-- windows of the latest `n` samples, and never faults.
pub run-mmedian_create :
    (alloc : ℕ → Bool) (n : ℕ) (ss : List Tmv) {m : Mmedian}
    → mmedian_create alloc (pos n) ≡ some m
    → Agree (run mmedian_sample m ss) (windowed median n [] ss)
run-mmedian_create alloc n ss {m} e =
    let (valid, size, empty) = create-IsValid alloc n e in
    subst (λ k. Agree (run mmedian_sample m ss) (windowed median k [] ss)) size
      (rw empty at (run_refines ss m valid))

-- A reset empties the window of a valid filter, whatever the arrays still hold.
pub reset-IsValid :
    (m : Mmedian)
    → IsValid m
    → IsValid (mmedian_reset m)
      × ((mmedian_reset m).len ≡ m.len)
      × (contents (mmedian_reset m) ≡ [])
unfolding mmedian_reset
reset-IsValid m v =
    let some_slots : 0 < m.len = omega (arith, v.ring.index_lt) in
    (
      record {
        ring = record {
          length_buf = v.ring.length_buf;
          cnt_le = omega arith;
          index_lt = some_slots;
          filling = λ k. refl;
        };
        length_order = v.length_order;
        indices = Perm.rfl;
        ordered = Pairwise.nil;
      },
      refl,
      rw (lt→ltb 0 m.len some_slots),
    )
