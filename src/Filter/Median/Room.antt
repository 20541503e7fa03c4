-- ===== src/Filter/Median/Room.antt =====
-- What `mmedian_sample` does before it inserts: it counts the new sample, or takes the index of the
-- replaced one out of `order`.
use mathlib.Core.List.{
  Mem, Perm, Pairwise-append, Pairwise-map, mem-cons_of_mem, mem-cons_self, perm_middle,
  append_assoc, not-mem-nil, mem-cons,
}
use mathlib.Core.List.Pairwise
use mathlib.Core.List.Perm
use mathlib.Core.Logic.Or
use native.Mathlib.Bridge.{le_prop}
use native.Mathlib.Decide.{dec_lt, ℕ_discrete}
use external_servo.Prelude.{
  ℕ, zero, suc, ◌+◌, ◌<◌, ◌≡◌, ◌≢◌, refl, sym, ap, ◌∙◌, ◌⊎◌, inl, inr, some, List, [], ◌∷◌, ◌++◌,
  map, arith, length, take, All, split_at, take-append, take-length, lt→ltb, le→not-ltb,
  length-append,
}
use external_servo.Prelude.Int.{◌≤ℤ◌}
use external_servo.Tmv.{Tmv}
use external_servo.Filter.Ring.{IsRing, next_cnt}
use external_servo.Filter.Median.{make_room}
use external_servo.Filter.Median.Loops.{find_index-middle, remove_index-middle, shifted-append}
use external_servo.Filter.Median.Indices.{upto}
use external_servo.Filter.Median.Values.{IsSorted}

pub record Room (f : ℕ → Tmv) (cnt len index : ℕ) (order : List ℕ) : Type 0 where
  pub used : List ℕ
  pub free : ℕ
  pub rest : List ℕ
  pub made : make_room cnt len index order ≡ some (next_cnt cnt len, used ++ (free ∷ rest))
  pub count : next_cnt cnt len ≡ suc (length used)
  pub total : length (used ++ (free ∷ rest)) ≡ length order
  pub indices : Perm (index ∷ used) (upto (next_cnt cnt len))
  pub ordered : IsSorted (map f used)

-- The first slot with an index, where there is one.
find_split :
    (x : ℕ) (l : List ℕ)
    → ((a : List ℕ) × (q : List ℕ) × (l ≡ a ++ (x ∷ q)) × All (λ o. o ≢ x) a) ⊎ (¬ Mem x l)
find_split x [] = inr not-mem-nil
find_split x (y ∷ l) = elim (ℕ_discrete y x) [
  | yes e ↦ inl ([], l, ap (λ k. k ∷ l) e, tt)
  | no ne ↦ elim (find_split x l) [
    | inl (a, q, e, n) ↦ inl (y ∷ a, q, ap (◌∷◌ y) e, (ne, n))
    | inr out ↦ inr (λ m. Or.elim (hlevel) (mem-cons.0 m) (λ e. ne (sym e)) out)
  ]
]

mem_upto : (n i : ℕ) → i < n → Mem i (upto n)
mem_upto zero i h = absurd (omega arith)
mem_upto (suc n) i h = elim (ℕ_discrete i n) [
  | yes e ↦ rw e mem-cons_self
  | no ne ↦ mem-cons_of_mem n (mem_upto n i (omega arith))
]

IsSorted-middle :
    (f : ℕ → Tmv) (a : List ℕ) (x : ℕ) (q : List ℕ)
    → IsSorted (map f (a ++ (x ∷ q)))
    → IsSorted (map f (a ++ q))
IsSorted-middle f a x q s =
    let R : ℕ → ℕ → Type 0 = λ i j. f i ≤ℤ f j in
    let whole = Pairwise-append {R = R} (λ i j. le_prop) {l₁ = a} {l₂ = x ∷ q} in
    let (sa, sq, apart) = whole.0 ((Pairwise-map {R = ◌≤ℤ◌} (λ i j. le_prop) f).0 s) in
    (Pairwise-map {R = ◌≤ℤ◌} (λ i j. le_prop) f).1 (
      (Pairwise-append {R = R} (λ i j. le_prop) {l₁ = a} {l₂ = q}).1
        (sa, Pairwise.of_cons sq, λ c m d k. apart c m d (mem-cons_of_mem x k)))

-- A buffer that is not full takes one more.
Room-filling :
    (f : ℕ → Tmv) (cnt len index : ℕ) (order : List ℕ)
    → cnt < len
    → index ≡ cnt
    → length order ≡ len
    → Perm (take cnt order) (upto cnt)
    → IsSorted (map f (take cnt order))
    → Room f cnt len index order
unfolding make_room
Room-filling f cnt len index order h i l p s =
    let (u, x, r, e, n) = split_at order cnt (omega arith) in
    let taken : take cnt order ≡ u = ap (take cnt) e ∙ take-append u (x ∷ r) cnt (sym n) in
    let one : next_cnt cnt len ≡ suc cnt = rw (lt→ltb cnt len h) (omega arith) in
    record {
      used = u;
      free = x;
      rest = r;
      made = rw (lt→ltb cnt len h) (ap (λ o. some (cnt + 1, o)) e);
      count = one ∙ ap suc (sym n);
      total = ap length (sym e);
      indices = rw one (Perm.cons' i (rw taken at p));
      ordered = rw taken at s;
    }

Room-split :
    (f : ℕ → Tmv) (cnt len index : ℕ) (a q : List ℕ)
    → cnt ≡ len
    → cnt ≡ length (a ++ (index ∷ q))
    → All (λ o. o ≢ index) a
    → Perm (a ++ (index ∷ q)) (upto cnt)
    → IsSorted (map f (a ++ (index ∷ q)))
    → Room f cnt len index (a ++ (index ∷ q))
unfolding make_room
Room-split f cnt len index a q full n out p s =
    let (y, e) = shifted-append index q in
    let same : next_cnt cnt len ≡ cnt = rw (le→not-ltb cnt len (omega arith)) in
    let size : cnt ≡ length a + suc (length q) = omega (arith, length-append a (index ∷ q)) in
    record {
      used = a ++ q;
      free = y;
      rest = [];
      made = rw (
        le→not-ltb cnt len (omega arith),
        find_index-middle [] a index q cnt (cnt + 1) out (omega arith) (omega arith),
        remove_index-middle a index q cnt (cnt + 1) (length a) refl size (omega arith),
        e,
        append_assoc a q (y ∷ []),
      );
      count = same ∙ omega (arith, length-append a q);
      total =
          omega (
            arith,
            length-append (a ++ q) (y ∷ []),
            length-append a q,
            length-append a (index ∷ q),
          );
      indices = rw same (Perm.trans (Perm.symm (perm_middle a q)) p);
      ordered = IsSorted-middle f a index q s;
    }

-- On both branches `order` ends with a free slot behind the used ones, which are in order, and the
-- index to insert is the one that is missing.
pub room :
    (f : ℕ → Tmv) (cnt len index : ℕ) (order : List ℕ) (buf : List Tmv)
    → IsRing cnt len index buf
    → length order ≡ len
    → Perm (take cnt order) (upto cnt)
    → IsSorted (map f (take cnt order))
    → Room f cnt len index order
room f cnt len index order buf r l p s = elim (dec_lt cnt len) [
  | yes h ↦ Room-filling f cnt len index order h (r.filling h) l p s
  | no h ↦
      let full : cnt ≡ len = omega (arith, r.cnt_le) in
      let whole : take cnt order ≡ order = take-length order cnt (omega arith) in
      let p' : Perm order (upto cnt) = rw whole at p in
      elim (find_split index order) [
        | inl (a, q, e, out) ↦ rw e (
            Room-split f cnt len index a q full (full ∙ sym l ∙ ap length e) out (rw e at p')
              (rw e at (rw whole at s)))
        | inr out ↦
            absurd (out ((Perm.mem_iff p').1 (mem_upto cnt index (omega (arith, r.index_lt)))))
      ]
]
