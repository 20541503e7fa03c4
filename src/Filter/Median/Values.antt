-- ===== src/Filter/Median/Values.antt =====
-- The specification of the moving median: the middle of the sorted window. And why a list has only
-- one sorted rearrangement.
use mathlib.Core.Path.{ap₂}
use mathlib.Core.List.{Mem, Perm, Pairwise, mem-cons_self, forall_mem-cons, Pairwise-singleton}
use mathlib.Core.List.Pairwise
use mathlib.Core.List.Perm
use native.Mathlib.Bridge.{le_prop}
use external_servo.Prelude.{
  ◌-◌, ◌/◌, ◌%◌, ◌≡◌, inl, inr, Option, List, [], ◌∷◌, arith, ◌==◌, length, get_elem?, Bool-cases,
  ◌>>=◌, if◌then◌else◌,
}
use external_servo.Prelude.Int.{pos, leb_ℤ, ◌≤ℤ◌, ≤ℤ_antisymm}
use external_servo.Tmv.{Tmv, tmv_add, tmv_div}

abbrev pub IsSorted : List Tmv → Type 0
IsSorted = Pairwise ◌≤ℤ◌

insert : Tmv → List Tmv → List Tmv
insert x [] = x ∷ []
insert x (y ∷ ys) = if leb_ℤ x y then x ∷ y ∷ ys else y ∷ insert x ys

pub sort : List Tmv → List Tmv
unfolding insert
sort [] = []
sort (x ∷ xs) = insert x (sort xs)

unfoldable pub middle : List Tmv → Option Tmv
middle ys = if length ys % 2 == 1 then get_elem? ys (length ys / 2) else (do
  a ← get_elem? ys (length ys / 2 - 1)
  b ← get_elem? ys (length ys / 2)
  tmv_div (tmv_add a b) (pos 2))

-- of an even number of samples, the mean of the two in the middle
unfoldable pub median : List Tmv → Option Tmv
unfolding middle sort
median xs = middle (sort xs)

abbrev IsBelow : Tmv → List Tmv → Type 0
IsBelow a l = (x : Tmv) → Mem x l → a ≤ℤ x

IsBelow-cons : (a b : Tmv) {l : List Tmv} → a ≤ℤ b → IsBelow a l → IsBelow a (b ∷ l)
IsBelow-cons a b p h = (forall_mem-cons (λ x. le_prop)).1 (p, h)

IsBelow-perm : (a : Tmv) {l r : List Tmv} → Perm l r → IsBelow a r → IsBelow a l
IsBelow-perm a p h x m = h x ((Perm.mem_iff p).0 m)

IsBelow-head : (a b : Tmv) {l : List Tmv} → a ≤ℤ b → IsSorted (b ∷ l) → IsBelow a (b ∷ l)
IsBelow-head a b p (Pairwise.cons h s) = IsBelow-cons a b p (λ x m. omega (arith, h x m))

insert-perm : (x : Tmv) (l : List Tmv) → Perm (insert x l) (x ∷ l)
unfolding insert
insert-perm x [] = Perm.rfl
insert-perm x (y ∷ ys) = elim (Bool-cases (leb_ℤ x y)) [
  | inl e ↦ rw e Perm.rfl
  | inr e ↦ rw e (Perm.trans (Perm.cons y (insert-perm x ys)) (Perm.swap x y ys))
]

insert-IsSorted : (x : Tmv) {l : List Tmv} → IsSorted l → IsSorted (insert x l)
unfolding insert
insert-IsSorted x Pairwise.nil = Pairwise-singleton _ x
insert-IsSorted x (Pairwise.cons {a = y} {l = ys} h s) = elim (Bool-cases (leb_ℤ x y)) [
  | inl e ↦
      rw e (Pairwise.cons (IsBelow-head x y (ground arith) (Pairwise.cons h s)) (Pairwise.cons h s))
  | inr e ↦ rw e (
      Pairwise.cons (IsBelow-perm y (insert-perm x ys) (IsBelow-cons y x (ground arith) h))
        (insert-IsSorted x s))
]

pub sort-perm : (l : List Tmv) → Perm (sort l) l
unfolding sort
sort-perm [] = Perm.rfl
sort-perm (x ∷ xs) = Perm.trans (insert-perm x (sort xs)) (Perm.cons x (sort-perm xs))

pub sort-IsSorted : (l : List Tmv) → IsSorted (sort l)
unfolding sort
sort-IsSorted [] = Pairwise.nil
sort-IsSorted (x ∷ xs) = insert-IsSorted x (sort-IsSorted xs)

heads_le : {a b : Tmv} {l r : List Tmv} → IsSorted (a ∷ l) → Perm (b ∷ r) (a ∷ l) → a ≤ℤ b
heads_le {a} {b} s p = IsBelow-perm a p (IsBelow-head a a (omega arith) s) b mem-cons_self

sorted_unique : {l r : List Tmv} → IsSorted l → IsSorted r → Perm l r → l ≡ r
sorted_unique {l = []} _ _ p = Perm.nil-eq p
sorted_unique {l = a ∷ l} {r = []} _ _ p = Perm.eq-nil p
sorted_unique {l = a ∷ l} {r = b ∷ r} sl sr p =
    let heads = ≤ℤ_antisymm a b (heads_le sl (Perm.symm p)) (heads_le sr p) in
    let tails = Perm.cons_inv (Perm.trans p (Perm.symm (Perm.cons' heads Perm.rfl))) in
    ap₂ ◌∷◌ heads (sorted_unique {l = l} (Pairwise.of_cons sl) (Pairwise.of_cons sr) tails)

-- The sorted list of a window is the one that an ordered rearrangement spells out.
pub sort_unique : {l r : List Tmv} → IsSorted l → Perm l r → l ≡ sort r
sort_unique {r} s p = sorted_unique s (sort-IsSorted r) (Perm.trans p (Perm.symm (sort-perm r)))
