-- ===== src/Filter/Median/Indices.antt =====
-- The indices of the used slots, and what the samples in those slots are.
use mathlib.Core.Logic.Or
use mathlib.Core.List.{
  Mem, Perm, Nodup, map, mem-cons_self, mem-cons_of_mem, mem-cons, not-mem-nil, Nodup-cons,
  Nodup-nil, perm_append_comm,
}
use mathlib.Core.List.Perm
use native.Mathlib.Bridge.{le_prop}
use external_servo.Prelude.{
  ℕ, zero, suc, ◌≤◌, ◌<◌, ◌≡◌, ◌≢◌, refl, ap, inl, inr, Option-cases, some, List, [], ◌∷◌, ◌++◌,
  arith, length, get_elem?, set?, take, All,
}
use external_servo.Prelude.Int.{pos}
use external_servo.Tmv.{Tmv}

-- the indices below `n`
abbrev pub upto : ℕ → List ℕ
upto zero = []
upto (suc n) = n ∷ upto n

-- The sample in a slot.
pub value : List Tmv → ℕ → Tmv
value [] i = pos 0
value (x ∷ xs) zero = x
value (x ∷ xs) (suc i) = value xs i

pub get_elem?-value : (s : List Tmv) (i : ℕ) → i < length s → get_elem? s i ≡ some (value s i)
unfolding value
get_elem?-value [] i h = absurd (omega arith)
get_elem?-value (x ∷ s) zero h = refl
get_elem?-value (x ∷ s) (suc i) h = get_elem?-value s i (omega arith)

pub value-set? :
    (s : List Tmv) (i j : ℕ) (v : Tmv) {s' : List Tmv}
    → i ≢ j
    → set? s i v ≡ some s'
    → value s' j ≡ value s j
unfolding value
value-set? [] i j v ne e = cc
value-set? (x ∷ s) zero zero v ne e = absurd (ne refl)
value-set? (x ∷ s) zero (suc j) v ne e = ground arith
value-set? (x ∷ s) (suc i) zero v ne e = elim (Option-cases (set? s i v)) [
  | inl o ↦ ground arith
  | inr (r, o) ↦ ground arith
]
value-set? (x ∷ s) (suc i) (suc j) v {s'} ne e = elim (Option-cases (set? s i v)) [
  | inl o ↦ ground arith
  | inr (r, o) ↦
      let e' : s' ≡ x ∷ r = ground arith in rw e' (value-set? s i j v (λ q. ne (ap suc q)) o)
]

mem-upto : (n i : ℕ) → Mem i (upto n) → i < n
mem-upto zero i m = absurd (not-mem-nil m)
mem-upto (suc n) i m =
    Or.elim le_prop (mem-cons.0 m) (λ e. omega arith) (λ k. omega (arith, mem-upto n i k))

upto-Nodup : (n : ℕ) → Nodup (upto n)
upto-Nodup zero = Nodup-nil
upto-Nodup (suc n) = Nodup-cons.1 ((λ m. absurd (omega (arith, mem-upto n n m))), upto-Nodup n)

All-of_mem : {P : ℕ → Type 0} (l : List ℕ) → ((i : ℕ) → Mem i l → P i) → All P l
All-of_mem [] h = tt
All-of_mem (i ∷ l) h = (h i mem-cons_self, All-of_mem l (λ j m. h j (mem-cons_of_mem i m)))

-- An index that is not in use, beside those that are.
pub fresh-ne : (n i : ℕ) (u : List ℕ) → Perm (i ∷ u) (upto n) → All (λ o. i ≢ o) u
fresh-ne n i u p =
    let (out, d) = Nodup-cons.0 (Perm.nodup (Perm.symm p) (upto-Nodup n)) in
    All-of_mem u (λ o m e. out (rw e m))

pub perm-lt : (n k : ℕ) (u : List ℕ) → n ≤ k → Perm u (upto n) → All (λ o. o < k) u
perm-lt n k u h p = All-of_mem u (λ o m. omega (arith, mem-upto n o ((Perm.mem_iff p).0 m)))

take-suc : (s : List Tmv) (n : ℕ) → n < length s → take (suc n) s ≡ take n s ++ (value s n ∷ [])
unfolding value
take-suc [] n h = absurd (omega arith)
take-suc (x ∷ s) zero h = refl
take-suc (x ∷ s) (suc n) h = ap (◌∷◌ x) (take-suc s n (omega arith))

-- The values at the used indices are the used part of the buffer.
pub values-perm : (s : List Tmv) (n : ℕ) → n ≤ length s → Perm (map (value s) (upto n)) (take n s)
values-perm s zero h = Perm.rfl
values-perm s (suc n) h = rw (take-suc s n (omega arith)) (
    Perm.trans (Perm.cons (value s n) (values-perm s n (omega arith)))
      (perm_append_comm (value s n ∷ []) (take n s)))
