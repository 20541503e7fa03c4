-- ===== src/Filter/Median/Insertion.antt =====
-- `mmedian_sample` after the insertion: the indices are sorted by value again, and the result is the
-- middle of those values.
use mathlib.Core.List.{
  Mem, Perm, Pairwise, Pairwise-map, Pairwise-reverse, Pairwise-singleton, reverse, reverse_aux,
  reverse_perm, forall_mem-cons, reverse-reverse,
}
use mathlib.Core.List.Perm
use native.Mathlib.Bridge.{le_prop}
use external_servo.Prelude.{
  ℕ, zero, suc, ◌-◌, ◌/◌, ◌%◌, ◌<◌, ◌≡◌, refl, sym, ap, ◌∙◌, inl, inr, some, List, [], ◌∷◌, ◌++◌,
  map, arith, length, get_elem?, All, Bool-cases, ◌==◌,
}
use external_servo.Prelude.Int.{leb_ℤ, ◌≤ℤ◌}
use external_servo.Tmv.{Tmv, tmv_add}
use external_servo.Tmv.Laws.{tmv_div_pos}
use external_servo.Filter.Median.{insert_index, median_at}
use external_servo.Filter.Median.Loops.{place, insert_index-place, length-reverse}
use external_servo.Filter.Median.Indices.{value, get_elem?-value}
use external_servo.Filter.Median.Values.{IsSorted, middle}

module _ (f : ℕ → Tmv) (index : ℕ) where
  place-perm : (vs : List ℕ) → Perm (place f index vs) (index ∷ vs)
  unfolding place
  place-perm [] = Perm.rfl
  place-perm (v ∷ vs) = elim (Bool-cases (leb_ℤ (f v) (f index))) [
    | inl e ↦ rw e Perm.rfl
    | inr e ↦ rw e (Perm.trans (Perm.cons v (place-perm vs)) (Perm.swap index v vs))
  ]

  abbrev Falls : ℕ → ℕ → Type 0
  Falls a b = f b ≤ℤ f a

  above-head :
      (a b : ℕ) {l : List ℕ}
      → f b ≤ℤ f a
      → Pairwise Falls (b ∷ l)
      → (x : ℕ) → Mem x (b ∷ l)
      → f x ≤ℤ f a
  above-head a b p (Pairwise.cons h s) =
      (forall_mem-cons (λ x. le_prop)).1 (p, λ x m. omega (arith, h x m))

  place-Falls : {vs : List ℕ} → Pairwise Falls vs → Pairwise Falls (place f index vs)
  unfolding place
  place-Falls Pairwise.nil = Pairwise-singleton _ index
  place-Falls (Pairwise.cons {a = v} {l = vs} h s) = elim (Bool-cases (leb_ℤ (f v) (f index))) [
    | inl e ↦
        rw e (
          Pairwise.cons (above-head index v (ground arith) (Pairwise.cons h s)) (Pairwise.cons h s))
    | inr e ↦ rw e (
        Pairwise.cons
          (λ x m.
            (forall_mem-cons {p = λ x. f x ≤ℤ f v} (λ x. le_prop)).1 (ground arith, h) x
              ((Perm.mem_iff (place-perm vs)).0 m))
          (place-Falls s))
  ]

  sorted-reverse : (l : List ℕ) → IsSorted (map f l) → Pairwise Falls (reverse l)
  sorted-reverse l s =
      (Pairwise-reverse {R = Falls} (λ i j. le_prop)).1
        ((Pairwise-map {R = ◌≤ℤ◌} (λ i j. le_prop) f).0 s)

  reverse-IsSorted : (l : List ℕ) → Pairwise Falls l → IsSorted (map f (reverse l))
  reverse-IsSorted l s =
      (Pairwise-map {R = ◌≤ℤ◌} (λ i j. le_prop) f).1
        ((Pairwise-reverse {R = λ i j. f i ≤ℤ f j} (λ i j. le_prop)).1 s)

pub record Inserted (s : List Tmv) (index : ℕ) (used : List ℕ) (free : ℕ) (rest : List ℕ)
    : Type 0 where
  pub indices : List ℕ
  pub done : insert_index s index (length used) (used ++ (free ∷ rest)) ≡ some (indices ++ rest)
  pub count : length indices ≡ suc (length used)
  pub same : Perm indices (index ∷ used)
  pub ordered : IsSorted (map (value s) indices)

All-reverse_aux :
    (P : ℕ → Type 0) (l acc : List ℕ) → All P l → All P acc → All P (reverse_aux l acc)
All-reverse_aux P [] acc h k = k
All-reverse_aux P (x ∷ l) acc h k = All-reverse_aux P l (x ∷ acc) h.1 (h.0, k)

All-map : (P Q : ℕ → Type 0) (l : List ℕ) → ((x : ℕ) → P x → Q x) → All P l → All Q l
All-map P Q [] h a = tt
All-map P Q (x ∷ l) h a = (h x a.0, All-map P Q l h a.1)

length-place : (f : ℕ → Tmv) (index : ℕ) (vs : List ℕ) → length (place f index vs) ≡ suc (length vs)
unfolding place
length-place f index [] = refl
length-place f index (v ∷ vs) = ground (arith, length-place f index vs)

-- The new index goes where its value belongs.
pub inserted :
    (s : List Tmv) (index : ℕ) (used : List ℕ) (free : ℕ) (rest : List ℕ)
    → index < length s
    → All (λ o. o < length s) used
    → IsSorted (map (value s) used)
    → Inserted s index used free rest
inserted s index used free rest h a o =
    let vs : List ℕ = reverse used in
    record {
      indices = reverse (place (value s) index vs);
      done =
          insert_index-place (value s) s index (get_elem?-value s index h) vs free rest
            (length used) (used ++ (free ∷ rest))
            (All-reverse_aux _ used [] (All-map _ _ used (λ o. get_elem?-value s o) a) tt)
            (sym (length-reverse used)) (ap (λ l. l ++ (free ∷ rest)) (sym (reverse-reverse used)));
      count =
          length-reverse (place (value s) index vs)
          ∙ length-place (value s) index vs
          ∙ ap suc (length-reverse used);
      same =
          Perm.trans (reverse_perm _)
            (Perm.trans (place-perm (value s) index vs) (Perm.cons index (reverse_perm used)));
      ordered =
          reverse-IsSorted (value s) index _
            (place-Falls (value s) index (sorted-reverse (value s) index used o));
    }

-- One slot of `order`: its index, the sample there, and the same among the values.
slot :
    (s : List Tmv) (w r : List ℕ) (i : ℕ)
    → All (λ o. o < length s) w
    → i < length w
    → (o : ℕ) × (get_elem? (w ++ r) i ≡ some o)
      × (get_elem? s o ≡ some (value s o))
      × (get_elem? (map (value s) w) i ≡ some (value s o))
slot s [] r i a h = absurd (omega arith)
slot s (o ∷ w) r zero a h = (o, refl, get_elem?-value s o a.0, refl)
slot s (o ∷ w) r (suc i) a h = slot s w r i a.1 (omega arith)

pub length-map : (f : ℕ → Tmv) (w : List ℕ) → length (map f w) ≡ length w
length-map f [] = refl
length-map f (o ∷ w) = ap suc (length-map f w)

-- The result is read at the middle of the used indices.
pub median_at-middle :
    (s : List Tmv) (w r : List ℕ) (n : ℕ)
    → n ≡ length w
    → 0 < n
    → All (λ o. o < length s) w
    → median_at s (w ++ r) n ≡ middle (map (value s) w)
unfolding median_at middle
median_at-middle s w r n e h a =
    let (o, x, y, z) = slot s w r (n / 2) a (omega arith) in
    let (o', x', y', z') = slot s w r (n / 2 - 1) a (omega arith) in
    let size : length (map (value s) w) ≡ n = length-map (value s) w ∙ sym e in
    elim (Bool-cases (n % 2 == 1)) [
      | inl odd ↦ rw (size, odd, x, y, z)
      | inr even ↦ rw (size, even, x, y, z, x', y', z')
    ]

pub middle_total : (l : List Tmv) → 0 < length l → (m : Tmv) × (middle l ≡ some m)
unfolding middle
middle_total l h =
    let (a, x) = read l (length l / 2) (omega arith) in
    let (b, y) = read l (length l / 2 - 1) (omega arith) in
    elim (Bool-cases (length l % 2 == 1)) [
      | inl odd ↦ rw odd (a, x)
      | inr even ↦ rw (even, y, x) (_, tmv_div_pos (tmv_add b a) 2 (omega arith))
    ]
  where
    read : (l : List Tmv) (i : ℕ) → i < length l → (a : Tmv) × (get_elem? l i ≡ some a)
    read [] i h = absurd (omega arith)
    read (x ∷ l) zero h = (x, refl)
    read (x ∷ l) (suc i) h = read l i (omega arith)
