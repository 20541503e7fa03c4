-- ===== src/Filter/Median/Loops.antt =====
-- The three loops of `mmedian_sample`, each against an operation on lists.
use mathlib.Core.List.{reverse, reverse-cons, append_assoc}
use external_servo.Prelude.{
  ℕ, zero, suc, ◌+◌, ◌<◌, ◌≡◌, ◌≢◌, refl, sym, ap, ◌∙◌, inl, inr, some, List, [], ◌∷◌, ◌++◌, true,
  false, arith, ◌==◌, length, get_elem?, set?, length-append, get_elem?-at, set?-at, lt→ltb,
  le→not-ltb, Bool-cases, ◌>>=◌, if◌then◌else◌, All,
}
use external_servo.Prelude.Int.{pos, leb_ℤ}
use external_servo.Tmv.{Tmv, tmv_cmp}
use external_servo.Filter.Median.{find_index, remove_index, insert_index}

eq_false : (a b : ℕ) → a ≢ b → (a == b) ≡ false
eq_false a b h = ground arith

eq_true : (a : ℕ) → (a == a) ≡ true
eq_true a = ground arith

-- The search stops at the first slot that holds the index.
pub find_index-middle :
    (p a : List ℕ) (x : ℕ) (q : List ℕ) (cnt fuel : ℕ)
    → All (λ o. o ≢ x) a
    → length (p ++ a) < cnt
    → length a < fuel
    → find_index fuel (p ++ (a ++ (x ∷ q))) cnt x (length p) ≡ some (length (p ++ a))
unfolding find_index
find_index-middle p a x q cnt zero n h f = absurd (omega arith)
find_index-middle p [] x q cnt (suc fuel) n h f =
    rw
      (
        lt→ltb (length p) cnt (omega (arith, length-append p [])),
        get_elem?-at p x q (length p) refl,
        eq_true x,
      )
      (ap some (omega (arith, length-append p [])))
find_index-middle p (y ∷ a) x q cnt (suc fuel) n h f =
    rw
      (
        lt→ltb (length p) cnt (omega (arith, length-append p (y ∷ a))),
        get_elem?-at p y (a ++ (x ∷ q)) (length p) refl,
        eq_false y x n.0,
      )
      (let ih =
          find_index-middle (p ++ (y ∷ [])) a x q cnt fuel n.1
            (omega (
              arith,
              length-append p (y ∷ a),
              length-append (p ++ (y ∷ [])) a,
              length-append p (y ∷ []),
            ))
            (omega arith) in
        let at : length (p ++ (y ∷ [])) ≡ length p + 1 = length-append p (y ∷ []) in
        rw (at, append_assoc p (y ∷ []) (a ++ (x ∷ q)), append_assoc p (y ∷ []) a) at ih)

-- What shifting the rest of the array to the left leaves: its last slot keeps its index.
pub shifted : ℕ → List ℕ → List ℕ
shifted x [] = x ∷ []
shifted x (y ∷ q) = y ∷ shifted y q

pub shifted-append : (x : ℕ) (q : List ℕ) → (y : ℕ) × (shifted x q ≡ q ++ (y ∷ []))
unfolding shifted
shifted-append x [] = (x, refl)
shifted-append x (y ∷ q) = let (z, e) = shifted-append y q in (z, ap (◌∷◌ y) e)

pub remove_index-middle :
    (p : List ℕ) (x : ℕ) (q : List ℕ) (cnt fuel i : ℕ)
    → i ≡ length p
    → cnt ≡ length p + suc (length q)
    → length q < fuel
    → remove_index fuel (p ++ (x ∷ q)) cnt i ≡ some (p ++ shifted x q)
unfolding remove_index shifted
remove_index-middle p x q cnt zero i e c f = absurd (omega arith)
remove_index-middle p x [] cnt (suc fuel) i e c f = rw (le→not-ltb (i + 1) cnt (omega arith))
remove_index-middle p x (y ∷ q) cnt (suc fuel) i e c f =
    let next : get_elem? (p ++ (x ∷ y ∷ q)) (i + 1) ≡ some y =
      rw (append_assoc p (x ∷ []) (y ∷ q)) at
        (get_elem?-at (p ++ (x ∷ [])) y q (i + 1) (omega (arith, length-append p (x ∷ [])))) in
    rw (lt→ltb (i + 1) cnt (omega arith), next, set?-at p x (y ∷ q) i y e)
      (rw (append_assoc p (y ∷ []) (y ∷ q), append_assoc p (y ∷ []) (shifted y q)) at
        (remove_index-middle (p ++ (y ∷ [])) y q cnt fuel (i + 1)
          (omega (arith, length-append p (y ∷ []))) (omega (arith, length-append p (y ∷ [])))
          (omega arith)))

-- The insertion, on the indices from the largest value down.
module _ (value : ℕ → Tmv) (index : ℕ) where
  unfoldable pub place : List ℕ → List ℕ
  place [] = index ∷ []
  place (v ∷ vs) = if leb_ℤ (value v) (value index) then index ∷ v ∷ vs else v ∷ place vs

pub length-reverse : (l : List ℕ) → length (reverse l) ≡ length l
length-reverse [] = refl
length-reverse (x ∷ l) =
    rw (reverse-cons x l) (omega (arith, length-append (reverse l) (x ∷ []), length-reverse l))

tmv_cmp-leb : (a b : Tmv) → leb_ℤ (tmv_cmp a b) (pos 0) ≡ leb_ℤ a b
unfolding tmv_cmp
tmv_cmp-leb a b = ground arith

reverse-cons-append : (v : ℕ) (vs r : List ℕ) → reverse (v ∷ vs) ++ r ≡ reverse vs ++ (v ∷ r)
reverse-cons-append v vs r =
    ap (λ l. l ++ r) (reverse-cons v vs) ∙ append_assoc (reverse vs) (v ∷ []) r

module _ (value : ℕ → Tmv) (samples : List Tmv) (index : ℕ)
    (here : get_elem? samples index ≡ some (value index)) where
  -- One round of the loop.
  insert_index-suc :
      (order : List ℕ) (i v : ℕ)
      → get_elem? order i ≡ some v
      → get_elem? samples v ≡ some (value v)
      → insert_index samples index (suc i) order ≡ (
          if leb_ℤ (value v) (value index)
          then set? order (suc i) index
          else set? order (suc i) v >>= insert_index samples index i)
  unfolding insert_index
  insert_index-suc order i v o s = rw (o, s, here, tmv_cmp-leb (value v) (value index))

  pub insert_index-place :
      (vs : List ℕ) (x : ℕ) (r : List ℕ) (i : ℕ) (order : List ℕ)
      → All (λ v. get_elem? samples v ≡ some (value v)) vs
      → i ≡ length vs
      → order ≡ reverse vs ++ (x ∷ r)
      → insert_index samples index i order ≡ some (reverse (place value index vs) ++ r)
  unfolding insert_index place
  insert_index-place [] x r zero order a e o = rw o
  insert_index-place [] x r (suc i) order a e o = absurd (omega arith)
  insert_index-place (v ∷ vs) x r zero order a e o = absurd (omega arith)
  insert_index-place (v ∷ vs) x r (suc i) order a e o =
      let front : i ≡ length (reverse vs) = omega (arith, length-reverse vs) in
      let o' : order ≡ reverse vs ++ (v ∷ x ∷ r) = o ∙ reverse-cons-append v vs (x ∷ r) in
      let back : order ≡ (reverse vs ++ (v ∷ [])) ++ (x ∷ r) =
        o' ∙ sym (append_assoc (reverse vs) (v ∷ []) (x ∷ r)) in
      let write = λ (w : ℕ).
        ap (λ l. set? l (suc i) w) back
        ∙ set?-at (reverse vs ++ (v ∷ [])) x r (suc i) w
            (omega (arith, length-append (reverse vs) (v ∷ [])))
        ∙ ap some (append_assoc (reverse vs) (v ∷ []) (w ∷ r)) in
      insert_index-suc order i v
        (ap (λ l. get_elem? l i) o' ∙ get_elem?-at (reverse vs) v (x ∷ r) i front) a.0
      ∙ elim (Bool-cases (leb_ℤ (value v) (value index))) [
        | inl le ↦ rw le (
            write index
            ∙ ap some
                (sym (reverse-cons-append index (v ∷ vs) r ∙ reverse-cons-append v vs (index ∷ r))))
        | inr more ↦
            rw (more, write v)
              (insert_index-place vs v (v ∷ r) i (reverse vs ++ (v ∷ v ∷ r)) a.1 (omega arith) refl
                ∙ ap some (sym (reverse-cons-append v (place value index vs) r)))
      ]
