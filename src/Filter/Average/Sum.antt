-- ===== src/Filter/Average/Sum.antt =====
-- The sum that the moving average keeps is that of its window, and a write to the ring keeps it so.
use mathlib.Core.List.{append_assoc}
use mathlib.Core.Option.{some-injective}
use native.Mathlib.Decide.{dec_lt}
use external_servo.Prelude.{
  ℕ, zero, suc, ◌+◌, ◌-◌, ◌≡◌, refl, sym, ap, ◌∙◌, some, List, [], ◌∷◌, ◌++◌, arith, length,
  get_elem?, set?, take, drop, length-append, replicate, lt→ltb, le→not-ltb, take-append-drop,
  split_at, get_elem?-at, set?-at, drop-append, drop-length, tail,
}
use external_servo.Prelude.Int.{ℤ, pos, ◌+ℤ◌, ◌-ℤ◌, int_laws, +ℤ_comm, +ℤ_zero}
use external_servo.Prelude.Word.{wrap64}
use external_servo.Tmv.{Tmv}
use external_servo.Filter.Ring.{IsRing, next_cnt, window}
use external_servo.Filter.Average.{Mave}

unfoldable pub total : List Tmv → ℤ
total [] = pos 0
total (x ∷ xs) = x +ℤ total xs

total-append : (xs ys : List Tmv) → total (xs ++ ys) ≡ total xs +ℤ total ys
unfolding total
total-append [] ys = omega int_laws
total-append (x ∷ xs) ys = rw (total-append xs ys) (omega int_laws)

pub total-replicate : (n : ℕ) → total (replicate n (pos 0)) ≡ pos 0
unfolding total
total-replicate zero = refl
total-replicate (suc n) = rw (total-replicate n) (omega int_laws)

pub record IsValid (m : Mave) : Type 0 where
  pub ring : IsRing m.cnt m.len m.index m.val
  pub summed : m.sum ≡ wrap64 (total m.val)
  pub clear : drop m.cnt m.val ≡ replicate (m.len - m.cnt) (pos 0)

-- the samples that the filter holds, oldest first
abbrev pub contents : Mave → List Tmv
contents m = window m.cnt m.len m.index m.val

-- The unused slots add nothing to the sum.
pub total-window :
    (cnt len index : ℕ) (buf : List Tmv)
    → IsRing cnt len index buf
    → drop cnt buf ≡ replicate (len - cnt) (pos 0)
    → total (window cnt len index buf) ≡ total buf
total-window cnt len index buf r c = elim (dec_lt cnt len) [
  | yes h ↦
      let unused : total (drop cnt buf) ≡ pos 0 = ap total c ∙ total-replicate (len - cnt) in
      rw (lt→ltb cnt len h) (
        sym (+ℤ_zero _)
        ∙ ap (◌+ℤ◌ (total (take cnt buf))) (sym unused)
        ∙ sym (total-append (take cnt buf) (drop cnt buf))
        ∙ ap total (take-append-drop cnt buf))
  | no h ↦ rw (le→not-ltb cnt len (omega arith)) (
      total-append (drop index buf) (take index buf)
      ∙ +ℤ_comm _ _
      ∙ sym (total-append (take index buf) (drop index buf))
      ∙ ap total (take-append-drop index buf))
]

total-middle : (p q : List Tmv) (x v : Tmv) → total (p ++ (v ∷ q)) ≡ total (p ++ (x ∷ q)) -ℤ x +ℤ v
unfolding total
total-middle p q x v = rw (total-append p (v ∷ q), total-append p (x ∷ q)) (omega int_laws)

-- What a write does to the sum, and to the slots behind the used ones.
pub record Written (m : Mave) (v : Tmv) (new : List Tmv) : Type 0 where
  pub old : Tmv
  pub read : get_elem? m.val m.index ≡ some old
  pub sum : total new ≡ total m.val -ℤ old +ℤ v
  pub clear : drop (next_cnt m.cnt m.len) new ≡ replicate (m.len - next_cnt m.cnt m.len) (pos 0)

clear_after :
    (p q : List Tmv) (x v : Tmv) (cnt len i : ℕ)
    → IsRing cnt len i (p ++ (x ∷ q))
    → i ≡ length p
    → drop cnt (p ++ (x ∷ q)) ≡ replicate (len - cnt) (pos 0)
    → drop (next_cnt cnt len) (p ++ (v ∷ q)) ≡ replicate (len - next_cnt cnt len) (pos 0)
clear_after p q x v cnt len i r e c = elim (dec_lt cnt len) [
  | yes h ↦
      let at : cnt ≡ length p = omega (arith, r.filling h) in
      let more : len - cnt ≡ suc (len - (cnt + 1)) = omega arith in
      let slots : x ∷ q ≡ replicate (suc (len - (cnt + 1))) (pos 0) =
        sym (drop-append p (x ∷ q) cnt at) ∙ c ∙ ap (λ k. replicate k (pos 0)) more in
      rw (lt→ltb cnt len h, ← append_assoc p (v ∷ []) q)
        (drop-append (p ++ (v ∷ [])) q (cnt + 1) (omega (arith, length-append p (v ∷ [])))
          ∙ ap tail slots)
  | no h ↦
      let none_left : len - cnt ≡ 0 = omega arith in
      rw (le→not-ltb cnt len (omega arith), none_left)
        (drop-length (p ++ (v ∷ q)) cnt
          (omega (arith, r, length-append p (v ∷ q), length-append p (x ∷ q))))
]

pub written :
    (m : Mave) (v : Tmv) (new : List Tmv)
    → IsValid m
    → set? m.val m.index v ≡ some new
    → Written m v new
written m v new k stored =
    let (p, x, q, e, l) = split_at m.val m.index (omega (arith, k.ring)) in
    let put : set? m.val m.index v ≡ some (p ++ (v ∷ q)) =
      ap (λ b. set? b m.index v) e ∙ set?-at p x q m.index v (sym l) in
    let is : new ≡ p ++ (v ∷ q) = some-injective _ _ (sym stored ∙ put) in
    record {
      old = x;
      read = ap (λ b. get_elem? b m.index) e ∙ get_elem?-at p x q m.index (sym l);
      sum = rw (is, e) (total-middle p q x v);
      clear =
          rw is
            (clear_after p q x v m.cnt m.len m.index (rw e at k.ring) (sym l) (rw e at k.clear));
    }
