-- ===== src/Filter/Median/Bag.antt =====
-- The moving median as a function of the samples in its window, whatever their order.
use mathlib.Core.List.{Perm}
use mathlib.Core.List.Perm
use mathlib.Core.Option.{some-injective}
use mathlib.Core.Quot
use mathlib.Core.Quot.{Quot}
use external_servo.Prelude.{◌≡◌, sym, ap, ◌∙◌, Option, some, List}
use external_servo.Prelude.Int.{ℤ_discrete}
use external_servo.Tmv.{Tmv}
use external_servo.Filter.Ring.{push_window}
use external_servo.Filter.Median.{Mmedian, mmedian_sample}
use external_servo.Filter.Median.Values.{median, middle, sort-perm, sort-IsSorted, sort_unique}
use external_servo.Filter.Median.Refine.{IsValid, contents, step}

-- the samples of a window, without their order
abbrev pub Bag : Type 0
Bag = Quot (Perm {A = Tmv})

abbrev pub bag : List Tmv → Bag
bag xs = Quot.mk xs

Reply_set : IsSet (Option Tmv)
Reply_set = hlevel ℤ_discrete

median-perm : (xs ys : List Tmv) → Perm xs ys → median xs ≡ median ys
unfolding median
median-perm xs ys p = ap middle (sort_unique (sort-IsSorted xs) (Perm.trans (sort-perm xs) p))

abbrev median_of : Bag → Option Tmv
median_of = Quot.lift Reply_set median median-perm

-- Two moving medians that are well formed, of whatever lengths and histories, give the same answer,
-- and none faults, where the windows with the new samples hold the same samples as often, in any
-- order.
pub mmedian_sample-bag :
    (m m' : Mmedian) (s s' : Tmv)
    → IsValid m
    → IsValid m'
    → bag (push_window m.len (contents m) s) ≡ bag (push_window m'.len (contents m') s')
    → (r : Tmv) × (next : Mmedian) × (next' : Mmedian) × (mmedian_sample m s ≡ some (r, next))
      × (mmedian_sample m' s' ≡ some (r, next'))
mmedian_sample-bag m m' s s' v v' e =
    let t = step m s v in
    let t' = step m' s' v' in
    let same : some t.result ≡ some t'.result = sym t.meant ∙ ap median_of e ∙ t'.meant in
    (
      t.result,
      t.next,
      t'.next,
      t.returns,
      t'.returns ∙ ap (λ r. some (r, t'.next)) (sym (some-injective _ _ same)),
    )
