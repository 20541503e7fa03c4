-- ===== src/Filter/Dispatch/Refine.antt =====
-- Either filter refines its function of the bounded window.
use mathlib.Core.Path.{subst}
use external_servo.Prelude.{
  ℕ, ◌<◌, ◌≡◌, refl, Bool, Option, some, List, [], if◌then◌else◌, arith, inl, inr, Bool-cases,
  Option-cases,
}
use external_servo.Prelude.Int.{ℤ, pos, eqb_ℤ}
use external_servo.Tmv.{Tmv}
use external_servo.Filter.Window
use external_servo.Filter.Average
use external_servo.Filter.Median
use external_servo.Filter.Window.{Agree, Refines, run, windowed}
use external_servo.Filter.Average.{mave_create}
use external_servo.Filter.Average.Refine.{average}
use external_servo.Filter.Median.{mmedian_create}
use external_servo.Filter.Median.Values.{median}
use external_servo.Filter.Dispatch.{
  Filter, mave, mmedian, filter_create, filter_sample, filter_reset, filter_moving_average,
}

-- What a filter computes from the window of its latest samples.
abbrev pub spec_of : Filter → List Tmv → Option Tmv
spec_of (mave m) = average
spec_of (mmedian m) = median

abbrev pub IsValid : Filter → Type 0
IsValid (mave m) = Average.Sum.IsValid m
IsValid (mmedian m) = Median.Refine.IsValid m

abbrev pub contents : Filter → List Tmv
contents (mave m) = Average.Sum.contents m
contents (mmedian m) = Median.Refine.contents m

abbrev pub len : Filter → ℕ
len (mave m) = m.len
len (mmedian m) = m.len

-- valid, and of the kind that computes `spec`
abbrev pub Computes : (List Tmv → Option Tmv) → Filter → Type 0
Computes spec f = IsValid f × (spec_of f ≡ spec)

-- One call of a valid filter: it does not fault, and returns what its function says of the window.
pub step :
    (spec : List Tmv → Option Tmv) (f : Filter) (s : Tmv)
    → Computes spec f
    → Refines filter_sample spec (Computes spec) contents len f s
unfolding filter_sample
step spec (mave m) s (v, k) =
    let t = Average.Refine.step m s v in
    record {
      result = t.result;
      next = mave t.next;
      returns = rw t.returns;
      meant = rw (← k) t.meant;
      held = t.held;
      valid = (t.valid, k);
      same_len = t.same_len;
    }
step spec (mmedian m) s (v, k) =
    let t = Median.Refine.step m s v in
    record {
      result = t.result;
      next = mmedian t.next;
      returns = rw t.returns;
      meant = rw (← k) t.meant;
      held = t.held;
      valid = (t.valid, k);
      same_len = t.same_len;
    }

run_refines :
    (spec : List Tmv → Option Tmv) (ss : List Tmv) (f : Filter)
    → Computes spec f
    → Agree (run filter_sample f ss) (windowed spec (len f) (contents f) ss)
run_refines spec = Window.run_refines filter_sample spec (Computes spec) contents len (step spec)

-- What a filter type stands for.
abbrev pub spec_of_type : ℤ → List Tmv → Option Tmv
spec_of_type type = if eqb_ℤ type filter_moving_average then average else median

pub create-IsValid :
    (alloc : ℕ → Bool) (type : ℤ) (n : ℕ) {f : Filter}
    → 0 < n
    → filter_create alloc type (pos n) ≡ some f
    → Computes (spec_of_type type) f × (len f ≡ n) × (contents f ≡ [])
unfolding filter_create
create-IsValid alloc type n {f} h e = elim (Bool-cases (eqb_ℤ type filter_moving_average)) [
  | inl a ↦ elim (Option-cases (mave_create alloc (pos n))) [
    | inl o ↦ absurd (ground arith)
    | inr (m, o) ↦
        let is : f ≡ mave m = ground arith in
        let (v, l, c) = Average.Refine.create-IsValid alloc n h o in rw (is, a) ((v, refl), l, c)
  ]
  | inr a ↦ elim (Option-cases (mmedian_create alloc (pos n))) [
    | inl o ↦ absurd (ground arith)
    | inr (m, o) ↦
        let is : f ≡ mmedian m = ground arith in
        let (v, l, c) = Median.Refine.create-IsValid alloc n o in rw (is, a) ((v, refl), l, c)
  ]
]

-- From its creation with a positive length on a filter returns, for every sequence of samples, what
-- its type says of the windows of the latest `n` samples, and never faults.
pub run-filter_create :
    (alloc : ℕ → Bool) (type : ℤ) (n : ℕ) (ss : List Tmv) {f : Filter}
    → 0 < n
    → filter_create alloc type (pos n) ≡ some f
    → Agree (run filter_sample f ss) (windowed (spec_of_type type) n [] ss)
run-filter_create alloc type n ss {f} h e =
    let (c, size, empty) = create-IsValid alloc type n h e in
    subst (λ k. Agree (run filter_sample f ss) (windowed (spec_of_type type) k [] ss)) size
      (rw empty at (run_refines (spec_of_type type) ss f c))

-- A reset keeps the kind and the length of a valid filter, and empties its window.
pub reset-IsValid :
    (spec : List Tmv → Option Tmv) (f : Filter)
    → Computes spec f
    → Computes spec (filter_reset f)
      × (len (filter_reset f) ≡ len f)
      × (contents (filter_reset f) ≡ [])
unfolding filter_reset
reset-IsValid spec (mave m) (v, k) =
    let (w, l, c) = Average.Refine.reset-IsValid m v in ((w, k), l, c)
reset-IsValid spec (mmedian m) (v, k) =
    let (w, l, c) = Median.Refine.reset-IsValid m v in ((w, k), l, c)

-- After a reset a valid filter returns what it would for a new start, and never faults.
pub run-filter_reset :
    (spec : List Tmv → Option Tmv) (ss : List Tmv) (f : Filter)
    → Computes spec f
    → Agree (run filter_sample (filter_reset f) ss) (windowed spec (len f) [] ss)
run-filter_reset spec ss f k =
    let (c, size, empty) = reset-IsValid spec f k in
    subst (λ n. Agree (run filter_sample (filter_reset f) ss) (windowed spec n [] ss)) size
      (rw empty at (run_refines spec ss (filter_reset f) c))
