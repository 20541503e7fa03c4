-- ===== src/Servo/Linreg/Regress.antt =====
-- servo/linreg/linreg.c: the circular buffer holds the newest points, and the incremental sums of
-- `regress` are, for each size, the sums over that many newest points.
use external_servo.Prelude.{
  ℕ, zero, suc, ◌+◌, ◌-◌, ◌%◌, ◌^◌, ◌≤◌, ◌<◌, ◌≡◌, ◌≢◌, refl, sym, ap, ◌∙◌, inl, inr, some, List,
  [], ◌∷◌, ◌++◌, if◌then◌else◌, ltb, Holds, yields, Holds-bind, read_in, Holds-map, result, length,
  get_elem?, set?, take, drop, arith, Bool-cases, not-ltb→le,
}
use native.Mathlib.Numerals.{unary_clauses}
use mathlib.Core.Option.{some-injective, none-ne-some}
use external_servo.Prelude.Int.{ℤ}
use external_servo.Prelude.Word.{to_u64, of_u64}
use external_servo.Double.{Double}
use external_servo.Servo.Base.{sub_u64}
use external_servo.Servo.Linreg.{add_sample}
use external_servo.Servo.Points.{
  Point, Result, LinregServo, Sums, add_point, no_sums, sum_points, regress_sizes, regress, solve,
  update_err,
}

module _ {ℓ} {A : Type ℓ} where
  -- after the write of `v` at `i`
  abbrev Written : List A → ℕ → A → List A → Type ℓ
  Written xs i v ys =
      length ys ≡ length xs
      × (get_elem? ys i ≡ some v)
      × ((j : ℕ) → j ≢ i → get_elem? ys j ≡ get_elem? xs j)

  Written-cons :
      (x : A) (xs : List A) (i : ℕ) (v : A) (ys : List A)
      → Written xs i v ys
      → Written (x ∷ xs) (suc i) v (x ∷ ys)
  Written-cons x xs i v ys (l, h, e) = (ap suc l, h, other)
    where
      other : (j : ℕ) → j ≢ suc i → get_elem? (x ∷ ys) j ≡ get_elem? (x ∷ xs) j
      other zero k = refl
      other (suc j) k = e j (λ q. k (ap suc q))

  set?-Written :
      (xs : List A) (i : ℕ) (v : A) → i < length xs → Holds (Written xs i v) (set? xs i v)
  set?-Written [] i v h = absurd (omega arith)
  set?-Written (x ∷ xs) zero v h = yields (refl, refl, other)
    where
      other : (j : ℕ) → j ≢ zero → get_elem? (v ∷ xs) j ≡ get_elem? (x ∷ xs) j
      other zero k = absurd (k refl)
      other (suc j) k = refl
  set?-Written (x ∷ xs) (suc i) v h =
      Holds-map (◌∷◌ x) (set?-Written xs i v (omega arith)) (λ ys e. Written-cons x xs i v ys e)

take-split {ℓ} :
    {A : Type ℓ} (i k : ℕ) (xs : List A) → take i xs ++ take k (drop i xs) ≡ take (i + k) xs
take-split zero k xs = let e : k ≡ 0 + k = omega arith in ap (λ n. take n xs) e
take-split (suc i) zero [] = simp unary_clauses refl
take-split (suc i) (suc k) [] = simp unary_clauses refl
take-split (suc i) k (x ∷ xs) =
    let e : suc (i + k) ≡ suc i + k = omega arith in
    ap (◌∷◌ x) (take-split i k xs) ∙ ap (λ n. take n (x ∷ xs)) e

pub pow_grows : (n : ℕ) → 2 ^ n ≤ 2 ^ (n + 1)
pow_grows n = let next : n + 1 ≡ suc n = omega arith in rw next (omega arith)

module _ {ℓ} {D : Type ℓ} ⦃d : Double D⦄ where
  -- The points added so far, the newest first, of which the buffer holds `num_points`.
  unfoldable pub Stored : List (Point D) → LinregServo D → Type ℓ
  Stored history s =
      length s.points ≡ 64
      × s.last_point < 64
      × s.num_points ≤ 64
      × ((i : ℕ)
          → i < s.num_points
          → get_elem? s.points ((64 + s.last_point - i) % 64) ≡ get_elem? history i)

  -- the point that `add_sample` adds
  abbrev pub new_point : LinregServo D → ℤ → D → Point D
  new_point s offset weight = record {
    x = s.reference.x;
    y = sub_u64 s.reference.y (to_u64 offset);
    w = weight;
  }

  -- A sample goes in front of the points stored.
  pub add_sample-Stored :
      (s : LinregServo D) (offset : ℤ) (weight : D) (history : List (Point D))
      → Stored history s
      → Holds (Stored (new_point s offset weight ∷ history)) (add_sample s offset weight)
  unfolding add_sample Stored
  add_sample-Stored s offset weight history (p, l, n, h) =
      Holds-bind
        (set?-Written s.points ((s.last_point + 1) % 64) (new_point s offset weight) (omega arith))
        (λ ys (m, e, o). yields (m ∙ p, omega arith, ground arith, newest ys e o))
    where
      newest :
          (ys : List (Point D))
          → get_elem? ys ((s.last_point + 1) % 64) ≡ some (new_point s offset weight)
          → ((j : ℕ) → j ≢ (s.last_point + 1) % 64 → get_elem? ys j ≡ get_elem? s.points j)
          → (i : ℕ) → i < (if ltb s.num_points 64 then s.num_points + 1 else s.num_points)
          → get_elem? ys ((64 + (s.last_point + 1) % 64 - i) % 64)
            ≡ get_elem? (new_point s offset weight ∷ history) i
      newest ys e o zero k = rw (here) e
        where
          here : (64 + (s.last_point + 1) % 64 - 0) % 64 ≡ (s.last_point + 1) % 64
          here = omega arith
      newest ys e o (suc i) k =
          rw (here (ground arith))
            (o ((64 + s.last_point - i) % 64) (λ q. away (ground arith) q) ∙ h i (ground arith))
        where
          here : i < 63 → (64 + (s.last_point + 1) % 64 - suc i) % 64 ≡ (64 + s.last_point - i) % 64
          here b = omega arith

          away : i < 63 → (64 + s.last_point - i) % 64 ≢ (s.last_point + 1) % 64
          away b q = omega arith

  -- the sums over some points, relative to the reference
  unfoldable pub sums : Point D → Sums D → List (Point D) → Sums D
  sums reference acc [] = acc
  sums reference acc (p ∷ ps) = sums reference (add_point reference p acc) ps

  sums-append :
      (r : Point D) (acc : Sums D) (ps qs : List (Point D))
      → sums r (sums r acc ps) qs ≡ sums r acc (ps ++ qs)
  unfolding sums
  sums-append r acc [] qs = refl
  sums-append r acc (p ∷ ps) qs = sums-append r (add_point r p acc) ps qs

  -- What `regress` is to compute: each size from scratch.
  unfoldable pub regressions :
      List (Point D) → Point D → ℕ → D → ℕ → List (Result D) → List (Result D)
  regressions history reference num y0 size [] = []
  regressions history reference num y0 size (res ∷ rs) =
      if ltb num (2 ^ size)
      then res ∷ rs
      else solve (sums reference no_sums (take (2 ^ size) history)) (update_err y0 res)
        ∷ regressions history reference num y0 (size + 1) rs

  next_point :
      (history : List (Point D)) (k i : ℕ) (q : Point D)
      → get_elem? history i ≡ some q
      → take (suc k) (drop i history) ≡ q ∷ take k (drop (suc i) history)
  next_point [] k i q e = absurd (none-ne-some q e)
  next_point (p ∷ ps) k zero q e = ap (λ z. z ∷ take k ps) (some-injective _ _ e)
  next_point (p ∷ ps) k (suc i) q e = next_point ps k i q e

  -- the loop reads the points in the order of their age
  sum_points_lem :
      (s : LinregServo D) (history : List (Point D)) (k i : ℕ) (acc : Sums D)
      → Stored history s
      → i + k ≤ s.num_points
      → sum_points s k i acc ≡ some (sums s.reference acc (take k (drop i history)))
  unfolding sum_points sums Stored
  sum_points_lem s history zero i acc v h = refl
  sum_points_lem s history (suc k) i acc v h =
      let (p, l, n, stored) = v in
      let (q, e, f) = result (read_in s.points ((64 + s.last_point - i) % 64) (omega arith)) in
      let next : suc i ≡ i + 1 = omega arith in
      rw (e, next_point history k i q (sym (stored i (omega arith)) ∙ e), next)
        (sum_points_lem s history k (i + 1) (add_point s.reference q acc) v (omega arith))

  sum_points-more :
      (s : LinregServo D) (history : List (Point D)) (n i : ℕ)
      → Stored history s
      → i ≤ n
      → n ≤ s.num_points
      → sum_points s (n - i) i (sums s.reference no_sums (take i history))
        ≡ some (sums s.reference no_sums (take n history))
  sum_points-more s history n i v h m =
      let all : i + (n - i) ≡ n = omega arith in
      sum_points_lem s history (n - i) i _ v (omega arith)
      ∙ ap some (
          sums-append s.reference no_sums (take i history) (take (n - i) (drop i history))
          ∙ ap (sums s.reference no_sums)
              (take-split i (n - i) history ∙ ap (λ k. take k history) all))

  regress_sizes_lem :
      (s : LinregServo D) (history : List (Point D)) (y0 : D) (size i : ℕ) (rs : List (Result D))
      → Stored history s
      → i ≤ 2 ^ size
      → regress_sizes s y0 size i (sums s.reference no_sums (take i history)) rs
        ≡ some (regressions history s.reference s.num_points y0 size rs)
  unfolding regress_sizes regressions
  regress_sizes_lem s history y0 size i [] v h = refl
  regress_sizes_lem s history y0 size i (res ∷ rs) v h =
      elim (Bool-cases (ltb s.num_points (2 ^ size))) [
        | inl t ↦ rw t
        | inr t ↦
            let enough = not-ltb→le s.num_points (2 ^ size) t in
            rw (
              t,
              sum_points-more s history (2 ^ size) i v h enough,
              regress_sizes_lem s history y0 (size + 1) (2 ^ size) rs v (pow_grows size),
            )
      ]

  -- Each size from scratch: the prediction error of the newest point, and the line through the newest points.
  pub regress_lem :
      (s : LinregServo D) (newest : Point D) (history : List (Point D))
      → Stored (newest ∷ history) s
      → 1 ≤ s.num_points
      → regress s
        ≡ some (record s {
          results =
              regressions
                (newest ∷ history)
                s.reference
                s.num_points
                (d.of_int (of_u64 (sub_u64 newest.y s.reference.y)))
                2
                s.results;
        })
  unfolding regress Stored sums
  regress_lem s newest history v h =
      let (p, l, n, stored) = v in
      let here : (64 + s.last_point - 0) % 64 ≡ s.last_point = omega arith in
      rw (
        rw here at (stored 0 h),
        regress_sizes_lem s (newest ∷ history) _ 2 0 s.results v (omega arith),
      )
