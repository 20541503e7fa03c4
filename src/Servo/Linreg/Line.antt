-- ===== src/Servo/Linreg/Line.antt =====
-- servo/linreg/linreg.c: with exact arithmetic `regress` finds the line on which the points lie.
use external_servo.Prelude.{
  ℕ, zero, suc, ◌+◌, ◌^◌, ◌≤◌, ◌<◌, ◌≡◌, sym, ap, ◌∙◌, inl, inr, ◌⊎◌, false, List, [], ◌∷◌, ltb,
  Holds, yields, take, All, arith, Bool-cases, not-ltb→le, ltb→lt,
}
use mathlib.Core.Path.{◌≡⟨◌⟩◌, ◌∎}
use external_servo.Prelude.Word.{of_u64}
use external_servo.Double.{Double, IsField, nought}
use external_servo.Servo.Base.{sub_u64}
use external_servo.Servo.Points.{
  Point, Result, LinregServo, Sums, add_point, no_sums, regress, solve, update_err,
}
use external_servo.Servo.Linreg.Regress.{Stored, sums, regressions, regress_lem, pow_grows}

All-take {ℓ κ} :
    {A : Type ℓ} (P : A → Type κ) (m n : ℕ) (xs : List A)
    → m ≤ n
    → All P (take n xs)
    → All P (take m xs)
All-take P zero n xs h a = tt
All-take P (suc m) n [] h a = tt
All-take P (suc m) zero (x ∷ xs) h a = absurd (omega arith)
All-take P (suc m) (suc n) (x ∷ xs) h (p, a) = (p, All-take P m n xs (omega arith) a)

module _ {ℓ} {D : Type ℓ} ⦃d : Double D⦄ where
  -- a point, relative to the reference, on the line of the intercept `a` and the slope `b`
  abbrev pub OnLine : Point D → D → D → Point D → Type ℓ
  OnLine r a b p =
      d.of_int (of_u64 (sub_u64 p.y r.y)) ≡ d.add a (d.mul b (d.of_int (of_u64 (sub_u64 p.x r.x))))

  -- the variance of the times of some points, up to the factor of their weight
  abbrev pub variance : Sums D → D
  variance acc = d.sub acc.x2_sum (d.div (d.mul acc.x_sum acc.x_sum) acc.w_sum)

  -- Neither divisor of `regress` is zero.
  abbrev pub IsSpread : Sums D → Type 0
  IsSpread acc = (d.same acc.w_sum nought ≡ false) × (d.same (variance acc) nought ≡ false)

  -- sums of points on the line
  abbrev SumsOnLine : D → D → Sums D → Type ℓ
  SumsOnLine a b acc =
      (acc.y_sum ≡ d.add (d.mul a acc.w_sum) (d.mul b acc.x_sum))
      × (acc.xy_sum ≡ d.add (d.mul a acc.x_sum) (d.mul b acc.x2_sum))

  -- Each result, from a size on, has too few points for its size or is the line.
  abbrev pub Found : ℕ → D → D → ℕ → List (Result D) → Type ℓ
  Found num a b size [] = Unit
  Found num a b size (res ∷ rs) =
      (num < 2 ^ size ⊎ ((res.slope ≡ b) × (res.intercept ≡ a))) × Found num a b (size + 1) rs

  too_few :
      (num : ℕ) (a b : D) (size : ℕ) (rs : List (Result D)) → num < 2 ^ size → Found num a b size rs
  too_few num a b size [] h = tt
  too_few num a b size (res ∷ rs) h =
      (inl h, too_few num a b (size + 1) rs (omega (arith, pow_grows size)))

  module _ (f : IsField D) where
    open d use {add, sub, mul, div}

    interchange : (p q r s : D) → add (add p q) (add r s) ≡ add (add p r) (add q s)
    interchange p q r s =
        add (add p q) (add r s)
        ≡⟨ f.add_assoc p q (add r s) ⟩ add p (add q (add r s))
        ≡⟨ ap (add p) (sym (f.add_assoc q r s)) ⟩ add p (add (add q r) s)
        ≡⟨ ap (λ z. add p (add z s)) (f.add_comm q r) ⟩ add p (add (add r q) s)
        ≡⟨ ap (add p) (f.add_assoc r q s) ⟩ add p (add r (add q s))
        ≡⟨ sym (f.add_assoc p r (add q s)) ⟩ add (add p r) (add q s) ∎

    add-mul : (x y z : D) → mul (add x y) z ≡ add (mul x z) (mul y z)
    add-mul x y z =
        mul (add x y) z
        ≡⟨ f.mul_comm (add x y) z ⟩ mul z (add x y)
        ≡⟨ f.mul-add z x y ⟩ add (mul z x) (mul z y)
        ≡⟨ ap (λ t. add t (mul z y)) (f.mul_comm z x) ⟩ add (mul x z) (mul z y)
        ≡⟨ ap (add (mul x z)) (f.mul_comm z y) ⟩ add (mul x z) (mul y z) ∎

    -- a weighted point on the line
    line-weight : (a b x w : D) → mul (add a (mul b x)) w ≡ add (mul a w) (mul b (mul x w))
    line-weight a b x w = add-mul a (mul b x) w ∙ ap (add (mul a w)) (f.mul_assoc b x w)

    line-times :
        (a b x w : D)
        → mul (mul x (add a (mul b x))) w ≡ add (mul a (mul x w)) (mul b (mul (mul x x) w))
    line-times a b x w =
        mul (mul x (add a (mul b x))) w
        ≡⟨ ap (λ z. mul z w) (f.mul_comm x (add a (mul b x))) ⟩ mul (mul (add a (mul b x)) x) w
        ≡⟨ f.mul_assoc (add a (mul b x)) x w ⟩ mul (add a (mul b x)) (mul x w)
        ≡⟨ line-weight a b x (mul x w) ⟩ add (mul a (mul x w)) (mul b (mul x (mul x w)))
        ≡⟨ ap (λ z. add (mul a (mul x w)) (mul b z)) (sym (f.mul_assoc x x w)) ⟩
          add (mul a (mul x w)) (mul b (mul (mul x x) w)) ∎

    collect :
        (a b u v p q : D)
        → add (add (mul a u) (mul b v)) (add (mul a p) (mul b q))
          ≡ add (mul a (add u p)) (mul b (add v q))
    collect a b u v p q =
        interchange (mul a u) (mul b v) (mul a p) (mul b q)
        ∙ ap (λ z. add z (add (mul b v) (mul b q))) (sym (f.mul-add a u p))
        ∙ ap (add (mul a (add u p))) (sym (f.mul-add b v q))

    add_point-OnLine :
        (r p : Point D) (a b : D) (acc : Sums D)
        → OnLine r a b p
        → SumsOnLine a b acc
        → SumsOnLine a b (add_point r p acc)
    unfolding add_point
    add_point-OnLine r p a b acc e (ys, xys) =
        let x : D = d.of_int (of_u64 (sub_u64 p.x r.x)) in
        (
          rw (e, ys, line-weight a b x p.w) (collect a b acc.w_sum acc.x_sum p.w (mul x p.w)),
          rw (e, xys, line-times a b x p.w)
              (collect a b acc.x_sum acc.x2_sum (mul x p.w) (mul (mul x x) p.w)),
        )

    sums-OnLine :
        (r : Point D) (a b : D) (acc : Sums D) (ps : List (Point D))
        → All (OnLine r a b) ps
        → SumsOnLine a b acc
        → SumsOnLine a b (sums r acc ps)
    unfolding sums
    sums-OnLine r a b acc [] h s = s
    sums-OnLine r a b acc (p ∷ ps) (e, h) s =
        sums-OnLine r a b (add_point r p acc) ps h (add_point-OnLine r p a b acc e s)

    no_sums-OnLine : (a b : D) → SumsOnLine a b no_sums
    no_sums-OnLine a b =
        let e : nought ≡ add (mul a nought) (mul b nought) =
          rw (f.mul-zero a, f.mul-zero b) (sym (f.add-zero nought)) in
        (e, e)

    -- the product of the sums of x and y over the weight
    product-OnLine :
        (a b x w : D)
        → d.same w nought ≡ false
        → div (mul x (add (mul a w) (mul b x))) w ≡ add (mul a x) (mul b (div (mul x x) w))
    product-OnLine a b x w n =
        div (mul x (add (mul a w) (mul b x))) w
        ≡⟨ ap (λ z. div z w) (f.mul-add x (mul a w) (mul b x)) ⟩
          div (add (mul x (mul a w)) (mul x (mul b x))) w
        ≡⟨ f.div-add (mul x (mul a w)) (mul x (mul b x)) w n ⟩
          add (div (mul x (mul a w)) w) (div (mul x (mul b x)) w)
        ≡⟨ ap (λ z. add (div z w) (div (mul x (mul b x)) w)) (sym (f.mul_assoc x a w)) ⟩
          add (div (mul (mul x a) w) w) (div (mul x (mul b x)) w)
        ≡⟨ ap (λ z. add z (div (mul x (mul b x)) w)) (f.div-mul (mul x a) w n ∙ f.mul_comm x a) ⟩
          add (mul a x) (div (mul x (mul b x)) w)
        ≡⟨ ap (λ z. add (mul a x) (div z w)) (f.mul_comm x (mul b x) ∙ f.mul_assoc b x x) ⟩
          add (mul a x) (div (mul b (mul x x)) w)
        ≡⟨ ap (add (mul a x)) (f.mul-div b (mul x x) w n) ⟩
          add (mul a x) (mul b (div (mul x x) w)) ∎

    -- the numerator of the slope
    covariance-OnLine :
        (a b : D) (acc : Sums D)
        → SumsOnLine a b acc
        → d.same acc.w_sum nought ≡ false
        → sub acc.xy_sum (div (mul acc.x_sum acc.y_sum) acc.w_sum) ≡ mul b (variance acc)
    covariance-OnLine a b acc (ys, xys) n =
        rw (xys, ys, product-OnLine a b acc.x_sum acc.w_sum n)
          (f.sub-add (mul a acc.x_sum) (mul b acc.x2_sum)
              (mul b (div (mul acc.x_sum acc.x_sum) acc.w_sum))
            ∙ sym (f.mul-sub b acc.x2_sum (div (mul acc.x_sum acc.x_sum) acc.w_sum)))

    solve-OnLine :
        (a b : D) (acc : Sums D) (res : Result D)
        → SumsOnLine a b acc
        → IsSpread acc
        → ((solve acc res).slope ≡ b) × ((solve acc res).intercept ≡ a)
    unfolding solve
    solve-OnLine a b acc res (ys, xys) (n, v) =
        let slope : (solve acc res).slope ≡ b =
          ap (λ z. div z (variance acc)) (covariance-OnLine a b acc (ys, xys) n)
          ∙ f.div-mul b (variance acc) v in
        (
          slope,
          ap (λ z. div (sub acc.y_sum (mul z acc.x_sum)) acc.w_sum) slope
              ∙ ap (λ z. div (sub z (mul b acc.x_sum)) acc.w_sum) ys
              ∙ ap (λ z. div z acc.w_sum) (f.add-sub (mul a acc.w_sum) (mul b acc.x_sum))
              ∙ f.div-mul a acc.w_sum n,
        )

    -- the results from a size on
    pub regressions-Found :
        (history : List (Point D)) (r : Point D) (num : ℕ) (y0 a b : D) (size : ℕ)
        (rs : List (Result D))
        → All (OnLine r a b) (take num history)
        → ((size : ℕ)
            → 2 ≤ size
            → 2 ^ size ≤ num
            → IsSpread (sums r no_sums (take (2 ^ size) history)))
        → 2 ≤ size
        → Found num a b size (regressions history r num y0 size rs)
    unfolding regressions
    regressions-Found history r num y0 a b size [] on spread h = tt
    regressions-Found history r num y0 a b size (res ∷ rs) on spread h =
        elim (Bool-cases (ltb num (2 ^ size))) [
          | inl few ↦ rw few (too_few num a b size (res ∷ rs) (ltb→lt num (2 ^ size) few))
          | inr enough ↦
              let full = not-ltb→le num (2 ^ size) enough in
              rw enough (
                inr (
                    solve-OnLine a b (sums r no_sums (take (2 ^ size) history)) (update_err y0 res)
                      (sums-OnLine r a b no_sums (take (2 ^ size) history)
                        (All-take (OnLine r a b) (2 ^ size) num history full on)
                        (no_sums-OnLine a b))
                      (spread size h full)),
                regressions-Found history r num y0 a b (size + 1) rs on spread (omega arith),
              )
        ]

    -- With exact arithmetic, and the points that are stored on a line: `regress` is answered, and each
    -- of its results has the slope and the intercept of that line, or more points than are stored in
    -- its size, given that no size has a weight or a variance of zero.
    pub regress-OnLine :
        (s : LinregServo D) (newest : Point D) (history : List (Point D)) (a b : D)
        → Stored (newest ∷ history) s
        → 1 ≤ s.num_points
        → All (OnLine s.reference a b) (take s.num_points (newest ∷ history))
        → ((size : ℕ)
            → 2 ≤ size
            → 2 ^ size ≤ s.num_points
            → IsSpread (sums s.reference no_sums (take (2 ^ size) (newest ∷ history))))
        → Holds (λ s'. Found s.num_points a b 2 s'.results) (regress s)
    regress-OnLine s newest history a b v h on spread = rw (regress_lem s newest history v h) (
        yields (
          regressions-Found (newest ∷ history) s.reference s.num_points _ a b 2 s.results on spread
            (omega arith)))
