-- ===== src/Servo/Points.antt =====
-- servo/linreg/linreg.c: the points and the state of the servo by linear regression, and the regression
-- over the last 4 to 64 points. The arrays `points` and `results` are lists, of 64 and 5 elements, and
-- a read or a write out of them is a fault.
use external_servo.Prelude.{
  ℕ, zero, suc, ◌+◌, ◌-◌, ◌%◌, ◌^◌, not, Option, some, ◌>>=◌, List, [], ◌∷◌, if◌then◌else◌, ltb,
  get_elem?,
}
use external_servo.Prelude.Int.{ℤ, pos}
use external_servo.Prelude.Word.{of_u64}
use external_servo.Double.{Double, nought, nonzero}
use external_servo.Servo.Base.{sub_u64}

-- `struct point`
pub record Point {ℓ} (D : Type ℓ) : Type ℓ where
  pub x : ℕ
  pub y : ℕ
  pub w : D

-- `struct result`
pub record Result {ℓ} (D : Type ℓ) : Type ℓ where
  pub slope : D
  pub intercept : D
  pub err : D
  pub err_updates : ℕ

-- `struct linreg_servo`, less the common part
pub record LinregServo {ℓ} (D : Type ℓ) : Type ℓ where
  pub points : List (Point D)
  pub reference : Point D
  pub num_points : ℕ
  pub last_point : ℕ
  pub x_remainder : D
  pub last_update : ℕ
  pub results : List (Result D)
  pub size : ℕ
  pub clock_freq : D
  pub update_interval : D
  pub frequency_ratio : D
  pub leap : ℤ

-- the sums of `regress`
pub record Sums {ℓ} (D : Type ℓ) : Type ℓ where
  pub x_sum : D
  pub y_sum : D
  pub xy_sum : D
  pub x2_sum : D
  pub w_sum : D

module _ {ℓ} {D : Type ℓ} ⦃d : Double D⦄ where
  open d use {literal, of_int, to_int64, add, sub, mul, div, neg, lt, fabs}

  abbrev pub no_sums : Sums D
  no_sums = record {
    x_sum = nought;
    y_sum = nought;
    xy_sum = nought;
    x2_sum = nought;
    w_sum = nought;
  }

  -- a point, relative to the reference, added to the sums
  unfoldable pub add_point : Point D → Point D → Sums D → Sums D
  add_point reference p acc =
      let x = of_int (of_u64 (sub_u64 p.x reference.x)) in
      let y = of_int (of_u64 (sub_u64 p.y reference.y)) in
      record {
        x_sum = add acc.x_sum (mul x p.w);
        y_sum = add acc.y_sum (mul y p.w);
        xy_sum = add acc.xy_sum (mul (mul x y) p.w);
        x2_sum = add acc.x2_sum (mul (mul x x) p.w);
        w_sum = add acc.w_sum p.w;
      }

  -- The inner loop of `regress`: `k` points from the `i`-th newest on, towards the oldest.
  unfoldable pub sum_points : LinregServo D → ℕ → ℕ → Sums D → Option (Sums D)
  sum_points s zero i acc = some acc
  sum_points s (suc k) i acc = do
    p ← get_elem? s.points ((64 + s.last_point - i) % 64)
    sum_points s k (i + 1) (add_point s.reference p acc)

  -- the moving average of the prediction error
  unfoldable pub update_err : D → Result D → Result D
  update_err y0 res =
      let e = fabs (sub res.intercept y0) in
      if not (nonzero res.slope)
      then res
      else if ltb res.err_updates 10
      then record res {
        err =
            div (add (mul res.err (of_int (pos res.err_updates))) e)
              (of_int (pos (res.err_updates + 1)));
        err_updates = res.err_updates + 1;
      }
      else record res { err = add res.err (mul (literal 2 2) (sub e res.err)) }

  -- the new slope and intercept
  unfoldable pub solve : Sums D → Result D → Result D
  solve acc res =
      let slope =
        div (sub acc.xy_sum (div (mul acc.x_sum acc.y_sum) acc.w_sum))
          (sub acc.x2_sum (div (mul acc.x_sum acc.x_sum) acc.w_sum)) in
      record res { slope = slope; intercept = div (sub acc.y_sum (mul slope acc.x_sum)) acc.w_sum }

  -- The outer loop of `regress`, from `size` on: `i` points are summed in `acc`, and the remaining
  -- elements of `results` are `rs`.
  unfoldable pub regress_sizes :
      LinregServo D → D → ℕ → ℕ → Sums D → List (Result D) → Option (List (Result D))
  regress_sizes s y0 size i acc [] = some []
  regress_sizes s y0 size i acc (res ∷ rs) =
      let more = do
        acc' ← sum_points s (2 ^ size - i) i acc
        rs' ← regress_sizes s y0 (size + 1) (2 ^ size) acc' rs
        some (solve acc' (update_err y0 res) ∷ rs')
      in if ltb s.num_points (2 ^ size) then some (res ∷ rs) else more

  unfoldable pub regress : LinregServo D → Option (LinregServo D)
  regress s = do
    newest ← get_elem? s.points s.last_point
    let y0 = of_int (of_u64 (sub_u64 newest.y s.reference.y))
    results ← regress_sizes s y0 2 0 no_sums s.results
    some (record s { results = results })
