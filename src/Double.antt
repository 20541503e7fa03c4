-- ===== src/Double.antt =====
-- The type `double`, which this development does not define: the operations that the program uses of
-- it, and the laws of IEEE 754 that some theorems name as hypotheses.
use external_servo.Prelude.{
  ℕ, ◌/◌, ◌^◌, ◌≡◌, Bool, true, false, refl, ◌+◌, ◌<◌, not, ◌||◌, if◌then◌else◌, arith,
}
use external_servo.Prelude.Int.{
  ℤ, pos, ◌+ℤ◌, ◌-ℤ◌, ◌*ℤ◌, ◌/ℤ◌, neg_ℤ, ltb_ℤ, eqb_ℤ, pos_part, neg_part,
}
use external_servo.Prelude.Word.{wrap64, wrap64_of_IsInt64}

-- `literal m k` is the constant m / 10 ^ k; `of_int` converts from an integer type, and `to_int64`
-- to `int64_t` (of a value out of range it can be any number). Comparisons with NaN are false.
pub record Double {ℓ} (D : Type ℓ) : Type ℓ where
  pub literal : ℕ → ℕ → D
  pub of_int : ℤ → D
  pub to_int64 : D → ℤ
  pub add : D → D → D
  pub sub : D → D → D
  pub mul : D → D → D
  pub div : D → D → D
  pub neg : D → D
  pub lt : D → D → Bool
  pub same : D → D → Bool
  pub fabs : D → D
  pub pow : D → D → D
  pub round : D → D

module _ {ℓ} {D : Type ℓ} ⦃d : Double D⦄ where
  abbrev pub nought : D
  nought = d.literal 0 0

  abbrev pub one : D
  one = d.literal 1 0

  -- a double as a condition
  abbrev pub nonzero : D → Bool
  nonzero x = not (d.same x nought)

  -- The comparison is false with NaN, which alone is not the same as itself.
  abbrev pub le : D → D → Bool
  le x y = d.lt x y || d.same x y

  abbrev pub IsNan : D → Type 0
  IsNan x = d.same x x ≡ false

-- No double is below itself; two that are not NaN are comparable, and what compares is not NaN; the
-- negation of NaN is NaN, and a double from zero on is not below its negation.
pub record IsOrdered {ℓ} (D : Type ℓ) ⦃d : Double D⦄ : Type ℓ where
  pub lt_irrefl : (x : D) → d.lt x x ≡ false
  pub le_total :
      (x y : D) → d.same x x ≡ true → d.same y y ≡ true → d.lt x y ≡ false → le y x ≡ true
  pub same_of_le : (x y : D) → le x y ≡ true → d.same y y ≡ true
  pub same-neg : (x : D) → d.same (d.neg x) (d.neg x) ≡ d.same x x
  pub le-neg : (x : D) → le nought x ≡ true → le (d.neg x) x ≡ true

-- The order is transitive, and integers of 32 bits are exact.
pub record IsExact {ℓ} (D : Type ℓ) ⦃d : Double D⦄ : Type ℓ where
  pub lt_trans : (x y z : D) → d.lt x y ≡ true → d.lt y z ≡ true → d.lt x z ≡ true
  pub same-of_int :
      (a b : ℤ)
      → pos_part a + neg_part a < 2 ^ 32
      → pos_part b + neg_part b < 2 ^ 32
      → d.same (d.of_int a) (d.of_int b) ≡ eqb_ℤ a b
  pub to_int64-of_int : (a : ℤ) → pos_part a + neg_part a < 2 ^ 32 → d.to_int64 (d.of_int a) ≡ a

-- A change of the sign turns the comparisons round, and is undone by another.
pub record IsSigned {ℓ} (D : Type ℓ) ⦃d : Double D⦄ : Type ℓ where
  pub lt-neg-neg : (x y : D) → d.lt (d.neg x) (d.neg y) ≡ d.lt y x
  pub same-neg-neg : (x y : D) → d.same (d.neg x) (d.neg y) ≡ d.same y x
  pub neg-neg : (x : D) → d.neg (d.neg x) ≡ x

-- The laws of exact arithmetic, with a division by what is not zero.
pub record IsField {ℓ} (D : Type ℓ) ⦃d : Double D⦄ : Type ℓ where
  pub add_assoc : (x y z : D) → d.add (d.add x y) z ≡ d.add x (d.add y z)
  pub add_comm : (x y : D) → d.add x y ≡ d.add y x
  pub add-zero : (x : D) → d.add x nought ≡ x
  pub mul_assoc : (x y z : D) → d.mul (d.mul x y) z ≡ d.mul x (d.mul y z)
  pub mul_comm : (x y : D) → d.mul x y ≡ d.mul y x
  pub mul-zero : (x : D) → d.mul x nought ≡ nought
  pub mul-add : (x y z : D) → d.mul x (d.add y z) ≡ d.add (d.mul x y) (d.mul x z)
  pub mul-sub : (x y z : D) → d.mul x (d.sub y z) ≡ d.sub (d.mul x y) (d.mul x z)
  pub sub-add : (x y z : D) → d.sub (d.add x y) (d.add x z) ≡ d.sub y z
  pub add-sub : (x y : D) → d.sub (d.add x y) y ≡ x
  pub div-mul : (x y : D) → d.same y nought ≡ false → d.div (d.mul x y) y ≡ x
  pub div-add :
      (x y z : D) → d.same z nought ≡ false → d.div (d.add x y) z ≡ d.add (d.div x z) (d.div y z)
  pub mul-div : (x y z : D) → d.same z nought ≡ false → d.div (d.mul x y) z ≡ d.mul x (d.div y z)

-- Whole numbers meet the laws; they serve to run the definitions. (`pow` is the identity.)
instance abbrev pub whole : Double ℤ
whole = record {
  literal = λ m k. pos (m / 10 ^ k);
  of_int = λ x. x;
  to_int64 = λ x. wrap64 x;
  add = ◌+ℤ◌;
  sub = ◌-ℤ◌;
  mul = ◌*ℤ◌;
  div = ◌/ℤ◌;
  neg = neg_ℤ;
  lt = ltb_ℤ;
  same = eqb_ℤ;
  fabs = λ x. if ltb_ℤ x (pos 0) then neg_ℤ x else x;
  pow = λ x y. x;
  round = λ x. x;
}

pub whole-IsOrdered : IsOrdered ℤ
unfolding neg_ℤ
whole-IsOrdered = record {
  lt_irrefl = λ x. ground arith;
  le_total = λ x y h k l. ground arith;
  same_of_le = λ x y h. ground arith;
  same-neg = λ x. ground arith;
  le-neg = λ x h. ground arith;
}

pub whole-IsExact : IsExact ℤ
whole-IsExact = record {
  lt_trans = λ x y z h k. ground arith;
  same-of_int = λ a b h k. refl;
  to_int64-of_int = λ a h. wrap64_of_IsInt64 a (omega arith, omega arith);
}

pub whole-IsSigned : IsSigned ℤ
unfolding neg_ℤ
whole-IsSigned = record {
  lt-neg-neg = λ x y. ground arith;
  same-neg-neg = λ x y. ground arith;
  neg-neg = λ x. ground arith;
}
