-- ===== src/Tests/Lines.antt =====
-- The regression on points of a line, over the field of three elements for the doubles.
use external_servo.Prelude.{
  ℕ, zero, suc, ◌+◌, ◌-◌, ◌%◌, ◌/◌, ◌^◌, ◌≤◌, ◌<◌, ◌≡◌, refl, Bool, true, false, some, List, [],
  ◌∷◌, if◌then◌else◌, ◌==◌, ◌&&◌, get_elem?, replicate, take, Holds, arith,
}
use external_servo.Prelude.Int.{pos, negsuc}
use external_servo.Prelude.Word.{of_u64, to_u64}
use external_servo.Double.{Double, IsField}
use external_servo.Servo.Points.{Point, Result, LinregServo, regress, no_sums, add_point}
use external_servo.Servo.Linreg.Regress.{Stored, sums, pow_grows}
use external_servo.Servo.Linreg.{add_sample, update_reference, linreg_sample, must_step}
use external_servo.Servo.Base.{Servo}
use external_servo.Servo.Linreg.Warmup.{Blank}
use external_servo.Servo.Linreg.Steer.{Steers, linreg_sample-Steers}
use external_servo.Servo.Linreg.Line.{IsSpread, Found, regress-OnLine}

-- the numbers modulo three
data Residue : Type 0 where
  r0 r1 r2 : Residue

abbrev residue : ℕ → Residue
residue n = if n % 3 == 0 then r0 else if n % 3 == 1 then r1 else r2

abbrev plus : Residue → Residue → Residue
plus r0 y = y
plus r1 r0 = r1
plus r1 r1 = r2
plus r1 r2 = r0
plus r2 r0 = r2
plus r2 r1 = r0
plus r2 r2 = r1

abbrev opposite : Residue → Residue
opposite r0 = r0
opposite r1 = r2
opposite r2 = r1

abbrev times : Residue → Residue → Residue
times r0 y = r0
times r1 y = y
times r2 y = opposite y

abbrev equal : Residue → Residue → Bool
equal r0 r0 = true
equal r1 r1 = true
equal r2 r2 = true
equal _ _ = false

-- Each element that is not zero is its own inverse.
instance abbrev residues : Double Residue
residues = record {
  literal = λ m k. residue (m / 10 ^ k);
  of_int = λ z. elim z [ pos n ↦ residue n | negsuc n ↦ opposite (residue (n + 1)) ];
  to_int64 = λ x. pos 0;
  add = plus;
  sub = λ x y. plus x (opposite y);
  mul = times;
  div = times;
  neg = opposite;
  lt = λ x y. false;
  same = equal;
  fabs = λ x. x;
  pow = λ x y. x;
  round = λ x. x;
}

-- An equation is checked at every element.
equal_sound : (x y : Residue) → equal x y ≡ true → x ≡ y
equal_sound r0 r0 h = refl
equal_sound r1 r1 h = refl
equal_sound r2 r2 h = refl
equal_sound r0 r1 h = cc
equal_sound r0 r2 h = cc
equal_sound r1 r0 h = cc
equal_sound r1 r2 h = cc
equal_sound r2 r0 h = cc
equal_sound r2 r1 h = cc

abbrev everywhere : (Residue → Bool) → Bool
everywhere p = p r0 && p r1 && p r2

everywhere_sound : (p : Residue → Bool) → everywhere p ≡ true → (x : Residue) → p x ≡ true
everywhere_sound p h r0 = ground arith
everywhere_sound p h r1 = ground arith
everywhere_sound p h r2 = ground arith

one_law :
    (f g : Residue → Residue)
    → everywhere (λ x. equal (f x) (g x)) ≡ true
    → (x : Residue) → f x ≡ g x
one_law f g h x = equal_sound (f x) (g x) (everywhere_sound (λ x. equal (f x) (g x)) h x)

two_law :
    (f g : Residue → Residue → Residue)
    → everywhere (λ x. everywhere (λ y. equal (f x y) (g x y))) ≡ true
    → (x y : Residue) → f x y ≡ g x y
two_law f g h x =
    one_law (f x) (g x) (everywhere_sound (λ x. everywhere (λ y. equal (f x y) (g x y))) h x)

three_law :
    (f g : Residue → Residue → Residue → Residue)
    → everywhere (λ x. everywhere (λ y. everywhere (λ z. equal (f x y z) (g x y z)))) ≡ true
    → (x y z : Residue) → f x y z ≡ g x y z
three_law f g h x =
    two_law (f x) (g x)
      (everywhere_sound (λ x. everywhere (λ y. everywhere (λ z. equal (f x y z) (g x y z)))) h x)

times-times : (x y : Residue) → equal y r0 ≡ false → times (times x y) y ≡ x
times-times x r0 h = cc
times-times x r1 h = one_law (λ x. times (times x r1) r1) (λ x. x) refl x
times-times x r2 h = one_law (λ x. times (times x r2) r2) (λ x. x) refl x

residues-IsField : IsField Residue
residues-IsField = record {
  add_assoc = three_law (λ x y z. plus (plus x y) z) (λ x y z. plus x (plus y z)) refl;
  add_comm = two_law (λ x y. plus x y) (λ x y. plus y x) refl;
  add-zero = one_law (λ x. plus x r0) (λ x. x) refl;
  mul_assoc = three_law (λ x y z. times (times x y) z) (λ x y z. times x (times y z)) refl;
  mul_comm = two_law (λ x y. times x y) (λ x y. times y x) refl;
  mul-zero = one_law (λ x. times x r0) (λ x. r0) refl;
  mul-add = three_law (λ x y z. times x (plus y z)) (λ x y z. plus (times x y) (times x z)) refl;
  mul-sub =
      three_law (λ x y z. times x (plus y (opposite z)))
        (λ x y z. plus (times x y) (opposite (times x z))) refl;
  sub-add =
      three_law (λ x y z. plus (plus x y) (opposite (plus x z))) (λ x y z. plus y (opposite z))
        refl;
  add-sub = two_law (λ x y. plus (plus x y) (opposite y)) (λ x y. x) refl;
  div-mul = times-times;
  div-add = λ x y z h.
      three_law (λ x y z. times (plus x y) z) (λ x y z. plus (times x z) (times y z)) refl x y z;
  mul-div =
      λ x y z h. three_law (λ x y z. times (times x y) z) (λ x y z. times x (times y z)) refl x y z;
}

-- a point of the line y = 1 + 2 x
abbrev on_line : ℕ → Point Residue
on_line n = record { x = n; y = 1 + (n + n); w = r1 }

abbrev origin : Point Residue
origin = record { x = 0; y = 0; w = r0 }

abbrev result : Result Residue
result = record { slope = r0; intercept = r0; err = r0; err_updates = 0 }

abbrev linreg : LinregServo Residue
linreg = record {
  points = on_line 0 ∷ on_line 1 ∷ on_line 2 ∷ on_line 3 ∷ replicate 60 origin;
  reference = origin;
  num_points = 4;
  last_point = 3;
  x_remainder = r0;
  last_update = 0;
  results = replicate 5 result;
  size = 0;
  clock_freq = r0;
  update_interval = r1;
  frequency_ratio = r1;
  leap = pos 0;
}

abbrev older : List (Point Residue)
older = on_line 2 ∷ on_line 1 ∷ on_line 0 ∷ []

linreg-Stored : Stored (on_line 3 ∷ older) linreg
unfolding Stored
linreg-Stored = (refl, omega arith, omega arith, stored)
  where
    stored :
        (i : ℕ)
        → i < 4
        → get_elem? linreg.points ((64 + 3 - i) % 64) ≡ get_elem? (on_line 3 ∷ older) i
    stored zero h = refl
    stored (suc zero) h = refl
    stored (suc (suc zero)) h = refl
    stored (suc (suc (suc zero))) h = refl
    stored (suc (suc (suc (suc i)))) h = absurd (omega arith)

eight-le : (k : ℕ) → 8 ≤ 2 ^ suc (suc (suc k))
eight-le zero = omega arith
eight-le (suc k) =
    let e : suc (suc (suc k)) + 1 ≡ suc (suc (suc (suc k))) = omega arith in
    omega (arith, eight-le k, (rw e at (pow_grows (suc (suc (suc k))))))

four-IsSpread :
    (r : Point Residue)
    → IsSpread (sums r no_sums (on_line 3 ∷ older))
    → (size : ℕ) → 2 ≤ size
    → 2 ^ size ≤ 4
    → IsSpread (sums r no_sums (take (2 ^ size) (on_line 3 ∷ older)))
four-IsSpread r e zero h k = absurd (omega arith)
four-IsSpread r e (suc zero) h k = absurd (omega arith)
four-IsSpread r e (suc (suc zero)) h k = e
four-IsSpread r e (suc (suc (suc size))) h k = absurd (omega (arith, eight-le size))

linreg-IsSpread :
    (size : ℕ)
    → 2 ≤ size
    → 2 ^ size ≤ 4
    → IsSpread (sums origin no_sums (take (2 ^ size) (on_line 3 ∷ older)))
unfolding sums add_point of_u64
linreg-IsSpread = four-IsSpread origin (refl, refl)

regress-OnLine_example : Holds (λ s. Found 4 r1 r2 2 s.results) (regress linreg)
unfolding of_u64
regress-OnLine_example =
    regress-OnLine residues-IsField linreg (on_line 3) older r1 r2 linreg-Stored (omega arith)
      (refl, (refl, (refl, (refl, tt)))) linreg-IsSpread

abbrev servo : Servo Residue
servo = record {
  max_frequency = r1;
  step_threshold = r1;
  first_step_threshold = r1;
  first_update = true;
  offset_threshold = pos 0;
  num_offset_values = pos 0;
  curr_offset_values = pos 0;
}

-- with three points, before a sample at the fourth point of the line
abbrev three_points : LinregServo Residue
three_points = record linreg {
  points = on_line 0 ∷ on_line 1 ∷ on_line 2 ∷ replicate 61 origin;
  reference = record { x = 3; y = 7; w = r0 };
  num_points = 3;
  last_point = 2;
}

abbrev four_points : LinregServo Residue
four_points = record linreg { reference = record { x = 3; y = 7; w = r0 }; last_update = 1 }

three_points-add : add_sample (update_reference three_points 1) (pos 0) r1 ≡ some four_points
unfolding add_sample update_reference to_u64
three_points-add = refl

four_points-Stored : Stored (on_line 3 ∷ older) four_points
unfolding Stored
four_points-Stored = linreg-Stored

four_points-IsSpread :
    (size : ℕ)
    → 2 ≤ size
    → 2 ^ size ≤ 4
    → IsSpread (sums four_points.reference no_sums (take (2 ^ size) (on_line 3 ∷ older)))
unfolding sums add_point of_u64
four_points-IsSpread = four-IsSpread four_points.reference (refl, refl)

result-Blank : Blank result
unfolding Blank
result-Blank = (refl, refl)

linreg_sample-Steers_example :
    Holds (Steers servo four_points r0 r2) (linreg_sample servo three_points (pos 0) 1 r1)
unfolding of_u64 must_step
linreg_sample-Steers_example =
    linreg_sample-Steers residues-IsField servo three_points four_points (pos 0) 1 r1 (on_line 3)
      older r0 r2 three_points-add four_points-Stored (omega arith) (omega arith)
      (refl, (refl, (refl, (refl, tt)))) four_points-IsSpread
      (
        (λ h. result-Blank),
        (
          (λ h. result-Blank),
          ((λ h. result-Blank), ((λ h. result-Blank), ((λ h. result-Blank), tt))),
        ),
      )
      refl refl
