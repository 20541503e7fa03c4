-- ===== src/Config/Fields/Atoi.antt =====
-- `atoi` reads back a number in decimal, with its sign.
use external_servo.Prelude.{
  ℕ, zero, suc, ◌+◌, ◌-◌, ◌*◌, ◌/◌, ◌%◌, ◌^◌, ◌≤◌, ◌<◌, ◌≡◌, refl, ◌∙◌, ap, List, [], ◌∷◌, ◌++◌,
  All, ltb, arith, Bool-cases, inl, inr, ltb→lt, ◌==◌, true, false,
}
use external_servo.Prelude.Int.{pos, negsuc, neg_ℕ, clamp_ℤ}
use external_servo.Prelude.Word.{wrap32}
use external_servo.Config.Fields.{atoi, is_digit, is_space, decimal, signed, without_spaces}

-- the digits of a number, with fuel for their count
abbrev pub digits_of : ℕ → ℕ → List ℕ
digits_of zero n = []
digits_of (suc fuel) n = elim (ltb n 10) [
  | true ↦ (48 + n) ∷ []
  | false ↦ digits_of fuel (n / 10) ++ ((48 + n % 10) ∷ [])
]

abbrev IsDigit : ℕ → Type 0
IsDigit c = (48 ≤ c) × (c ≤ 57)

is_digit-true : (c : ℕ) → IsDigit c → is_digit c ≡ true
is_digit-true c h = ground arith

decimal-append :
    (n : ℕ) (ds : List ℕ) (c : ℕ)
    → All IsDigit ds
    → IsDigit c
    → decimal n (ds ++ (c ∷ [])) ≡ decimal n ds * 10 + (c - 48)
unfolding decimal
decimal-append n [] c a (l, u) = ground arith
decimal-append n (b ∷ ds) c ((l, u), a) i =
    rw (is_digit-true b (l, u)) (decimal-append (n * 10 + (b - 48)) ds c a i)

All-append : (xs : List ℕ) (c : ℕ) → All IsDigit xs → IsDigit c → All IsDigit (xs ++ (c ∷ []))
All-append [] c a i = (i, tt)
All-append (x ∷ xs) c (j, a) i = (j, All-append xs c a i)

digits_of-IsDigit : (fuel n : ℕ) → All IsDigit (digits_of fuel n)
digits_of-IsDigit zero n = tt
digits_of-IsDigit (suc fuel) n = elim (Bool-cases (ltb n 10)) [
  | inl small ↦
      let h : n < 10 = ltb→lt n 10 small in rw (digits_of, small) ((omega arith, omega arith), tt)
  | inr big ↦
      rw (digits_of, big)
        (All-append (digits_of fuel (n / 10)) (48 + n % 10) (digits_of-IsDigit fuel (n / 10))
          (omega arith, omega arith))
]

decimal-digits_of : (fuel n : ℕ) → n < 10 ^ fuel → decimal 0 (digits_of fuel n) ≡ n
unfolding decimal
decimal-digits_of zero n h = omega arith
decimal-digits_of (suc fuel) n h = elim (Bool-cases (ltb n 10)) [
  | inl small ↦
      let k : n < 10 = ltb→lt n 10 small in
      rw (digits_of, small, is_digit-true (48 + n) (omega arith, omega arith)) (omega arith)
  | inr big ↦
      let shorter : decimal 0 (digits_of fuel (n / 10)) ≡ n / 10 =
        decimal-digits_of fuel (n / 10) (grind arith) in
      rw
        (
          digits_of,
          big,
          decimal-append 0 (digits_of fuel (n / 10)) (48 + n % 10) (digits_of-IsDigit fuel (n / 10))
              (omega arith, omega arith),
          shorter,
        )
        (omega arith)
]

signed-without_spaces :
    (ds : List ℕ) → All IsDigit ds → signed (without_spaces ds) ≡ pos (decimal 0 ds)
unfolding signed without_spaces
signed-without_spaces [] a = refl
signed-without_spaces (c ∷ ds) ((l, u), a) =
    let space : is_space c ≡ false = ground arith in
    let minus : (c == 45) ≡ false = ground arith in
    let plus : (c == 43) ≡ false = ground arith in rw (space, minus, plus)

-- the number that the text of an integer says, of whatever size
pub signed-digits_of :
    (fuel n : ℕ)
    → n < 10 ^ fuel
    → (signed (without_spaces (digits_of fuel n)) ≡ pos n)
      × (signed (without_spaces (45 ∷ digits_of fuel n)) ≡ neg_ℕ n)
unfolding signed without_spaces
signed-digits_of fuel n h =
    let value : decimal 0 (digits_of fuel n) ≡ n = decimal-digits_of fuel n h in
    (signed-without_spaces (digits_of fuel n) (digits_of-IsDigit fuel n) ∙ ap pos value, rw value)

-- a number in range is not cut
in_range :
    (n : ℕ) → n < 2 ^ 31 → wrap32 (clamp_ℤ (negsuc (2 ^ 63 - 1)) (pos (2 ^ 63 - 1)) (pos n)) ≡ pos n
unfolding wrap32
in_range n h = ground arith

in_range_neg :
    (n : ℕ)
    → n < 2 ^ 31
    → wrap32 (clamp_ℤ (negsuc (2 ^ 63 - 1)) (pos (2 ^ 63 - 1)) (neg_ℕ n)) ≡ neg_ℕ n
unfolding wrap32
in_range_neg zero h = refl
in_range_neg (suc n) h = ground arith

-- A number below 2 ^ 31 is read back from its decimal digits, and its negation with a sign before
-- them.
pub atoi-digits_of :
    (n : ℕ) → n < 2 ^ 31 → (atoi (digits_of 10 n) ≡ pos n) × (atoi (45 ∷ digits_of 10 n) ≡ neg_ℕ n)
unfolding atoi
atoi-digits_of n h =
    let (up, down) = signed-digits_of 10 n (omega arith) in
    (rw up (in_range n h), rw down (in_range_neg n h))
