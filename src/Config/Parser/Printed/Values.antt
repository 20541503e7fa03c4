-- ===== src/Config/Parser/Printed/Values.antt =====
-- Each value of a setting is read back from its text, and from its double.
use external_servo.Prelude.{ℕ, zero, suc, ◌^◌, ◌<◌, ◌≡◌, refl, ◌∙◌, ap, arith}
use external_servo.Prelude.Int.{ℤ, pos, negsuc}
use external_servo.Prelude.Word.{to_u64, wrap32}
use external_servo.Double.{Double, IsExact}
use external_servo.Config.Tables.{servo_types, tsproc_types, delay_filters}
use external_servo.Config.Fields.{atoi, get_key_val, to_uint8, to_uint16, to_int, to_enum}
use external_servo.Config.Fields.Atoi.{digits_of, atoi-digits_of}
use external_servo.Config.Parser.Printed.{printed, nth_name, IsShort}

atoi-printed : (x : ℤ) → IsShort x → atoi (printed x) ≡ x
atoi-printed (pos n) h = (atoi-digits_of n (omega arith)).0
atoi-printed (negsuc n) h = (atoi-digits_of (suc n) (omega arith)).1

mode_name : (n : ℕ) → n < 4 → get_key_val (nth_name tsproc_types n) tsproc_types ≡ pos n
unfolding get_key_val
mode_name zero h = refl
mode_name (suc zero) h = refl
mode_name (suc (suc zero)) h = refl
mode_name (suc (suc (suc zero))) h = refl
mode_name (suc (suc (suc (suc n)))) h = absurd (omega arith)

filter_name : (n : ℕ) → n < 2 → get_key_val (nth_name delay_filters n) delay_filters ≡ pos n
unfolding get_key_val
filter_name zero h = refl
filter_name (suc zero) h = refl
filter_name (suc (suc n)) h = absurd (omega arith)

kind_name : (n : ℕ) → n < 3 → get_key_val (nth_name servo_types n) servo_types ≡ pos n
unfolding get_key_val
kind_name zero h = refl
kind_name (suc zero) h = refl
kind_name (suc (suc zero)) h = refl
kind_name (suc (suc (suc n))) h = absurd (omega arith)

module _ {ℓ} {D : Type ℓ} ⦃d : Double D⦄ (laws : IsExact D) where
  pub to_uint8-digits_of : (n : ℕ) → n < 2 ^ 8 → to_uint8 (d.of_int (atoi (digits_of 10 n))) ≡ n
  unfolding to_u64
  to_uint8-digits_of n h =
      rw ((atoi-digits_of n (omega arith)).0, laws.to_int64-of_int (pos n) (omega arith))
        (omega arith)

  pub to_uint16-digits_of : (n : ℕ) → n < 2 ^ 16 → to_uint16 (d.of_int (atoi (digits_of 10 n))) ≡ n
  unfolding to_u64
  to_uint16-digits_of n h =
      rw ((atoi-digits_of n (omega arith)).0, laws.to_int64-of_int (pos n) (omega arith))
        (omega arith)

  pub of_int-printed : (x : ℤ) → IsShort x → d.of_int (atoi (printed x)) ≡ d.of_int x
  of_int-printed x h = ap d.of_int (atoi-printed x h)

  pub to_int64-printed : (x : ℤ) → IsShort x → d.to_int64 (d.of_int (atoi (printed x))) ≡ x
  to_int64-printed x h = ap d.to_int64 (of_int-printed x h) ∙ laws.to_int64-of_int x (omega arith)

  wrap32-short : (x : ℤ) → IsShort x → wrap32 x ≡ x
  unfolding wrap32
  wrap32-short (pos n) h = ground arith
  wrap32-short (negsuc n) h = ground arith

  pub to_int-printed : (x : ℤ) → IsShort x → to_int (d.of_int (atoi (printed x))) ≡ x
  to_int-printed x h = ap wrap32 (to_int64-printed x h) ∙ wrap32-short x h

  -- a number of an enumeration
  to_enum-of_int : (x : ℤ) (n : ℕ) → x ≡ pos n → n < 4 → to_enum (d.of_int x) ≡ pos n
  unfolding to_u64
  to_enum-of_int x n e h = rw (e, laws.to_int64-of_int (pos n) (omega arith)) (ap pos (omega arith))

  pub to_enum-mode :
      (n : ℕ)
      → n < 4
      → to_enum (d.of_int (get_key_val (nth_name tsproc_types n) tsproc_types)) ≡ pos n
  to_enum-mode n h = to_enum-of_int _ n (mode_name n h) h

  pub to_enum-filter :
      (n : ℕ)
      → n < 2
      → to_enum (d.of_int (get_key_val (nth_name delay_filters n) delay_filters)) ≡ pos n
  to_enum-filter n h = to_enum-of_int _ n (filter_name n h) (omega arith)

  pub to_enum-kind :
      (n : ℕ)
      → n < 3
      → to_enum (d.of_int (get_key_val (nth_name servo_types n) servo_types)) ≡ pos n
  to_enum-kind n h = to_enum-of_int _ n (kind_name n h) (omega arith)
