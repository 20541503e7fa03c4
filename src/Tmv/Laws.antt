-- ===== src/Tmv/Laws.antt =====
-- tmv.h: the wrapping operations against the integers.
use external_servo.Prelude.{
  ℕ, ◌+◌, ◌-◌, ◌%◌, ◌^◌, ◌<◌, ◌≡◌, sym, ap, ◌∙◌, some, arith, ◌↔◌, ◌≢◌, false, ◌==◌,
}
use external_servo.Prelude.Int.{ℤ, +ℤ_comm, pos, ◌+ℤ◌, ◌-ℤ◌, ◌/ℤ◌, ◌≤ℤ◌}
use external_servo.Prelude.Word.{
  IsInt64, wrap64, to_u64-lt, to_u64, of_u64, to_u64-add, to_u64-sub, of_u64-to_u64, of_u64-IsInt64,
  to_u64-of_u64,
}
use external_servo.Tmv.{Tmv, tmv_add, tmv_sub, tmv_div, tmv_cmp, tmv_is_zero}

pub tmv_add_exact : (a b : Tmv) → IsInt64 (a +ℤ b) → tmv_add a b ≡ a +ℤ b
unfolding tmv_add
tmv_add_exact a b h = ap of_u64 (to_u64-add a b) ∙ of_u64-to_u64 (a +ℤ b) h

pub tmv_sub_exact : (a b : Tmv) → IsInt64 (a -ℤ b) → tmv_sub a b ≡ a -ℤ b
unfolding tmv_sub
tmv_sub_exact a b h = ap of_u64 (to_u64-sub a b) ∙ of_u64-to_u64 (a -ℤ b) h

pub tmv_add-IsInt64 : (a b : Tmv) → IsInt64 (tmv_add a b)
unfolding tmv_add
tmv_add-IsInt64 a b = of_u64-IsInt64 ((to_u64 a + to_u64 b) % 2 ^ 64) (omega arith)

pub tmv_sub-IsInt64 : (a b : Tmv) → IsInt64 (tmv_sub a b)
unfolding tmv_sub
tmv_sub-IsInt64 a b = of_u64-IsInt64 ((to_u64 a + 2 ^ 64 - to_u64 b) % 2 ^ 64) (omega arith)

pub to_u64-tmv_add : (a b : Tmv) → to_u64 (tmv_add a b) ≡ (to_u64 a + to_u64 b) % 2 ^ 64
unfolding tmv_add
to_u64-tmv_add a b = to_u64-of_u64 ((to_u64 a + to_u64 b) % 2 ^ 64) (omega arith)

pub to_u64-tmv_sub : (a b : Tmv) → to_u64 (tmv_sub a b) ≡ (to_u64 a + 2 ^ 64 - to_u64 b) % 2 ^ 64
unfolding tmv_sub
to_u64-tmv_sub a b = to_u64-of_u64 ((to_u64 a + 2 ^ 64 - to_u64 b) % 2 ^ 64) (omega arith)

pub wrap64-tmv_add : (a b : ℤ) → tmv_add a b ≡ wrap64 (a +ℤ b)
unfolding tmv_add wrap64
wrap64-tmv_add a b = ap of_u64 (to_u64-add a b)

pub wrap64-tmv_sub : (a b : ℤ) → tmv_sub a b ≡ wrap64 (a -ℤ b)
unfolding tmv_sub wrap64
wrap64-tmv_sub a b = ap of_u64 (to_u64-sub a b)

pub tmv_add-wrap64 : (a b : ℤ) → tmv_add (wrap64 a) b ≡ wrap64 (a +ℤ b)
unfolding tmv_add wrap64
tmv_add-wrap64 a b =
    ap of_u64
      (ap (λ w. (w + to_u64 b) % 2 ^ 64) (to_u64-of_u64 (to_u64 a) (to_u64-lt a)) ∙ to_u64-add a b)

pub tmv_sub-wrap64 : (a b : ℤ) → tmv_sub (wrap64 a) b ≡ wrap64 (a -ℤ b)
unfolding tmv_sub wrap64
tmv_sub-wrap64 a b = ap of_u64 (
    ap (λ w. (w + 2 ^ 64 - to_u64 b) % 2 ^ 64) (to_u64-of_u64 (to_u64 a) (to_u64-lt a))
    ∙ to_u64-sub a b)

pub tmv_add_wrapped : (a b : ℤ) → tmv_add a (wrap64 b) ≡ wrap64 (a +ℤ b)
tmv_add_wrapped a b =
    wrap64-tmv_add a (wrap64 b)
    ∙ ap wrap64 (+ℤ_comm a (wrap64 b))
    ∙ sym (wrap64-tmv_add (wrap64 b) a)
    ∙ tmv_add-wrap64 b a
    ∙ ap wrap64 (+ℤ_comm b a)

-- a sum is wrapped once
pub wrap64-add : (a b : ℤ) → tmv_add (wrap64 a) (wrap64 b) ≡ wrap64 (a +ℤ b)
wrap64-add a b =
    tmv_add-wrap64 a (wrap64 b) ∙ sym (wrap64-tmv_add a (wrap64 b)) ∙ tmv_add_wrapped a b

-- `tmv_cmp(a, b) <= 0` is the order of the integers.
pub tmv_cmp-le : (a b : Tmv) → (tmv_cmp a b ≤ℤ pos 0) ↔ (a ≤ℤ b)
unfolding tmv_cmp
tmv_cmp-le a b = ground arith

pub tmv_div_pos : (a : Tmv) (d : ℕ) → 0 < d → tmv_div a (pos d) ≡ some (a /ℤ pos d)
unfolding tmv_div
tmv_div_pos a d h = ground arith

pub is_zero_false : (x : Tmv) → x ≢ pos 0 → (tmv_is_zero x == 1) ≡ false
unfolding tmv_is_zero
is_zero_false x ne = ground arith
