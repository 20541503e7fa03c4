-- ===== src/Servo/Base.antt =====
-- servo/servo.h: what every servo holds and reports.
use external_servo.Prelude.{ℕ, ◌+◌, ◌-◌, ◌%◌, ◌^◌, Bool, if◌then◌else◌, ◌&&◌}
use external_servo.Prelude.Int.{ℤ, pos, ltb_ℤ, neg_ℤ}
use external_servo.Double.{Double, nonzero}

-- `enum servo_state`
pub data ServoState : Type 0 where
  unlocked : ServoState
  jump : ServoState
  locked : ServoState
  locked_stable : ServoState

-- `struct servo`, less the function pointers
pub record Servo {ℓ} (D : Type ℓ) : Type ℓ where
  pub max_frequency : D
  pub step_threshold : D
  pub first_step_threshold : D
  pub first_update : Bool
  pub offset_threshold : ℤ
  pub num_offset_values : ℤ
  pub curr_offset_values : ℤ

-- the absolute value of a `long long`; C leaves open that of the least one, which is 2 ^ 63 here
unfoldable pub llabs : ℤ → ℤ
unfolding neg_ℤ
llabs x = if ltb_ℤ x (pos 0) then neg_ℤ x else x

-- a - b of two `uint64_t`
abbrev pub sub_u64 : ℕ → ℕ → ℕ
sub_u64 a b = (a + 2 ^ 64 - b) % 2 ^ 64

module _ {ℓ} {D : Type ℓ} ⦃d : Double D⦄ where
  -- `threshold && threshold < size`: a threshold of zero is none
  abbrev pub exceeds : D → D → Bool
  exceeds threshold size = nonzero threshold && d.lt threshold size
