-- ===== src/Tmv.antt =====
-- tmv.h: a time as a signed 64-bit count of nanoseconds, and its conversions.
-- `tmv_t` is its one field `ns`, an integer in the range of `int64_t`.
pub mod Laws
pub mod Convert
pub mod Doubles
use Prim.Native.Nat.{bit_and}
use external_servo.Prelude.{
  ℕ, ◌+◌, ◌-◌, ◌*◌, ◌/◌, ◌%◌, ◌^◌, Option, none, some, if◌then◌else◌, ◌&&◌, ◌||◌, ltb, ◌==◌,
}
use external_servo.Prelude.Int.{ℤ, pos, negsuc, ◌+ℤ◌, ◌*ℤ◌, ◌/ℤ◌, ◌%ℤ◌, ltb_ℤ, eqb_ℤ}
use external_servo.Prelude.Word.{to_u64, of_u64, wrap64}

abbrev pub ns_per_sec : ℕ
ns_per_sec = 1_000_000_000

abbrev pub Tmv : Type 0
Tmv = ℤ

abbrev pub int64_min : ℤ
int64_min = negsuc (2 ^ 63 - 1)

unfoldable pub tmv_add : Tmv → Tmv → Tmv
unfolding to_u64 of_u64
tmv_add a b = of_u64 ((to_u64 a + to_u64 b) % 2 ^ 64)

-- `none` is the fault of the division: by zero, or of INT64_MIN by -1.
unfoldable pub tmv_div : Tmv → ℤ → Option Tmv
unfolding ◌/ℤ◌
tmv_div a divisor =
    if eqb_ℤ divisor (pos 0) || (eqb_ℤ a int64_min && eqb_ℤ divisor (negsuc 0))
    then none
    else some (a /ℤ divisor)

unfoldable pub tmv_cmp : Tmv → Tmv → ℤ
tmv_cmp a b = if eqb_ℤ a b then pos 0 else if ltb_ℤ b a then pos 1 else negsuc 0

unfoldable pub tmv_sign : Tmv → ℤ
tmv_sign x = if eqb_ℤ x (pos 0) then pos 0 else if ltb_ℤ (pos 0) x then pos 1 else negsuc 0

unfoldable pub tmv_is_zero : Tmv → ℕ
tmv_is_zero x = if eqb_ℤ x (pos 0) then 1 else 0

-- unsigned subtraction wraps
unfoldable pub tmv_sub : Tmv → Tmv → Tmv
unfolding to_u64 of_u64
tmv_sub a b = of_u64 ((to_u64 a + 2 ^ 64 - to_u64 b) % 2 ^ 64)

unfoldable pub tmv_zero : Tmv
tmv_zero = pos 0

-- `c >> 16`, the arithmetic shift: a fixed-point nanosecond count without its fraction
unfoldable pub correction_to_tmv : ℤ → Tmv
correction_to_tmv (pos c) = pos (c / 2 ^ 16)
correction_to_tmv (negsuc c) = negsuc (c / 2 ^ 16)

abbrev pub min_tmv_to_time_interval : ℤ
min_tmv_to_time_interval = negsuc (2 ^ 47 - 1)

abbrev pub max_tmv_to_time_interval : ℤ
max_tmv_to_time_interval = pos (2 ^ 47 - 1)

-- `(uint64_t) x << 16`, read as an `int64_t`
unfoldable pub shift_left16 : ℤ → ℤ
unfolding to_u64 of_u64
shift_left16 x = of_u64 (to_u64 x * 2 ^ 16 % 2 ^ 64)

unfoldable pub tmv_to_time_interval : Tmv → ℤ
unfolding shift_left16
tmv_to_time_interval x =
    if ltb_ℤ x min_tmv_to_time_interval
    then shift_left16 min_tmv_to_time_interval
    else if ltb_ℤ max_tmv_to_time_interval x
    then shift_left16 max_tmv_to_time_interval
    else shift_left16 x

-- `struct Timestamp`
pub record Timestamp : Type 0 where
  pub seconds_msb : ℕ
  pub seconds_lsb : ℕ
  pub nanoseconds : ℕ

-- The division is unsigned, and `nanoseconds` has 32 bits.
unfoldable pub tmv_to_timestamp : Tmv → Timestamp
unfolding to_u64
tmv_to_timestamp x =
    let sec = to_u64 x / ns_per_sec in
    record {
      seconds_lsb = sec % 2 ^ 32;
      seconds_msb = sec / 2 ^ 32 % 2 ^ 16;
      nanoseconds = to_u64 x % ns_per_sec % 2 ^ 32;
    }

-- `struct timespec`
pub record Timespec : Type 0 where
  pub tv_sec : ℤ
  pub tv_nsec : ℤ

unfoldable pub timespec_to_tmv : Timespec → Tmv
unfolding wrap64 ◌*ℤ◌ ◌+ℤ◌
timespec_to_tmv ts = wrap64 (ts.tv_sec *ℤ pos ns_per_sec +ℤ ts.tv_nsec)

unfoldable pub tmv_to_timespec : Tmv → Timespec
unfolding ◌/ℤ◌ ◌%ℤ◌
tmv_to_timespec t = record { tv_sec = t /ℤ pos ns_per_sec; tv_nsec = t %ℤ pos ns_per_sec }

-- `struct timestamp`, whose seconds are a `uint64_t`
pub record BinaryTimestamp : Type 0 where
  pub sec : ℕ
  pub nsec : ℕ

unfoldable pub timestamp_to_tmv : BinaryTimestamp → Tmv
unfolding of_u64
timestamp_to_tmv ts = of_u64 ((ts.sec * ns_per_sec + ts.nsec) % 2 ^ 64)
