-- ===== src/Tmv/Doubles.antt =====
-- tmv.h: the conversions of times that the arithmetic does not need.
use external_servo.Prelude.{ℕ}
use external_servo.Prelude.Int.{ℤ, pos, ◌+ℤ◌, ◌*ℤ◌}
use external_servo.Prelude.Word.{wrap64}
use external_servo.Double.{Double}
use external_servo.Tmv.{ns_per_sec, Tmv}

-- `struct ptp_clock_time` of the kernel
record PtpClockTime : Type 0 where
  pub sec : ℤ
  pub nsec : ℕ

tmv_to_nanoseconds : Tmv → ℤ
tmv_to_nanoseconds x = x

nanoseconds_to_tmv : ℤ → Tmv
nanoseconds_to_tmv ns = ns

pct_to_tmv : PtpClockTime → Tmv
unfolding wrap64
pct_to_tmv pct = wrap64 (pct.sec *ℤ pos ns_per_sec +ℤ pos pct.nsec)

module _ {ℓ} {D : Type ℓ} ⦃d : Double D⦄ where
  tmv_dbl : Tmv → D
  tmv_dbl x = d.of_int x

  dbl_tmv : D → Tmv
  dbl_tmv x = d.to_int64 x
