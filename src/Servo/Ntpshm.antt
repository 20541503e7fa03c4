-- ===== src/Servo/Ntpshm.antt =====
-- servo/ntpshm/ntpshm.c: the servo that passes its samples to another process through a shared
-- memory segment. The system calls `shmget` and `shmat` are a parameter, and the writes to the segment
-- are a list, since the other process can read it between any two of them; that it sees them in
-- that order is a hypothesis of the theorem on a reader.
pub mod Protocol
pub mod Counter
pub mod Reader
use external_servo.Prelude.{
  ℕ, zero, suc, ◌+◌, ◌-◌, ◌/◌, ◌%◌, ◌^◌, Bool, true, false, not, Option, none, some, ◌>>=◌, List,
  [], ◌∷◌, if◌then◌else◌,
}
use external_servo.Prelude.Int.{ℤ, pos, negsuc, ◌+ℤ◌, eqb_ℤ}
use external_servo.Prelude.Word.{to_u64}
use external_servo.Double.{Double, nought}
use external_servo.Config.Types.{ServoConfig}
use external_servo.Servo.Base.{ServoState, unlocked, sub_u64}

-- `struct shmTime`
pub record ShmTime : Type 0 where
  pub mode : ℤ
  pub count : ℤ
  pub clock_time_stamp_sec : ℕ
  pub clock_time_stamp_usec : ℕ
  pub receive_time_stamp_sec : ℕ
  pub receive_time_stamp_usec : ℕ
  pub leap : ℤ
  pub precision : ℤ
  pub nsamples : ℤ
  pub valid : ℤ
  pub clock_time_stamp_nsec : ℕ
  pub receive_time_stamp_nsec : ℕ

-- `struct ntpshm_servo`, less the common part, with what `shm` points to
pub record NtpshmServo : Type 0 where
  pub shm : ShmTime
  pub leap : ℤ

-- `shmget` of a key, -1 on an error, and the segment that `shmat` attaches, if it can
pub record ShmApi : Type 0 where
  pub shmget : ℤ → ℤ
  pub shmat : ℤ → Option ShmTime

-- `x++` of an `int`
unfoldable pub next_int : ℤ → ℤ
next_int x = if eqb_ℤ x (pos (2 ^ 31 - 1)) then negsuc (2 ^ 31 - 1) else x +ℤ pos 1

-- the NTP value of a leap: -1 deletes a second (2), 1 inserts one (1)
unfoldable pub ntp_leap : ℤ → ℤ
ntp_leap leap = if eqb_ℤ leap (negsuc 0) then pos 2 else if eqb_ℤ leap (pos 1) then pos 1 else pos 0

-- The writes of `ntpshm_sample`, in the order of the program. Another process sees them in that order
-- only with the barriers that the code marks as to do.
unfoldable pub sample_writes : ℤ → ℤ → ℕ → List (ShmTime → ShmTime)
unfolding ntp_leap to_u64
sample_writes leap offset local_ts =
    let clock_ts = sub_u64 local_ts (to_u64 offset) in
    (λ t. record t { mode = pos 1 })
    ∷ (λ t. record t { count = next_int t.count })
    ∷ (λ t. record t { valid = pos 0 })
    ∷ (λ t. record t { clock_time_stamp_sec = clock_ts / 1_000_000_000 })
    ∷ (λ t. record t { clock_time_stamp_nsec = clock_ts % 1_000_000_000 })
    ∷ (λ t. record t { clock_time_stamp_usec = t.clock_time_stamp_nsec / 1000 })
    ∷ (λ t. record t { receive_time_stamp_sec = local_ts / 1_000_000_000 })
    ∷ (λ t. record t { receive_time_stamp_nsec = local_ts % 1_000_000_000 })
    ∷ (λ t. record t { receive_time_stamp_usec = t.receive_time_stamp_nsec / 1000 })
    ∷ (λ t. record t { precision = negsuc 29 })
    ∷ (λ t. record t { leap = ntp_leap leap })
    ∷ (λ t. record t { count = next_int t.count })
    ∷ (λ t. record t { valid = pos 1 })
    ∷ []

unfoldable pub write_all : List (ShmTime → ShmTime) → ShmTime → ShmTime
write_all [] t = t
write_all (w ∷ ws) t = write_all ws (w t)

module _ {ℓ} {D : Type ℓ} ⦃d : Double D⦄ where
  -- The result and `*state` do not depend on the sample.
  unfoldable pub ntpshm_sample : NtpshmServo → ℤ → ℕ → D × ServoState × NtpshmServo
  ntpshm_sample s offset local_ts =
      (nought, unlocked, record s { shm = write_all (sample_writes s.leap offset local_ts) s.shm })

  unfoldable pub ntpshm_sync_interval : NtpshmServo → D → NtpshmServo
  ntpshm_sync_interval s interval = s

  -- `alloc` says which sizes `calloc` can serve: 112 bytes for the structure.
  unfoldable pub ntpshm_servo_create : (ℕ → Bool) → ShmApi → ServoConfig D → Option NtpshmServo
  ntpshm_servo_create alloc api cfg =
      let shmid = api.shmget (pos 1_314_148_400 +ℤ cfg.ntpshm_segment) in
      if not (alloc 112)
      then none
      else if eqb_ℤ shmid (negsuc 0)
      then none
      else do shm ← api.shmat shmid; some (record { shm = shm; leap = pos 0 })

unfoldable pub ntpshm_reset : NtpshmServo → NtpshmServo
ntpshm_reset s = s

unfoldable pub ntpshm_leap : NtpshmServo → ℤ → NtpshmServo
ntpshm_leap s leap = record s { leap = leap }
