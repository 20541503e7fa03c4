-- ===== src/Servo/Ntpshm/Protocol.antt =====
-- servo/ntpshm/ntpshm.c: what the process at the other end of the segment can see.
use external_servo.Prelude.{
  ℕ, zero, suc, ◌+◌, ◌*◌, ◌/◌, ◌≤◌, ◌<◌, ◌≡◌, refl, List, [], ◌∷◌, take, drop, All, ap, ◌∙◌, arith,
}
use external_servo.Prelude.Int.{ℤ, pos}
use external_servo.Prelude.Word.{to_u64}
use external_servo.Servo.Base.{sub_u64}
use external_servo.Servo.Ntpshm.{ShmTime, next_int, sample_writes, write_all}

take-take {ℓ} : {A : Type ℓ} (j n : ℕ) (xs : List A) → j ≤ n → take j (take n xs) ≡ take j xs
take-take zero n xs h = refl
take-take (suc j) zero xs h = absurd (omega arith)
take-take (suc j) (suc n) [] h = refl
take-take (suc j) (suc n) (x ∷ xs) h = ap (◌∷◌ x) (take-take j n xs (omega arith))

-- Writes that leave `valid` alone, up to any of them.
write_all-kept :
    (ws : List (ShmTime → ShmTime)) (j : ℕ) (t : ShmTime)
    → All (λ w. (t : ShmTime) → (w t).valid ≡ t.valid) ws
    → (write_all (take j ws) t).valid ≡ t.valid
unfolding write_all
write_all-kept ws zero t h = refl
write_all-kept [] (suc j) t h = refl
write_all-kept (w ∷ ws) (suc j) t h = write_all-kept ws j (w t) h.1 ∙ h.0 t

-- Between the third write and the last one, a reader finds the segment not valid.
pub hidden :
    (t : ShmTime) (leap offset : ℤ) (local_ts k : ℕ)
    → 3 ≤ k
    → k ≤ 12
    → (write_all (take k (sample_writes leap offset local_ts)) t).valid ≡ pos 0
unfolding write_all sample_writes
hidden t leap offset local_ts (suc (suc (suc j))) h m =
    let rest = drop 3 (sample_writes leap offset local_ts) in
    let quiet : All (λ w. (t : ShmTime) → (w t).valid ≡ t.valid) (take 9 rest) = (
      (λ t. refl),
      (
        (λ t. refl),
        (
          (λ t. refl),
          (
            (λ t. refl),
            ((λ t. refl), ((λ t. refl), ((λ t. refl), ((λ t. refl), ((λ t. refl), tt))))),
          ),
        ),
      ),
    ) in
    let kept =
      write_all-kept (take 9 rest) j (write_all (take 3 (sample_writes leap offset local_ts)) t)
        quiet in
    rw (take-take j 9 rest (omega arith)) at kept
hidden t leap offset local_ts zero h m = absurd (omega arith)
hidden t leap offset local_ts (suc zero) h m = absurd (omega arith)
hidden t leap offset local_ts (suc (suc zero)) h m = absurd (omega arith)

-- After the last write it is valid, its counter is two further, and its times are those of the sample.
pub published :
    (t : ShmTime) (leap offset : ℤ) (local_ts : ℕ)
    → let t' = write_all (sample_writes leap offset local_ts) t in
      t'.valid ≡ pos 1
      × t'.count ≡ next_int (next_int t.count)
      × t'.clock_time_stamp_sec * 1_000_000_000 + t'.clock_time_stamp_nsec
        ≡ sub_u64 local_ts (to_u64 offset)
      × t'.receive_time_stamp_sec * 1_000_000_000 + t'.receive_time_stamp_nsec ≡ local_ts
      × t'.clock_time_stamp_nsec < 1_000_000_000
      × t'.receive_time_stamp_nsec < 1_000_000_000
      × t'.clock_time_stamp_usec ≡ t'.clock_time_stamp_nsec / 1000
      × t'.receive_time_stamp_usec ≡ t'.receive_time_stamp_nsec / 1000
unfolding write_all sample_writes
published t leap offset local_ts =
    (refl, refl, omega arith, omega arith, omega arith, omega arith, refl, refl)
