-- ===== src/Clockadj/Compare.antt =====
-- clockadj.c: the comparison of two clocks picks the quickest of its readings.
use external_servo.Prelude.{
  ◌-◌, ◌^◌, ◌≡◌, refl, true, false, Option, none, some, List, [], ◌∷◌, ◌++◌, map, All, ◌⊎◌, inl,
  inr, if◌then◌else◌, Bool-cases, ltb→lt, not-ltb→le, arith,
}
use external_servo.Prelude.Int.{ℤ, pos, ◌≤ℤ◌, ◌<ℤ◌, ltb_ℤ, neg_ℤ}
use external_servo.Prelude.{
  ℕ, ◌-◌, ◌^◌, Bool, true, false, Option, none, some, List, [], ◌∷◌, if◌then◌else◌,
}
use external_servo.Prelude.Int.{ℤ, pos, ◌+ℤ◌, ◌-ℤ◌, ◌*ℤ◌, ◌/ℤ◌, neg_ℤ, ltb_ℤ}
use external_servo.Prelude.Word.{to_u64, wrap64}
use external_servo.Tmv.{ns_per_sec, Timespec}

-- one round of the loop of `clockadj_compare`: a reading of the other clock between two of the system's
pub record Reading : Type 0 where
  pub tdst1 : Timespec
  pub tsrc : Timespec
  pub tdst2 : Timespec

-- what goes through the pointers
pub record Comparison : Type 0 where
  pub offset : ℤ
  pub ts : ℕ
  pub delay : ℤ

-- the difference of two times in nanoseconds
pub nanoseconds_between : Timespec → Timespec → ℤ
nanoseconds_between a b = (a.tv_sec -ℤ b.tv_sec) *ℤ pos ns_per_sec +ℤ a.tv_nsec -ℤ b.tv_nsec

pub interval : Reading → ℤ
unfolding nanoseconds_between
interval r = wrap64 (nanoseconds_between r.tdst2 r.tdst1)

-- what a reading says
pub compared : Reading → Comparison
unfolding interval
compared r = record {
  offset = wrap64 (nanoseconds_between r.tdst1 r.tsrc +ℤ interval r /ℤ pos 2);
  ts = to_u64 (r.tdst2.tv_sec *ℤ pos ns_per_sec +ℤ r.tdst2.tv_nsec);
  delay = interval r;
}

-- The loop: the readings that are left, and the best so far. A reading that fails (`none`) ends it.
pub quickest : List (Option Reading) → Comparison → Bool × Comparison
unfolding compared
quickest [] best = (true, best)
quickest (none ∷ rs) best = (false, best)
quickest (some r ∷ rs) best =
    quickest rs (if ltb_ℤ (interval r) best.delay then compared r else best)

-- The result, and what the pointers get: `best_interval` is the greatest `int64_t` to begin with, and
-- stored at the end only.
pub clockadj_compare : ℤ → List (Option Reading) → Comparison → ℤ × Comparison
unfolding quickest
clockadj_compare errno rs before =
    let (done, best) = quickest rs (record before { delay = pos (2 ^ 63 - 1) }) in
    if done then (pos 0, best) else (neg_ℤ errno, record best { delay = before.delay })

-- `r` is the first of the quickest readings, and quicker than `limit`.
pub data Picked (limit : ℤ) (r : Reading) : List Reading → Type 0 where
  here :
      {rs : List Reading}
      → interval r <ℤ limit
      → All (λ q. interval r ≤ℤ interval q) rs
      → Picked limit r (r ∷ rs)
  later :
      {q : Reading} {rs : List Reading}
      → interval r <ℤ interval q
      → Picked limit r rs
      → Picked limit r (q ∷ rs)

Picked-lt : {limit : ℤ} {r : Reading} {rs : List Reading} → Picked limit r rs → interval r <ℤ limit
Picked-lt (here h a) = h
Picked-lt (later h p) = Picked-lt p

Picked-weaken :
    {low limit : ℤ} {r : Reading} {rs : List Reading}
    → low ≤ℤ limit
    → Picked low r rs
    → Picked limit r rs
Picked-weaken k (here h a) = here (omega arith) a
Picked-weaken k (later h p) = later h (Picked-weaken k p)

-- No reading is quicker than `best` and it stays, or the first of the quickest takes its place.
pub Chosen : Comparison → List Reading → Comparison → Type 0
Chosen best rs result =
    (All (λ q. best.delay ≤ℤ interval q) rs × (result ≡ best))
    ⊎ ((r : Reading) × Picked best.delay r rs × (result ≡ compared r))

-- one reading more
Chosen-cons :
    (q : Reading) (rs : List Reading) (best result : Comparison)
    → Chosen (if ltb_ℤ (interval q) best.delay then compared q else best) rs result
    → Chosen best (q ∷ rs) result
unfolding Chosen compared
Chosen-cons q rs best result c = elim (Bool-cases (ltb_ℤ (interval q) best.delay)) [
  | inl t ↦ quicker (ltb→lt _ _ t) (rw t at c)
  | inr f ↦ slower (not-ltb→le _ _ f) (rw f at c)
]
  where
    quicker : interval q <ℤ best.delay → Chosen (compared q) rs result → Chosen best (q ∷ rs) result
    quicker k (inl (a, e)) = inr (q, here k a, e)
    quicker k (inr (r, p, e)) = inr (r, later (Picked-lt p) (Picked-weaken (omega arith) p), e)

    slower : best.delay ≤ℤ interval q → Chosen best rs result → Chosen best (q ∷ rs) result
    slower k (inl (a, e)) = inl ((k, a), e)
    slower k (inr (r, p, e)) = inr (r, later (omega (arith, Picked-lt p)) p, e)

quickest-Chosen :
    (rs : List Reading) (best : Comparison)
    → let (done, result) = quickest (map some rs) best in done ≡ true × Chosen best rs result
unfolding quickest Chosen
quickest-Chosen [] best = (refl, inl (tt, refl))
quickest-Chosen (r ∷ rs) best =
    let (done, c) =
      quickest-Chosen rs (if ltb_ℤ (interval r) best.delay then compared r else best) in
    (done, Chosen-cons r rs best _ c)

-- Where all readings succeed, the comparison of two clocks does: the offset, the time and the
-- delay are those of the first of the quickest readings, or, where no reading is quicker than the
-- greatest int64_t, the offset and the time are left as the pointers hold them and the delay is
-- that greatest int64_t.
pub clockadj_compare-Chosen :
    (errno : ℤ) (rs : List Reading) (before : Comparison)
    → let (code, result) = clockadj_compare errno (map some rs) before in
      code ≡ pos 0 × Chosen (record before { delay = pos (2 ^ 63 - 1) }) rs result
unfolding clockadj_compare
clockadj_compare-Chosen errno rs before =
    let (done, c) = quickest-Chosen rs (record before { delay = pos (2 ^ 63 - 1) }) in
    rw done (refl, c)

quickest-fails :
    (rs : List Reading) (rest : List (Option Reading)) (best : Comparison)
    → (quickest (map some rs ++ none ∷ rest) best).0 ≡ false
unfolding quickest
quickest-fails [] rest best = refl
quickest-fails (r ∷ rs) rest best = quickest-fails rs rest _

-- At the first reading that fails the comparison ends with the negated error, whatever follows, and
-- leaves the delay.
pub clockadj_compare-fails :
    (errno : ℤ) (rs : List Reading) (rest : List (Option Reading)) (before : Comparison)
    → let (code, result) = clockadj_compare errno (map some rs ++ none ∷ rest) before in
      code ≡ neg_ℤ errno × result.delay ≡ before.delay
unfolding clockadj_compare
clockadj_compare-fails errno rs rest before =
    rw (quickest-fails rs rest (record before { delay = pos (2 ^ 63 - 1) })) (refl, refl)
