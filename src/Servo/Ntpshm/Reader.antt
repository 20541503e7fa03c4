-- ===== src/Servo/Ntpshm/Reader.antt =====
-- servo/ntpshm/ntpshm.c: a reader at the other end of the segment, between any writes of any samples.
use external_servo.Prelude.{
  ℕ, zero, suc, ◌+◌, ◌*◌, ◌^◌, ◌≤◌, ◌<◌, ◌≡◌, refl, sym, ap, ◌∙◌, inl, inr, ◌⊎◌, ltb, Bool-cases,
  List, take, if◌then◌else◌, leb, arith,
}
use external_servo.Prelude.Int.{ℤ, pos, pos_nonzero}
use external_servo.Servo.Ntpshm.{ShmTime, sample_writes, write_all}
use external_servo.Servo.Ntpshm.Protocol.{hidden}
use external_servo.Servo.Ntpshm.Counter.{IsInt32, iterate, iterate_injective, iterate-add}

pub record Sample : Type 0 where
  pub leap : ℤ
  pub offset : ℤ
  pub local_ts : ℕ

-- a moment of the writer: after all writes of some samples, and some of the next one's 13
pub record Moment : Type 0 where
  pub samples : ℕ
  pub writes : ℕ

abbrev pub IsMoment : Moment → Type 0
IsMoment m = m.writes ≤ 12

-- the number of writes before a moment
abbrev pub time : Moment → ℕ
time m = 13 * m.samples + m.writes

abbrev writes_of : Sample → List (ShmTime → ShmTime)
writes_of s = sample_writes s.leap s.offset s.local_ts

-- the segment after some samples
unfoldable pub segment : (ℕ → Sample) → ShmTime → ℕ → ShmTime
segment source t zero = t
segment source t (suc n) = write_all (writes_of (source n)) (segment source t n)

-- what a reader finds at a moment
unfoldable pub seen : (ℕ → Sample) → ShmTime → Moment → ShmTime
unfolding segment
seen source t m =
    write_all (take m.writes (writes_of (source m.samples))) (segment source t m.samples)

-- what a sample consists of: all but the mode, the counter and the mark
abbrev pub payload : ShmTime → ShmTime
payload t = record t { mode = pos 0; count = pos 0; valid = pos 0 }

-- the `count++` before a moment
abbrev increments : Moment → ℕ
increments m =
    2 * m.samples + ((if leb 2 m.writes then 1 else 0) + (if leb 12 m.writes then 1 else 0))

-- a statement for each number below a bound
abbrev Below {ℓ} : (ℕ → Type ℓ) → ℕ → Type ℓ
Below P zero = Unit
Below P (suc k) = P 0 × Below (λ n. P (suc n)) k

below {ℓ} : (P : ℕ → Type ℓ) (k n : ℕ) → Below P k → n < k → P n
below P zero n ps h = absurd (omega arith)
below P (suc k) zero ps h = ps.0
below P (suc k) (suc n) ps h = below (λ n. P (suc n)) k n ps.1 (omega arith)

segment-count :
    (source : ℕ → Sample) (t : ShmTime) (n : ℕ)
    → (segment source t n).count ≡ iterate (2 * n) t.count
unfolding segment write_all sample_writes
segment-count source t zero = refl
segment-count source t (suc n) =
    let e : suc (suc (2 * n)) ≡ 2 * suc n = omega arith in
    ap (iterate 2) (segment-count source t n) ∙ ap (λ n. iterate n t.count) e

abbrev own_increments : ℕ → ℕ
own_increments p = (if leb 2 p then 1 else 0) + (if leb 12 p then 1 else 0)

writes-count :
    (s : Sample) (t : ShmTime) (p : ℕ)
    → p ≤ 12
    → (write_all (take p (writes_of s)) t).count ≡ iterate (own_increments p) t.count
unfolding write_all sample_writes
writes-count s t p h =
    below (λ p. (write_all (take p (writes_of s)) t).count ≡ iterate (own_increments p) t.count) 13
      p
      (
        refl,
        (
          refl,
          (
            refl,
            (refl, (refl, (refl, (refl, (refl, (refl, (refl, (refl, (refl, (refl, tt)))))))))),
          ),
        ),
      )
      (omega arith)

seen-count :
    (source : ℕ → Sample) (t : ShmTime) (m : Moment)
    → IsMoment m
    → (seen source t m).count ≡ iterate (increments m) t.count
unfolding seen
seen-count source t m h =
    let e : own_increments m.writes + 2 * m.samples ≡ increments m = omega arith in
    writes-count (source m.samples) (segment source t m.samples) m.writes h
    ∙ ap (iterate (own_increments m.writes)) (segment-count source t m.samples)
    ∙ iterate-add (own_increments m.writes) (2 * m.samples) t.count
    ∙ ap (λ n. iterate n t.count) e

increments_mono :
    (a b : Moment) → IsMoment a → IsMoment b → time a ≤ time b → increments a ≤ increments b
increments_mono a b h k le = ground arith

-- Where no increment is between two moments, they are before the first of a sample's two increments,
-- after the first, or around the end of a sample.
Between : Moment → Moment → Type 0
Between a b =
    ((a.samples ≡ b.samples) × (a.writes ≤ 1) × (b.writes ≤ 1))
    ⊎ ((a.samples ≡ b.samples) × (2 ≤ a.writes) × (a.writes ≤ b.writes))
    ⊎ ((suc a.samples ≡ b.samples) × (a.writes ≡ 12) × (b.writes ≤ 1))

between :
    (a b : Moment)
    → IsMoment a
    → IsMoment b
    → time a ≤ time b
    → increments a ≡ increments b
    → Between a b
unfolding Between
between a b h k le e = elim (Bool-cases (ltb a.samples b.samples)) [
  | inl later ↦ inr (inr (ground arith, ground arith, ground arith))
  | inr same ↦ elim (Bool-cases (leb 2 a.writes)) [
    | inl writing ↦ inr (inl (ground arith, ground arith, ground arith))
    | inr quiet ↦ inl (ground arith, ground arith, ground arith)
  ]
]

-- the mode and the mark are not part of the payload
begun-payload :
    (s : Sample) (t : ShmTime) (p : ℕ)
    → p ≤ 2
    → payload (write_all (take p (writes_of s)) t) ≡ payload t
unfolding write_all sample_writes
begun-payload s t p h =
    below (λ p. payload (write_all (take p (writes_of s)) t) ≡ payload t) 3 p
      (refl, (refl, (refl, tt))) (omega arith)

ended-payload :
    (s : Sample) (t : ShmTime)
    → payload (write_all (writes_of s) t) ≡ payload (write_all (take 12 (writes_of s)) t)
unfolding write_all sample_writes
ended-payload s t = refl

between-payload :
    (source : ℕ → Sample) (t : ShmTime) (a b : Moment)
    → IsMoment b
    → Between a b
    → (seen source t b).valid ≡ pos 1
    → payload (seen source t a) ≡ payload (segment source t b.samples)
unfolding Between seen segment
between-payload source t a b k (inl (n, p, q)) v =
    begun-payload (source a.samples) (segment source t a.samples) a.writes (omega arith)
    ∙ ap (λ n. payload (segment source t n)) n
between-payload source t a b k (inr (inl (n, p, q))) v = elim (Bool-cases (ltb 2 b.writes)) [
  | inl far ↦
      let shut : (seen source t b).valid ≡ pos 0 =
        hidden (segment source t b.samples) (source b.samples).leap (source b.samples).offset
          (source b.samples).local_ts b.writes (ground arith) k in
      absurd (pos_nonzero 1 (omega arith) (sym v ∙ shut))
  | inr near ↦
      begun-payload (source a.samples) (segment source t a.samples) a.writes (ground arith)
      ∙ ap (λ n. payload (segment source t n)) n
]
between-payload source t a b k (inr (inr (n, p, q))) v =
    rw (p, ← n) (sym (ended-payload (source a.samples) (segment source t a.samples)))

-- What the reader loads once some writes are issued is what these writes leave, in their order: the
-- stores become visible one after another, which the code leaves to two barriers that it does not have.
abbrev pub InOrder : (ℕ → Sample) → ShmTime → (Moment → ShmTime) → Type 0
InOrder source t view = (m : Moment) → IsMoment m → view m ≡ seen source t m

-- Whatever is in the segment at first, and whatever samples are written, where the stores become
-- visible to a reader one after another in the order of the program (which the code, whose write
-- barriers are marked as to do, does not see to): a reader takes the counter at a moment, the
-- fields of the sample one by one at later moments, the mark after those (not before, as the
-- comment on the structure has it), and the counter once more at the end, while fewer than 2 ^ 30
-- samples are written. Where the counters are equal and the mark is 1, every field has the value
-- that the last sample completed before the moment of the mark gave it (or its first value, where
-- there is none), so that all are those of one sample.
pub seen-payload :
    (source : ℕ → Sample) (t : ShmTime) (view : Moment → ShmTime) (first field mark last : Moment)
    → InOrder source t view
    → IsInt32 t.count
    → IsMoment first
    → IsMoment field
    → IsMoment mark
    → IsMoment last
    → time first ≤ time field
    → time field ≤ time mark
    → time mark ≤ time last
    → last.samples < first.samples + 2 ^ 30
    → (view first).count ≡ (view last).count
    → (view mark).valid ≡ pos 1
    → payload (view field) ≡ payload (segment source t mark.samples)
seen-payload source t view first field mark last order int h1 h2 h3 h4 le1 le2 le3 near e v =
    let i1 = increments_mono first field h1 h2 le1 in
    let i2 = increments_mono field mark h2 h3 le2 in
    let i3 = increments_mono mark last h3 h4 le3 in
    let counts : iterate (increments first) t.count ≡ iterate (increments last) t.count =
      sym (seen-count source t first h1)
      ∙ ap (λ x. x.count) (sym (order first h1))
      ∙ e
      ∙ ap (λ x. x.count) (order last h4)
      ∙ seen-count source t last h4 in
    let all =
      iterate_injective (increments first) (increments last) t.count int (omega (arith, i1, i2, i3))
        (ground arith) counts in
    ap payload (order field h2)
    ∙ between-payload source t field mark h3
        (between field mark h2 h3 le2 (omega (arith, i1, i2, i3, all)))
        (ap (λ x. x.valid) (sym (order mark h3)) ∙ v)
