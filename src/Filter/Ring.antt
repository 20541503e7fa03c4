-- ===== src/Filter/Ring.antt =====
-- The circular buffer that both filters keep: `cnt` samples in use, the next one to go to `index`.
-- The specification is the window of the latest samples, oldest first.
use mathlib.Core.List.{append-nil, append_assoc, Perm, perm_append_comm}
use mathlib.Core.List.Perm
use external_servo.Prelude.{
  ℕ, suc, ◌+◌, ◌%◌, ◌≤◌, ◌<◌, ◌≡◌, refl, sym, ap, some, List, [], ◌∷◌, ◌++◌, if◌then◌else◌, ltb,
  arith, length, set?, take, drop, tail, length-append, length-take, split_at, set?-at, take-append,
  drop-append, take-append-drop, take-length, lt→ltb, le→not-ltb,
}
use native.Mathlib.Decide.{dec_lt}

-- A bounded queue: when it is full, the oldest sample goes.
abbrev pub push_window {ℓ} : {A : Type ℓ} → ℕ → List A → A → List A
push_window len w s = (if ltb (length w) len then w else tail w) ++ (s ∷ [])

pub record IsRing {ℓ} {A : Type ℓ} (cnt len index : ℕ) (buf : List A) : Type 0 where
  pub length_buf : length buf ≡ len
  pub cnt_le : cnt ≤ len
  pub index_lt : index < len
  pub filling : cnt < len → index ≡ cnt

abbrev pub next_cnt : ℕ → ℕ → ℕ
next_cnt cnt len = if ltb cnt len then cnt + 1 else cnt

next-last : (i n : ℕ) → n ≡ i + 1 → (1 + i) % n ≡ 0
next-last i n e = grind arith

next-inner : (i n : ℕ) → i + 1 < n → (1 + i) % n ≡ i + 1
next-inner i n h = grind arith

module _ {ℓ} {A : Type ℓ} where
  abbrev pub window : ℕ → ℕ → ℕ → List A → List A
  window cnt len index buf = if ltb cnt len then take cnt buf else drop index buf ++ take index buf

  pub record Pushed (cnt len index : ℕ) (buf : List A) (s : A) : Type ℓ where
    pub new : List A
    pub stored : set? buf index s ≡ some new
    pub ring : IsRing (next_cnt cnt len) len ((1 + index) % len) new
    pub shifted :
        window (next_cnt cnt len) len ((1 + index) % len) new
        ≡ push_window len (window cnt len index buf) s

  turn : (p q : List A) (i : ℕ) → i ≡ length p → drop i (p ++ q) ++ take i (p ++ q) ≡ q ++ p
  turn p q i e = rw (drop-append p q i e, take-append p q i e)

  -- The window of a full buffer after a write: it starts behind the slot that was written.
  window_written :
      (p q : List A) (s : A) (len i : ℕ)
      → i ≡ length p
      → len ≡ length p + suc (length q)
      → window len len ((1 + i) % len) (p ++ (s ∷ q)) ≡ q ++ (p ++ (s ∷ []))
  window_written p [] s len i e l =
      rw (le→not-ltb len len (omega arith), next-last i len (omega arith))
        (append-nil (p ++ (s ∷ [])))
  window_written p (y ∷ q) s len i e l =
      rw
        (
          le→not-ltb len len (omega arith),
          next-inner i len (omega arith),
          ← append_assoc p (s ∷ []) (y ∷ q),
        )
        (turn (p ++ (s ∷ [])) (y ∷ q) (i + 1) (omega (arith, length-append p (s ∷ []))))

  -- A full buffer drops its oldest sample.
  push_full :
      (p q : List A) (x s : A) (len i : ℕ)
      → i ≡ length p
      → len ≡ length p + suc (length q)
      → window len len ((1 + i) % len) (p ++ (s ∷ q))
        ≡ push_window len (window len len i (p ++ (x ∷ q))) s
  push_full p q x s len i e l =
      rw
        (
          window_written p q s len i e l,
          le→not-ltb len len (omega arith),
          turn p (x ∷ q) i e,
          le→not-ltb (suc (length (q ++ p))) len (omega (arith, length-append q p)),
        )
        (sym (append_assoc q p (s ∷ [])))

  -- A buffer that is not full keeps them all.
  push_filling :
      (p q : List A) (x s : A) (len : ℕ)
      → len ≡ length p + suc (length q)
      → window (length p + 1) len ((1 + length p) % len) (p ++ (s ∷ q)) ≡ p ++ (s ∷ [])
  push_filling p [] x s len l =
      let full : length p + 1 ≡ len = omega arith in
      rw full (window_written p [] s len (length p) refl l)
  push_filling p (y ∷ q) x s len l =
      rw (lt→ltb (length p + 1) len (omega arith), ← append_assoc p (s ∷ []) (y ∷ q))
        (take-append (p ++ (s ∷ [])) (y ∷ q) (length p + 1)
          (omega (arith, length-append p (s ∷ []))))

  push_at :
      (p q : List A) (x s : A) (cnt len i : ℕ)
      → IsRing cnt len i (p ++ (x ∷ q))
      → i ≡ length p
      → len ≡ length p + suc (length q)
      → Pushed cnt len i (p ++ (x ∷ q)) s
  push_at p q x s cnt len i r e l = record {
    new = p ++ (s ∷ q);
    stored = set?-at p x q i s e;
    ring = record {
      length_buf = omega (arith, length-append p (s ∷ q));
      cnt_le = ground (arith, r.cnt_le);
      index_lt = omega (arith, r.index_lt);
      filling = elim (dec_lt cnt len) [
        | yes h ↦
            rw (lt→ltb cnt len h)
              (λ k. rw (next-inner i len (omega (arith, r.filling h))) (omega (arith, r.filling h)))
        | no h ↦ rw (le→not-ltb cnt len (omega arith)) (λ k. absurd (h k))
      ];
    };
    shifted = elim (dec_lt cnt len) [
      | yes h ↦
          let at : cnt ≡ length p = omega (arith, r.filling h) in
          let i_at : i ≡ length p = e in
          rw
            (
              lt→ltb cnt len h,
              at,
              i_at,
              take-append p (x ∷ q) (length p) refl,
              lt→ltb (length p) len (omega arith),
            )
            (push_filling p q x s len l)
      | no h ↦
          let full : cnt ≡ len = omega (arith, r.cnt_le) in
          let same : next_cnt len len ≡ len = rw (le→not-ltb len len (omega arith)) in
          rw (full, same) (push_full p q x s len i e l)
    ];
  }

  -- A sample goes to a slot in bounds, and the window moves as the bounded queue does.
  pub push_ring :
      (cnt len index : ℕ) (buf : List A) (s : A)
      → IsRing cnt len index buf
      → Pushed cnt len index buf s
  push_ring cnt len index buf s r =
      let (p, x, q, e, l) = split_at buf index (omega (arith, r.index_lt, r.length_buf)) in
      let r' : IsRing cnt len index (p ++ (x ∷ q)) = rw e at r in
      rw e (
        push_at p q x s cnt len index r' (sym l)
          (omega (arith, r'.length_buf, length-append p (x ∷ q))))

  pub length-window :
      (cnt len index : ℕ) (buf : List A)
      → IsRing cnt len index buf
      → length (window cnt len index buf) ≡ cnt
  length-window cnt len index buf r = elim (dec_lt cnt len) [
    | yes h ↦ rw (lt→ltb cnt len h) (length-take cnt buf (omega (arith, r.length_buf)))
    | no h ↦ rw (le→not-ltb cnt len (omega arith)) (
        omega (
          arith,
          r,
          length-append (drop index buf) (take index buf),
          length-append (take index buf) (drop index buf),
          ap length (take-append-drop index buf),
        ))
  ]

  -- The window is the used part of the buffer, rearranged.
  pub window-perm :
      (cnt len index : ℕ) (buf : List A)
      → IsRing cnt len index buf
      → Perm (window cnt len index buf) (take cnt buf)
  window-perm cnt len index buf r = elim (dec_lt cnt len) [
    | yes h ↦ rw (lt→ltb cnt len h) Perm.rfl
    | no h ↦
        rw (le→not-ltb cnt len (omega arith), take-length buf cnt (omega (arith, r.length_buf)))
          (rw (take-append-drop index buf) at (perm_append_comm (drop index buf) (take index buf)))
  ]
