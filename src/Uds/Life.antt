-- ===== src/Uds/Life.antt =====
-- uds.c: the descriptor and the path of a socket from `uds_create` to `uds_destroy`.
use external_servo.Prelude.{
  ℕ, suc, ◌≡◌, refl, sym, ◌∙◌, inl, inr, true, false, Option, none, some, List, [], ◌∷◌, take,
  Bool-cases, arith, ap,
}
use external_servo.Prelude.Int.{ℤ, pos, negsuc, neg_ℤ, ltb_ℤ, eqb_ℤ}
use external_servo.Uds.Calls.{
  Call, socket, bind, getsockname, unlink, close, History, Kernel, World, IsPosix, held, bound_to,
  remove, set_errno,
}
use external_servo.Uds.{Address, uds_create, uds_destroy, uds_send, uds_recv}

eqb_refl : (a : ℤ) → eqb_ℤ a a ≡ true
eqb_refl a = ground arith

-- What a call of `uds_create` comes to: an open descriptor that is bound to the path, or a negative
-- number with no descriptor left open.
pub data Created (path : List ℕ) (w : World) : (ℤ × Option (List ℕ)) × World → Type 0 where
  opened :
      {w' : World} (n : ℕ)
      → held w'.calls ≡ pos n ∷ held w.calls
      → bound_to (pos n) w'.calls ≡ some path
      → Created path w ((pos n, some path), w')
  refused :
      {w' : World} (n : ℕ) → held w'.calls ≡ held w.calls → Created path w ((negsuc n, none), w')

not_negative : (n : ℕ) → ltb_ℤ (pos n) (pos 0) ≡ false
not_negative n = ground arith

neg_suc : (n : ℕ) → neg_ℤ (pos (suc n)) ≡ negsuc n
unfolding neg_ℤ
neg_suc n = ground arith

negsuc_pos : {m n : ℕ} → negsuc m ≡ pos n → ⊥
negsuc_pos e = cc

pos_of : (a : ℤ) → ltb_ℤ a (pos 0) ≡ false → (n : ℕ) × (a ≡ pos n)
pos_of (pos n) h = (n, refl)
pos_of (negsuc n) h = absurd (ground arith)

remove_first : (fd : ℤ) (open_fds : List ℤ) → remove fd (fd ∷ open_fds) ≡ open_fds
remove_first fd open_fds = rw (eqb_refl fd)

nonzero : (a : ℤ) → ltb_ℤ a (pos 0) ≡ true → eqb_ℤ a (pos 0) ≡ false
nonzero a h = ground arith

-- the error number after a failed `bind` and the `close`
errno_after :
    (k : Kernel) (h : History) (c : Call) (n : ℕ)
    → IsPosix k
    → (m : ℕ) × (set_errno (k h c).errno (pos (suc n)) ≡ pos (suc m))
errno_after k h c n posix = elim (posix.positive h c) [
  | inl kept ↦ (n, rw kept)
  | inr (m, set) ↦ (m, rw set)
]

bound-Created :
    (k : Kernel) (path : List ℕ) (w : World) (n : ℕ)
    → IsPosix k
    → (k w.calls socket).value ≡ pos n
    → Created (take 107 path) w (uds_create path k w)
unfolding uds_create
bound-Created k path w n posix e = elim (posix.bind_value history (pos n) (take 107 path)) [
  | inl done ↦
      rw (uds_create, e, not_negative n, done)
        (opened n (rw (not_negative n)) (rw (eqb_refl (pos n))))
  | inr failed ↦
      let (m, number) = posix.fails history (bind (pos n) (take 107 path)) failed in
      let (i, last) =
        errno_after k
          ((bind (pos n) (take 107 path), (k history (bind (pos n) (take 107 path))).value)
            ∷ history)
          (close (pos n)) m posix in
      rw (uds_create, e, not_negative n, nonzero _ failed, number, last, neg_suc i)
        (refused i (rw (not_negative n, eqb_refl (pos n))))
]
  where
    history : History
    history =
        (unlink path, (k ((socket, pos n) ∷ w.calls) (unlink path)).value)
        ∷ (socket, pos n)
        ∷ w.calls

-- For a kernel that answers as the manual says: a call of `uds_create` either returns a descriptor,
-- which is the one that is open besides those that were open before, is bound to the first 107 bytes
-- of the path, and comes with that address; or it returns a negative number, writes no address and
-- leaves open what was open before.
pub uds_create-Created :
    (k : Kernel) (path : List ℕ) (w : World)
    → IsPosix k
    → Created (take 107 path) w (uds_create path k w)
unfolding uds_create
uds_create-Created k path w posix = elim (Bool-cases (ltb_ℤ (k w.calls socket).value (pos 0))) [
  | inl fails ↦
      let (n, e) = posix.fails w.calls socket fails in
      rw (uds_create, fails, e, neg_suc n) (refused n (rw fails))
  | inr fine ↦ let (n, e) = pos_of (k w.calls socket).value fine in bound-Created k path w n posix e
]

-- what a program does with an open socket
pub data Transfer : Type 0 where
  send : List ℕ → Address → ℕ → Transfer
  receive : ℕ → ℕ → Transfer

abbrev pub transfer : Transfer → ℤ → Kernel → World → World
transfer (send msg daddr flags) fd k w = (uds_send fd msg daddr flags k w).1
transfer (receive len flags) fd k w = (uds_recv fd len flags k w).1

abbrev pub transfers : List Transfer → ℤ → Kernel → World → World
transfers [] fd k w = w
transfers (t ∷ ts) fd k w = transfers ts fd k (transfer t fd k w)

pub transfer-held :
    (t : Transfer) (fd : ℤ) (k : Kernel) (w : World) → held (transfer t fd k w).calls ≡ held w.calls
unfolding uds_send uds_recv
transfer-held (send msg daddr flags) fd k w = refl
transfer-held (receive len flags) fd k w = refl

transfer-bound_to :
    (t : Transfer) (fd : ℤ) (k : Kernel) (w : World)
    → bound_to fd (transfer t fd k w).calls ≡ bound_to fd w.calls
unfolding uds_send uds_recv
transfer-bound_to (send msg daddr flags) fd k w = refl
transfer-bound_to (receive len flags) fd k w = refl

transfers_keep :
    (ts : List Transfer) (fd : ℤ) (k : Kernel) (w : World)
    → (held (transfers ts fd k w).calls ≡ held w.calls)
      × (bound_to fd (transfers ts fd k w).calls ≡ bound_to fd w.calls)
transfers_keep [] fd k w = (refl, refl)
transfers_keep (t ∷ ts) fd k w =
    let (h, b) = transfers_keep ts fd k (transfer t fd k w) in
    (h ∙ transfer-held t fd k w, b ∙ transfer-bound_to t fd k w)

-- the newest calls of `uds_destroy`, with their values
abbrev pub asked : ℤ → World → History
asked fd w = (getsockname fd, pos 0) ∷ w.calls

abbrev pub forgotten : Kernel → ℤ → List ℕ → World → History
forgotten k fd path w = (unlink path, (k (asked fd w) (unlink path)).value) ∷ asked fd w

abbrev pub destroyed : Kernel → ℤ → List ℕ → World → History
destroyed k fd path w =
    (close fd, (k (forgotten k fd path w) (close fd)).value) ∷ forgotten k fd path w

uds_destroy-bound :
    (k : Kernel) (fd : ℤ) (path : List ℕ) (w : World)
    → IsPosix k
    → bound_to fd w.calls ≡ some path
    → (uds_destroy fd k w).1.calls ≡ destroyed k fd path w
unfolding uds_destroy
uds_destroy-bound k fd path w posix e =
    let (zero_value, name) = posix.getsockname_name w.calls fd path e in
    rw (uds_destroy, zero_value, name)

-- a success of `uds_create`
Created-opened :
    {path : List ℕ} {w : World} {r : (ℤ × Option (List ℕ)) × World}
    → Created path w r
    → (n : ℕ) (addr : Option (List ℕ)) (w' : World) → r ≡ ((pos n, addr), w')
    → (addr ≡ some path)
      × (held w'.calls ≡ pos n ∷ held w.calls)
      × (bound_to (pos n) w'.calls ≡ some path)
Created-opened {path} {w} (opened {w' = v} m h b) n addr w' e =
    let number : pos m ≡ pos n = ap (λ z. z.0.0) e in
    (
      ap (λ z. z.0.1) (sym e),
      ap (λ z. held z.1.calls) (sym e) ∙ h ∙ ap (λ z. z ∷ held w.calls) number,
      ap (λ z. bound_to z.0.0 z.1.calls) (sym e) ∙ b,
    )
Created-opened (refused m h) n addr w' e = absurd (negsuc_pos (ap (λ z. z.0.0) e))

-- For a kernel that answers as the manual says: after a successful `uds_create` and any sends and
-- receives on its socket, `uds_destroy` asks for the name of the socket, unlinks the path that it was
-- bound to, which is the first 107 bytes of the one that was given, closes the descriptor, and leaves
-- open what was open before the creation.
pub uds_destroy-uds_create :
    (k : Kernel) (path : List ℕ) (w w' : World) (n : ℕ) (addr : Option (List ℕ))
    (ts : List Transfer)
    → IsPosix k
    → uds_create path k w ≡ ((pos n, addr), w')
    → let w'' : World = (uds_destroy (pos n) k (transfers ts (pos n) k w')).1 in
      (addr ≡ some (take 107 path))
      × (held w''.calls ≡ held w.calls)
      × (w''.calls ≡ destroyed k (pos n) (take 107 path) (transfers ts (pos n) k w'))
uds_destroy-uds_create k path w w' n addr ts posix e =
    let (same, h, b) = Created-opened (uds_create-Created k path w posix) n addr w' e in
    let (kept, still) = transfers_keep ts (pos n) k w' in
    let end : (uds_destroy (pos n) k (transfers ts (pos n) k w')).1.calls
        ≡ destroyed k (pos n) (take 107 path) (transfers ts (pos n) k w') =
      uds_destroy-bound k (pos n) (take 107 path) (transfers ts (pos n) k w') posix (still ∙ b) in
    (same, ap held end ∙ ap (remove (pos n)) (kept ∙ h) ∙ remove_first (pos n) (held w.calls), end)
