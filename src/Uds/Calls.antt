-- ===== src/Uds/Calls.antt =====
-- The system calls of uds.c: their answers, the calls so far, and the descriptors that they leave open.
use external_servo.Prelude.{
  ℕ, suc, ◌≡◌, ◌⊎◌, true, ◌&&◌, Option, none, some, List, [], ◌∷◌, if◌then◌else◌,
}
use external_servo.Prelude.Int.{ℤ, pos, ltb_ℤ, eqb_ℤ}

-- An address is its path, or none for an address that is not local. `recvfrom` is given the size of
-- the buffer and that of the address.
pub data Call : Type 0 where
  socket : Call
  bind : ℤ → List ℕ → Call
  getsockname : ℤ → Call
  unlink : List ℕ → Call
  close : ℤ → Call
  sendto : ℤ → List ℕ → Option (List ℕ) → ℕ → Call
  recvfrom : ℤ → ℕ → ℕ → ℕ → Call

-- the returned value, `errno` where the call sets it, and what is written through pointers
pub record Answer : Type 0 where
  pub value : ℤ
  pub errno : Option ℤ
  pub bytes : List ℕ
  pub name : Option (List ℕ)
  pub name_len : ℕ

-- the calls with their values, the newest first
abbrev pub History : Type 0
History = List (Call × ℤ)

abbrev pub Kernel : Type 0
Kernel = History → Call → Answer

pub record World : Type 0 where
  pub calls : History
  pub errno : ℤ

abbrev pub M : Type 0 → Type 0
M A = Kernel → World → A × World

abbrev pub pure : {A : Type 0} → A → M A
pure a k w = (a, w)

infixl 5 ◌>>=◌
abbrev pub ◌>>=◌ : {A B : Type 0} → M A → (A → M B) → M B
◌>>=◌ m f k w = let r = m k w in f r.0 k r.1

abbrev pub set_errno : Option ℤ → ℤ → ℤ
set_errno none old = old
set_errno (some e) old = e

abbrev pub invoke : Call → M Answer
invoke c k w = (
  k w.calls c,
  record {
    calls = (c, (k w.calls c).value) ∷ w.calls;
    errno = set_errno (k w.calls c).errno w.errno;
  },
)

abbrev pub errno : M ℤ
errno k w = (w.errno, w)

abbrev pub remove : ℤ → List ℤ → List ℤ
remove fd [] = []
remove fd (x ∷ xs) = if eqb_ℤ x fd then xs else x ∷ remove fd xs

abbrev held_after : Call → ℤ → List ℤ → List ℤ
held_after socket v open_fds = if ltb_ℤ v (pos 0) then open_fds else v ∷ open_fds
held_after (close fd) v open_fds = remove fd open_fds
held_after _ v open_fds = open_fds

-- the descriptors that are open
abbrev pub held : History → List ℤ
held [] = []
held ((c, v) ∷ history) = held_after c v (held history)

abbrev bound_after : ℤ → Call → ℤ → Option (List ℕ) → Option (List ℕ)
bound_after fd (bind f path) v old = if eqb_ℤ f fd && eqb_ℤ v (pos 0) then some path else old
bound_after fd (close f) v old = if eqb_ℤ f fd then none else old
bound_after fd _ v old = old

-- the path that a descriptor is bound to
abbrev pub bound_to : ℤ → History → Option (List ℕ)
bound_to fd [] = none
bound_to fd ((c, v) ∷ history) = bound_after fd c v (bound_to fd history)

-- What the manual says of the calls: one that fails sets a positive `errno`, none sets another, `bind`
-- succeeds with zero, and `getsockname` yields the path that a descriptor is bound to.
pub record IsPosix (k : Kernel) : Type 0 where
  pub fails :
      (h : History) (c : Call)
      → ltb_ℤ (k h c).value (pos 0) ≡ true
      → (n : ℕ) × ((k h c).errno ≡ some (pos (suc n)))
  pub positive :
      (h : History) (c : Call)
      → ((k h c).errno ≡ none) ⊎ ((n : ℕ) × ((k h c).errno ≡ some (pos (suc n))))
  pub bind_value :
      (h : History) (fd : ℤ) (path : List ℕ)
      → ((k h (bind fd path)).value ≡ pos 0) ⊎ (ltb_ℤ (k h (bind fd path)).value (pos 0) ≡ true)
  pub getsockname_name :
      (h : History) (fd : ℤ) (path : List ℕ)
      → bound_to fd h ≡ some path
      → ((k h (getsockname fd)).value ≡ pos 0) × ((k h (getsockname fd)).name ≡ some path)
