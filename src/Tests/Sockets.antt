-- ===== src/Tests/Sockets.antt =====
-- Sockets on a kernel that grants every call and has a message to read.
use external_servo.Prelude.{
  length, replicate, ℕ, suc, ◌≡◌, refl, ◌⊎◌, inl, inr, true, Option, none, some, List, [], ◌∷◌,
}
use external_servo.Prelude.Int.{ℤ, pos, negsuc, neg_ℤ, ltb_ℤ}
use external_servo.Config.Tables.{text}
use external_servo.Msg.{tlv_slave_rx_sync_timing_data}
use external_servo.Msg.Encode.{sync_bytes}
use external_servo.Msg.Process.{message}
use external_servo.Tests.Messages.{sync}
use external_servo.Uds.Calls.{
  Call, socket, bind, getsockname, unlink, close, sendto, recvfrom, Answer, Kernel, History, World,
  IsPosix, bound_to, held,
}
use external_servo.Uds.{uds_create, uds_destroy}
use external_servo.Uds.Life.{
  Created, Transfer, send, receive, transfers, destroyed, uds_create-Created,
  uds_destroy-uds_create,
}

abbrev granted : ℤ → Answer
granted v = record { value = v; errno = none; bytes = []; name = none; name_len = 0 }

-- a name that is there
abbrev named : Option (List ℕ) → Answer
named (some path) = record {
  value = pos 0;
  errno = none;
  bytes = [];
  name = some path;
  name_len = 110;
}
named none = record {
  value = negsuc 0;
  errno = some (pos 22);
  bytes = [];
  name = none;
  name_len = 0;
}

-- a Sync record, as the monitor sends it
abbrev packet : List ℕ
packet =
    message 12 (replicate 43 0) tlv_slave_rx_sync_timing_data (replicate 12 0) (sync_bytes sync)

abbrev pub kernel : Kernel
kernel h (getsockname fd) = named (bound_to fd h)
kernel h socket = granted (pos 3)
kernel h (bind fd path) = granted (pos 0)
kernel h (unlink path) = granted (pos 0)
kernel h (close fd) = granted (pos 0)
kernel h (sendto fd msg to flags) = granted (pos 0)
kernel h (recvfrom fd len size flags) = record (granted (pos (length packet))) {
  bytes = packet;
  name_len = 2;
}

named-fails :
    (o : Option (List ℕ))
    → ltb_ℤ (named o).value (pos 0) ≡ true
    → (n : ℕ) × ((named o).errno ≡ some (pos (suc n)))
named-fails none h = (21, refl)
named-fails (some path) h = cc

named-positive :
    (o : Option (List ℕ))
    → ((named o).errno ≡ none) ⊎ ((n : ℕ) × ((named o).errno ≡ some (pos (suc n))))
named-positive none = inr (21, refl)
named-positive (some path) = inl refl

kernel-fails :
    (h : History) (c : Call)
    → ltb_ℤ (kernel h c).value (pos 0) ≡ true
    → (n : ℕ) × ((kernel h c).errno ≡ some (pos (suc n)))
kernel-fails h (getsockname fd) e = named-fails (bound_to fd h) e
kernel-fails h socket e = cc
kernel-fails h (bind fd path) e = cc
kernel-fails h (unlink path) e = cc
kernel-fails h (close fd) e = cc
kernel-fails h (sendto fd msg to flags) e = cc
kernel-fails h (recvfrom fd len size flags) e = cc

kernel-positive :
    (h : History) (c : Call)
    → ((kernel h c).errno ≡ none) ⊎ ((n : ℕ) × ((kernel h c).errno ≡ some (pos (suc n))))
kernel-positive h (getsockname fd) = named-positive (bound_to fd h)
kernel-positive h socket = inl refl
kernel-positive h (bind fd path) = inl refl
kernel-positive h (unlink path) = inl refl
kernel-positive h (close fd) = inl refl
kernel-positive h (sendto fd msg to flags) = inl refl
kernel-positive h (recvfrom fd len size flags) = inl refl

pub kernel-IsPosix : IsPosix kernel
kernel-IsPosix = record {
  fails = kernel-fails;
  positive = kernel-positive;
  bind_value = λ h fd path. inl refl;
  getsockname_name = λ h fd path e. rw e (refl, refl);
}

abbrev path : List ℕ
path = text "/run/servo"

abbrev pub world : World
world = record { calls = []; errno = pos 0 }

uds_create-Created_example : Created path world (uds_create path kernel world)
uds_create-Created_example = uds_create-Created kernel path world kernel-IsPosix

abbrev after : World
after = record {
  calls = (bind (pos 3) path, pos 0) ∷ (unlink path, pos 0) ∷ (socket, pos 3) ∷ [];
  errno = pos 0;
}

uds_create_opens : uds_create path kernel world ≡ ((pos 3, some path), after)
unfolding uds_create
uds_create_opens = refl

-- a kernel without memory for a socket
uds_create_refused :
    (uds_create path (λ h c. record (granted (negsuc 0)) { errno = some (pos 12) }) world).0
    ≡ (negsuc 11, none)
unfolding uds_create neg_ℤ
uds_create_refused = refl

abbrev some_transfers : List Transfer
some_transfers = receive 1500 0 ∷ send (text "ok") (record { len = 110; sun = none }) 0 ∷ []

uds_destroy-uds_create_example :
    let w : World =
      (uds_destroy (pos 3) kernel (transfers some_transfers (pos 3) kernel after)).1 in
    (◌≡◌ {A = Option (List ℕ)} (some path) (some path))
    × (held w.calls ≡ [])
    × (w.calls ≡ destroyed kernel (pos 3) path (transfers some_transfers (pos 3) kernel after))
uds_destroy-uds_create_example =
    uds_destroy-uds_create kernel path world after 3 (some path) some_transfers kernel-IsPosix
      uds_create_opens
