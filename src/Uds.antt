-- ===== src/Uds.antt =====
-- uds.c and uds.h: the datagram sockets, as programs over system calls. What the kernel answers to a
-- call, after the calls before it, is a parameter.
pub mod Calls
pub mod Life
use external_servo.Prelude.{ℕ, ◌-◌, Option, none, some, List, if◌then◌else◌, take}
use external_servo.Prelude.Int.{ℤ, pos, neg_ℤ, ltb_ℤ, eqb_ℤ}
use external_servo.Prelude.Word.{wrap32}
use external_servo.Uds.Calls.{
  Call, socket, bind, getsockname, unlink, close, sendto, recvfrom, M, ◌>>=◌, pure, invoke, errno,
}

-- `struct address`: its length, and the path of a local address (none for one of another family)
pub record Address : Type 0 where
  pub len : ℕ
  pub sun : Option (List ℕ)

-- of `struct sockaddr_un`, and of its path with the final NUL
abbrev pub sockaddr_un_size : ℕ
sockaddr_un_size = 110

abbrev pub sun_path_size : ℕ
sun_path_size = 108

pub uds_send : ℤ → List ℕ → Address → ℕ → M ℤ
unfolding wrap32
uds_send fd msg daddr flags = do a ← invoke (sendto fd msg daddr.sun flags); pure (wrap32 a.value)

-- the result, the bytes that were read, and the address of the sender
pub uds_recv : ℤ → ℕ → ℕ → M (ℤ × List ℕ × Address)
unfolding wrap32
uds_recv fd msg_len flags = do
  a ← invoke (recvfrom fd msg_len sockaddr_un_size flags)
  pure (wrap32 a.value, a.bytes, record { len = a.name_len; sun = a.name })

-- the path of the socket, if it has one
abbrev unlinked : ℤ → Option (List ℕ) → M (Unit {0})
unlinked rv none = pure tt
unlinked rv (some path) =
    if eqb_ℤ rv (pos 0) then (do a ← invoke (unlink path); pure tt) else pure tt

pub uds_destroy : ℤ → M ℤ
uds_destroy fd = do
  a ← invoke (getsockname fd)
  u ← unlinked a.value a.name
  c ← invoke (close fd)
  pure c.value

-- `-errno`, with no address written
abbrev failure : M (ℤ × Option (List ℕ))
failure = do e ← errno; pure (neg_ℤ e, none)

-- after `bind`
abbrev bind_result : ℤ → List ℕ → ℤ → M (ℤ × Option (List ℕ))
bind_result fd path rv =
    let fails : M (ℤ × Option (List ℕ)) = do c ← invoke (close fd); failure
    in if eqb_ℤ rv (pos 0) then pure (fd, some path) else fails

-- the descriptor that is bound to the path, cut to the size of `sun_path`
abbrev bound : List ℕ → ℤ → M (ℤ × Option (List ℕ))
bound path_name fd = do
  u ← invoke (unlink path_name)
  b ← invoke (bind fd (take (sun_path_size - 1) path_name))
  bind_result fd (take (sun_path_size - 1) path_name) b.value

-- The result, and the path that is written to `addr->sun`, where it is.
unfoldable pub uds_create : List ℕ → M (ℤ × Option (List ℕ))
uds_create path_name = do
  fd ← invoke socket
  if ltb_ℤ fd.value (pos 0) then failure else bound path_name fd.value
