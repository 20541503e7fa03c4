-- ===== src/Main/Polls.antt =====
-- main.c: the events of the loop, from what `poll` answers and what is then read from the socket.
use external_servo.Prelude.{ℕ, ◌+◌, ◌%◌, ◌^◌, ◌≡◌, refl, ◌∙◌, List, [], ◌∷◌, if◌then◌else◌, ◌==◌}
use external_servo.Prelude.Int.{ℤ, pos, negsuc}
use external_servo.Uds.Calls.{Kernel, World, M, ◌>>=◌, pure, held}
use external_servo.Uds.{uds_recv}
use external_servo.Uds.Life.{receive, transfer, transfer-held}
use external_servo.Main.{Event, poll_failed, timeout, other_event, datagram, recv_failed}

-- an answer of `poll`: a failure, none in time, another event, or something to read
pub data Poll : Type 0 where
  failed : Poll
  timed_out : Poll
  unreadable : Poll
  readable : Poll

abbrev max_pkt_len : ℕ
max_pkt_len = 1500

-- `count` is the result of `uds_recv`, cut to 16 bits; with zero nothing is processed.
unfoldable pub event_of : ℤ → List ℕ → Event
event_of (pos n) bytes = if n % 2 ^ 16 == 0 then datagram [] else datagram bytes
event_of (negsuc n) bytes = if (n + 1) % 2 ^ 16 == 0 then datagram [] else recv_failed

-- The reads and the events of the rounds; the first failure of `poll` is the last.
unfoldable pub events_of : List Poll → ℤ → M (List Event)
unfolding event_of
events_of [] fd = pure []
events_of (failed ∷ polls) fd = pure (poll_failed ∷ [])
events_of (timed_out ∷ polls) fd = do events ← events_of polls fd; pure (timeout ∷ events)
events_of (unreadable ∷ polls) fd = do events ← events_of polls fd; pure (other_event ∷ events)
events_of (readable ∷ polls) fd = do
  r ← uds_recv fd max_pkt_len 0
  events ← events_of polls fd
  pure (event_of r.0 r.1 ∷ events)

-- The loop opens and closes nothing.
pub events_of-held :
    (polls : List Poll) (fd : ℤ) (k : Kernel) (w : World)
    → held (events_of polls fd k w).1.calls ≡ held w.calls
unfolding events_of
events_of-held [] fd k w = refl
events_of-held (failed ∷ polls) fd k w = refl
events_of-held (timed_out ∷ polls) fd k w = events_of-held polls fd k w
events_of-held (unreadable ∷ polls) fd k w = events_of-held polls fd k w
events_of-held (readable ∷ polls) fd k w =
    events_of-held polls fd k (transfer (receive max_pkt_len 0) fd k w)
    ∙ transfer-held (receive max_pkt_len 0) fd k w
