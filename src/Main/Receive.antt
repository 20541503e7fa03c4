-- ===== src/Main/Receive.antt =====
-- The loop of `main`: whatever events come, no round faults and every frequency that is set is in range
-- or NaN.
use external_servo.Prelude.{
  ℕ, suc, ◌≡◌, refl, ap, ◌∙◌, Bool, true, false, Option, some, ◌>>=◌, List, [], ◌∷◌, ◌++◌, All,
  length, Holds, yields, Holds-bind, Holds-if, arith, ◌==◌,
}
use external_servo.Double.{Double, IsOrdered, IsSigned}
use external_servo.Filter.Dispatch.Refine
use external_servo.Msg.{tlv_slave_rx_sync_timing_data, slave_delay_timing_data_np}
use external_servo.Msg.Process.{process_message-safe}
use external_servo.Main.{
  Action, Program, Event, poll_failed, timeout, other_event, datagram, recv_failed, dispatched,
  handled, stored, round,
}
use external_servo.Main.Update.{IsBounded, clock_update-Updates, path_delay-IsValid}
use external_servo.Main.Tracking.{IsTracking}

length-stored : (bytes buffer : List ℕ) → length (stored bytes buffer) ≡ length buffer
length-stored [] [] = refl
length-stored [] (b ∷ buffer) = refl
length-stored (a ∷ bytes) [] = refl
length-stored (a ∷ bytes) (b ∷ buffer) = ap suc (length-stored bytes buffer)

module _ {ℓ} {D : Type ℓ} ⦃d : Double D⦄ where
  -- The buffer has its bytes, the filter its invariant, and the servo its range.
  pub record IsRunning (top : D) (p : Program D) : Type ℓ where
    pub full : length p.buffer ≡ 1500
    pub filter : Refine.IsValid p.tsp.delay_filter
    pub same : p.servo.base.max_frequency ≡ top
    pub tracking : IsTracking p.servo

  abbrev Round : D → List (Action D) × Program D → Type ℓ
  Round top r = All (IsBounded top) r.0 × IsRunning top r.1

  dispatched-IsRunning :
      IsOrdered D
      → IsSigned D
      → (top : D) (p : Program D) → IsRunning top p
      → Holds (Round top) (dispatched p)
  unfolding dispatched
  dispatched-IsRunning o laws top p h =
      Holds-if (p.received.tlv_type == tlv_slave_rx_sync_timing_data)
        (Holds-bind
          (clock_update-Updates o laws p.device_config p.tsp p.servo p.received.master_time
            p.received.slave_time h.tracking)
          (λ (acts, tsp, servo) (bounded, same, tracking, kept). yields (
            rw (← h.same) bounded,
            record {
              full = h.full;
              filter = rw kept h.filter;
              same = same ∙ h.same;
              tracking = tracking;
            },
          )))
        (Holds-if (p.received.tlv_type == slave_delay_timing_data_np)
          (Holds-bind
            (path_delay-IsValid p.tsp p.received.slave_time p.received.master_time h.filter)
            (λ tsp v.
              yields
                (tt, record { full = h.full; filter = v; same = h.same; tracking = h.tracking })))
          (yields (tt, h)))

  handled-IsRunning :
      IsOrdered D
      → IsSigned D
      → (top : D) (p : Program D) → IsRunning top p
      → Holds (Round top) (handled p)
  unfolding handled
  handled-IsRunning o laws top p h =
      Holds-bind (process_message-safe p.buffer p.received (let l = h.full in omega arith)) (λ m u.
        dispatched-IsRunning o laws top (record p { received = m })
          (record { full = h.full; filter = h.filter; same = h.same; tracking = h.tracking }))

  round-IsRunning :
      IsOrdered D
      → IsSigned D
      → (top : D) (p : Program D) (e : Event) → IsRunning top p
      → Holds (λ r. All (IsBounded top) r.1 × IsRunning top r.2) (round p e)
  unfolding round
  round-IsRunning o laws top p poll_failed h = yields (tt, h)
  round-IsRunning o laws top p timeout h = yields (tt, h)
  round-IsRunning o laws top p other_event h = yields (tt, h)
  round-IsRunning o laws top p recv_failed h =
      Holds-bind (handled-IsRunning o laws top p h) (λ (acts, q) k. yields k)
  round-IsRunning o laws top p (datagram bytes) h = Holds-if (length bytes == 0) (yields (tt, h)) (
      Holds-bind
        (handled-IsRunning o laws top (record p { buffer = stored bytes p.buffer })
          (record {
            full = length-stored bytes p.buffer ∙ h.full;
            filter = h.filter;
            same = h.same;
            tracking = h.tracking;
          }))
        (λ (acts, q) k. yields k))

  -- The rounds of the loop over a sequence of events: all calls in order, and the last state.
  pub rounds : Program D → List Event → Option (List (Action D) × Program D)
  unfolding round
  rounds p [] = some ([], p)
  rounds p (e ∷ es) = do
    (goes_on, acts, q) ← round p e
    (rest, last) ← elim goes_on [ true ↦ rounds q es | false ↦ some ([], q) ]
    some (acts ++ rest, last)

  All-append :
      (top : D) (xs ys : List (Action D))
      → All (IsBounded top) xs
      → All (IsBounded top) ys
      → All (IsBounded top) (xs ++ ys)
  All-append top [] ys a b = b
  All-append top (x ∷ xs) ys (h, a) b = (h, All-append top xs ys a b)

  goes_on_both :
      {P : List (Action D) × Program D → Type ℓ} (b : Bool)
      {x y : Option (List (Action D) × Program D)}
      → Holds P x
      → Holds P y
      → Holds P (elim b [ true ↦ x | false ↦ y ])
  goes_on_both true h k = h
  goes_on_both false h k = k

  -- From a state whose buffer has its 1500 bytes, whose delay filter is valid and whose servo, of
  -- any kind, has a greatest frequency that is not negative and keeps a frequency in the range
  -- from its negation to it, or NaN, no sequence of events (datagrams of any bytes and length,
  -- failed reads, timeouts, a failed poll) faults in any part of the program, every frequency that
  -- it sets is in that range or NaN, which no test of the servos catches, and such a state is
  -- left.
  pub rounds-IsRunning :
      IsOrdered D
      → IsSigned D
      → (top : D) (p : Program D) (es : List Event) → IsRunning top p
      → Holds (λ r. All (IsBounded top) r.0 × IsRunning top r.1) (rounds p es)
  unfolding rounds
  rounds-IsRunning o laws top p [] h = yields (tt, h)
  rounds-IsRunning o laws top p (e ∷ es) h =
      Holds-bind (round-IsRunning o laws top p e h) (λ (goes_on, acts, q) (bounded, k).
        Holds-bind (goes_on_both goes_on (rounds-IsRunning o laws top q es k) (yields (tt, k)))
          (λ (rest, last) (more, l). yields (All-append top acts rest bounded more, l)))
