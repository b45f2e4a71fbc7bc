-- ===== src/BaseImpl/Heartbeat/Timers.antt =====
-- base_impl.hpp: the deadline timers, as a map from sender endpoints to delays.
use cpp_local_datagram.Base.{
  ℕ, ◌≡◌, ◌≢◌, refl, sym, true, false, Option, none, some, List, [], ◌∷◌, ◌++◌, arith, ◌||◌,
  if◌then◌else◌, bytes_eq, bytes_eq_iff, bytes_eq_refl,
}
use cpp_local_datagram.Endpoint.{Endpoint}
use cpp_local_datagram.BaseImpl.State.{
  Impl, DeadlineTimer, Millis, Notice, emit, clear_timers, next_heartbeat,
  next_heartbeat_deadline_exceeded, is_open,
}
use cpp_local_datagram.BaseImpl.Socket.{run_close}
use cpp_local_datagram.BaseImpl.Socket.Closing.{run_close_open}
use cpp_local_datagram.BaseImpl.Heartbeat.{
  make_timer, has_timer, set_first_timer, erase_timers, run_next_heartbeat, run_deadline_exceeded,
  run_notice,
}

-- The abstract view: the delay kept for an endpoint.
pub delay_of : Endpoint → List DeadlineTimer → Option Millis
delay_of q [] = none
delay_of q (t ∷ ts) = if bytes_eq t.sender_endpoint q then some t.delay else delay_of q ts

-- At most one timer for each endpoint.
abbrev pub IsUnique : List DeadlineTimer → Type 0
IsUnique [] = Unit {0}
IsUnique (t ∷ ts) = (has_timer t.sender_endpoint ts ≡ false) × IsUnique ts

has_timer-set_first_timer :
    (p q : Endpoint) (d : Millis) (ts : List DeadlineTimer)
    → has_timer q (set_first_timer p d ts) ≡ has_timer q ts
unfolding has_timer set_first_timer
has_timer-set_first_timer p q d [] = refl
has_timer-set_first_timer p q d (t ∷ ts) = ground (arith, has_timer-set_first_timer p q d ts)

has_timer-push_back :
    (q : Endpoint) (t : DeadlineTimer) (ts : List DeadlineTimer)
    → has_timer q (ts ++ t ∷ []) ≡ (has_timer q ts || bytes_eq t.sender_endpoint q)
unfolding has_timer
has_timer-push_back q t [] = ground arith
has_timer-push_back q t (u ∷ ts) = ground (arith, has_timer-push_back q t ts)

has_timer-erase_timers :
    (p q : Endpoint) (ts : List DeadlineTimer)
    → has_timer q ts ≡ false
    → has_timer q (erase_timers p ts) ≡ false
unfolding has_timer erase_timers
has_timer-erase_timers p q [] h = refl
has_timer-erase_timers p q (t ∷ ts) h = ground (arith, has_timer-erase_timers p q ts)

set_first_timer-IsUnique :
    (p : Endpoint) (d : Millis) (ts : List DeadlineTimer)
    → IsUnique ts
    → IsUnique (set_first_timer p d ts)
unfolding set_first_timer
set_first_timer-IsUnique p d [] u = tt
set_first_timer-IsUnique p d (t ∷ ts) u =
    ground (
      arith,
      has_timer-set_first_timer p t.sender_endpoint d ts,
      set_first_timer-IsUnique p d ts u.1,
    )

push_back-IsUnique :
    (t : DeadlineTimer) (ts : List DeadlineTimer)
    → has_timer t.sender_endpoint ts ≡ false
    → IsUnique ts
    → IsUnique (ts ++ t ∷ [])
unfolding has_timer
push_back-IsUnique t [] h u = (refl, tt)
push_back-IsUnique t (x ∷ ts) h u = ground (
  arith,
  has_timer-push_back x.sender_endpoint t ts,
  bytes_eq_iff x.sender_endpoint t.sender_endpoint,
  bytes_eq_iff t.sender_endpoint x.sender_endpoint,
  push_back-IsUnique t ts,
)

erase_timers-IsUnique :
    (p : Endpoint) (ts : List DeadlineTimer) → IsUnique ts → IsUnique (erase_timers p ts)
unfolding erase_timers
erase_timers-IsUnique p [] u = tt
erase_timers-IsUnique p (t ∷ ts) u =
    ground (arith, has_timer-erase_timers p t.sender_endpoint ts, erase_timers-IsUnique p ts u.1)

delay_of-set_first_timer :
    (p q : Endpoint) (d : Millis) (ts : List DeadlineTimer)
    → has_timer p ts ≡ true
    → delay_of q (set_first_timer p d ts) ≡ (if bytes_eq p q then some d else delay_of q ts)
unfolding delay_of has_timer set_first_timer
delay_of-set_first_timer p q d [] h = cc
delay_of-set_first_timer p q d (t ∷ ts) h = ground (
  arith,
  bytes_eq_iff t.sender_endpoint p,
  bytes_eq_iff t.sender_endpoint q,
  bytes_eq_iff p q,
  delay_of-set_first_timer p q d ts,
)

delay_of-push_back :
    (q : Endpoint) (t : DeadlineTimer) (ts : List DeadlineTimer)
    → has_timer t.sender_endpoint ts ≡ false
    → delay_of q (ts ++ t ∷ [])
      ≡ (if bytes_eq t.sender_endpoint q then some t.delay else delay_of q ts)
unfolding delay_of has_timer
delay_of-push_back q t [] h = refl
delay_of-push_back q t (u ∷ ts) h = ground (
  arith,
  bytes_eq_iff t.sender_endpoint q,
  bytes_eq_iff u.sender_endpoint q,
  bytes_eq_iff u.sender_endpoint t.sender_endpoint,
  bytes_eq_refl t.sender_endpoint,
  delay_of-push_back q t ts,
)

delay_of-erase_timers :
    (p q : Endpoint) (ts : List DeadlineTimer)
    → delay_of q (erase_timers p ts) ≡ (if bytes_eq p q then none else delay_of q ts)
unfolding delay_of erase_timers
delay_of-erase_timers p q [] = ground arith
delay_of-erase_timers p q (t ∷ ts) = ground (
  arith,
  bytes_eq_iff t.sender_endpoint p,
  bytes_eq_iff t.sender_endpoint q,
  bytes_eq_iff p q,
  delay_of-erase_timers p q ts,
)

next_heartbeat-IsUnique :
    (g : ℕ) (d : Millis) (p : Endpoint) (s : Impl)
    → IsUnique s.next_heartbeat_deadline_timers
    → IsUnique (run_next_heartbeat g d p s).next_heartbeat_deadline_timers
unfolding run_next_heartbeat make_timer
next_heartbeat-IsUnique g d p s u = ground (
  arith,
  set_first_timer-IsUnique p d s.next_heartbeat_deadline_timers u,
  push_back-IsUnique (make_timer g p d) s.next_heartbeat_deadline_timers,
)

-- Whichever closure of the dispatcher's queue runs, and whichever timer runs out, no endpoint comes to
-- have two timers.
pub run_notice-IsUnique :
    (n : Notice) (t : DeadlineTimer) (s : Impl)
    → IsUnique s.next_heartbeat_deadline_timers
    → IsUnique (run_notice n s).next_heartbeat_deadline_timers
      × IsUnique (run_deadline_exceeded t s).next_heartbeat_deadline_timers
unfolding run_notice run_deadline_exceeded
run_notice-IsUnique n t s u = (on_notice n, ground (arith, erased))
  where
    erased : IsUnique (erase_timers t.sender_endpoint s.next_heartbeat_deadline_timers)
    erased = erase_timers-IsUnique t.sender_endpoint s.next_heartbeat_deadline_timers u

    on_notice : (n : Notice) → IsUnique (run_notice n s).next_heartbeat_deadline_timers
    on_notice (emit x) = u
    on_notice clear_timers = tt
    on_notice (next_heartbeat g d p) = next_heartbeat-IsUnique g d p s u

-- A heartbeat of the current generation sets the delay of its endpoint, and a timer of the current
-- generation that runs out takes its endpoint out and reports it; every other endpoint keeps its
-- delay.
pub delay_of_current :
    (d : Millis) (p q : Endpoint) (t : DeadlineTimer) (s : Impl)
    → t.generation ≡ s.next_heartbeat_deadline_timers_generation
    → let g = s.next_heartbeat_deadline_timers_generation in
      let before = s.next_heartbeat_deadline_timers in
      (delay_of q (run_next_heartbeat g d p s).next_heartbeat_deadline_timers
        ≡ (if bytes_eq p q then some d else delay_of q before))
      × (delay_of q (run_deadline_exceeded t s).next_heartbeat_deadline_timers
          ≡ (if bytes_eq t.sender_endpoint q then none else delay_of q before))
      × ((run_deadline_exceeded t s).signals
          ≡ s.signals ++ next_heartbeat_deadline_exceeded t.sender_endpoint ∷ [])
unfolding run_next_heartbeat run_deadline_exceeded make_timer
delay_of_current d p q t s e = (
  ground (
    arith,
    delay_of-set_first_timer p q d s.next_heartbeat_deadline_timers,
    delay_of-push_back q (make_timer s.next_heartbeat_deadline_timers_generation p d)
        s.next_heartbeat_deadline_timers,
  ),
  ground (arith, delay_of-erase_timers t.sender_endpoint q s.next_heartbeat_deadline_timers),
  ground arith,
)

run_stale :
    (g : ℕ) (d : Millis) (p : Endpoint) (t : DeadlineTimer) (s : Impl)
    → g ≢ s.next_heartbeat_deadline_timers_generation
    → t.generation ≡ g
    → (run_next_heartbeat g d p s ≡ s) × (run_deadline_exceeded t s ≡ s)
unfolding run_next_heartbeat run_deadline_exceeded
run_stale g d p t s h e = ground arith

-- Once the open socket has been closed, neither a heartbeat that was enqueued before nor a timer that
-- was made before changes anything or emits a signal.
pub run_close_silences :
    (d : Millis) (p : Endpoint) (t : DeadlineTimer) (s : Impl)
    → is_open s ≡ true
    → t.generation ≡ s.next_heartbeat_deadline_timers_generation
    → (run_next_heartbeat s.next_heartbeat_deadline_timers_generation d p (run_close s)
        ≡ run_close s)
      × (run_deadline_exceeded t (run_close s) ≡ run_close s)
run_close_silences d p t s o e =
    run_stale s.next_heartbeat_deadline_timers_generation d p t (run_close s)
      (λ q. (run_close_open s o).4 (sym q)) e
