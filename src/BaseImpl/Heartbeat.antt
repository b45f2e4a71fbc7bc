-- ===== src/BaseImpl/Heartbeat.antt =====
-- base_impl.hpp and next_heartbeat_deadline_timer.hpp: what runs in the dispatcher thread.
pub mod Timers
use cpp_local_datagram.Base.{
  ℕ, Bool, true, false, Option, none, some, List, [], ◌∷◌, ◌++◌, ◌==◌, ◌||◌, if◌then◌else◌,
  bytes_eq,
}
use cpp_local_datagram.Endpoint.{Endpoint}
use cpp_local_datagram.BaseImpl.State.{
  Impl, DeadlineTimer, Millis, Signal, Notice, emit, clear_timers, next_heartbeat, closed,
  next_heartbeat_deadline_exceeded, signal,
}

-- next_heartbeat_deadline_timer::set_timer.
unfoldable pub set_timer : Millis → DeadlineTimer → DeadlineTimer
set_timer deadline t = record t { delay = deadline }

-- The constructor, and the capture of the slot connected to the timer.
unfoldable pub make_timer : ℕ → Endpoint → Millis → DeadlineTimer
make_timer generation endpoint deadline = record {
  sender_endpoint = endpoint;
  generation = generation;
  delay = deadline;
}

-- `find_if` for the endpoint: is there such a timer?
unfoldable pub has_timer : Endpoint → List DeadlineTimer → Bool
has_timer endpoint [] = false
has_timer endpoint (t ∷ ts) = bytes_eq t.sender_endpoint endpoint || has_timer endpoint ts

-- `(*it)->set_timer(...)` at the first timer that `find_if` meets.
unfoldable pub set_first_timer : Endpoint → Millis → List DeadlineTimer → List DeadlineTimer
unfolding set_timer
set_first_timer endpoint deadline [] = []
set_first_timer endpoint deadline (t ∷ ts) =
    if bytes_eq t.sender_endpoint endpoint
    then set_timer deadline t ∷ ts
    else t ∷ set_first_timer endpoint deadline ts

-- `std::erase_if` of the timers of the endpoint.
unfoldable pub erase_timers : Endpoint → List DeadlineTimer → List DeadlineTimer
erase_timers endpoint [] = []
erase_timers endpoint (t ∷ ts) =
    let rest = erase_timers endpoint ts in
    if bytes_eq t.sender_endpoint endpoint then rest else t ∷ rest

-- The closure enqueued for a heartbeat.
unfoldable pub run_next_heartbeat : ℕ → Millis → Endpoint → Impl → Impl
run_next_heartbeat generation deadline endpoint s =
    if generation == s.next_heartbeat_deadline_timers_generation
    then record s {
      next_heartbeat_deadline_timers =
          if has_timer endpoint s.next_heartbeat_deadline_timers
          then set_first_timer endpoint deadline s.next_heartbeat_deadline_timers
          else s.next_heartbeat_deadline_timers ++ make_timer generation endpoint deadline ∷ [];
    }
    else s

-- The slot of a timer's `next_heartbeat_deadline_exceeded`, with what it has captured.
unfoldable pub run_deadline_exceeded : DeadlineTimer → Impl → Impl
unfolding signal
run_deadline_exceeded t s =
    if t.generation == s.next_heartbeat_deadline_timers_generation
    then (let emitted = signal (next_heartbeat_deadline_exceeded t.sender_endpoint) s in
        record emitted {
          next_heartbeat_deadline_timers =
              erase_timers t.sender_endpoint emitted.next_heartbeat_deadline_timers;
        })
    else s

-- A closure of the dispatcher's queue. Those that only emit a signal are `emit`.
unfoldable pub run_notice : Notice → Impl → Impl
unfolding run_next_heartbeat signal
run_notice (emit x) s = signal x s
run_notice clear_timers s = signal closed (record s { next_heartbeat_deadline_timers = [] })
run_notice (next_heartbeat generation deadline endpoint) s =
    run_next_heartbeat generation deadline endpoint s
