-- ===== src/BaseImpl/Send/Actors.antt =====
-- base_impl.hpp, start_actors: what is running once a socket has become ready.
use cpp_local_datagram.Base.{
  ℕ, ◌+◌, ◌≡◌, refl, ◌∙◌, true, none, List, [], ◌∷◌, ◌++◌, arith, ap, sym,
}
use mathlib.Core.List.{append-nil}
use cpp_local_datagram.SendEntry.{make_buffer}
use cpp_local_datagram.BaseImpl.State.{
  Impl, Op, receive_from, wait_send_deadline, Mode, server, client, Millis, send_to, pos_infin, at,
  is_open, start, post, before,
}
use cpp_local_datagram.BaseImpl.Socket.{async_close}
use cpp_local_datagram.BaseImpl.Receive.{async_receive}
use cpp_local_datagram.BaseImpl.Send.{
  await_send_entry, await_next, await_front, send_front, check_send_deadline, check_deadline_of,
  start_actors,
}
use cpp_local_datagram.BaseImpl.Send.Entries.{Kept, await_send_entry-Kept}

Kept-trans : {s t u : Impl} → Kept s t → Kept t u → Kept s u
Kept-trans p q = ground arith

async_receive-Kept : (s : Impl) → Kept s (async_receive s)
unfolding async_receive start
async_receive-Kept s = ground arith

check_deadline_of-Kept :
    (m : Mode) (now : Millis) (s : Impl)
    → s.send_deadline ≡ pos_infin
    → Kept s (check_deadline_of m now s)
unfolding check_deadline_of check_send_deadline start
check_deadline_of-Kept server now s e = ground arith
check_deadline_of-Kept client now s e = ground arith

no_deadline-Kept : (s : Impl) → Kept s (record s { send_deadline = pos_infin })
no_deadline-Kept s = ground arith

check_deadline_of-deadline :
    (m : Mode) (now : Millis) (s : Impl)
    → (check_deadline_of m now s).send_deadline ≡ s.send_deadline
unfolding check_deadline_of check_send_deadline start async_close post
check_deadline_of-deadline server now s = refl
check_deadline_of-deadline client now s = ground arith

async_receive-deadline : (s : Impl) → (async_receive s).send_deadline ≡ s.send_deadline
unfolding async_receive start
async_receive-deadline s = ground arith

-- The actors are operations: nothing but these and the timers changes when they start.
pub start_actors-Kept : (now : Millis) (s : Impl) → Kept s (start_actors now s)
unfolding start_actors
start_actors-Kept now s = Kept-trans (await_send_entry-Kept now none s) (
    Kept-trans (no_deadline-Kept _)
      (Kept-trans (check_deadline_of-Kept s.mode now _ refl) (async_receive-Kept _)))

-- The operations that watch the deadline, by the mode.
pub deadline_waits : Mode → List Op
deadline_waits server = []
deadline_waits client = wait_send_deadline ∷ []

await_send_entry-front :
    (now : Millis) (i : ℕ) (is : List ℕ) (s : Impl)
    → is_open s ≡ true
    → s.send_entries ≡ i ∷ is
    → await_send_entry now none s ≡ send_front now i s
unfolding await_send_entry await_next await_front
await_send_entry-front now i is s o e = rw o (ap (λ js. await_front now js s) e)

same-is_open :
    (s t : Impl) → s.socket ≡ t.socket → s.socket_ready ≡ t.socket_ready → is_open s ≡ is_open t
unfolding is_open
same-is_open s t p q = cc (p, q)

async_receive-pending :
    (s : Impl) → is_open s ≡ true → (async_receive s).pending ≡ s.pending ++ receive_from ∷ []
unfolding async_receive start
async_receive-pending s o = rw o

-- The deadline that start_actors leaves has not passed.
check_deadline_of-pending :
    (now : Millis) (m : Mode) (s : Impl)
    → is_open s ≡ true
    → s.send_deadline ≡ pos_infin
    → let t = check_deadline_of m now s in
      (t.pending ≡ s.pending ++ deadline_waits m) × (is_open t ≡ true)
unfolding check_deadline_of check_send_deadline start deadline_waits
check_deadline_of-pending now server s o e = (sym (append-nil s.pending), o)
check_deadline_of-pending now client s o e =
    rw (o, ap (λ d. before d now) e) (refl, same-is_open _ s refl refl ∙ o)

watched_pending :
    (now : Millis) (i : ℕ) (m : Mode) (s : Impl)
    → is_open s ≡ true
    → (async_receive (
        check_deadline_of m now
          (record (send_front now i s) { send_deadline = pos_infin }))).pending
      ≡ s.pending
        ++ send_to i (make_buffer (s.heap i)) (s.heap i).destination_endpoint ∷ []
        ++ deadline_waits m
        ++ receive_from ∷ []
unfolding send_front start
watched_pending now i m s o =
    let reset = record (send_front now i s) { send_deadline = pos_infin } in
    let (p, q) = check_deadline_of-pending now m reset (same-is_open reset s refl refl ∙ o) refl in
    async_receive-pending _ q ∙ ap (λ os. os ++ receive_from ∷ []) p

started_pending :
    (now : Millis) (i : ℕ) (is : List ℕ) (s : Impl)
    → is_open s ≡ true
    → s.send_entries ≡ i ∷ is
    → (start_actors now s).pending
      ≡ s.pending
        ++ send_to i (make_buffer (s.heap i)) (s.heap i).destination_endpoint ∷ []
        ++ deadline_waits s.mode
        ++ receive_from ∷ []
unfolding start_actors
started_pending now i is s o e =
    rw (await_send_entry-front now i is s o e) (watched_pending now i s.mode s o)

-- When a socket becomes ready with an entry in the queue, start_actors starts the send of that entry, in
-- client mode the wait for the deadline, and a receive; but the deadline of 5000 milliseconds that
-- await_send_entry has set for the send is taken back: the send has none.
pub start_actors_no_deadline :
    (now : Millis) (i : ℕ) (is : List ℕ) (s : Impl)
    → is_open s ≡ true
    → s.send_entries ≡ i ∷ is
    → ((await_send_entry now none s).send_deadline ≡ at (now + 5000))
      × ((start_actors now s).pending
          ≡ s.pending
            ++ send_to i (make_buffer (s.heap i)) (s.heap i).destination_endpoint ∷ []
            ++ deadline_waits s.mode
            ++ receive_from ∷ [])
      × ((start_actors now s).send_deadline ≡ pos_infin)
unfolding start_actors await_send_entry await_next await_front send_front start
start_actors_no_deadline now i is s o e = (
  ground arith,
  started_pending now i is s o e,
  async_receive-deadline _ ∙ check_deadline_of-deadline s.mode now _,
)
