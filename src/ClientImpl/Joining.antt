-- ===== src/ClientImpl/Joining.antt =====
-- client_impl.hpp: the destructor, which waits for the thread of `io_ctx_`.
use cpp_local_datagram.Base.{
  ℕ, zero, suc, ◌<◌, ◌≡◌, refl, sym, ap, subst, ◌∙◌, inl, inr, ◌⊎◌, Bool, Bool-cases, true, false,
  ◌&&◌, Option, none, List, [], ◌∷◌, arith,
}
use cpp_local_datagram.Memcpy.{ByteOrder}
use cpp_local_datagram.BaseImpl.State.{
  Impl, enqueue_to_dispatcher, client, other, is_error, ErrorCode, Millis, ConnectArgs, Task,
  push_entry, bind, connect, send_heartbeat, close, check_socket, reset_check_client,
  reset_work_guard, Op, receive_from, send_to, wait_send_invoker, wait_send_deadline, connect_to,
  is_open, emit, connect_failed,
}
use cpp_local_datagram.BaseImpl.Socket.{run_close}
use cpp_local_datagram.BaseImpl.Session.{
  runs_push, runs_close, runs_reset, sends, wakes, checks_deadline, receive_fails,
}
use cpp_local_datagram.BaseImpl.Session.Ending.{start_actors-Calm}
use cpp_local_datagram.BaseImpl.Session.Shut.{
  Calm, Calm-refl, Calm-trans, Winds, Calm-Winds, told-Calm,
}
use cpp_local_datagram.BaseImpl.Session.Joining
use cpp_local_datagram.BaseImpl.Session.Joining.{
  is_thread, Falls, Step-Falls, completes-Falls, runs-Falls, run_close-Closing,
}
use cpp_local_datagram.BaseImpl.Session.Left.{
  ends, has_reset, serves, is_aborted, all_aborted, &&-left, work, Closing,
}
use cpp_local_datagram.ClientImpl.{
  ClientImpl, check_server, handle_connect, run_reset_check_client, on_base,
}
use cpp_local_datagram.ClientImpl.Connecting.{connected_base, handle_connect-base}
use cpp_local_datagram.ClientImpl.Session.{
  ImplStep, steps, connects, is_connected, server_ticks, heartbeats, socket_ticks, checks,
  check_connects, check_fails, resets_check, terminates, taken, check_client_socket-base,
}

-- The steps of the thread of `io_ctx_`. The thread of the dispatcher waits in the destructor.
abbrev pub in_thread : {order : ByteOrder} {k m : ClientImpl} → ImplStep order k m → Bool
in_thread (steps st not_opening none_given) = is_thread st
in_thread (connects oe be args ts e) = true
in_thread (is_connected now c peer args earlier later e) = true
in_thread (heartbeats deadline ts e) = true
in_thread (checks path ts e) = true
in_thread (resets_check ts e) = true
in_thread _ = false

-- Of those, the steps that are certain to come, whatever the peers do: closures, and operations that asio
-- has been told to abort.
abbrev pub is_certain :
    {order : ByteOrder} (k : ClientImpl) {m : ClientImpl} → ImplStep order k m → Bool
is_certain k (steps st not_opening none_given) = Joining.is_certain k.base st
is_certain k (connects oe be args ts e) = true
is_certain k (is_connected now c peer args earlier later e) =
    is_error c && k.base.cancelled.of_socket
is_certain k (heartbeats deadline ts e) = true
is_certain k (checks path ts e) = true
is_certain k (resets_check ts e) = true
is_certain k _ = false

-- Whatever the thread does next, it comes to where io_context::run returns: no closure and no operation
-- is left, nor the work guard. Until then a step of the thread is certain to come.
pub data Returns (order : ByteOrder) : ClientImpl → Type 0 where
  returned :
      (k : ClientImpl)
      → k.base.io_ctx ≡ []
      → k.base.pending ≡ []
      → k.base.work_guard ≡ false
      → Returns order k
  runs :
      (k m : ClientImpl) (st : ImplStep order k m)
      → in_thread st ≡ true
      → is_certain k st ≡ true
      → ((n : ClientImpl) (next : ImplStep order k n) → in_thread next ≡ true → Returns order n)
      → Returns order k

-- The handler of a connect operation that was under way when the socket was closed.
connected_base-Calm :
    (peer : Option ℕ) (s : Impl)
    → s.socket ≡ none
    → is_open s ≡ false
    → Calm s (connected_base peer s)
unfolding connected_base is_open enqueue_to_dispatcher
connected_base-Calm peer s gone shut = record {
  opening = ground arith;
  socket = refl;
  pending = refl;
  cancelled = refl;
  work_guard = refl;
  io_ctx = refl;
}

handle_connect-Winds :
    (now : Millis) (c : ErrorCode) (peer : Option ℕ) (args : ConnectArgs) (k : ClientImpl)
    → k.base.socket ≡ none
    → is_open k.base ≡ false
    → Winds k.base (handle_connect now c peer args k).base
unfolding handle_connect
handle_connect-Winds now c peer args k gone shut = elim (Bool-cases (is_error c)) [
  | inl e ↦ rw e (Calm-Winds shut (told-Calm (emit (connect_failed c)) k.base))
  | inr e ↦
      let p = connected_base-Calm peer k.base gone shut in
      subst (Winds k.base) (sym (handle_connect-base now c peer args k e))
        (Calm-Winds shut (Calm-trans p (start_actors-Calm now _ (p.opening ∙ shut))))
]

check_server-base :
    (order : ByteOrder) (deadline : Option Millis) (k : ClientImpl)
    → is_open k.base ≡ false
    → (check_server order deadline k).base ≡ k.base
unfolding check_server
check_server-base order deadline k shut = rw shut

same-Calm : {s t : Impl} → t ≡ s → Calm s t
same-Calm {s} e = subst (Calm s) (sym e) (Calm-refl s)

taken_shut :
    (ts : List Task) (s : Impl) → is_open s ≡ false → is_open (record s { io_ctx = ts }) ≡ false
unfolding is_open
taken_shut ts s shut = shut

ImplStep-Falls :
    (order : ByteOrder) {k m : ClientImpl} (st : ImplStep order k m)
    → in_thread st ≡ true
    → Closing client k.base
    → Falls client k.base m.base
unfolding run_reset_check_client has_reset ends on_base
ImplStep-Falls order (steps st not_opening none_given) thread h =
    Step-Falls client order st thread h
ImplStep-Falls order (connects oe be args ts e) thread h =
    absurd (cc (sym (ap (ends client) e) ∙ h.tasks))
ImplStep-Falls order {k} (is_connected now c peer args earlier later e) thread h =
    completes-Falls client earlier later (connect_to args) k.base _ e
      (λ shut. handle_connect-Winds now c peer args _ h.gone shut) h
ImplStep-Falls order {k} (heartbeats deadline ts e) thread h =
    runs-Falls client (send_heartbeat deadline) ts k.base _ e refl
      (λ _. same-Calm (check_server-base order deadline (taken ts k) (taken_shut ts k.base h.shut)))
      h
ImplStep-Falls order {k} (checks path ts e) thread h =
    runs-Falls client (check_socket path) ts k.base _ e refl
      (λ _. same-Calm (check_client_socket-base path (taken ts k))) h
ImplStep-Falls order {k} (resets_check ts e) thread h =
    runs-Falls client reset_check_client ts k.base _ e refl (λ _. Calm-refl _) h
ImplStep-Falls order (server_ticks t e) thread h = absurd (cc)
ImplStep-Falls order (socket_ticks t e) thread h = absurd (cc)
ImplStep-Falls order check_connects thread h = absurd (cc)
ImplStep-Falls order check_fails thread h = absurd (cc)
ImplStep-Falls order terminates thread h = absurd (cc)

-- A step of the thread that is certain to come.
abbrev CanRun : ByteOrder → ClientImpl → Type 0
CanRun order k =
    (m : ClientImpl) × (st : ImplStep order k m) × (in_thread st ≡ true) × (is_certain k st ≡ true)

runs_task :
    (order : ByteOrder) (t : Task) (ts : List Task) (k : ClientImpl)
    → k.base.io_ctx ≡ t ∷ ts
    → ends client (t ∷ ts) ≡ true
    → CanRun order k
unfolding ends
runs_task order reset_work_guard ts k e h = (_, steps (runs_reset ts e) refl refl, refl, refl)
runs_task order close ts k e h = (_, steps (runs_close ts e) refl refl, refl, refl)
runs_task order (push_entry i) ts k e h = (_, steps (runs_push 0 i ts e) refl refl, refl, refl)
runs_task order (connect args) ts k e h = absurd (cc)
runs_task order (bind args) ts k e h = absurd (cc)
runs_task order (send_heartbeat d) ts k e h = (_, heartbeats d ts e, refl, refl)
runs_task order (check_socket path) ts k e h = (_, checks path ts e, refl, refl)
runs_task order reset_check_client ts k e h = (_, resets_check ts e, refl, refl)

-- ECANCELED.
abbrev operation_aborted : ErrorCode
operation_aborted = other 125

runs_operation :
    (order : ByteOrder) (o : Op) (os : List Op) (k : ClientImpl)
    → k.base.pending ≡ o ∷ os
    → serves client (o ∷ os) ≡ true
    → is_aborted k.base.cancelled o ≡ true
    → CanRun order k
unfolding serves
runs_operation order receive_from os k e h a =
    (_, steps (receive_fails operation_aborted 0 [] os refl e) refl refl, refl, a)
runs_operation order (send_to i b d) os k e h a =
    (_, steps (sends 0 operation_aborted 0 i b d [] os e) refl refl, refl, a)
runs_operation order wait_send_invoker os k e h a = (_, steps (wakes 0 [] os e) refl refl, refl, a)
runs_operation order wait_send_deadline os k e h a =
    (_, steps (checks_deadline 0 [] os e) refl refl, refl, a)
runs_operation order (connect_to args) os k e h a =
    (_, is_connected 0 operation_aborted none args [] os e, refl, a)

-- A closing object either is done or has a step to make.
done_or_runs :
    (order : ByteOrder) (ts : List Task) (os : List Op) (k : ClientImpl)
    → k.base.io_ctx ≡ ts
    → k.base.pending ≡ os
    → Closing client k.base
    → ((k.base.io_ctx ≡ []) × (k.base.pending ≡ []) × (k.base.work_guard ≡ false)) ⊎ CanRun order k
unfolding has_reset all_aborted
done_or_runs order (t ∷ ts) os k e g h =
    inr (runs_task order t ts k e (sym (ap (ends client) e) ∙ h.tasks))
done_or_runs order [] (o ∷ os) k e g h = inr (
    runs_operation order o os k g (sym (ap (serves client) g) ∙ h.operations) (
      &&-left (is_aborted k.base.cancelled o) _
        (sym (ap (all_aborted k.base.cancelled) g) ∙ h.aborted)))
done_or_runs order [] [] k e g h = inl (
  e,
  g,
  elim h.guard [ inl gone ↦ gone | inr waits ↦ absurd (cc (sym (ap has_reset e) ∙ waits)) ],
)

Closing-Returns :
    (order : ByteOrder) (n : ℕ) (k : ClientImpl)
    → work k.base < n
    → Closing client k.base
    → Returns order k
Closing-Returns order zero k few h = absurd (omega (arith, few))
Closing-Returns order (suc n) k few h =
    elim (done_or_runs order k.base.io_ctx k.base.pending k refl refl h) [
      | inl (e, g, w) ↦ returned k e g w
      | inr (m, st, thread, certain) ↦ runs k m st thread certain (λ rest next in_it.
          let (closing, less) = ImplStep-Falls order next in_it h in
          Closing-Returns order n rest (omega (arith, less, few)) closing)
    ]

all_serve : (os : List Op) → serves client os ≡ true
unfolding serves
all_serve [] = refl
all_serve (receive_from ∷ os) = all_serve os
all_serve (send_to i b d ∷ os) = all_serve os
all_serve (wait_send_invoker ∷ os) = all_serve os
all_serve (wait_send_deadline ∷ os) = all_serve os
all_serve (connect_to args ∷ os) = all_serve os

-- The wait of the destructor for the thread ends, even when a connection is being made. The destructor
-- posts a close and then the reset of the work guard; once the thread has run that close, whatever it
-- does in whatever order, heartbeats and the end of a connect operation included, with any result of the
-- operations that are left, it runs out of closures and operations and the work guard is gone, so that
-- io_context::run returns; and until then something is certain to come next, without a peer or a
-- deadline: a closure, or the completion of an operation that the close has aborted. Given that no bind
-- or connect has been posted behind the close and, where the socket was gone before this close, that
-- what is pending had been aborted.
pub join-Returns :
    (order : ByteOrder) (ts : List Task) (k : ClientImpl)
    → ends client ts ≡ true
    → (k.base.socket ≡ none → all_aborted k.base.cancelled k.base.pending ≡ true)
    → Returns order (on_base (λ s. run_close (record s { io_ctx = reset_work_guard ∷ ts })) k)
unfolding on_base ends has_reset
join-Returns order ts k e before =
    Closing-Returns order (suc (work closed)) (on_base (λ s. closed) k) (omega arith)
      (run_close-Closing client ts k.base e (all_serve k.base.pending) before)
  where
    closed : Impl
    closed = run_close (record k.base { io_ctx = reset_work_guard ∷ ts })
