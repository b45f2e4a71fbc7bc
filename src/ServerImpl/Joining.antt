-- ===== src/ServerImpl/Joining.antt =====
-- server_impl.hpp: the destructor, which waits for the thread of `io_ctx_`.
use cpp_local_datagram.Base.{
  ℕ, zero, suc, ◌<◌, ◌≡◌, refl, sym, ap, ◌∙◌, inl, inr, ◌⊎◌, Bool, true, false, none, List, [], ◌∷◌,
  arith, subst,
}
use cpp_local_datagram.Memcpy.{ByteOrder}
use cpp_local_datagram.BaseImpl.State.{
  Impl, ErrorCode, server, other, Task, push_entry, bind, connect, send_heartbeat, close,
  check_socket, reset_check_client, reset_work_guard, Op, connect_to, receive_from, send_to,
  wait_send_invoker, wait_send_deadline,
}
use cpp_local_datagram.BaseImpl.Socket.{run_close}
use cpp_local_datagram.BaseImpl.Session.{
  runs_push, runs_close, runs_reset, sends, wakes, checks_deadline, receive_fails,
}
use cpp_local_datagram.BaseImpl.Session.Joining
use cpp_local_datagram.BaseImpl.Session.Joining.{
  is_thread, Falls, Step-Falls, taken_task-Closing, taken_task-work, run_close-Closing,
}
use cpp_local_datagram.BaseImpl.Session.Left.{
  ends, has_reset, serves, is_aborted, all_aborted, &&-left, work, Closing,
}
use cpp_local_datagram.ServerImpl.{ServerImpl, run_reset_check_client, on_base}
use cpp_local_datagram.ServerImpl.Session.{
  ImplStep, steps, binds, check_ticks, checks, check_connects, check_fails, resets_check,
  terminates, taken, check_server-base,
}

-- The steps of the thread of `io_ctx_`. The thread of the dispatcher waits in the destructor.
abbrev pub in_thread : {order : ByteOrder} {k m : ServerImpl} → ImplStep order k m → Bool
in_thread (steps st not_opening none_given) = is_thread st
in_thread (binds now oe be args ts e) = true
in_thread (checks path ts e) = true
in_thread (resets_check ts e) = true
in_thread _ = false

-- Of those, the steps that are certain to come, whatever the peers do: closures, and operations that asio
-- has been told to abort.
abbrev pub is_certain :
    {order : ByteOrder} (k : ServerImpl) {m : ServerImpl} → ImplStep order k m → Bool
is_certain k (steps st not_opening none_given) = Joining.is_certain k.base st
is_certain k (binds now oe be args ts e) = true
is_certain k (checks path ts e) = true
is_certain k (resets_check ts e) = true
is_certain k _ = false

-- Whatever the thread does next, it comes to where io_context::run returns: no closure and no operation
-- is left, nor the work guard. Until then a step of the thread is certain to come.
pub data Returns (order : ByteOrder) : ServerImpl → Type 0 where
  returned :
      (k : ServerImpl)
      → k.base.io_ctx ≡ []
      → k.base.pending ≡ []
      → k.base.work_guard ≡ false
      → Returns order k
  runs :
      (k m : ServerImpl) (st : ImplStep order k m)
      → in_thread st ≡ true
      → is_certain k st ≡ true
      → ((n : ServerImpl) (next : ImplStep order k n) → in_thread next ≡ true → Returns order n)
      → Returns order k

closes-Falls :
    (t : Task) (ts : List Task) (s : Impl)
    → s.io_ctx ≡ t ∷ ts
    → has_reset (t ∷ ts) ≡ has_reset ts
    → Closing server s
    → Falls server s (record s { io_ctx = ts })
closes-Falls t ts s e same h = (taken_task-Closing server t ts s e same h, taken_task-work t ts s e)

ImplStep-Falls :
    (order : ByteOrder) {k m : ServerImpl} (st : ImplStep order k m)
    → in_thread st ≡ true
    → Closing server k.base
    → Falls server k.base m.base
unfolding run_reset_check_client has_reset ends
ImplStep-Falls order (steps st not_opening none_given) thread h =
    Step-Falls server order st thread h
ImplStep-Falls order (binds now oe be args ts e) thread h =
    absurd (cc (sym (ap (ends server) e) ∙ h.tasks))
ImplStep-Falls order {k} (checks path ts e) thread h =
    subst (Falls server k.base) (sym (check_server-base path (taken ts k)))
      (closes-Falls (check_socket path) ts k.base e refl h)
ImplStep-Falls order {k} (resets_check ts e) thread h =
    closes-Falls reset_check_client ts k.base e refl h
ImplStep-Falls order (check_ticks t e) thread h = absurd (cc)
ImplStep-Falls order check_connects thread h = absurd (cc)
ImplStep-Falls order check_fails thread h = absurd (cc)
ImplStep-Falls order terminates thread h = absurd (cc)

-- A step of the thread that is certain to come.
abbrev CanRun : ByteOrder → ServerImpl → Type 0
CanRun order k =
    (m : ServerImpl) × (st : ImplStep order k m) × (in_thread st ≡ true) × (is_certain k st ≡ true)

runs_task :
    (order : ByteOrder) (t : Task) (ts : List Task) (k : ServerImpl)
    → k.base.io_ctx ≡ t ∷ ts
    → ends server (t ∷ ts) ≡ true
    → CanRun order k
unfolding ends
runs_task order reset_work_guard ts k e h = (_, steps (runs_reset ts e) refl refl, refl, refl)
runs_task order close ts k e h = (_, steps (runs_close ts e) refl refl, refl, refl)
runs_task order (push_entry i) ts k e h = (_, steps (runs_push 0 i ts e) refl refl, refl, refl)
runs_task order (connect args) ts k e h = absurd (cc)
runs_task order (bind args) ts k e h = absurd (cc)
runs_task order (send_heartbeat d) ts k e h = absurd (cc)
runs_task order (check_socket path) ts k e h = (_, checks path ts e, refl, refl)
runs_task order reset_check_client ts k e h = (_, resets_check ts e, refl, refl)

-- ECANCELED.
abbrev operation_aborted : ErrorCode
operation_aborted = other 125

runs_operation :
    (order : ByteOrder) (o : Op) (os : List Op) (k : ServerImpl)
    → k.base.pending ≡ o ∷ os
    → serves server (o ∷ os) ≡ true
    → is_aborted k.base.cancelled o ≡ true
    → CanRun order k
unfolding serves
runs_operation order receive_from os k e h a =
    (_, steps (receive_fails operation_aborted 0 [] os refl e) refl refl, refl, a)
runs_operation order (send_to i b d) os k e h a =
    (_, steps (sends 0 operation_aborted 0 i b d [] os e) refl refl, refl, a)
runs_operation order wait_send_invoker os k e h a = (_, steps (wakes 0 [] os e) refl refl, refl, a)
runs_operation order wait_send_deadline os k e h a =
    (_, steps (checks_deadline 0 [] os e) refl refl, refl, a)
runs_operation order (connect_to args) os k e h a = absurd (cc)

-- A closing object either is done or has a step to make.
done_or_runs :
    (order : ByteOrder) (ts : List Task) (os : List Op) (k : ServerImpl)
    → k.base.io_ctx ≡ ts
    → k.base.pending ≡ os
    → Closing server k.base
    → ((k.base.io_ctx ≡ []) × (k.base.pending ≡ []) × (k.base.work_guard ≡ false)) ⊎ CanRun order k
unfolding has_reset all_aborted
done_or_runs order (t ∷ ts) os k e g h =
    inr (runs_task order t ts k e (sym (ap (ends server) e) ∙ h.tasks))
done_or_runs order [] (o ∷ os) k e g h = inr (
    runs_operation order o os k g (sym (ap (serves server) g) ∙ h.operations) (
      &&-left (is_aborted k.base.cancelled o) _
        (sym (ap (all_aborted k.base.cancelled) g) ∙ h.aborted)))
done_or_runs order [] [] k e g h = inl (
  e,
  g,
  elim h.guard [ inl gone ↦ gone | inr waits ↦ absurd (cc (sym (ap has_reset e) ∙ waits)) ],
)

Closing-Returns :
    (order : ByteOrder) (n : ℕ) (k : ServerImpl)
    → work k.base < n
    → Closing server k.base
    → Returns order k
Closing-Returns order zero k few h = absurd (omega (arith, few))
Closing-Returns order (suc n) k few h =
    elim (done_or_runs order k.base.io_ctx k.base.pending k refl refl h) [
      | inl (e, g, w) ↦ returned k e g w
      | inr (m, st, thread, certain) ↦ runs k m st thread certain (λ rest next in_it.
          let (closing, less) = ImplStep-Falls order next in_it h in
          Closing-Returns order n rest (omega (arith, less, few)) closing)
    ]

-- The wait of the destructor for the thread ends. The destructor posts a close and then the reset of the
-- work guard; once the thread has run that close, whatever it does in whatever order, with any result of
-- the operations that are left, it runs out of closures and operations and the work guard is gone, so
-- that io_context::run returns; and until then something is certain to come next, without a peer or a
-- deadline: a closure, or the completion of an operation that the close has aborted. Given that no bind
-- or connect has been posted behind the close, that no connection is being made, and, where the socket
-- was gone before this close, that what is pending had been aborted.
pub close-Returns :
    (order : ByteOrder) (ts : List Task) (k : ServerImpl)
    → ends server ts ≡ true
    → serves server k.base.pending ≡ true
    → (k.base.socket ≡ none → all_aborted k.base.cancelled k.base.pending ≡ true)
    → Returns order (on_base (λ s. run_close (record s { io_ctx = reset_work_guard ∷ ts })) k)
unfolding on_base ends has_reset
close-Returns order ts k e h before =
    Closing-Returns order (suc (work closed)) (on_base (λ s. closed) k) (omega arith)
      (run_close-Closing server ts k.base e h before)
  where
    closed : Impl
    closed = run_close (record k.base { io_ctx = reset_work_guard ∷ ts })
