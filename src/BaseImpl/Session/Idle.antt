-- ===== src/BaseImpl/Session/Idle.antt =====
-- base_impl.hpp: the steps of an object whose socket has not been opened.
use cpp_local_datagram.Base.{
  ◌≡◌, ◌≢◌, refl, sym, ap, ◌∙◌, inl, inr, Bool, true, false, List, [], ◌∷◌, ◌++◌, arith, Bool-cases,
}
use cpp_local_datagram.Memcpy.{ByteOrder}
use cpp_local_datagram.BaseImpl.State.{
  Impl, Notice, push_entry, close, Op, send_to, wait_send_invoker, wait_send_deadline, receive_from,
  is_open, signal, post,
}
use cpp_local_datagram.BaseImpl.Socket.{async_close}
use cpp_local_datagram.BaseImpl.Heartbeat.{run_notice, run_next_heartbeat}
use cpp_local_datagram.BaseImpl.Send.{async_send, run_push_entry}
use cpp_local_datagram.BaseImpl.Send.Queued.{bindings, bindings-append, bindings-eq}
use cpp_local_datagram.BaseImpl.Session.{
  senders, Step, calls_send, calls_close, runs_push, runs_close, runs_reset, opens, sends, wakes,
  checks_deadline, receives, receive_fails, notices, exceeds,
}
use cpp_local_datagram.BaseImpl.Session.Accounts.{Step-Balanced}
use cpp_local_datagram.BaseImpl.Session.Sender.{Quiet, middle_of_none, senders-middle}
use cpp_local_datagram.BaseImpl.Session.Steps.{
  taken_op-Quiet, run_reset_work_guard-Quiet, taken_notice-Quiet, complete_receive-Quiet,
  receive_error-Quiet,
}
use cpp_local_datagram.BaseImpl.Session.Tasks.{
  post-Quiet, Quiet-trans, run_close-ClosedSender, check_send_deadline-Quiet, run_notice-Quiet,
  run_deadline_exceeded-Quiet,
}

-- Does the step open the socket?
abbrev pub is_opening : {order : ByteOrder} {s t : Impl} → Step order s t → Bool
is_opening (opens now socket alone) = true
is_opening _ = false

-- The socket is closed, and no operation of the sender is pending.
pub record Idle (s : Impl) : Type 0 where
  pub shut : is_open s ≡ false
  pub alone : senders s.pending ≡ []

pub Quiet-Idle : {s t : Impl} → Quiet s t → Idle s → Idle t
Quiet-Idle {s} {t} q h = record {
  shut = elim (Bool-cases (is_open t)) [ inl o ↦ absurd (cc (q.opening o, h.shut)) | inr c ↦ c ];
  alone = q.operations ∙ h.alone;
}

none_pending :
    (os ps : List Op) (o : Op) (s : Impl)
    → senders (o ∷ []) ≡ o ∷ []
    → s.pending ≡ os ++ o ∷ ps
    → senders s.pending ≢ []
none_pending os ps o s e p idle =
    middle_of_none (senders os) (senders ps) o
      (sym (ap senders p ∙ senders-middle os ps o e) ∙ idle)

pub Step-Idle :
    (order : ByteOrder) {s t : Impl} (st : Step order s t) → is_opening st ≡ false → Idle s → Idle t
unfolding senders async_send async_close run_push_entry is_open
Step-Idle order {s} (calls_send i) e h = Quiet-Idle (post-Quiet (push_entry i) s) h
Step-Idle order {s} calls_close e h = Quiet-Idle (post-Quiet close s) h
Step-Idle order {s} (runs_push now i ts p) e h = record { shut = h.shut; alone = h.alone }
Step-Idle order {s} (runs_close ts p) e h =
    let closed = run_close-ClosedSender (record s { io_ctx = ts }) in
    record { shut = closed.shut; alone = ap senders closed.operations ∙ h.alone }
Step-Idle order {s} (runs_reset ts p) e h =
    Quiet-Idle (run_reset_work_guard-Quiet _) (record { shut = h.shut; alone = h.alone })
Step-Idle order {s} (opens now socket alone) e h = absurd (cc)
Step-Idle order {s} (sends now c n i b d earlier later p) e h =
    absurd (none_pending earlier later (send_to i b d) s refl p h.alone)
Step-Idle order {s} (wakes now earlier later p) e h =
    absurd (none_pending earlier later wait_send_invoker s refl p h.alone)
Step-Idle order {s} (checks_deadline now earlier later p) e h =
    Quiet-Idle
      (Quiet-trans (taken_op-Quiet earlier later wait_send_deadline s refl p)
        (check_send_deadline-Quiet now _))
      h
Step-Idle order {s} (receives datagram sender earlier later p) e h =
    Quiet-Idle
      (Quiet-trans (taken_op-Quiet earlier later receive_from s refl p)
        (complete_receive-Quiet order datagram sender _))
      h
Step-Idle order {s} (receive_fails c n earlier later failed p) e h =
    Quiet-Idle
      (Quiet-trans (taken_op-Quiet earlier later receive_from s refl p)
        (receive_error-Quiet order c n _ failed))
      h
Step-Idle order {s} (notices n ns p) e h =
    Quiet-Idle (Quiet-trans (taken_notice-Quiet ns s) (run_notice-Quiet n _)) h
Step-Idle order {s} (exceeds t) e h = Quiet-Idle (run_deadline_exceeded-Quiet t s) h

run_notice-io_ctx : (n : Notice) (s : Impl) → (run_notice n s).io_ctx ≡ s.io_ctx
unfolding run_notice run_next_heartbeat signal
run_notice-io_ctx n s = ground arith

-- Only a derived class posts a closure that binds, and takes one out.
pub Step-bindings :
    (order : ByteOrder) {s t : Impl} → Step order s t → bindings t.io_ctx ≡ bindings s.io_ctx
unfolding async_send post run_push_entry bindings
Step-bindings order {s} (calls_send i) = omega (arith, bindings-append s.io_ctx (push_entry i ∷ []))
Step-bindings order {s} (runs_push now i ts p) = sym (ap bindings p)
Step-bindings order {s} (notices n ns p) =
    ap bindings (run_notice-io_ctx n (record s { dispatcher = ns }))
Step-bindings order {s} {t} st = bindings-eq t.io_ctx s.io_ctx (Step-Balanced order st refl).posted
