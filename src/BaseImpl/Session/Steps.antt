-- ===== src/BaseImpl/Session/Steps.antt =====
-- base_impl.hpp: the steps of an object, and the order of its sender.
use cpp_local_datagram.Base.{ℕ, ◌≡◌, refl, sym, ap, ◌∙◌, inl, true, none, List, [], ◌∷◌, ◌++◌}
use cpp_local_datagram.Endpoint.{Endpoint}
use cpp_local_datagram.Memcpy.{ByteOrder}
use cpp_local_datagram.SendEntry.{SendEntry}
use cpp_local_datagram.BaseImpl.State.{
  Impl, init, ErrorCode, is_error, Mode, Task, close, push_entry, reset_work_guard, Op, send_to,
  wait_send_invoker, wait_send_deadline, receive_from, before, is_open, Notice,
}
use cpp_local_datagram.BaseImpl.Socket.{async_close, run_reset_work_guard}
use cpp_local_datagram.BaseImpl.Receive.{handle_receive, complete_receive}
use cpp_local_datagram.BaseImpl.Receive.Datagrams.{complete_receive-datagram, handle_receive_error}
use cpp_local_datagram.BaseImpl.Send.{async_send}
use cpp_local_datagram.BaseImpl.Session.{
  senders, opened, Step, calls_send, calls_close, runs_push, runs_close, runs_reset, opens, sends,
  wakes, checks_deadline, receives, receive_fails, notices, exceeds, Reach, here, next,
}
use cpp_local_datagram.BaseImpl.Session.Sender.{
  has_close, Suits-io_ctx, AtMostOne-map, IsSending, Quiet, Quiet-IsSending, completes_one,
  completes_other, await_send_entry-IsSending,
}
use cpp_local_datagram.BaseImpl.Session.Sending.{handle_send-IsSending}
use cpp_local_datagram.BaseImpl.Session.Tasks.{
  post-Quiet, same-Quiet, Quiet-trans, async_receive-Quiet, check_send_deadline-Quiet,
  run_notice-Quiet, run_deadline_exceeded-Quiet, run_push_entry-IsSending, runs_close-IsSending,
  start_actors-IsSending,
}

-- `ts` or `os` are what is left of a queue when one element has been taken out of it.
pub taken_op-Quiet :
    (before after : List Op) (o : Op) (s : Impl)
    → senders (o ∷ []) ≡ []
    → s.pending ≡ before ++ o ∷ after
    → Quiet s (record s { pending = before ++ after })
unfolding is_open
taken_op-Quiet before after o s e p =
    same-Quiet refl refl (completes_other before after o s e p) refl refl

pub taken_task-IsSending :
    (t : Task) (ts : List Task) (s : Impl)
    → has_close (t ∷ ts) ≡ has_close ts
    → s.io_ctx ≡ t ∷ ts
    → IsSending s
    → IsSending (record s { io_ctx = ts })
unfolding is_open
taken_task-IsSending t ts s same e h = record {
  at_most_one = AtMostOne-map (Suits-io_ctx ts s) refl h.at_most_one;
  busy = λ o idle. sym same ∙ sym (ap has_close e) ∙ h.busy o idle;
}

pub run_reset_work_guard-Quiet : (s : Impl) → Quiet s (run_reset_work_guard s)
unfolding run_reset_work_guard is_open
run_reset_work_guard-Quiet s = same-Quiet refl refl refl refl refl

pub taken_notice-Quiet : (ns : List Notice) (s : Impl) → Quiet s (record s { dispatcher = ns })
unfolding is_open
taken_notice-Quiet ns s = same-Quiet refl refl refl refl refl

pub complete_receive-Quiet :
    (order : ByteOrder) (datagram : List ℕ) (sender : Endpoint) (s : Impl)
    → Quiet s (complete_receive order datagram sender s)
unfolding is_open
complete_receive-Quiet order datagram sender s =
    rw (complete_receive-datagram order datagram sender s)
      (Quiet-trans (same-Quiet refl refl refl refl refl) (async_receive-Quiet _))

pub receive_error-Quiet :
    (order : ByteOrder) (c : ErrorCode) (n : ℕ) (s : Impl)
    → is_error c ≡ true
    → Quiet s (handle_receive order c n s)
receive_error-Quiet order c n s failed =
    rw (handle_receive_error order c n s failed) (async_receive-Quiet s)

-- Whatever happens next, the sender stays in order.
pub Step-IsSending : (order : ByteOrder) {s t : Impl} → Step order s t → IsSending s → IsSending t
unfolding senders has_close async_send async_close
Step-IsSending order {s} (calls_send i) h = Quiet-IsSending (post-Quiet (push_entry i) s) h
Step-IsSending order {s} calls_close h = Quiet-IsSending (post-Quiet close s) h
Step-IsSending order {s} (runs_push now i ts e) h =
    run_push_entry-IsSending now i _ (taken_task-IsSending (push_entry i) ts s refl e h)
Step-IsSending order {s} (runs_close ts e) h = runs_close-IsSending ts s h
Step-IsSending order {s} (runs_reset ts e) h =
    Quiet-IsSending (run_reset_work_guard-Quiet _)
      (taken_task-IsSending reset_work_guard ts s refl e h)
Step-IsSending order {s} (opens now socket alone) h =
    start_actors-IsSending now (opened socket s) alone
Step-IsSending order {s} (sends now c n i b d earlier later e) h =
    handle_send-IsSending now c n i (record s { pending = earlier ++ later })
      (completes_one earlier later (send_to i b d) s refl e h).0
Step-IsSending order {s} (wakes now earlier later e) h =
    await_send_entry-IsSending now none (record s { pending = earlier ++ later })
      (completes_one earlier later wait_send_invoker s refl e h).0
Step-IsSending order {s} (checks_deadline now earlier later e) h =
    Quiet-IsSending
      (Quiet-trans (taken_op-Quiet earlier later wait_send_deadline s refl e)
        (check_send_deadline-Quiet now _))
      h
Step-IsSending order {s} (receives datagram sender earlier later e) h =
    Quiet-IsSending
      (Quiet-trans (taken_op-Quiet earlier later receive_from s refl e)
        (complete_receive-Quiet order datagram sender _))
      h
Step-IsSending order {s} (receive_fails c n earlier later failed e) h =
    Quiet-IsSending
      (Quiet-trans (taken_op-Quiet earlier later receive_from s refl e)
        (receive_error-Quiet order c n _ failed))
      h
Step-IsSending order {s} (notices n ns e) h =
    Quiet-IsSending (Quiet-trans (taken_notice-Quiet ns s) (run_notice-Quiet n _)) h
Step-IsSending order {s} (exceeds t) h = Quiet-IsSending (run_deadline_exceeded-Quiet t s) h

keep-IsSending : (order : ByteOrder) {s t : Impl} → IsSending s → Reach order s t → IsSending t
keep-IsSending order h here = h
keep-IsSending order h (next r st) = Step-IsSending order st (keep-IsSending order h r)

init-IsSending :
    (m : Mode) (heap : ℕ → SendEntry) (address : ℕ) (is : List ℕ)
    → IsSending (init m heap address is)
unfolding init is_open senders
init-IsSending m heap address is = record { at_most_one = inl refl; busy = λ h k. cc }

-- In every state that an object can come to after its constructor, in any order of the steps, at most
-- one operation of its sender is pending; a pending send is that of the front entry of the queue; the
-- wait for the next entry is without end only while the queue is empty; and while the socket is open
-- one operation is pending, unless a close has been posted.
pub Reach-IsSending :
    (order : ByteOrder) (m : Mode) (heap : ℕ → SendEntry) (address : ℕ) (is : List ℕ) (t : Impl)
    → Reach order (init m heap address is) t
    → IsSending t
Reach-IsSending order m heap address is t r =
    keep-IsSending order (init-IsSending m heap address is) r
