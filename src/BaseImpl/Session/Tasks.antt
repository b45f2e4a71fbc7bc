-- ===== src/BaseImpl/Session/Tasks.antt =====
-- base_impl.hpp: the closures of `io_ctx_` and the start of the actors, and the order of the sender.
use mathlib.Core.List.{append-nil}
use cpp_local_datagram.Base.{
  ℕ, ◌≡◌, refl, sym, ap, ◌∙◌, Bool, true, false, none, some, List, [], ◌∷◌, ◌++◌, arith,
  if◌then◌else◌,
}
use cpp_local_datagram.BaseImpl.State.{
  Impl, Mode, server, client, Millis, Task, close, Op, send_to, wait_send_invoker,
  wait_send_deadline, receive_from, before, is_open, post, start, signal, Notice, emit,
  clear_timers, next_heartbeat, DeadlineTimer,
}
use cpp_local_datagram.BaseImpl.Socket.{async_close, run_close}
use cpp_local_datagram.BaseImpl.Heartbeat.{run_notice, run_next_heartbeat, run_deadline_exceeded}
use cpp_local_datagram.BaseImpl.Receive.{async_receive}
use cpp_local_datagram.BaseImpl.Send.{
  run_push_entry, check_send_deadline, check_deadline_of, start_actors,
}
use cpp_local_datagram.BaseImpl.Session.{senders}
use cpp_local_datagram.BaseImpl.Session.Sender.{
  front, has_close, Suits, Suits-Quiet, Suits-io_ctx, AtMostOne-map, IsSending, Quiet,
  Quiet-IsSending, has_close-append, await_send_entry-IsSending, senders-append,
}

-- `os` is appended to the operations.
started : (os ps : List Op) → senders ps ≡ [] → senders (os ++ ps) ≡ senders os
started os ps e = senders-append os ps ∙ ap (◌++◌ (senders os)) e ∙ append-nil (senders os)

pub post-Quiet : (t : Task) (s : Impl) → Quiet s (post t s)
unfolding post is_open
post-Quiet t s = record {
  opening = λ o. o;
  entries = refl;
  operations = refl;
  invoker = refl;
  closing = λ _ h. has_close-append s.io_ctx (t ∷ []) h;
}

-- A step that changes neither the socket nor the queue nor the operations of the sender.
pub same-Quiet :
    {s t : Impl}
    → is_open t ≡ is_open s
    → t.send_entries ≡ s.send_entries
    → senders t.pending ≡ senders s.pending
    → t.send_invoker ≡ s.send_invoker
    → t.io_ctx ≡ s.io_ctx
    → Quiet s t
same-Quiet o e p i c = record {
  opening = λ h. sym o ∙ h;
  entries = e;
  operations = p;
  invoker = i;
  closing = λ _ h. ap has_close c ∙ h;
}

pub Quiet-trans : {s t u : Impl} → Quiet s t → Quiet t u → Quiet s u
Quiet-trans p q = record {
  opening = λ o. p.opening (q.opening o);
  entries = q.entries ∙ p.entries;
  operations = q.operations ∙ p.operations;
  invoker = q.invoker ∙ p.invoker;
  closing = λ o h. q.closing o (p.closing (q.opening o) h);
}

if-Quiet : {s t u : Impl} (b : Bool) → Quiet s t → Quiet s u → Quiet s (if b then t else u)
if-Quiet true p q = p
if-Quiet false p q = q

refl-Quiet : (s : Impl) → Quiet s s
refl-Quiet s = same-Quiet refl refl refl refl refl

start-Quiet : (o : Op) (s : Impl) → senders (o ∷ []) ≡ [] → Quiet s (start o s)
unfolding start is_open
start-Quiet o s e = same-Quiet refl refl (started s.pending (o ∷ []) e) refl refl

pub async_receive-Quiet : (s : Impl) → Quiet s (async_receive s)
unfolding async_receive senders
async_receive-Quiet s = if-Quiet (is_open s) (start-Quiet receive_from s refl) (refl-Quiet s)

pub check_send_deadline-Quiet : (now : Millis) (s : Impl) → Quiet s (check_send_deadline now s)
unfolding check_send_deadline async_close senders
check_send_deadline-Quiet now s =
    if-Quiet (is_open s)
      (if-Quiet (before s.send_deadline now) (post-Quiet close s)
        (start-Quiet wait_send_deadline s refl))
      (refl-Quiet s)

check_deadline_of-Quiet : (m : Mode) (now : Millis) (s : Impl) → Quiet s (check_deadline_of m now s)
unfolding check_deadline_of
check_deadline_of-Quiet server now s = refl-Quiet s
check_deadline_of-Quiet client now s = check_send_deadline-Quiet now s

pub run_notice-Quiet : (n : Notice) (s : Impl) → Quiet s (run_notice n s)
unfolding run_notice run_next_heartbeat signal is_open
run_notice-Quiet (emit x) s = same-Quiet refl refl refl refl refl
run_notice-Quiet clear_timers s = same-Quiet refl refl refl refl refl
run_notice-Quiet (next_heartbeat g d p) s =
    same-Quiet (ground arith) (ground arith) (ground arith) (ground arith) (ground arith)

pub run_deadline_exceeded-Quiet :
    (t : DeadlineTimer) (s : Impl) → Quiet s (run_deadline_exceeded t s)
unfolding run_deadline_exceeded signal is_open
run_deadline_exceeded-Quiet t s =
    same-Quiet (ground arith) (ground arith) (ground arith) (ground arith) (ground arith)

front-append : (is js : List ℕ) {i : ℕ} → front is ≡ some i → front (is ++ js) ≡ some i
front-append [] js e = cc
front-append (x ∷ is) js e = e

push_Suits :
    (now : Millis) (i : ℕ) (o : Op) (s : Impl) → Suits o s → Suits o (run_push_entry now i s)
unfolding run_push_entry
push_Suits now i (send_to j b d) s h = front-append s.send_entries (i ∷ []) h
push_Suits now i wait_send_invoker s h = λ e. cc
push_Suits now i _ s h = tt

-- A new entry ends a wait for ever, by the timer's new expiry.
pub run_push_entry-IsSending :
    (now : Millis) (i : ℕ) (s : Impl) → IsSending s → IsSending (run_push_entry now i s)
unfolding run_push_entry is_open
run_push_entry-IsSending now i s h = record {
  at_most_one = AtMostOne-map (λ o. push_Suits now i o s) refl h.at_most_one;
  busy = h.busy;
}

-- What the sender reads of a closed object.
pub record ClosedSender (s t : Impl) : Type 0 where
  pub shut : is_open t ≡ false
  pub entries : t.send_entries ≡ s.send_entries
  pub operations : t.pending ≡ s.pending
  pub invoker : t.send_invoker ≡ s.send_invoker

pub run_close-ClosedSender : (s : Impl) → ClosedSender s (run_close s)
unfolding run_close is_open
run_close-ClosedSender s = ground arith

run_close-Quiet : (s : Impl) → Quiet s (run_close s)
run_close-Quiet s = record {
  opening = λ o. absurd (cc (closed.shut, o));
  entries = closed.entries;
  operations = ap senders closed.operations;
  invoker = closed.invoker;
  closing = λ o _. absurd (cc (closed.shut, o));
}
  where
    closed : ClosedSender s (run_close s)
    closed = run_close-ClosedSender s

-- Taking the close out of the queue is right, since the socket is closed then.
pub runs_close-IsSending :
    (ts : List Task) (s : Impl) → IsSending s → IsSending (run_close (record s { io_ctx = ts }))
runs_close-IsSending ts s h = record {
  at_most_one =
      AtMostOne-map (λ o. Suits-Quiet o quiet) quiet.operations
        (AtMostOne-map (Suits-io_ctx ts s) refl h.at_most_one);
  busy = λ o _. absurd (cc (closed.shut, o));
}
  where
    quiet : Quiet (record s { io_ctx = ts }) (run_close (record s { io_ctx = ts }))
    quiet = run_close-Quiet (record s { io_ctx = ts })

    closed : ClosedSender (record s { io_ctx = ts }) (run_close (record s { io_ctx = ts }))
    closed = run_close-ClosedSender (record s { io_ctx = ts })

pub start_actors-IsSending :
    (now : Millis) (s : Impl) → senders s.pending ≡ [] → IsSending (start_actors now s)
unfolding start_actors is_open
start_actors-IsSending now s alone =
    Quiet-IsSending
      (Quiet-trans (same-Quiet refl refl refl refl refl)
        (Quiet-trans (check_deadline_of-Quiet s.mode now _) (async_receive-Quiet _)))
      (await_send_entry-IsSending now none s alone)
