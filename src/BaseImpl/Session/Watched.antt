-- ===== src/BaseImpl/Session/Watched.antt =====
-- base_impl.hpp, check_send_deadline: the wait for the deadline over the steps of an object.
use cpp_local_datagram.Base.{
  ℕ, ◌≡◌, refl, sym, ap, ◌∙◌, true, false, none, List, [], ◌∷◌, ◌++◌, arith,
}
use cpp_local_datagram.Endpoint.{Endpoint}
use cpp_local_datagram.Memcpy.{ByteOrder}
use cpp_local_datagram.SendEntry.{SendEntry}
use cpp_local_datagram.BaseImpl.State.{
  Impl, Mode, server, client, init, ErrorCode, is_error, Millis, Op, send_to, wait_send_invoker,
  receive_from, is_open, Task, post, start, signal, Notice, emit, clear_timers, next_heartbeat,
  DeadlineTimer,
}
use cpp_local_datagram.BaseImpl.Socket.{run_close, run_reset_work_guard, async_close}
use cpp_local_datagram.BaseImpl.Heartbeat.{run_notice, run_next_heartbeat, run_deadline_exceeded}
use cpp_local_datagram.BaseImpl.Receive.{handle_receive, complete_receive}
use cpp_local_datagram.BaseImpl.Receive.Datagrams.{complete_receive-datagram, handle_receive_error}
use cpp_local_datagram.BaseImpl.Send.{
  async_send, run_push_entry, start_actors, check_deadline_of, check_send_deadline,
}
use cpp_local_datagram.BaseImpl.Send.Entries.{await_send_entry-Kept}
use cpp_local_datagram.BaseImpl.Session.{
  opened, Step, calls_send, calls_close, runs_push, runs_close, runs_reset, opens, sends, wakes,
  checks_deadline, receives, receive_fails, notices, exceeds, Reach, here, next,
}
use cpp_local_datagram.BaseImpl.Session.Sender.{has_close, has_close-posted}
use cpp_local_datagram.BaseImpl.Session.Watching.{
  watches, IsWatched, watches_last, watches_taken, Keeps, Keeps-IsWatched, Keeps-trans, same-Keeps,
  post-Keeps, await-Keeps, async_receive-Keeps, handle_send-Keeps,
}

taken_op-Keeps :
    (earlier later : List Op) (o : Op) (s : Impl)
    → watches (o ∷ []) ≡ false
    → s.pending ≡ earlier ++ o ∷ later
    → Keeps s (record s { pending = earlier ++ later })
unfolding is_open
taken_op-Keeps earlier later o s e p = record {
  mode = refl;
  opening = λ h. h;
  watching = λ h. watches_taken earlier later o e (sym (ap watches p) ∙ h);
  closing = λ h. h;
}

taken_task-Keeps :
    (t : Task) (ts : List Task) (s : Impl)
    → has_close (t ∷ ts) ≡ has_close ts
    → s.io_ctx ≡ t ∷ ts
    → Keeps s (record s { io_ctx = ts })
unfolding is_open
taken_task-Keeps t ts s same e = record {
  mode = refl;
  opening = λ h. h;
  watching = λ h. h;
  closing = λ h. sym same ∙ sym (ap has_close e) ∙ h;
}

run_close_shut : (s : Impl) → is_open (run_close s) ≡ false
unfolding run_close is_open
run_close_shut s = ground arith

run_close-mode : (s : Impl) → (run_close s).mode ≡ s.mode
unfolding run_close
run_close-mode s = ground arith

-- The check itself ends with its next wait, with a posted close, or on a closed socket.
check_send_deadline-IsWatched :
    (now : Millis) (s : Impl) → s.mode ≡ client → IsWatched (check_send_deadline now s)
unfolding check_send_deadline async_close post start is_open
check_send_deadline-IsWatched now s m = record {
  is_client = ground arith;
  watched = λ o. ground (arith, has_close-posted s.io_ctx, watches_last s.pending);
}

check_deadline_of-IsWatched :
    (m : Mode) (now : Millis) (s : Impl)
    → m ≡ client
    → s.mode ≡ client
    → IsWatched (check_deadline_of m now s)
unfolding check_deadline_of
check_deadline_of-IsWatched server now s e m = absurd (cc)
check_deadline_of-IsWatched client now s e m = check_send_deadline-IsWatched now s m

start_actors-IsWatched :
    (now : Millis) (s : Impl) → s.mode ≡ client → IsWatched (start_actors now s)
unfolding start_actors is_open
start_actors-IsWatched now s m =
    Keeps-IsWatched (async_receive-Keeps _)
      (check_deadline_of-IsWatched s.mode now _ m ((await_send_entry-Kept now none s).mode ∙ m))

run_push_entry-Keeps : (now : Millis) (i : ℕ) (s : Impl) → Keeps s (run_push_entry now i s)
unfolding run_push_entry is_open
run_push_entry-Keeps now i s = same-Keeps refl refl refl refl

run_reset_work_guard-Keeps : (s : Impl) → Keeps s (run_reset_work_guard s)
unfolding run_reset_work_guard is_open
run_reset_work_guard-Keeps s = same-Keeps refl refl refl refl

taken_notice-Keeps : (ns : List Notice) (s : Impl) → Keeps s (record s { dispatcher = ns })
unfolding is_open
taken_notice-Keeps ns s = same-Keeps refl refl refl refl

run_notice-Keeps : (n : Notice) (s : Impl) → Keeps s (run_notice n s)
unfolding run_notice run_next_heartbeat signal is_open
run_notice-Keeps (emit x) s = same-Keeps refl refl refl refl
run_notice-Keeps clear_timers s = same-Keeps refl refl refl refl
run_notice-Keeps (next_heartbeat g d p) s =
    same-Keeps (ground arith) (ground arith) (ground arith) (ground arith)

run_deadline_exceeded-Keeps : (t : DeadlineTimer) (s : Impl) → Keeps s (run_deadline_exceeded t s)
unfolding run_deadline_exceeded signal is_open
run_deadline_exceeded-Keeps t s =
    same-Keeps (ground arith) (ground arith) (ground arith) (ground arith)

complete_receive-Keeps :
    (order : ByteOrder) (datagram : List ℕ) (sender : Endpoint) (s : Impl)
    → Keeps s (complete_receive order datagram sender s)
unfolding is_open
complete_receive-Keeps order datagram sender s =
    rw (complete_receive-datagram order datagram sender s)
      (Keeps-trans (same-Keeps refl refl refl refl) (async_receive-Keeps _))

receive_error-Keeps :
    (order : ByteOrder) (c : ErrorCode) (n : ℕ) (s : Impl)
    → is_error c ≡ true
    → Keeps s (handle_receive order c n s)
receive_error-Keeps order c n s failed =
    rw (handle_receive_error order c n s failed) (async_receive-Keeps s)

Step-IsWatched : (order : ByteOrder) {s t : Impl} → Step order s t → IsWatched s → IsWatched t
unfolding watches has_close async_send async_close
Step-IsWatched order {s} (calls_send i) h = Keeps-IsWatched (post-Keeps (Task.push_entry i) s) h
Step-IsWatched order {s} calls_close h = Keeps-IsWatched (post-Keeps Task.close s) h
Step-IsWatched order {s} (runs_push now i ts e) h =
    Keeps-IsWatched
      (Keeps-trans (taken_task-Keeps (Task.push_entry i) ts s refl e)
        (run_push_entry-Keeps now i _))
      h
Step-IsWatched order {s} (runs_close ts e) h = record {
  is_client = run_close-mode (record s { io_ctx = ts }) ∙ h.is_client;
  watched = λ o. absurd (cc (run_close_shut (record s { io_ctx = ts }), o));
}
Step-IsWatched order {s} (runs_reset ts e) h =
    Keeps-IsWatched
      (Keeps-trans (taken_task-Keeps Task.reset_work_guard ts s refl e)
        (run_reset_work_guard-Keeps _))
      h
Step-IsWatched order {s} (opens now socket alone) h =
    start_actors-IsWatched now (opened socket s) h.is_client
Step-IsWatched order {s} (sends now c n i b d earlier later e) h =
    Keeps-IsWatched
      (Keeps-trans (taken_op-Keeps earlier later (send_to i b d) s refl e)
        (handle_send-Keeps now c n i _))
      h
Step-IsWatched order {s} (wakes now earlier later e) h =
    Keeps-IsWatched
      (Keeps-trans (taken_op-Keeps earlier later wait_send_invoker s refl e)
        (await-Keeps now none _))
      h
Step-IsWatched order {s} (checks_deadline now earlier later e) h =
    check_send_deadline-IsWatched now (record s { pending = earlier ++ later }) h.is_client
Step-IsWatched order {s} (receives datagram sender earlier later e) h =
    Keeps-IsWatched
      (Keeps-trans (taken_op-Keeps earlier later receive_from s refl e)
        (complete_receive-Keeps order datagram sender _))
      h
Step-IsWatched order {s} (receive_fails c n earlier later failed e) h =
    Keeps-IsWatched
      (Keeps-trans (taken_op-Keeps earlier later receive_from s refl e)
        (receive_error-Keeps order c n _ failed))
      h
Step-IsWatched order {s} (notices n ns e) h =
    Keeps-IsWatched (Keeps-trans (taken_notice-Keeps ns s) (run_notice-Keeps n _)) h
Step-IsWatched order {s} (exceeds t) h = Keeps-IsWatched (run_deadline_exceeded-Keeps t s) h

pub keep-IsWatched : (order : ByteOrder) {s t : Impl} → IsWatched s → Reach order s t → IsWatched t
keep-IsWatched order h here = h
keep-IsWatched order h (next r st) = Step-IsWatched order st (keep-IsWatched order h r)

pub init-IsWatched :
    (heap : ℕ → SendEntry) (address : ℕ) (is : List ℕ) → IsWatched (init client heap address is)
unfolding init is_open
init-IsWatched heap address is = record { is_client = refl; watched = λ o. cc }
