-- ===== src/BaseImpl/Session/Accounts.antt =====
-- base_impl.hpp: the steps of an object, and where each callback is.
use cpp_local_datagram.Base.{
  ℕ, ◌≡◌, refl, sym, ap, subst, none, Bool, true, false, List, [], ◌∷◌, ◌++◌, arith,
}
use cpp_local_datagram.Memcpy.{ByteOrder}
use cpp_local_datagram.BaseImpl.State.{
  Impl, warning_reported, bound, bind_failed, connected, connect_failed, received, closed,
  error_occurred, Millis, Notice, emit, clear_timers, next_heartbeat, Signal, processed, Task,
  push_entry, close, signal, post, next_heartbeat_deadline_exceeded,
}
use cpp_local_datagram.BaseImpl.Socket.{run_reset_work_guard, async_close}
use cpp_local_datagram.BaseImpl.Heartbeat.{run_notice}
use cpp_local_datagram.BaseImpl.Send.{async_send, run_push_entry}
use cpp_local_datagram.BaseImpl.Send.Queued.{
  count, count-append, count_last, Below, Below-append, pushing, pushing-append, lasting,
  processed_of, processed_of-append,
}
use cpp_local_datagram.BaseImpl.Send.Callbacks.{
  Balanced, Balanced-of_eq, Balanced-trans, post-Balanced, await-Balanced, handle_send-Balanced,
}
use cpp_local_datagram.BaseImpl.Send.Waiting.{called, waiting, waiting-append}
use cpp_local_datagram.BaseImpl.Session.{
  Step, calls_send, calls_close, runs_push, runs_close, runs_reset, opens, sends, wakes,
  checks_deadline, receives, receive_fails, notices, exceeds,
}
use cpp_local_datagram.BaseImpl.Session.Balances.{
  account, given, Settled, Balanced-Settled, run_close-Balanced, check_send_deadline-Balanced,
  start_actors-Balanced, complete_receive-Balanced, receive_error-Balanced,
  run_deadline_exceeded-Balanced, pending-Balanced, opened-Balanced, tasks-Balanced,
  silent-Balanced, signal-Balanced, run_next_heartbeat-Balanced,
}

emitted-Settled :
    (x : Signal) (ns : List Notice) (s : Impl)
    → processed_of (x ∷ []) ≡ []
    → called (emit x ∷ ns) ≡ called ns
    → s.dispatcher ≡ emit x ∷ ns
    → Settled [] s (signal x (record s { dispatcher = ns }))
emitted-Settled x ns s quiet silent e =
    Balanced-Settled
      (Balanced-trans (silent-Balanced (emit x) ns s silent e) (signal-Balanced x _ quiet))

run_notice-Settled :
    (n : Notice) (ns : List Notice) (s : Impl)
    → s.dispatcher ≡ n ∷ ns
    → Settled [] s (run_notice n (record s { dispatcher = ns }))
unfolding run_notice signal processed_of called account waiting count
run_notice-Settled (emit (processed f)) ns s e = record {
  callbacks = λ js. refl;
  address = refl;
  accounts = λ g. omega (
    arith,
    ap (count g) (processed_of-append s.signals (processed f ∷ [])),
    count_last g f (processed_of s.signals),
    ap (λ ms. count g (called ms)) e,
  );
  queue = λ n _ q _. q;
  pushed = λ n _ p. p;
}
run_notice-Settled (emit (warning_reported w)) ns s e =
    emitted-Settled (warning_reported w) ns s refl refl e
run_notice-Settled (emit bound) ns s e = emitted-Settled bound ns s refl refl e
run_notice-Settled (emit (bind_failed c)) ns s e = emitted-Settled (bind_failed c) ns s refl refl e
run_notice-Settled (emit (connected q)) ns s e = emitted-Settled (connected q) ns s refl refl e
run_notice-Settled (emit (connect_failed c)) ns s e =
    emitted-Settled (connect_failed c) ns s refl refl e
run_notice-Settled (emit (received v p)) ns s e = emitted-Settled (received v p) ns s refl refl e
run_notice-Settled (emit closed) ns s e = emitted-Settled closed ns s refl refl e
run_notice-Settled (emit (next_heartbeat_deadline_exceeded p)) ns s e =
    emitted-Settled (next_heartbeat_deadline_exceeded p) ns s refl refl e
run_notice-Settled (emit (error_occurred c)) ns s e =
    emitted-Settled (error_occurred c) ns s refl refl e
run_notice-Settled clear_timers ns s e = Balanced-Settled (
    Balanced-trans (silent-Balanced clear_timers ns s refl e) (
      Balanced-trans (Balanced-of_eq refl refl refl refl refl refl)
        (signal-Balanced closed _ refl)))
run_notice-Settled (next_heartbeat g d p) ns s e = Balanced-Settled (
    Balanced-trans (silent-Balanced (next_heartbeat g d p) ns s refl e)
      (run_next_heartbeat-Balanced g d p _))

run_push_entry-Settled :
    (now : Millis) (i : ℕ) (ts : List Task) (s : Impl)
    → s.io_ctx ≡ push_entry i ∷ ts
    → Settled [] s (run_push_entry now i (record s { io_ctx = ts }))
unfolding run_push_entry pushing waiting count account Below
run_push_entry-Settled now i ts s e = record {
  callbacks = λ js. refl;
  address = refl;
  accounts = λ f. omega (
    arith,
    ap (count f) (waiting-append s.heap s.send_entries (i ∷ [])),
    count-append f (waiting s.heap s.send_entries) (waiting s.heap (i ∷ [])),
    ap (λ us. count f (waiting s.heap (pushing us))) e,
    ap (count f) (waiting-append s.heap (i ∷ []) (pushing ts)),
    count-append f (waiting s.heap (i ∷ [])) (waiting s.heap (pushing ts)),
  );
  queue = λ n _ q p.
      Below-append n s.send_entries (i ∷ []) q ((subst (Below n) (ap pushing e) p).0, tt);
  pushed = λ n _ p. (subst (Below n) (ap pushing e) p).1;
}

-- Steps that neither are given an entry nor push one nor run a closure of the dispatcher.
abbrev pub is_plain : {order : ByteOrder} {s t : Impl} → Step order s t → Bool
is_plain (calls_send i) = false
is_plain (runs_push now i ts e) = false
is_plain (notices n ns e) = false
is_plain _ = true

pub Step-Balanced :
    (order : ByteOrder) {s t : Impl} (st : Step order s t) → is_plain st ≡ true → Balanced s t
unfolding async_close run_reset_work_guard lasting
Step-Balanced order {s} (calls_send i) plain = absurd (cc)
Step-Balanced order {s} (runs_push now i ts e) plain = absurd (cc)
Step-Balanced order {s} (notices n ns e) plain = absurd (cc)
Step-Balanced order {s} calls_close plain = post-Balanced close s refl
Step-Balanced order {s} (runs_close ts e) plain =
    Balanced-trans (tasks-Balanced ts s (sym (ap lasting e))) (run_close-Balanced _)
Step-Balanced order {s} (runs_reset ts e) plain =
    Balanced-trans (tasks-Balanced ts s (sym (ap lasting e)))
      (Balanced-of_eq refl refl refl refl refl refl)
Step-Balanced order {s} (opens now socket alone) plain =
    Balanced-trans (opened-Balanced socket s) (start_actors-Balanced now _)
Step-Balanced order {s} (sends now c n i b d earlier later e) plain =
    Balanced-trans (pending-Balanced (earlier ++ later) s) (handle_send-Balanced now c n i _)
Step-Balanced order {s} (wakes now earlier later e) plain =
    Balanced-trans (pending-Balanced (earlier ++ later) s) (await-Balanced now none _)
Step-Balanced order {s} (checks_deadline now earlier later e) plain =
    Balanced-trans (pending-Balanced (earlier ++ later) s) (check_send_deadline-Balanced now _)
Step-Balanced order {s} (receives datagram sender earlier later e) plain =
    Balanced-trans (pending-Balanced (earlier ++ later) s)
      (complete_receive-Balanced order datagram sender _)
Step-Balanced order {s} (receive_fails c n earlier later failed e) plain =
    Balanced-trans (pending-Balanced (earlier ++ later) s)
      (receive_error-Balanced order c n _ failed)
Step-Balanced order {s} (exceeds t) plain = run_deadline_exceeded-Balanced t s

pub Step-Settled : (order : ByteOrder) {s t : Impl} (st : Step order s t) → Settled (given st) s t
unfolding async_send async_close post run_reset_work_guard pushing lasting waiting count account
Step-Settled order {s} (calls_send i) = record {
  callbacks = λ js. refl;
  address = refl;
  accounts = λ f. omega (
    arith,
    ap (λ js. count f (waiting s.heap js)) (pushing-append s.io_ctx (push_entry i ∷ [])),
    ap (count f) (waiting-append s.heap (pushing s.io_ctx) (i ∷ [])),
    count-append f (waiting s.heap (pushing s.io_ctx)) (waiting s.heap (i ∷ [])),
  );
  queue = λ n _ q _. q;
  pushed = λ n b p.
      subst (Below n) (sym (pushing-append s.io_ctx (push_entry i ∷ [])))
        (Below-append n (pushing s.io_ctx) (i ∷ []) p b);
}
Step-Settled order {s} (runs_push now i ts e) = run_push_entry-Settled now i ts s e
Step-Settled order {s} (notices n ns e) = run_notice-Settled n ns s e
Step-Settled order st = Balanced-Settled (Step-Balanced order st refl)
