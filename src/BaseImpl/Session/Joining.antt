-- ===== src/BaseImpl/Session/Joining.antt =====
-- base_impl.hpp: the steps of the thread of `io_ctx_`, and how much is left for it to do.
use cpp_local_datagram.Base.{
  ◌+◌, ◌<◌, ◌≤◌, ◌≡◌, refl, sym, ap, ◌∙◌, inl, inr, Bool, true, false, ◌&&◌, Option, none, some,
  List, [], ◌∷◌, ◌++◌, arith, length, length-append,
}
use cpp_local_datagram.Memcpy.{ByteOrder}
use cpp_local_datagram.BaseImpl.State.{
  Impl, Mode, Task, push_entry, close, reset_work_guard, Op, is_error, Socket, receive_from,
  send_to, wait_send_invoker, wait_send_deadline, is_open,
}
use cpp_local_datagram.BaseImpl.Socket.{run_reset_work_guard, run_close}
use cpp_local_datagram.BaseImpl.Session.{
  Step, calls_send, calls_close, runs_push, runs_close, runs_reset, opens, sends, wakes,
  checks_deadline, receives, receive_fails, notices, exceeds,
}
use cpp_local_datagram.BaseImpl.Session.Ending.{
  handle_receive-Winds, complete_receive-Winds, run_close-Calm, run_push_entry-Calm,
}
use cpp_local_datagram.BaseImpl.Session.Shut.{
  Calm, Winds, Calm-Winds, await_send_entry-Winds, handle_send-Winds, check_send_deadline-Winds,
}
use cpp_local_datagram.BaseImpl.Session.Left.{
  ends, has_reset, serves, work, Closing, ends_tail, ends_posted, has_reset_posted, serves_taken,
  all_aborted, all_aborted_taken, cancelled_all_aborted,
}

-- The steps of the thread, where no socket is opened.
abbrev pub is_thread : {order : ByteOrder} {s t : Impl} → Step order s t → Bool
is_thread (runs_push now i ts e) = true
is_thread (runs_close ts e) = true
is_thread (runs_reset ts e) = true
is_thread (sends now c n i b d earlier later e) = true
is_thread (wakes now earlier later e) = true
is_thread (checks_deadline now earlier later e) = true
is_thread (receives datagram sender earlier later e) = true
is_thread (receive_fails c n earlier later failed e) = true
is_thread _ = false

-- The steps that are certain to come, whatever the peers do: a closure runs when the thread comes to it,
-- and an operation that asio has been told to abort completes, with an error if it reports one.
abbrev pub is_certain : {order : ByteOrder} (s : Impl) {t : Impl} → Step order s t → Bool
is_certain s (runs_push now i ts e) = true
is_certain s (runs_close ts e) = true
is_certain s (runs_reset ts e) = true
is_certain s (sends now c n i b d earlier later e) = is_error c && s.cancelled.of_socket
is_certain s (wakes now earlier later e) = s.cancelled.of_send_invoker
is_certain s (checks_deadline now earlier later e) = s.cancelled.of_send_deadline
is_certain s (receive_fails c n earlier later failed e) = s.cancelled.of_socket
is_certain s _ = false

-- An operation is taken out.
taken_op-Closing :
    (m : Mode) (os ps : List Op) (o : Op) (s : Impl)
    → s.pending ≡ os ++ o ∷ ps
    → Closing m s
    → Closing m (record s { pending = os ++ ps })
unfolding is_open
taken_op-Closing m os ps o s e h = record {
  gone = h.gone;
  shut = h.shut;
  tasks = h.tasks;
  operations = serves_taken m os ps o (sym (ap (serves m) e) ∙ h.operations);
  aborted =
      all_aborted_taken s.cancelled os ps o (sym (ap (all_aborted s.cancelled) e) ∙ h.aborted);
  guard = h.guard;
}

taken_op-work :
    (os ps : List Op) (o : Op) (s : Impl)
    → s.pending ≡ os ++ o ∷ ps
    → work s ≡ work (record s { pending = os ++ ps }) + 2
unfolding work
taken_op-work os ps o s e =
    omega (arith, ap length e, length-append os (o ∷ ps), length-append os ps)

Winds-Closing : (m : Mode) {s t : Impl} → Winds s t → Closing m s → Closing m t
Winds-Closing m {s} {t} w h = record {
  gone = w.socket ∙ h.gone;
  shut = w.shut;
  tasks = elim w.io_ctx [
    | inl e ↦ ap (ends m) e ∙ h.tasks
    | inr e ↦ ap (ends m) e ∙ ends_posted m s.io_ctx h.tasks
  ];
  operations = ap (serves m) w.pending ∙ h.operations;
  aborted =
      ap (λ c. all_aborted c t.pending) w.cancelled
      ∙ ap (all_aborted s.cancelled) w.pending
      ∙ h.aborted;
  guard = elim h.guard [
    | inl g ↦ inl (w.work_guard ∙ g)
    | inr r ↦ inr (elim w.io_ctx [
      | inl e ↦ ap has_reset e ∙ r
      | inr e ↦ ap has_reset e ∙ has_reset_posted s.io_ctx r
    ])
  ];
}

Winds-work : {s t : Impl} → Winds s t → work t ≤ work s + 1
unfolding work
Winds-work {s} {t} w = elim w.io_ctx [
  | inl e ↦ omega (arith, ap length e, ap length w.pending)
  | inr e ↦ omega (arith, ap length e, ap length w.pending, length-append s.io_ctx (close ∷ []))
]

-- A closure is taken out, or the work guard is reset.
pub taken_task-Closing :
    (m : Mode) (t : Task) (ts : List Task) (s : Impl)
    → s.io_ctx ≡ t ∷ ts
    → has_reset (t ∷ ts) ≡ has_reset ts
    → Closing m s
    → Closing m (record s { io_ctx = ts })
unfolding is_open
taken_task-Closing m t ts s e same h = record {
  gone = h.gone;
  shut = h.shut;
  tasks = ends_tail m t ts (sym (ap (ends m) e) ∙ h.tasks);
  operations = h.operations;
  aborted = h.aborted;
  guard = elim h.guard [ inl g ↦ inl g | inr r ↦ inr (sym same ∙ sym (ap has_reset e) ∙ r) ];
}

run_reset-Closing :
    (m : Mode) (ts : List Task) (s : Impl)
    → s.io_ctx ≡ reset_work_guard ∷ ts
    → Closing m s
    → Closing m (run_reset_work_guard (record s { io_ctx = ts }))
unfolding run_reset_work_guard is_open
run_reset-Closing m ts s e h = record {
  gone = h.gone;
  shut = h.shut;
  tasks = ends_tail m reset_work_guard ts (sym (ap (ends m) e) ∙ h.tasks);
  operations = h.operations;
  aborted = h.aborted;
  guard = inl refl;
}

pub taken_task-work :
    (t : Task) (ts : List Task) (s : Impl)
    → s.io_ctx ≡ t ∷ ts
    → work (record s { io_ctx = ts }) < work s
unfolding work
taken_task-work t ts s e = omega (arith, ap length e)

-- What each step of the thread does to what is left.
abbrev pub Falls : Mode → Impl → Impl → Type 0
Falls m s t = Closing m t × (work t < work s)

pub completes-Falls :
    (m : Mode) (os ps : List Op) (o : Op) (s t : Impl)
    → s.pending ≡ os ++ o ∷ ps
    → (is_open (record s { pending = os ++ ps }) ≡ false
        → Winds (record s { pending = os ++ ps }) t)
    → Closing m s
    → Falls m s t
completes-Falls m os ps o s t e wind h =
    let rest = taken_op-Closing m os ps o s e h in
    let w = wind rest.shut in
    (Winds-Closing m w rest, omega (arith, Winds-work w, taken_op-work os ps o s e))

pub runs-Falls :
    (m : Mode) (u : Task) (ts : List Task) (s t : Impl)
    → s.io_ctx ≡ u ∷ ts
    → has_reset (u ∷ ts) ≡ has_reset ts
    → ((record s { io_ctx = ts }).socket ≡ none → Calm (record s { io_ctx = ts }) t)
    → Closing m s
    → Falls m s t
unfolding work
runs-Falls m u ts s t e same calm h =
    let rest = taken_task-Closing m u ts s e same h in
    let c = calm rest.gone in
    (
      Winds-Closing m (Calm-Winds rest.shut c) rest,
      omega (arith, taken_task-work u ts s e, ap length c.pending, ap length c.io_ctx),
    )

pub Step-Falls :
    (m : Mode) (order : ByteOrder) {s t : Impl} (st : Step order s t)
    → is_thread st ≡ true
    → Closing m s
    → Falls m s t
unfolding has_reset run_reset_work_guard work
Step-Falls m order {s} (runs_push now i ts e) thread h =
    runs-Falls m (push_entry i) ts s _ e refl (λ _. run_push_entry-Calm now i _) h
Step-Falls m order {s} (runs_close ts e) thread h =
    runs-Falls m close ts s _ e refl (λ gone. run_close-Calm _ gone) h
Step-Falls m order {s} (runs_reset ts e) thread h =
    (run_reset-Closing m ts s e h, taken_task-work reset_work_guard ts s e)
Step-Falls m order {s} (sends now c n i b d earlier later e) thread h =
    completes-Falls m earlier later (send_to i b d) s _ e (λ o. handle_send-Winds now c n i _ o) h
Step-Falls m order {s} (wakes now earlier later e) thread h =
    completes-Falls m earlier later wait_send_invoker s _ e
      (λ o. await_send_entry-Winds now none _ o) h
Step-Falls m order {s} (checks_deadline now earlier later e) thread h =
    completes-Falls m earlier later wait_send_deadline s _ e
      (λ o. check_send_deadline-Winds now _ o) h
Step-Falls m order {s} (receives datagram sender earlier later e) thread h =
    completes-Falls m earlier later receive_from s _ e
      (λ o. complete_receive-Winds order datagram sender _ o) h
Step-Falls m order {s} (receive_fails c n earlier later failed e) thread h =
    completes-Falls m earlier later receive_from s _ e (λ o. handle_receive-Winds order c n _ o) h
Step-Falls m order (calls_send i) thread h = absurd (cc)
Step-Falls m order calls_close thread h = absurd (cc)
Step-Falls m order (opens now socket alone) thread h = absurd (cc)
Step-Falls m order (notices n ns e) thread h = absurd (cc)
Step-Falls m order (exceeds t) thread h = absurd (cc)

-- The close that a destructor posts, with the reset of the work guard behind it.
run_close-rest :
    (s : Impl)
    → let t = run_close s in
      (t.socket ≡ none) × (is_open t ≡ false) × (t.io_ctx ≡ s.io_ctx) × (t.pending ≡ s.pending)
unfolding run_close is_open
run_close-rest s = ground arith

-- The close aborts what is pending on the socket and both timers. When no socket is left to close, that
-- has been done before.
run_close-aborted :
    (socket : Option Socket) (s : Impl)
    → (socket ≡ none → all_aborted s.cancelled s.pending ≡ true)
    → all_aborted (run_close (record s { socket = socket })).cancelled s.pending ≡ true
unfolding run_close
run_close-aborted none s before = before refl
run_close-aborted (some x) s before =
    cancelled_all_aborted _ s.pending (ground arith) (ground arith) (ground arith)

pub run_close-Closing :
    (m : Mode) (ts : List Task) (s : Impl)
    → ends m ts ≡ true
    → serves m s.pending ≡ true
    → (s.socket ≡ none → all_aborted s.cancelled s.pending ≡ true)
    → Closing m (run_close (record s { io_ctx = reset_work_guard ∷ ts }))
unfolding ends has_reset
run_close-Closing m ts s e h before =
    let posted = record s { io_ctx = reset_work_guard ∷ ts } in
    let (gone, shut, tasks, operations) = run_close-rest posted in
    record {
      gone = gone;
      shut = shut;
      tasks = ap (ends m) tasks ∙ e;
      operations = ap (serves m) operations ∙ h;
      aborted =
          ap (all_aborted (run_close posted).cancelled) operations
          ∙ run_close-aborted s.socket posted before;
      guard = inr (ap has_reset tasks);
    }
