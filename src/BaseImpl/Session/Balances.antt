-- ===== src/BaseImpl/Session/Balances.antt =====
-- base_impl.hpp: the steps of an object that call nothing and queue nothing.
use mathlib.Core.List.{append-nil}
use cpp_local_datagram.Base.{
  ℕ, ◌+◌, ◌≡◌, refl, sym, ap, subst, ◌∙◌, true, none, List, [], ◌∷◌, ◌++◌, arith, ◌==◌,
}
use cpp_local_datagram.Endpoint.{Endpoint}
use cpp_local_datagram.Memcpy.{ByteOrder}
use cpp_local_datagram.BaseImpl.State.{
  Impl, before, Op, Mode, server, client, Socket, ErrorCode, is_error, Millis, Notice, clear_timers,
  Signal, Task, close, DeadlineTimer, is_open, start, signal, next_heartbeat_deadline_exceeded,
}
use cpp_local_datagram.BaseImpl.Socket.{run_close, async_close}
use cpp_local_datagram.BaseImpl.Heartbeat.{run_next_heartbeat, run_deadline_exceeded}
use cpp_local_datagram.BaseImpl.Receive.{async_receive, handle_receive, complete_receive}
use cpp_local_datagram.BaseImpl.Receive.Datagrams.{
  datagram_notices-called, complete_receive-datagram, handle_receive_error,
}
use cpp_local_datagram.BaseImpl.Send.{check_send_deadline, check_deadline_of, start_actors}
use cpp_local_datagram.BaseImpl.Send.Queued.{
  count, count-append, Below, pushing, pushing-eq, lasting, processed_of, processed_of-append,
}
use cpp_local_datagram.BaseImpl.Send.Callbacks.{
  Balanced, Balanced-of_eq, Balanced-refl, Balanced-trans, if-Balanced, post-Balanced,
  await-Balanced,
}
use cpp_local_datagram.BaseImpl.Send.Waiting.{called, called-append, waiting, ledger}
use cpp_local_datagram.BaseImpl.Session.{opened, Step, calls_send}

-- How often `f` has been called, is to be called by the dispatcher, or waits with an entry: in the
-- queue, or in a closure of `io_ctx_`.
unfoldable pub account : ℕ → Impl → ℕ
account f s =
    count f (processed_of s.signals)
    + count f (called s.dispatcher)
    + count f (waiting s.heap s.send_entries)
    + count f (waiting s.heap (pushing s.io_ctx))

-- The entries that a step is given.
abbrev pub given : {order : ByteOrder} {s t : Impl} → Step order s t → List ℕ
given (calls_send i) = i ∷ []
given _ = []

-- What a step that is given the entries `is` does to the accounts.
pub record Settled (is : List ℕ) (s t : Impl) : Type 0 where
  pub callbacks : (js : List ℕ) → waiting t.heap js ≡ waiting s.heap js
  pub address : t.next_address ≡ s.next_address
  pub accounts : (f : ℕ) → account f t ≡ account f s + count f (waiting s.heap is)
  pub queue :
      (n : ℕ)
      → Below n is
      → Below n s.send_entries
      → Below n (pushing s.io_ctx)
      → Below n t.send_entries
  pub pushed : (n : ℕ) → Below n is → Below n (pushing s.io_ctx) → Below n (pushing t.io_ctx)

count-ledger :
    (f : ℕ) (s : Impl)
    → count f (ledger s) ≡ count f (called s.dispatcher) + count f (waiting s.heap s.send_entries)
unfolding ledger
count-ledger f s = count-append f (called s.dispatcher) (waiting s.heap s.send_entries)

pub Balanced-Settled : {s t : Impl} → Balanced s t → Settled [] s t
unfolding account waiting count
Balanced-Settled {s} {t} b = record {
  callbacks = b.callbacks;
  address = b.address;
  accounts = λ f. omega (
    arith,
    sym (count-ledger f t) ∙ ap (count f) b.balance ∙ count-ledger f s,
    ap (count f) b.signalled,
    ap (count f) (
        ap (waiting t.heap) (pushing-eq t.io_ctx s.io_ctx b.posted)
        ∙ b.callbacks (pushing s.io_ctx)),
  );
  queue = λ n _ q _. b.queue n q;
  pushed = λ n _ p. subst (Below n) (sym (pushing-eq t.io_ctx s.io_ctx b.posted)) p;
}

-- A closure that pushes nothing has been taken out.
pub tasks-Settled :
    (ts : List Task) (s : Impl)
    → pushing ts ≡ pushing s.io_ctx
    → Settled [] s (record s { io_ctx = ts })
unfolding account waiting count
tasks-Settled ts s e = record {
  callbacks = λ js. refl;
  address = refl;
  accounts = λ f. omega (arith, ap (λ is. count f (waiting s.heap is)) e);
  queue = λ n _ q _. q;
  pushed = λ n _ p. subst (Below n) (sym e) p;
}

pub Settled-Balanced : {is : List ℕ} {s t u : Impl} → Settled is s t → Balanced t u → Settled is s u
unfolding waiting count Below
Settled-Balanced {is} {s} {t} {u} p b =
    let q = Balanced-Settled b in
    record {
      callbacks = λ js. q.callbacks js ∙ p.callbacks js;
      address = q.address ∙ p.address;
      accounts = λ f. omega (arith, p.accounts f, q.accounts f);
      queue = λ n a h k. q.queue n tt (p.queue n a h k) (p.pushed n a k);
      pushed = λ n a k. q.pushed n tt (p.pushed n a k);
    }

async_receive-Balanced : (s : Impl) → Balanced s (async_receive s)
unfolding async_receive start
async_receive-Balanced s =
    if-Balanced (is_open s) (Balanced-of_eq refl refl refl refl refl refl) (Balanced-refl s)

pub run_close-Balanced : (s : Impl) → Balanced s (run_close s)
unfolding run_close called
run_close-Balanced s =
    Balanced-of_eq (ground arith) (ground arith)
      (ground
        (arith, called-append s.dispatcher (clear_timers ∷ []), append-nil (called s.dispatcher)))
      (ground arith) (ground arith) (ground arith)

pub check_send_deadline-Balanced :
    (now : Millis) (s : Impl) → Balanced s (check_send_deadline now s)
unfolding check_send_deadline start async_close lasting
check_send_deadline-Balanced now s =
    if-Balanced (is_open s)
      (if-Balanced (before s.send_deadline now) (post-Balanced close s refl)
        (Balanced-of_eq refl refl refl refl refl refl))
      (Balanced-refl s)

check_deadline_of-Balanced :
    (m : Mode) (now : Millis) (s : Impl) → Balanced s (check_deadline_of m now s)
unfolding check_deadline_of
check_deadline_of-Balanced server now s = Balanced-refl s
check_deadline_of-Balanced client now s = check_send_deadline-Balanced now s

pub start_actors-Balanced : (now : Millis) (s : Impl) → Balanced s (start_actors now s)
unfolding start_actors
start_actors-Balanced now s = Balanced-trans (await-Balanced now none s) (
    Balanced-trans (Balanced-of_eq refl refl refl refl refl refl)
      (Balanced-trans (check_deadline_of-Balanced s.mode now _) (async_receive-Balanced _)))

pub complete_receive-Balanced :
    (order : ByteOrder) (datagram : List ℕ) (sender : Endpoint) (s : Impl)
    → Balanced s (complete_receive order datagram sender s)
complete_receive-Balanced order datagram sender s =
    rw (complete_receive-datagram order datagram sender s) (
      Balanced-trans
        (Balanced-of_eq refl refl
          (called-append s.dispatcher _
            ∙ ap (◌++◌ (called s.dispatcher)) (datagram_notices-called order _ sender _)
            ∙ append-nil _)
          refl refl refl)
        (async_receive-Balanced _))

pub receive_error-Balanced :
    (order : ByteOrder) (c : ErrorCode) (n : ℕ) (s : Impl)
    → is_error c ≡ true
    → Balanced s (handle_receive order c n s)
receive_error-Balanced order c n s failed =
    rw (handle_receive_error order c n s failed) (async_receive-Balanced s)

pub run_deadline_exceeded-Balanced :
    (t : DeadlineTimer) (s : Impl) → Balanced s (run_deadline_exceeded t s)
unfolding run_deadline_exceeded signal processed_of
run_deadline_exceeded-Balanced t s =
    if-Balanced (t.generation == s.next_heartbeat_deadline_timers_generation)
      (Balanced-of_eq refl refl refl refl refl (
        processed_of-append s.signals (next_heartbeat_deadline_exceeded t.sender_endpoint ∷ [])
        ∙ append-nil _))
      (Balanced-refl s)

pub pending-Balanced : (os : List Op) (s : Impl) → Balanced s (record s { pending = os })
pending-Balanced os s = Balanced-of_eq refl refl refl refl refl refl

pub opened-Balanced : (socket : Socket) (s : Impl) → Balanced s (opened socket s)
opened-Balanced socket s = Balanced-of_eq refl refl refl refl refl refl

pub tasks-Balanced :
    (ts : List Task) (s : Impl)
    → lasting ts ≡ lasting s.io_ctx
    → Balanced s (record s { io_ctx = ts })
tasks-Balanced ts s e = Balanced-of_eq refl refl refl refl e refl

-- A notice that calls nothing has been taken out of the queue.
pub silent-Balanced :
    (n : Notice) (ns : List Notice) (s : Impl)
    → called (n ∷ ns) ≡ called ns
    → s.dispatcher ≡ n ∷ ns
    → Balanced s (record s { dispatcher = ns })
silent-Balanced n ns s silent e =
    Balanced-of_eq refl refl (sym silent ∙ sym (ap called e)) refl refl refl

-- A signal that calls nothing.
pub signal-Balanced : (x : Signal) (s : Impl) → processed_of (x ∷ []) ≡ [] → Balanced s (signal x s)
unfolding signal
signal-Balanced x s e =
    Balanced-of_eq refl refl refl refl refl
      (processed_of-append s.signals (x ∷ []) ∙ ap (◌++◌ (processed_of s.signals)) e ∙ append-nil _)

pub run_next_heartbeat-Balanced :
    (g : ℕ) (d : Millis) (p : Endpoint) (s : Impl) → Balanced s (run_next_heartbeat g d p s)
unfolding run_next_heartbeat
run_next_heartbeat-Balanced g d p s =
    if-Balanced (g == s.next_heartbeat_deadline_timers_generation)
      (Balanced-of_eq refl refl refl refl refl refl) (Balanced-refl s)
