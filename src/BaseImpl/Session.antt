-- ===== src/BaseImpl/Session.antt =====
-- base_impl.hpp: the steps of an object over its life, in any order that asio and the dispatcher may
-- choose. An operation completes once, at any time after it was started, with any result.
pub mod Sender
pub mod Sending
pub mod Tasks
pub mod Steps
pub mod Ready
pub mod Draining
pub mod Watching
pub mod Watched
pub mod Deadline
pub mod Balances
pub mod Accounts
pub mod Advances
pub mod Idle
pub mod Shut
pub mod Ending
pub mod Left
pub mod Joining
use cpp_local_datagram.Base.{
  ℕ, ◌≡◌, Bool, true, false, not, ◌||◌, Option, none, some, List, [], ◌∷◌, ◌++◌,
}
use cpp_local_datagram.Endpoint.{Endpoint}
use cpp_local_datagram.Memcpy.{ByteOrder}
use cpp_local_datagram.BaseImpl.State.{
  Impl, Socket, DeadlineTimer, ErrorCode, is_error, Millis, Notice, Task, close, push_entry,
  reset_work_guard, Op, receive_from, send_to, wait_send_invoker, wait_send_deadline,
  next_generation,
}
use cpp_local_datagram.BaseImpl.Socket.{run_close, run_reset_work_guard, async_close}
use cpp_local_datagram.BaseImpl.Heartbeat.{run_notice, run_deadline_exceeded}
use cpp_local_datagram.BaseImpl.Receive.{handle_receive, complete_receive}
use cpp_local_datagram.BaseImpl.Send.{
  async_send, run_push_entry, await_send_entry, handle_send, check_send_deadline, start_actors,
}

-- The operations of the sender among those that are pending.
unfoldable pub senders : List Op → List Op
senders [] = []
senders (send_to i b d ∷ os) = send_to i b d ∷ senders os
senders (wait_send_invoker ∷ os) = wait_send_invoker ∷ senders os
senders (_ ∷ os) = senders os

-- What the derived classes do once they have bound or connected, up to start_actors.
abbrev pub opened : Socket → Impl → Impl
opened socket s = record s {
  socket = some socket;
  socket_ready = true;
  next_heartbeat_deadline_timers_generation =
      next_generation s.next_heartbeat_deadline_timers_generation;
}

pub data Step (order : ByteOrder) (s : Impl) : Impl → Type 0 where
  -- Calls from other threads.
  calls_send : (i : ℕ) → Step order s (async_send i s)
  calls_close : Step order s (async_close s)
  -- Closures of `io_ctx_`.
  runs_push :
      (now : Millis) (i : ℕ) (ts : List Task)
      → s.io_ctx ≡ push_entry i ∷ ts
      → Step order s (run_push_entry now i (record s { io_ctx = ts }))
  runs_close :
      (ts : List Task) → s.io_ctx ≡ close ∷ ts → Step order s (run_close (record s { io_ctx = ts }))
  runs_reset :
      (ts : List Task)
      → s.io_ctx ≡ reset_work_guard ∷ ts
      → Step order s (run_reset_work_guard (record s { io_ctx = ts }))
  -- A socket is opened when the operations of the sender on the last one have been aborted.
  opens :
      (now : Millis) (socket : Socket)
      → senders s.pending ≡ []
      → Step order s (start_actors now (opened socket s))
  -- Operations that complete.
  sends :
      (now : Millis) (c : ErrorCode) (n i : ℕ) (b : List ℕ) (d : Option Endpoint)
      (before after : List Op)
      → s.pending ≡ before ++ send_to i b d ∷ after
      → Step order s (handle_send now c n i (record s { pending = before ++ after }))
  wakes :
      (now : Millis) (before after : List Op)
      → s.pending ≡ before ++ wait_send_invoker ∷ after
      → Step order s (await_send_entry now none (record s { pending = before ++ after }))
  checks_deadline :
      (now : Millis) (before after : List Op)
      → s.pending ≡ before ++ wait_send_deadline ∷ after
      → Step order s (check_send_deadline now (record s { pending = before ++ after }))
  receives :
      (datagram : List ℕ) (sender : Endpoint) (before after : List Op)
      → s.pending ≡ before ++ receive_from ∷ after
      → Step order s
          (complete_receive order datagram sender (record s { pending = before ++ after }))
  receive_fails :
      (c : ErrorCode) (n : ℕ) (before after : List Op)
      → is_error c ≡ true
      → s.pending ≡ before ++ receive_from ∷ after
      → Step order s (handle_receive order c n (record s { pending = before ++ after }))
  -- The dispatcher's thread.
  notices :
      (n : Notice) (ns : List Notice)
      → s.dispatcher ≡ n ∷ ns
      → Step order s (run_notice n (record s { dispatcher = ns }))
  exceeds : (t : DeadlineTimer) → Step order s (run_deadline_exceeded t s)

pub data Reach (order : ByteOrder) (s : Impl) : Impl → Type 0 where
  here : Reach order s s
  next : {t u : Impl} → Reach order s t → Step order t u → Reach order s u
