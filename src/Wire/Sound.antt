-- ===== src/Wire/Sound.antt =====
-- base_impl.hpp: what the steps of a sender put into its datagrams.
use cpp_local_datagram.Base.{
  ℕ, ◌≡◌, refl, false, Option, none, some, List, [], ◌∷◌, ◌++◌, arith, ltb, ◌==◌, ◌||◌,
}
use cpp_local_datagram.Endpoint.{Endpoint}
use cpp_local_datagram.Memcpy.{ByteOrder}
use cpp_local_datagram.SendEntry.{add_bytes_transferred, transfer_complete}
use cpp_local_datagram.BaseImpl.State.{
  Impl, Mode, server, client, ErrorCode, success, no_buffer_space, message_size, other, Millis,
  wait_send_invoker, receive_from, wait_send_deadline, before, is_open, enqueue_to_dispatcher,
  signal, Notice, post,
}
use cpp_local_datagram.BaseImpl.Socket.{run_close, run_reset_work_guard, async_close}
use cpp_local_datagram.BaseImpl.Heartbeat.{run_notice, run_next_heartbeat, run_deadline_exceeded}
use cpp_local_datagram.BaseImpl.Receive.{async_receive, complete_receive}
use cpp_local_datagram.BaseImpl.Receive.Datagrams.{complete_receive-datagram, handle_receive_error}
use cpp_local_datagram.BaseImpl.Send.{
  async_send, run_push_entry, start_actors, check_deadline_of, check_send_deadline, handle_send,
  handle_result, finish_send, other_error, drop_entry, retry_entry, limit_retries,
  pop_front_send_entry, pop_front, enqueue_processed,
}
use cpp_local_datagram.BaseImpl.Session.{
  Step, calls_send, calls_close, runs_push, runs_close, runs_reset, opens, sends, wakes,
  checks_deadline, receives, receive_fails, notices, exceeds,
}
use cpp_local_datagram.Wire.{IsSendable, is_send}
use cpp_local_datagram.Wire.Entries.{
  add_rest, counted, AreDatagrams, IsSound, same-IsSound, taken-IsSound, started-IsSound,
  if-IsSound, await-IsSound, modify-IsSound,
}

module _ (P : List ℕ → Type 0) where
  -- Steps of the sender beside the entries.
  enqueue_processed-IsSound :
      (p : Option ℕ) (s : Impl) → IsSound P s → IsSound P (enqueue_processed p s)
  unfolding enqueue_processed
  enqueue_processed-IsSound none s h = h
  enqueue_processed-IsSound (some f) s h = same-IsSound P refl refl h

  pop_front-IsSound : (is : List ℕ) (s : Impl) → IsSound P s → IsSound P (pop_front is s)
  unfolding pop_front
  pop_front-IsSound [] s h = h
  pop_front-IsSound (i ∷ is) s h =
      same-IsSound P refl refl (enqueue_processed-IsSound (s.heap i).processed s h)

  finish_send-IsSound :
      (now : Millis) (delay : Option Millis) (i : ℕ) (s : Impl)
      → IsSound P s
      → IsSound P (finish_send now delay i s)
  unfolding finish_send pop_front_send_entry
  finish_send-IsSound now delay i s h =
      await-IsSound P now delay _
        (if-IsSound P (transfer_complete (s.heap i)) (pop_front-IsSound s.send_entries s h) h)

  drop_entry-IsSound : (i : ℕ) (s : Impl) → IsSound P s → IsSound P (drop_entry i s)
  unfolding drop_entry
  drop_entry-IsSound i s h = modify-IsSound P i _ s (add_rest P (s.heap i) (h.heap i)) h

  limit_retries-IsSound : (i : ℕ) (s : Impl) → IsSound P s → IsSound P (limit_retries i s)
  unfolding limit_retries enqueue_to_dispatcher
  limit_retries-IsSound i s h =
      if-IsSound P (ltb 10 (s.heap i).no_buffer_space_error_count)
        (if-IsSound P
          ((s.heap i).bytes_transferred == 0 || ltb 100 (s.heap i).no_buffer_space_error_count)
          (same-IsSound P refl refl (drop_entry-IsSound i s h)) h)
        h

  retry_entry-IsSound : (i : ℕ) (s : Impl) → IsSound P s → IsSound P (retry_entry i s)
  unfolding retry_entry
  retry_entry-IsSound i s h =
      limit_retries-IsSound i _ (modify-IsSound P i _ s (counted P (s.heap i) (h.heap i)) h)

  other_error-IsSound :
      (now : Millis) (c : ErrorCode) (i : ℕ) (m : Mode) (s : Impl)
      → IsSound P s
      → IsSound P (other_error now c i m s)
  unfolding other_error async_close post enqueue_to_dispatcher
  other_error-IsSound now c i server s h =
      finish_send-IsSound now none i _ (drop_entry-IsSound i s h)
  other_error-IsSound now c i client s h = same-IsSound P refl refl h

  handle_result-IsSound :
      (now : Millis) (c : ErrorCode) (i : ℕ) (s : Impl)
      → IsSound P s
      → IsSound P (handle_result now c i s)
  unfolding handle_result enqueue_to_dispatcher
  handle_result-IsSound now success i s h = finish_send-IsSound now none i s h
  handle_result-IsSound now no_buffer_space i s h =
      finish_send-IsSound now (some 100) i _ (retry_entry-IsSound i s h)
  handle_result-IsSound now message_size i s h =
      finish_send-IsSound now none i _ (same-IsSound P refl refl (drop_entry-IsSound i s h))
  handle_result-IsSound now (other n) i s h = other_error-IsSound now (other n) i s.mode s h

  -- A send that takes all that is left, or nothing.
  pub handle_send-IsSound :
      (now : Millis) (c : ErrorCode) (n i : ℕ) (s : Impl)
      → IsSendable P (add_bytes_transferred n (s.heap i))
      → IsSound P s
      → IsSound P (handle_send now c n i s)
  unfolding handle_send
  handle_send-IsSound now c n i s own h =
      handle_result-IsSound now c i _ (same-IsSound P refl refl (modify-IsSound P i _ s own h))

  async_receive-IsSound : (s : Impl) → IsSound P s → IsSound P (async_receive s)
  unfolding async_receive AreDatagrams
  async_receive-IsSound s h = if-IsSound P (is_open s) (started-IsSound P receive_from s tt h) h

  check_send_deadline-IsSound :
      (now : Millis) (s : Impl) → IsSound P s → IsSound P (check_send_deadline now s)
  unfolding check_send_deadline async_close post AreDatagrams
  check_send_deadline-IsSound now s h =
      if-IsSound P (is_open s)
        (if-IsSound P (before s.send_deadline now) (same-IsSound P refl refl h)
          (started-IsSound P wait_send_deadline s tt h))
        h

  check_deadline_of-IsSound :
      (m : Mode) (now : Millis) (s : Impl) → IsSound P s → IsSound P (check_deadline_of m now s)
  unfolding check_deadline_of
  check_deadline_of-IsSound server now s h = h
  check_deadline_of-IsSound client now s h = check_send_deadline-IsSound now s h

  start_actors-IsSound : (now : Millis) (s : Impl) → IsSound P s → IsSound P (start_actors now s)
  unfolding start_actors
  start_actors-IsSound now s h = async_receive-IsSound _ (
      check_deadline_of-IsSound s.mode now _
        (same-IsSound P refl refl (await-IsSound P now none s h)))

  run_close-IsSound : (s : Impl) → IsSound P s → IsSound P (run_close s)
  unfolding run_close
  run_close-IsSound s h = same-IsSound P (ground arith) (ground arith) h

  run_notice-IsSound : (n : Notice) (s : Impl) → IsSound P s → IsSound P (run_notice n s)
  unfolding run_notice run_next_heartbeat signal
  run_notice-IsSound n s h = same-IsSound P (ground arith) (ground arith) h

  run_deadline_exceeded-IsSound :
      (t : _) (s : Impl) → IsSound P s → IsSound P (run_deadline_exceeded t s)
  unfolding run_deadline_exceeded signal
  run_deadline_exceeded-IsSound t s h = same-IsSound P (ground arith) (ground arith) h

  complete_receive-IsSound :
      (order : ByteOrder) (datagram : List ℕ) (sender : Endpoint) (s : Impl)
      → IsSound P s
      → IsSound P (complete_receive order datagram sender s)
  complete_receive-IsSound order datagram sender s h =
      rw (complete_receive-datagram order datagram sender s)
        (async_receive-IsSound _ (same-IsSound P refl refl h))

  -- Every step but the end of a send.
  pub Step-IsSound :
      (order : ByteOrder) {s t : Impl} (st : Step order s t)
      → is_send st ≡ false
      → IsSound P s
      → IsSound P t
  unfolding async_send async_close post run_push_entry run_reset_work_guard
  Step-IsSound order {s} (calls_send i) e h = same-IsSound P refl refl h
  Step-IsSound order {s} calls_close e h = same-IsSound P refl refl h
  Step-IsSound order {s} (runs_push now i ts _) e h = same-IsSound P refl refl h
  Step-IsSound order {s} (runs_close ts _) e h = run_close-IsSound _ (same-IsSound P refl refl h)
  Step-IsSound order {s} (runs_reset ts _) e h = same-IsSound P refl refl h
  Step-IsSound order {s} (opens now socket _) e h =
      start_actors-IsSound now _ (same-IsSound P refl refl h)
  Step-IsSound order {s} (sends now c n i b d earlier later _) e h = absurd (cc)
  Step-IsSound order {s} (wakes now earlier later p) e h =
      await-IsSound P now none _ ((taken-IsSound P earlier wait_send_invoker later s p h).0)
  Step-IsSound order {s} (checks_deadline now earlier later p) e h =
      check_send_deadline-IsSound now _ ((taken-IsSound P earlier wait_send_deadline later s p h).0)
  Step-IsSound order {s} (receives datagram sender earlier later p) e h =
      complete_receive-IsSound order datagram sender _
        ((taken-IsSound P earlier receive_from later s p h).0)
  Step-IsSound order {s} (receive_fails c n earlier later failed p) e h =
      rw (handle_receive_error order c n (record s { pending = earlier ++ later }) failed)
        (async_receive-IsSound _ ((taken-IsSound P earlier receive_from later s p h).0))
  Step-IsSound order {s} (notices n ns _) e h = run_notice-IsSound n _ (same-IsSound P refl refl h)
  Step-IsSound order {s} (exceeds t) e h = run_deadline_exceeded-IsSound t s h
