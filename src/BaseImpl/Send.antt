-- ===== src/BaseImpl/Send.antt =====
-- base_impl.hpp: async_send, await_send_entry, handle_send, pop_front_send_entry,
-- check_send_deadline and start_actors.
pub mod Entries
pub mod Queued
pub mod Waiting
pub mod Callbacks
pub mod Ledger
pub mod Attempts
pub mod Actors
use cpp_local_datagram.Base.{
  ℕ, ◌+◌, ◌%◌, Bool, true, false, Option, none, some, List, [], ◌∷◌, ◌++◌, ltb, ◌==◌, ◌||◌,
  if◌then◌else◌,
}
use cpp_local_datagram.SendEntry.{
  SendEntry, size_mod, make_buffer, add_bytes_transferred, rest_bytes, transfer_complete,
  set_no_buffer_space_error_count,
}
use cpp_local_datagram.BaseImpl.State.{
  Impl, Mode, server, client, ErrorCode, success, no_buffer_space, message_size, other, Millis,
  TimePoint, pos_infin, at, before, Task, push_entry, Op, send_to, wait_send_invoker,
  wait_send_deadline, emit, error_occurred, processed, post, enqueue_to_dispatcher, start, modify,
  is_open,
}
use cpp_local_datagram.BaseImpl.Socket.{async_close}
use cpp_local_datagram.BaseImpl.Receive.{async_receive}

unfoldable pub async_send : ℕ → Impl → Impl
unfolding post
async_send entry s = post (push_entry entry) s

-- The closure that async_send posts. `expires_after` makes a pending wait end early.
unfoldable pub run_push_entry : Millis → ℕ → Impl → Impl
run_push_entry now entry s = record s {
  send_entries = s.send_entries ++ entry ∷ [];
  send_invoker = at (now + 0);
}

unfoldable pub wait_for_entry : TimePoint → Impl → Impl
unfolding start
wait_for_entry expiry s = start wait_send_invoker (record s { send_invoker = expiry })

-- `async_send_to` or `async_send`, by the entry's destination.
unfoldable pub send_front : Millis → ℕ → Impl → Impl
unfolding start
send_front now entry s =
    start (send_to entry (make_buffer (s.heap entry)) (s.heap entry).destination_endpoint)
      (record s { send_deadline = at (now + 5000) })

unfoldable pub await_front : Millis → List ℕ → Impl → Impl
unfolding wait_for_entry send_front
await_front now [] s = wait_for_entry pos_infin s
await_front now (entry ∷ _) s = send_front now entry s

-- The two branches of await_send_entry: a delay or an empty queue, and an entry to send.
unfoldable pub await_next : Millis → Option Millis → Impl → Impl
await_next now none s = await_front now s.send_entries s
await_next now (some d) s = wait_for_entry (at (now + d)) s

unfoldable pub await_send_entry : Millis → Option Millis → Impl → Impl
await_send_entry now delay s = if is_open s then await_next now delay s else s

unfoldable pub enqueue_processed : Option ℕ → Impl → Impl
unfolding enqueue_to_dispatcher
enqueue_processed none s = s
enqueue_processed (some f) s = enqueue_to_dispatcher (emit (processed f)) s

unfoldable pub pop_front : List ℕ → Impl → Impl
unfolding enqueue_processed
pop_front [] s = s
pop_front (entry ∷ rest) s = record (enqueue_processed (s.heap entry).processed s) {
  send_entries = rest;
}

unfoldable pub pop_front_send_entry : Impl → Impl
unfolding pop_front
pop_front_send_entry s = pop_front s.send_entries s

-- entry->add_bytes_transferred(entry->rest_bytes()).
unfoldable pub drop_entry : ℕ → Impl → Impl
drop_entry entry s = modify entry (λ e. add_bytes_transferred (rest_bytes e) e) s

-- entry->set_no_buffer_space_error_count(entry->get_no_buffer_space_error_count() + 1).
unfoldable pub count_no_buffer_space : SendEntry → SendEntry
count_no_buffer_space e =
    set_no_buffer_space_error_count ((e.no_buffer_space_error_count + 1) % size_mod) e

-- The entry is dropped and the error reported after too many errors.
unfoldable pub limit_retries : ℕ → Impl → Impl
limit_retries entry s =
    if ltb 10 (s.heap entry).no_buffer_space_error_count
    then if (s.heap entry).bytes_transferred == 0
        || ltb 100 (s.heap entry).no_buffer_space_error_count
      then enqueue_to_dispatcher (emit (error_occurred no_buffer_space)) (drop_entry entry s)
      else s
    else s

-- The branch of `no_buffer_space`, but for the delay.
unfoldable pub retry_entry : ℕ → Impl → Impl
retry_entry entry s = limit_retries entry (modify entry count_no_buffer_space s)

-- From "Remove send_entry if transfer is completed" on.
unfoldable pub finish_send : Millis → Option Millis → ℕ → Impl → Impl
finish_send now delay entry s =
    await_send_entry now delay
      (if transfer_complete (s.heap entry) then pop_front_send_entry s else s)

-- An error that is neither of the two above: in server mode the entry is dropped, in client mode it
-- is kept and the connection is closed.
unfoldable pub other_error : Millis → ErrorCode → ℕ → Mode → Impl → Impl
other_error now error_code entry server s = finish_send now none entry (drop_entry entry s)
other_error now error_code entry client s =
    async_close (enqueue_to_dispatcher (emit (error_occurred error_code)) s)

-- The branches over the error code, once the transfer is counted and the deadline is reset.
unfoldable pub handle_result : Millis → ErrorCode → ℕ → Impl → Impl
handle_result now no_buffer_space entry s = finish_send now (some 100) entry (retry_entry entry s)
handle_result now message_size entry s =
    finish_send now none entry
      (enqueue_to_dispatcher (emit (error_occurred message_size)) (drop_entry entry s))
handle_result now success entry s = finish_send now none entry s
handle_result now (other n) entry s = other_error now (other n) entry s.mode s

unfoldable pub handle_send : Millis → ErrorCode → ℕ → ℕ → Impl → Impl
handle_send now error_code bytes_transferred entry s =
    handle_result now error_code entry
      (record (modify entry (add_bytes_transferred bytes_transferred) s) {
        send_deadline = pos_infin;
      })

unfoldable pub check_send_deadline : Millis → Impl → Impl
check_send_deadline now s =
    if is_open s
    then if before s.send_deadline now then async_close s else start wait_send_deadline s
    else s

unfoldable pub check_deadline_of : Mode → Millis → Impl → Impl
unfolding check_send_deadline
check_deadline_of server now s = s
check_deadline_of client now s = check_send_deadline now s

unfoldable pub start_actors : Millis → Impl → Impl
start_actors now s =
    let awaited = await_send_entry now none s in
    let reset = record awaited { send_deadline = pos_infin } in
    async_receive (check_deadline_of s.mode now reset)
