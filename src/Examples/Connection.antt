-- ===== src/Examples/Connection.antt =====
-- Examples for send_entry, base_impl and the two classes derived from it.
use cpp_local_datagram.Base.{
  ◌+◌, ◌-◌, ◌<◌, ◌≡◌, ◌≢◌, refl, true, false, none, some, [], ◌∷◌, ◌++◌, arith, length,
}
use cpp_local_datagram.Endpoint.{non_empty_filesystem_endpoint_path}
use cpp_local_datagram.Memcpy.{little_endian}
use cpp_local_datagram.SendEntry.{
  user_data, of_vector, make_buffer, add_bytes_transferred, rest_bytes, transfer_complete,
  set_no_buffer_space_error_count,
}
use cpp_local_datagram.SendEntry.Transfer.{
  IsValid, transfer, transfer-make_buffer, add_bytes_transferred-rest,
}
use cpp_local_datagram.BaseImpl.State.{
  Impl, server, success, no_buffer_space, init, is_open, start, modify, next_heartbeat, emit,
  received, clear_timers, next_generation,
}
use cpp_local_datagram.BaseImpl.Socket.{run_close, set_socket_options}
use cpp_local_datagram.BaseImpl.Socket.Closing.{run_close_open, bound_files}
use cpp_local_datagram.BaseImpl.Receive.{async_receive, handle_receive, complete_receive}
use cpp_local_datagram.BaseImpl.Receive.Datagrams.{datagram_notices, handle_receive-datagram}
use cpp_local_datagram.BaseImpl.Send.{
  handle_send, start_actors, handle_result, finish_send, drop_entry, retry_entry,
  count_no_buffer_space, limit_retries, await_send_entry, await_next, wait_for_entry, send_front,
  await_front,
}
use cpp_local_datagram.BaseImpl.Send.Waiting.{ledger, waiting}
use cpp_local_datagram.BaseImpl.Send.Ledger.{
  run_sender, pushed_entries, pushed, sent, woken, run_sender-ledger,
}
use cpp_local_datagram.BaseImpl.Send.Attempts.{IsLimited, Attempts, Attempts-bounded}
use cpp_local_datagram.BaseImpl.Session.{senders, here, next, opens}
use cpp_local_datagram.BaseImpl.Session.Sender.{IsSending}
use cpp_local_datagram.BaseImpl.Session.Steps.{Reach-IsSending}
use cpp_local_datagram.BaseImpl.Session.{opened}
use cpp_local_datagram.ClientImpl.{heartbeat_entry}
use cpp_local_datagram.RoundTrip.{user_data_received, heartbeat_received}
use cpp_local_datagram.Examples.{
  server_path, client_path, three_bytes, an_entry, an_entry-IsValid, a_heap, a_socket,
  new_impl_object, opened_impl,
}

an_entry-IsLimited : IsLimited an_entry
unfolding of_vector
an_entry-IsLimited = record {
  valid = an_entry-IsValid;
  errors = omega arith;
  untouched = λ h. omega arith;
}

-- A server is opened and starts its actors.
Reach-IsSending_example : IsSending (start_actors 9 (opened a_socket new_impl_object))
unfolding init senders
Reach-IsSending_example =
    Reach-IsSending little_endian server a_heap 1 (0 ∷ [])
      (start_actors 9 (opened a_socket new_impl_object)) (next here (opens 9 a_socket refl))

-- An entry is queued, a send loses its data, one of two transfers succeeds.
run_sender-ledger_example :
    ledger (
      run_sender
        (pushed 1 5 ∷ sent 2 no_buffer_space 0 0 ∷ sent 3 success 4 0 ∷ woken 4 ∷ [])
        opened_impl)
    ≡ ledger opened_impl ++ waiting a_heap (5 ∷ [])
unfolding init pushed_entries
run_sender-ledger_example =
    run_sender-ledger (pushed 1 5 ∷ sent 2 no_buffer_space 0 0 ∷ sent 3 success 4 0 ∷ woken 4 ∷ [])
      opened_impl

-- A datagram of user data in a buffer with two more bytes.
abbrev filled_impl : Impl
filled_impl = record opened_impl {
  receive_buffer = 1 ∷ 10 ∷ 20 ∷ 30 ∷ 0 ∷ 0 ∷ [];
  receive_sender_endpoint = client_path;
}

handle_receive-datagram_example :
    handle_receive little_endian success 4 filled_impl
    ≡ async_receive (record filled_impl {
      dispatcher =
          filled_impl.dispatcher
          ++ datagram_notices little_endian
              (1 ∷ three_bytes)
              client_path
              filled_impl.next_heartbeat_deadline_timers_generation;
    })
handle_receive-datagram_example =
    handle_receive-datagram little_endian (1 ∷ three_bytes) (0 ∷ 0 ∷ []) filled_impl refl

-- Two bytes go, then there is no buffer space.
two-Attempts : Attempts ((1, success, 2) ∷ (2, no_buffer_space, 0) ∷ []) 0 opened_impl
unfolding init of_vector handle_send handle_result finish_send drop_entry retry_entry
    count_no_buffer_space limit_retries await_send_entry await_next wait_for_entry send_front
    await_front start modify transfer_complete rest_bytes add_bytes_transferred is_open
    set_no_buffer_space_error_count
two-Attempts =
    ((omega arith, λ h. omega arith), refl, refl, ((omega arith, λ h. cc), refl, refl, tt))

Attempts-bounded_example : 2 < length an_entry.buffer + 100
unfolding init of_vector transfer_complete
Attempts-bounded_example =
    Attempts-bounded ((1, success, 2) ∷ (2, no_buffer_space, 0) ∷ []) 0 opened_impl
      an_entry-IsLimited refl two-Attempts

heartbeat_received_example :
    (complete_receive little_endian
      (make_buffer (heartbeat_entry little_endian (some 5000)))
      client_path
      (set_socket_options 1024 opened_impl)).dispatcher
    ≡ next_heartbeat 0 5000 client_path ∷ []
unfolding init non_empty_filesystem_endpoint_path
heartbeat_received_example =
    heartbeat_received little_endian 5000 client_path 1024 a_socket opened_impl refl (omega arith)
      refl (omega arith)

user_data_received_example :
    (complete_receive little_endian
      (make_buffer (of_vector user_data three_bytes none none))
      client_path
      (set_socket_options 1024 opened_impl)).dispatcher
    ≡ emit (received three_bytes client_path) ∷ []
unfolding init
user_data_received_example =
    user_data_received little_endian three_bytes none none client_path 1024 a_socket opened_impl
      refl (omega arith) (omega arith)

-- Chunks of one and of two bytes.
transfer-make_buffer_example :
    (transfer (1 ∷ 2 ∷ []) an_entry).0 ++ make_buffer (transfer (1 ∷ 2 ∷ []) an_entry).1
    ≡ make_buffer an_entry
unfolding rest_bytes add_bytes_transferred of_vector
transfer-make_buffer_example =
    transfer-make_buffer (1 ∷ 2 ∷ []) an_entry an_entry-IsLimited.valid
      (omega arith, (omega arith, tt))

add_bytes_transferred-rest_example :
    IsValid (add_bytes_transferred 3 an_entry)
    × (rest_bytes (add_bytes_transferred 3 an_entry) ≡ rest_bytes an_entry - 3)
    × (transfer_complete (add_bytes_transferred (rest_bytes an_entry) an_entry) ≡ true)
unfolding rest_bytes of_vector
add_bytes_transferred-rest_example =
    add_bytes_transferred-rest 3 an_entry an_entry-IsLimited.valid (omega arith)

run_close_open_example :
    let t = run_close opened_impl in
    (t.socket ≡ none)
    × (t.socket_ready ≡ false)
    × (t.cancelled ≡ record { of_socket = true; of_send_invoker = true; of_send_deadline = true })
    × (t.next_heartbeat_deadline_timers_generation ≡ next_generation 0)
    × (t.next_heartbeat_deadline_timers_generation ≢ 0)
    × (t.files ≡ bound_files server_path)
    × (t.bound_path ≡ [])
    × (t.dispatcher ≡ clear_timers ∷ [])
    × (run_close t ≡ t)
unfolding init is_open
run_close_open_example = run_close_open opened_impl refl
