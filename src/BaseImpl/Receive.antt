-- ===== src/BaseImpl/Receive.antt =====
-- base_impl.hpp, async_receive: one datagram at a time, in the thread of `io_ctx_`.
pub mod Datagrams
use cpp_local_datagram.Base.{
  ℕ, ◌-◌, Bool, true, false, List, [], ◌∷◌, ◌++◌, leb, ltb, ◌==◌, if◌then◌else◌, length, take, drop,
}
use cpp_local_datagram.Endpoint.{Endpoint, non_empty_filesystem_endpoint_path}
use cpp_local_datagram.Memcpy.{ByteOrder, load_uint32}
use cpp_local_datagram.BaseImpl.State.{
  Impl, ErrorCode, is_error, emit, next_heartbeat, warning_reported, received, receive_from,
  enqueue_to_dispatcher, start, is_open,
}

unfoldable pub async_receive : Impl → Impl
unfolding is_open start
async_receive s = if is_open s then start receive_from s else s

-- What asio has done when the operation completes: the datagram stands at the front of the buffer,
-- cut off at its end, and the endpoint is that of the sender.
unfoldable pub fill_receive_buffer : List ℕ → Endpoint → Impl → Impl
fill_receive_buffer datagram sender s =
    let filled = take (length s.receive_buffer) datagram in
    record s {
      receive_buffer = filled ++ drop (length filled) s.receive_buffer;
      receive_sender_endpoint = sender;
    }

-- What a heartbeat with this deadline, in milliseconds, makes of the receiver.
unfoldable pub accept_heartbeat : ℕ → Impl → Impl
unfolding enqueue_to_dispatcher non_empty_filesystem_endpoint_path
accept_heartbeat deadline s =
    if ltb 0 deadline
    then if non_empty_filesystem_endpoint_path s.receive_sender_endpoint
      then enqueue_to_dispatcher
          (next_heartbeat s.next_heartbeat_deadline_timers_generation deadline
            s.receive_sender_endpoint)
          s
      else enqueue_to_dispatcher
          (emit (
            warning_reported
              "sender endpoint is required when next_heartbeat_deadline is specified"))
          s
    else s

-- `case send_entry::type::heartbeat`; `body` is the buffer from its second byte on.
unfoldable pub receive_heartbeat : ByteOrder → ℕ → List ℕ → Impl → Impl
receive_heartbeat order bytes_transferred body s =
    if leb 4 (bytes_transferred - 1) then accept_heartbeat (load_uint32 order body) s else s

-- `case send_entry::type::user_data`.
unfoldable pub receive_user_data : ℕ → List ℕ → Impl → Impl
unfolding enqueue_to_dispatcher
receive_user_data bytes_transferred body s =
    enqueue_to_dispatcher
      (emit (received (take (bytes_transferred - 1) body) s.receive_sender_endpoint)) s

-- The `switch` over the first byte; there is no default case.
unfoldable pub receive_datagram : ByteOrder → ℕ → List ℕ → Impl → Impl
receive_datagram order bytes_transferred [] s = s
receive_datagram order bytes_transferred (t ∷ body) s =
    if t == 0
    then receive_heartbeat order bytes_transferred body s
    else if t == 1
    then receive_user_data bytes_transferred body s
    else s

-- The handler of async_receive_from.
unfoldable pub handle_receive : ByteOrder → ErrorCode → ℕ → Impl → Impl
handle_receive order error_code bytes_transferred s =
    let processed =
      if is_error error_code
      then s
      else if ltb 0 bytes_transferred
      then receive_datagram order bytes_transferred s.receive_buffer s
      else s in
    if processed.socket_ready then async_receive processed else processed

-- The completion of a receive operation: asio's part, then the handler.
unfoldable pub complete_receive : ByteOrder → List ℕ → Endpoint → Impl → Impl
complete_receive order datagram sender s =
    handle_receive order ErrorCode.success (length (take (length s.receive_buffer) datagram))
      (fill_receive_buffer datagram sender s)
