-- ===== src/BaseImpl/Socket.antt =====
-- base_impl.hpp: set_socket_options, async_close and terminate_base_impl.
pub mod Closing
use cpp_local_datagram.Base.{
  ℕ, zero, suc, ◌+◌, ◌%◌, Bool, true, false, Option, none, some, List, [], ◌∷◌, if◌then◌else◌,
  length,
}
use cpp_local_datagram.SendEntry.{size_mod}
use cpp_local_datagram.BaseImpl.State.{
  Impl, Socket, Task, close, reset_work_guard, clear_timers, post, enqueue_to_dispatcher,
  remove_file, next_generation,
}

-- std::vector<uint8_t>::resize.
unfoldable pub resize : ℕ → List ℕ → List ℕ
resize zero xs = []
resize (suc n) [] = 0 ∷ resize n []
resize (suc n) (x ∷ xs) = x ∷ resize n xs

abbrev pub buffer_margin : ℕ
buffer_margin = 32

-- The sums are of type `size_t`.
unfoldable pub set_socket_options : ℕ → Impl → Impl
unfolding resize
set_socket_options buffer_size s = elim s.socket [
  | none ↦ s
  | some _ ↦
      let buffer = resize ((buffer_size + buffer_margin) % size_mod) s.receive_buffer in
      record s {
        receive_buffer = buffer;
        socket = some (record {
          receive_buffer_size = some (length buffer);
          send_buffer_size = some ((buffer_size + 1) % size_mod);
        });
      }
]

unfoldable pub async_close : Impl → Impl
unfolding post
async_close s = post close s

-- The bound path is removed if there is one.
remove_bound_path : Impl → Impl
unfolding remove_file
remove_bound_path s = elim s.bound_path [
  | [] ↦ s
  | c ∷ cs ↦ record (remove_file (c ∷ cs) s) { bound_path = [] }
]

-- The end of the closure of async_close, once the socket is gone.
report_closed : Impl → Impl
unfolding remove_bound_path next_generation enqueue_to_dispatcher
report_closed s =
    if s.socket_ready
    then enqueue_to_dispatcher clear_timers (
        remove_bound_path (record s {
          socket_ready = false;
          next_heartbeat_deadline_timers_generation =
              next_generation s.next_heartbeat_deadline_timers_generation;
        }))
    else s

-- socket_->cancel(), socket_->close(), send_invoker_.cancel() and send_deadline_.cancel(). What they
-- abort stays in `pending` until its handler runs.
cancel_operations : Impl → Impl
cancel_operations s = record s {
  cancelled = record { of_socket = true; of_send_invoker = true; of_send_deadline = true };
}

-- The closure that async_close posts.
unfoldable pub run_close : Impl → Impl
unfolding report_closed cancel_operations
run_close s = elim s.socket [
  | none ↦ s
  | some _ ↦ report_closed (record (cancel_operations s) { socket = none })
]

-- The closure that terminate_base_impl posts.
unfoldable pub run_reset_work_guard : Impl → Impl
run_reset_work_guard s = record s { work_guard = false }

-- The destructors of client_impl and server_impl, up to the wait for the thread of `io_ctx_`.
unfoldable pub terminate : Impl → Impl
unfolding async_close post
terminate s = post reset_work_guard (async_close s)
