-- ===== src/Server/Reconnecting.antt =====
-- server.hpp: closing, binding again, stopping and sending.
use mathlib.Core.List.{append_assoc}
use cpp_local_datagram.Base.{ℕ, ◌+◌, ◌≡◌, none, some, List, [], ◌∷◌, ◌++◌, arith}
use cpp_local_datagram.Endpoint.{Endpoint}
use mathlib.Core.Option
use cpp_local_datagram.SendEntry.{of_vector, user_data}
use cpp_local_datagram.BaseImpl.State.{ErrorCode, Millis, Signal, BindArgs, push_entry}
use cpp_local_datagram.ServerImpl.{ServerImpl, make_server_impl, async_bind}
use cpp_local_datagram.Server.{
  Server, start_timer, emit, send, call_processed, run_stop, run_start_timer, reconnect_timer_ticks,
  on_bind_failed, on_closed, async_send_vector, run_send,
}

-- The arguments with which a server binds.
abbrev pub bind_args : Server → BindArgs
bind_args s = record {
  server_socket_file_path = s.server_socket_file_path;
  buffer_size = s.buffer_size;
  server_check_interval = s.server_check_interval;
}

-- A server_impl that has just been made and asked to bind.
pub new_impl : Server → ServerImpl
new_impl s = async_bind (bind_args s) (make_server_impl s.heap s.next_address s.server_send_entries)

-- When a server with a reconnect interval is closed or cannot bind, its server_impl goes, the timer is
-- to start once the interval has passed, and the timer makes the server bind anew: with its own path
-- and settings, and with the entries that were still queued.
pub on_closed_rebinds :
    (now : Millis) (c : ErrorCode) (interval : Millis) (k : ServerImpl) (s : Server)
    → s.server_impl ≡ some k
    → s.reconnect_interval ≡ some interval
    → let t = on_closed now s in
      let u = on_bind_failed now c s in
      (t.tasks ≡ s.tasks ++ emit Signal.closed ∷ start_timer (now + interval) ∷ [])
      × (u.tasks ≡ s.tasks ++ emit (Signal.bind_failed c) ∷ start_timer (now + interval) ∷ [])
      × (t.server_impl ≡ none)
      × (u.server_impl ≡ none)
      × (t.server_send_entries ≡ k.base.send_entries)
      × (u.server_send_entries ≡ k.base.send_entries)
      × (run_start_timer t ≡ some (record t { reconnect_timer = some interval }))
      × ((reconnect_timer_ticks (record t { reconnect_timer = some interval })).server_impl
          ≡ some (new_impl t))
      × (run_start_timer u ≡ some (record u { reconnect_timer = some interval }))
      × ((reconnect_timer_ticks (record u { reconnect_timer = some interval })).server_impl
          ≡ some (new_impl u))
unfolding on_closed on_bind_failed run_start_timer reconnect_timer_ticks new_impl
on_closed_rebinds now c interval k s e h = ground (
  arith,
  append_assoc s.tasks (emit Signal.closed ∷ []) (start_timer (now + interval) ∷ []),
  append_assoc s.tasks (emit (Signal.bind_failed c) ∷ []) (start_timer (now + interval) ∷ []),
)

-- Stopping does not stop the timer: if it has been started, its next tick makes the stopped server bind
-- again.
pub run_stop_rebinds :
    (s : Server)
    → let t = run_stop s in
      (t.server_impl ≡ none)
      × (t.reconnect_interval ≡ none)
      × (t.reconnect_timer ≡ s.reconnect_timer)
      × ((reconnect_timer_ticks t).server_impl ≡ some (new_impl t))
unfolding run_stop reconnect_timer_ticks new_impl
run_stop_rebinds s = ground arith

-- A closure that waits to start the timer reads the interval that stopping has reset.
pub run_stop-run_start_timer : (s : Server) → run_start_timer (run_stop s) ≡ none
unfolding run_stop run_start_timer
run_stop-run_start_timer s = ground arith

-- Data given to a server that has no server_impl is not sent, and its callback is called at once; with
-- a server_impl it is pushed to the queue as an entry of the given data and endpoint.
async_send-run_send :
    (v : List ℕ) (destination : Endpoint) (f : ℕ) (k : ServerImpl) (s t : Server)
    → s.server_impl ≡ none
    → t.server_impl ≡ some k
    → let i = s.next_address in
      let j = k.base.next_address in
      let u = (run_send j (async_send_vector v destination (some f) t)).server_impl in
      ((run_send i (async_send_vector v destination (some f) s)).tasks
        ≡ s.tasks ++ send i ∷ call_processed f ∷ [])
      × (Option.map (λ m. m.base.io_ctx) u ≡ some (k.base.io_ctx ++ push_entry j ∷ []))
      × (Option.map (λ m. m.base.heap j) u
          ≡ some (of_vector user_data v (some destination) (some f)))
unfolding run_send async_send_vector
async_send-run_send v destination f k s t e h =
    ground (arith, append_assoc s.tasks (send s.next_address ∷ []) (call_processed f ∷ []))
