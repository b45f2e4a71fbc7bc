-- ===== src/ServerImpl.antt =====
-- include/pqrs/local_datagram/impl/server_impl.hpp. The results of the calls of asio are arguments.
pub mod Binding
pub mod Checking
pub mod Session
pub mod Ordering
pub mod Joining
use cpp_local_datagram.Base.{ℕ, Bool, true, false, Option, none, some, List, [], ◌∷◌, if◌then◌else◌}
use cpp_local_datagram.Endpoint.{FilePath}
use cpp_local_datagram.SendEntry.{SendEntry}
use cpp_local_datagram.BaseImpl.State.{
  Impl, Mode, ErrorCode, is_error, Millis, BindArgs, Task, bind, check_socket, reset_check_client,
  emit, bind_failed, bound, post, enqueue_to_dispatcher, remove_file, bind_file, is_open,
  next_generation, init,
}
use cpp_local_datagram.BaseImpl.Socket.{set_socket_options, async_close}
use cpp_local_datagram.BaseImpl.Send.{start_actors}
use cpp_local_datagram.ClientImpl.{Started, async_connect, check_args}

pub record ServerImpl : Type 0 where
  pub base : Impl
  pub server_check_timer : Option (Started FilePath)
  -- The base of the client_impl that connects to the server's own socket.
  pub server_check_client_impl : Option Impl
  pub server_check_client_send_entries : List ℕ

-- The constructor.
unfoldable pub make_server_impl : (ℕ → SendEntry) → ℕ → List ℕ → ServerImpl
unfolding init
make_server_impl heap next entries = record {
  base = init Mode.server heap next entries;
  server_check_timer = none;
  server_check_client_impl = none;
  server_check_client_send_entries = [];
}

unfoldable pub on_base : (Impl → Impl) → ServerImpl → ServerImpl
on_base f c = record c { base = f c.base }

unfoldable pub async_bind : BindArgs → ServerImpl → ServerImpl
unfolding on_base post async_close
async_bind args c = on_base (λ s. post (bind args) (async_close s)) c

-- The check client is destroyed. The wait of its destructor for its own thread is not modelled.
unfoldable pub stop_server_check : ServerImpl → ServerImpl
stop_server_check c = record c { server_check_timer = none; server_check_client_impl = none }

unfoldable pub start_server_check : FilePath → Option Millis → ServerImpl → ServerImpl
start_server_check path none c = c
start_server_check path (some interval) c = record c {
  server_check_timer = some (record { interval = interval; captured = path });
}

-- "Remove existing file" and the new socket.
unfoldable pub new_socket : BindArgs → Impl → Impl
unfolding remove_file
new_socket args s =
    record (remove_file args.server_socket_file_path (record s { socket_ready = false })) {
      socket = some (record { receive_buffer_size = none; send_buffer_size = none });
    }

-- After the socket is bound.
unfoldable pub bound_base : BindArgs → Impl → Impl
unfolding next_generation
bound_base args s = record s {
  bound_path = args.server_socket_file_path;
  socket_ready = true;
  next_heartbeat_deadline_timers_generation =
      next_generation s.next_heartbeat_deadline_timers_generation;
}

-- The closure that async_bind posts.
unfoldable pub run_bind : Millis → ErrorCode → ErrorCode → BindArgs → ServerImpl → ServerImpl
unfolding on_base new_socket bound_base start_server_check enqueue_to_dispatcher set_socket_options
    bind_file
run_bind now open_error bind_error args c =
    let opened = on_base (new_socket args) c in
    if is_error open_error
    then on_base (enqueue_to_dispatcher (emit (bind_failed open_error))) opened
    else (let ready =
          on_base
            (λ s. bind_file args.server_socket_file_path (set_socket_options args.buffer_size s))
            opened in
        if is_error bind_error
        then on_base (enqueue_to_dispatcher (emit (bind_failed bind_error))) ready
        else on_base (λ s. start_actors now (enqueue_to_dispatcher (emit bound) s))
            (start_server_check args.server_socket_file_path args.server_check_interval
              (on_base (bound_base args) ready)))

make_check_client : FilePath → ServerImpl → ServerImpl
unfolding async_connect check_args init
make_check_client path c = record c {
  server_check_client_impl = some (
      async_connect (check_args path)
        (init Mode.client c.base.heap c.base.next_address c.server_check_client_send_entries));
}

unfoldable pub check_server : FilePath → ServerImpl → ServerImpl
unfolding stop_server_check make_check_client
check_server path c =
    if is_open c.base
    then elim c.server_check_client_impl [ none ↦ make_check_client path c | some _ ↦ c ]
    else stop_server_check c

-- The slots connected to the check client, and the closure that the first of them posts.
unfoldable pub on_check_connected : ServerImpl → ServerImpl
unfolding on_base post
on_check_connected c = on_base (post reset_check_client) c

unfoldable pub on_check_connect_failed : ServerImpl → ServerImpl
unfolding on_base async_close
on_check_connect_failed c = on_base async_close c

unfoldable pub run_reset_check_client : ServerImpl → ServerImpl
run_reset_check_client c = record c { server_check_client_impl = none }

-- The closure of the timer.
unfoldable pub server_check_ticks : Started FilePath → ServerImpl → ServerImpl
unfolding on_base post
server_check_ticks t c = on_base (post (check_socket t.captured)) c
