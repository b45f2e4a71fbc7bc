-- ===== src/ClientImpl.antt =====
-- include/pqrs/local_datagram/impl/client_impl.hpp. The results of the calls of asio and of the
-- operating system are arguments.
pub mod Connecting
pub mod Session
pub mod Joining
use cpp_local_datagram.Base.{
  ℕ, ◌%◌, Bool, true, false, Option, none, some, List, [], ◌∷◌, if◌then◌else◌,
}
use cpp_local_datagram.Endpoint.{FilePath}
use cpp_local_datagram.Memcpy.{ByteOrder, store_uint32, uint32_mod}
use cpp_local_datagram.SendEntry.{SendEntry, heartbeat, of_vector}
use cpp_local_datagram.BaseImpl.State.{
  Impl, Mode, ErrorCode, is_error, Millis, ConnectArgs, Task, connect, send_heartbeat, check_socket,
  reset_check_client, Op, connect_to, emit, bind_failed, connected, connect_failed, post, start,
  enqueue_to_dispatcher, remove_file, bind_file, make_shared, is_open, next_generation, init,
}
use cpp_local_datagram.BaseImpl.Socket.{set_socket_options, async_close, terminate}
use cpp_local_datagram.BaseImpl.Send.{async_send, start_actors}

-- A `dispatcher::extra::timer` that has been started: the interval, and what its closure captured.
pub record Started (A : Type 0) : Type 0 where
  pub interval : Millis
  pub captured : A

pub record ClientImpl : Type 0 where
  pub base : Impl
  pub server_check_timer : Option (Started (Option Millis))
  pub client_socket_check_timer : Option (Started FilePath)
  -- The base of the client_impl that connects to the client's own socket.
  pub client_socket_check_client_impl : Option Impl
  pub client_socket_check_client_send_entries : List ℕ

-- The constructor.
unfoldable pub make_client_impl : (ℕ → SendEntry) → ℕ → List ℕ → ClientImpl
unfolding init
make_client_impl heap next entries = record {
  base = init Mode.client heap next entries;
  server_check_timer = none;
  client_socket_check_timer = none;
  client_socket_check_client_impl = none;
  client_socket_check_client_send_entries = [];
}

unfoldable pub async_connect : ConnectArgs → Impl → Impl
unfolding post
async_connect args s = post (connect args) s

remove_client_socket_file : Option FilePath → Impl → Impl
unfolding remove_file
remove_client_socket_file none s = s
remove_client_socket_file (some path) s = remove_file path s

-- "Bind" and "Connect": without a client socket file there is nothing to bind.
bind_and_connect : ErrorCode → ConnectArgs → Option FilePath → Impl → Impl
unfolding start enqueue_to_dispatcher bind_file
bind_and_connect bind_error args none s = start (connect_to args) s
bind_and_connect bind_error args (some path) s =
    let called = bind_file path s in
    if is_error bind_error
    then enqueue_to_dispatcher (emit (bind_failed bind_error)) called
    else start (connect_to args) (record called { bound_path = path })

-- "Open" and what follows.
open_and_bind : ErrorCode → ErrorCode → ConnectArgs → Impl → Impl
unfolding bind_and_connect set_socket_options enqueue_to_dispatcher
open_and_bind open_error bind_error args s =
    if is_error open_error
    then enqueue_to_dispatcher (emit (connect_failed open_error)) s
    else bind_and_connect bind_error args args.client_socket_file_path
        (set_socket_options args.buffer_size s)

-- The closure that async_connect posts.
unfoldable pub run_connect : ErrorCode → ErrorCode → ConnectArgs → Impl → Impl
unfolding open_and_bind remove_client_socket_file
run_connect open_error bind_error args s = elim s.socket [
  | some _ ↦ s
  | none ↦ open_and_bind open_error bind_error args (
      remove_client_socket_file args.client_socket_file_path (record s {
        socket = some (record { receive_buffer_size = none; send_buffer_size = none });
        socket_ready = false;
      }))
]

unfoldable pub on_base : (Impl → Impl) → ClientImpl → ClientImpl
on_base f c = record c { base = f c.base }

unfoldable pub stop_server_check : ClientImpl → ClientImpl
stop_server_check c = record c { server_check_timer = none }

unfoldable pub start_server_check : Option Millis → Option Millis → ClientImpl → ClientImpl
start_server_check none deadline c = c
start_server_check (some interval) deadline c = record c {
  server_check_timer = some (record { interval = interval; captured = deadline });
}

-- The check client is destroyed. The wait of its destructor for its own thread is not modelled.
unfoldable pub stop_client_socket_check : ClientImpl → ClientImpl
stop_client_socket_check c = record c {
  client_socket_check_timer = none;
  client_socket_check_client_impl = none;
}

unfoldable pub start_client_socket_check : Option FilePath → Option Millis → ClientImpl → ClientImpl
start_client_socket_check (some path) (some interval) c = record c {
  client_socket_check_timer = some (record { interval = interval; captured = path });
}
start_client_socket_check _ _ c = c

-- `peer` is what getsockopt finds, if it finds something.
unfoldable pub peer_pid : Option ℕ → Impl → Option ℕ
peer_pid peer s = elim s.socket [ none ↦ none | some _ ↦ peer ]

-- The handler of the connect operation.
unfoldable pub handle_connect :
    Millis → ErrorCode → Option ℕ → ConnectArgs → ClientImpl → ClientImpl
unfolding on_base
handle_connect now error_code peer args c =
    if is_error error_code
    then on_base (enqueue_to_dispatcher (emit (connect_failed error_code))) c
    else on_base
        (λ s. start_actors now (enqueue_to_dispatcher (emit (connected (peer_pid peer s))) s))
        (start_client_socket_check args.client_socket_file_path args.client_socket_check_interval (
          stop_client_socket_check (
            start_server_check args.server_check_interval args.next_heartbeat_deadline (
              stop_server_check (
                on_base
                  (λ s. record s {
                    socket_ready = true;
                    next_heartbeat_deadline_timers_generation =
                        next_generation s.next_heartbeat_deadline_timers_generation;
                  })
                  c)))))

-- `next_heartbeat_deadline->count()` as a `uint32_t`.
deadline_value : Option Millis → ℕ
deadline_value none = 0
deadline_value (some d) = d % uint32_mod

-- The entry of a heartbeat.
unfoldable pub heartbeat_entry : ByteOrder → Option Millis → SendEntry
unfolding of_vector deadline_value
heartbeat_entry order deadline =
    of_vector heartbeat (store_uint32 order (deadline_value deadline)) none none

send_new : SendEntry → Impl → Impl
unfolding make_shared async_send
send_new e s = let (i, t) = make_shared e s in async_send i t

unfoldable pub check_server : ByteOrder → Option Millis → ClientImpl → ClientImpl
unfolding on_base stop_server_check send_new
check_server order deadline c =
    if is_open c.base
    then on_base (send_new (heartbeat_entry order deadline)) c
    else stop_server_check c

-- The arguments with which the check client connects.
unfoldable pub check_args : FilePath → ConnectArgs
check_args path = record {
  server_socket_file_path = path;
  client_socket_file_path = none;
  buffer_size = 32;
  server_check_interval = none;
  next_heartbeat_deadline = none;
  client_socket_check_interval = none;
}

make_check_client : FilePath → ClientImpl → ClientImpl
unfolding async_connect check_args init
make_check_client path c = record c {
  client_socket_check_client_impl = some (
      async_connect (check_args path) (
        init Mode.client c.base.heap c.base.next_address
          c.client_socket_check_client_send_entries));
}

unfoldable pub check_client_socket : FilePath → ClientImpl → ClientImpl
unfolding stop_client_socket_check make_check_client
check_client_socket path c =
    if is_open c.base
    then elim c.client_socket_check_client_impl [ none ↦ make_check_client path c | some _ ↦ c ]
    else stop_client_socket_check c

-- The slots connected to the check client, and the closure that the first of them posts.
unfoldable pub on_check_connected : ClientImpl → ClientImpl
unfolding on_base post
on_check_connected c = on_base (post reset_check_client) c

unfoldable pub on_check_connect_failed : ClientImpl → ClientImpl
unfolding on_base async_close
on_check_connect_failed c = on_base async_close c

unfoldable pub run_reset_check_client : ClientImpl → ClientImpl
run_reset_check_client c = record c { client_socket_check_client_impl = none }

-- The closures of the two timers.
unfoldable pub server_check_ticks : Started (Option Millis) → ClientImpl → ClientImpl
unfolding on_base post
server_check_ticks t c = on_base (post (send_heartbeat t.captured)) c

unfoldable pub client_socket_check_ticks : Started FilePath → ClientImpl → ClientImpl
unfolding on_base post
client_socket_check_ticks t c = on_base (post (check_socket t.captured)) c
