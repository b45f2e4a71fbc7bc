-- ===== src/Client.antt =====
-- include/pqrs/local_datagram/client.hpp: what runs in the dispatcher thread. A `std::optional` that
-- is read without a value is undefined behaviour: the result is `none`.
pub mod Stopping
pub mod Lives
use cpp_local_datagram.Base.{
  ℕ, ◌+◌, Bool, true, false, Option, none, some, List, [], ◌∷◌, ◌++◌, if◌then◌else◌,
}
use cpp_local_datagram.Endpoint.{FilePath}
use cpp_local_datagram.SendEntry.{SendEntry, Pointer, Processed, user_data, of_vector, of_pointer}
use cpp_local_datagram.BaseImpl.State.{ErrorCode, Millis, Signal, ConnectArgs, update}
use cpp_local_datagram.BaseImpl.Socket.{async_close}
use cpp_local_datagram.BaseImpl.Send.{async_send}
use cpp_local_datagram.ClientImpl.{ClientImpl, make_client_impl, async_connect, on_base}

-- The closures given to `enqueue_to_dispatcher`; `start_timer` waits until its time.
pub data ClientTask : Type 0 where
  connect : ClientTask
  stop : ClientTask
  start_timer : Millis → ClientTask
  send : ℕ → ClientTask
  call_processed : ℕ → ClientTask
  emit : Signal → ClientTask

pub record Client : Type 0 where
  pub server_socket_file_path : FilePath
  pub client_socket_file_path : Option FilePath
  pub buffer_size : ℕ
  pub server_check_interval : Option Millis
  pub next_heartbeat_deadline : Option Millis
  pub client_socket_check_interval : Option Millis
  pub reconnect_interval : Option Millis
  -- What `server_socket_file_path_resolver_()` returns at its next call, if there is a resolver.
  pub server_socket_file_path_resolver : Option FilePath
  -- The entries that have been allocated once the client_impl, which holds them before, is gone.
  pub heap : ℕ → SendEntry
  pub next_address : ℕ
  pub client_impl : Option ClientImpl
  -- The interval of `reconnect_timer_`, if it has been started and not stopped since.
  pub reconnect_timer : Option Millis
  pub tasks : List ClientTask

-- The constructor makes the only client_impl that the client ever has.
unfoldable pub make_client : FilePath → Option FilePath → ℕ → Client
unfolding make_client_impl
make_client server_path client_path buffer_size =
    let blank : (ℕ → SendEntry) = λ _. of_vector user_data [] none none in
    record {
      server_socket_file_path = server_path;
      client_socket_file_path = client_path;
      buffer_size = buffer_size;
      server_check_interval = none;
      next_heartbeat_deadline = none;
      client_socket_check_interval = none;
      reconnect_interval = none;
      server_socket_file_path_resolver = none;
      heap = blank;
      next_address = 0;
      client_impl = some (make_client_impl blank 0 []);
      reconnect_timer = none;
      tasks = [];
    }

unfoldable pub enqueue : ClientTask → Client → Client
enqueue t c = record c { tasks = c.tasks ++ t ∷ [] }

unfoldable pub set_server_check_interval : Option Millis → Client → Client
set_server_check_interval value c = record c { server_check_interval = value }

unfoldable pub set_next_heartbeat_deadline : Option Millis → Client → Client
set_next_heartbeat_deadline value c = record c { next_heartbeat_deadline = value }

unfoldable pub set_client_socket_check_interval : Option Millis → Client → Client
set_client_socket_check_interval value c = record c { client_socket_check_interval = value }

unfoldable pub set_reconnect_interval : Option Millis → Client → Client
set_reconnect_interval value c = record c { reconnect_interval = value }

unfoldable pub set_server_socket_file_path_resolver : Option FilePath → Client → Client
set_server_socket_file_path_resolver value c = record c { server_socket_file_path_resolver = value }

unfoldable pub async_start : Client → Client
unfolding enqueue
async_start c = enqueue connect c

unfoldable pub async_stop : Client → Client
unfolding enqueue
async_stop c = enqueue stop c

-- The client_impl is destroyed. What its thread does until the destructor has joined it are steps of
-- `k` before this one.
release : ClientImpl → Client → Client
release k c = record c {
  heap = k.base.heap;
  next_address = k.base.next_address;
  client_impl = none;
}

unfoldable pub run_close : Client → Client
unfolding release
run_close c = elim c.client_impl [ none ↦ c | some k ↦ release k c ]

unfoldable pub run_stop : Client → Client
unfolding run_close
run_stop c = run_close (record c { reconnect_interval = none })

-- The destructor: the closures that have not run are taken out of the queue of the dispatcher, in
-- whose thread stop() then runs.
unfoldable pub destroy : Client → Client
unfolding run_stop
destroy c = run_stop (record c { tasks = [] })

abbrev path_or : Option FilePath → FilePath → FilePath
path_or none path = path
path_or (some resolved) path = resolved

-- The arguments of the connection: the path comes from the resolver, if there is one.
unfoldable pub connect_args : Client → ConnectArgs
connect_args c = record {
  server_socket_file_path = path_or c.server_socket_file_path_resolver c.server_socket_file_path;
  client_socket_file_path = c.client_socket_file_path;
  buffer_size = c.buffer_size;
  server_check_interval = c.server_check_interval;
  next_heartbeat_deadline = c.next_heartbeat_deadline;
  client_socket_check_interval = c.client_socket_check_interval;
}

unfoldable pub run_connect : Client → Client
unfolding connect_args on_base async_connect
run_connect c = elim c.client_impl [
  | none ↦ c
  | some k ↦ record c { client_impl = some (on_base (async_connect (connect_args c)) k) }
]

-- `now` is when_now().
unfoldable pub start_reconnect_timer : Millis → Client → Client
unfolding enqueue
start_reconnect_timer now c = elim c.reconnect_interval [
  | some interval ↦ enqueue (start_timer (now + interval)) c
  | none ↦ record c { reconnect_timer = none }
]

-- The delayed closure. It reads `*reconnect_interval_` when it runs.
unfoldable pub run_start_timer : Client → Option Client
run_start_timer c = elim c.reconnect_interval [
  | none ↦ none
  | some interval ↦ some (record c { reconnect_timer = some interval })
]

pub stop_timer_if_unset : Client → Client
stop_timer_if_unset c = elim c.reconnect_interval [
  | none ↦ record c { reconnect_timer = none }
  | some _ ↦ c
]

-- The closure of `reconnect_timer_`.
unfoldable pub reconnect_timer_ticks : Client → Client
unfolding stop_timer_if_unset run_connect
reconnect_timer_ticks c = run_connect (stop_timer_if_unset c)

-- The slots connected to the signals of the client_impl. Those that are not below only pass the signal
-- on.
unfoldable pub on_signal : Signal → Client → Client
unfolding enqueue
on_signal x c = enqueue (emit x) c

pub close_impl : Client → Client
unfolding on_base async_close
close_impl c = elim c.client_impl [
  | none ↦ c
  | some k ↦ record c { client_impl = some (on_base async_close k) }
]

-- The handler of connect_failed and bind_failed.
unfoldable pub on_connect_failed : Millis → ErrorCode → Client → Client
unfolding on_signal close_impl start_reconnect_timer
on_connect_failed now error_code c =
    start_reconnect_timer now (close_impl (on_signal (Signal.connect_failed error_code) c))

unfoldable pub on_closed : Millis → Client → Client
unfolding on_signal start_reconnect_timer
on_closed now c = start_reconnect_timer now (on_signal Signal.closed c)

-- std::make_shared<impl::send_entry>, in the heap of whoever holds it.
make_shared_entry : SendEntry → Client → ℕ × Client
make_shared_entry e c = elim c.client_impl [
  | none ↦ (
    c.next_address,
    record c { heap = update c.heap c.next_address e; next_address = c.next_address + 1 },
  )
  | some k ↦ (
    k.base.next_address,
    record c {
      client_impl = some (
          on_base
            (λ b. record b {
              heap = update b.heap b.next_address e;
              next_address = b.next_address + 1;
            })
            k);
    },
  )
]

pub enqueue_send : SendEntry → Client → Client
unfolding make_shared_entry enqueue
enqueue_send e c = let (i, d) = make_shared_entry e c in enqueue (send i) d

unfoldable pub async_send_vector : List ℕ → Processed → Client → Client
unfolding enqueue_send of_vector
async_send_vector v p c = enqueue_send (of_vector user_data v none p) c

unfoldable pub async_send_pointer : Pointer → ℕ → Processed → Client → Client
unfolding enqueue_send of_pointer
async_send_pointer v len p c = enqueue_send (of_pointer user_data v len none p) c

pub call_back : Processed → Client → Client
unfolding enqueue
call_back none c = c
call_back (some f) c = enqueue (call_processed f) c

-- The closure of async_send.
unfoldable pub run_send : ℕ → Client → Client
unfolding call_back on_base async_send
run_send i c = elim c.client_impl [
  | some k ↦ record c { client_impl = some (on_base (async_send i) k) }
  | none ↦ call_back (c.heap i).processed c
]
