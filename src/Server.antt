-- ===== src/Server.antt =====
-- include/pqrs/local_datagram/server.hpp: what runs in the dispatcher thread. A `std::optional` that
-- is read without a value is undefined behaviour: the result is `none`.
pub mod Reconnecting
pub mod Lives
use cpp_local_datagram.Base.{
  ℕ, ◌+◌, Bool, true, false, Option, none, some, List, [], ◌∷◌, ◌++◌, if◌then◌else◌,
}
use cpp_local_datagram.Endpoint.{FilePath, Endpoint}
use cpp_local_datagram.SendEntry.{SendEntry, Pointer, Processed, user_data, of_vector, of_pointer}
use cpp_local_datagram.BaseImpl.State.{ErrorCode, Millis, Signal, update}
use cpp_local_datagram.BaseImpl.Send.{async_send}
use cpp_local_datagram.ServerImpl.{ServerImpl, make_server_impl, async_bind, on_base}

-- The closures given to `enqueue_to_dispatcher`; `start_timer` waits until its time.
pub data ServerTask : Type 0 where
  bind : ServerTask
  stop : ServerTask
  start_timer : Millis → ServerTask
  send : ℕ → ServerTask
  call_processed : ℕ → ServerTask
  emit : Signal → ServerTask

pub record Server : Type 0 where
  pub server_socket_file_path : FilePath
  pub buffer_size : ℕ
  pub server_check_interval : Option Millis
  pub reconnect_interval : Option Millis
  -- The entries that have been allocated, and the queue shared with the server_impl: while there is one,
  -- its base holds them.
  pub heap : ℕ → SendEntry
  pub next_address : ℕ
  pub server_send_entries : List ℕ
  pub server_impl : Option ServerImpl
  -- The interval of `reconnect_timer_`, if it has been started and not stopped since.
  pub reconnect_timer : Option Millis
  pub tasks : List ServerTask

unfoldable pub make_server : FilePath → ℕ → Server
make_server path buffer_size = record {
  server_socket_file_path = path;
  buffer_size = buffer_size;
  server_check_interval = none;
  reconnect_interval = none;
  heap = λ _. of_vector user_data [] none none;
  next_address = 0;
  server_send_entries = [];
  server_impl = none;
  reconnect_timer = none;
  tasks = [];
}

unfoldable pub enqueue : ServerTask → Server → Server
enqueue t s = record s { tasks = s.tasks ++ t ∷ [] }

unfoldable pub set_server_check_interval : Option Millis → Server → Server
set_server_check_interval value s = record s { server_check_interval = value }

unfoldable pub set_reconnect_interval : Option Millis → Server → Server
set_reconnect_interval value s = record s { reconnect_interval = value }

unfoldable pub async_start : Server → Server
unfolding enqueue
async_start s = enqueue bind s

unfoldable pub async_stop : Server → Server
unfolding enqueue
async_stop s = enqueue stop s

-- The server_impl is destroyed. What its thread does until the destructor has joined it are steps of
-- `k` before this one; the shared queue stays as they leave it.
release : ServerImpl → Server → Server
release k s = record s {
  heap = k.base.heap;
  next_address = k.base.next_address;
  server_send_entries = k.base.send_entries;
  server_impl = none;
}

unfoldable pub run_close : Server → Server
unfolding release
run_close s = elim s.server_impl [ none ↦ s | some k ↦ release k s ]

unfoldable pub run_stop : Server → Server
unfolding run_close
run_stop s = run_close (record s { reconnect_interval = none })

-- The destructor: the closures that have not run are taken out of the queue of the dispatcher, in
-- whose thread stop() then runs.
unfoldable pub destroy : Server → Server
unfolding run_stop
destroy s = run_stop (record s { tasks = [] })

unfoldable pub run_bind : Server → Server
unfolding make_server_impl async_bind
run_bind s = elim s.server_impl [
  | some _ ↦ s
  | none ↦ record s {
    server_impl = some (
        async_bind
          (record {
            server_socket_file_path = s.server_socket_file_path;
            buffer_size = s.buffer_size;
            server_check_interval = s.server_check_interval;
          })
          (make_server_impl s.heap s.next_address s.server_send_entries));
  }
]

-- `now` is when_now().
unfoldable pub start_reconnect_timer : Millis → Server → Server
unfolding enqueue
start_reconnect_timer now s = elim s.reconnect_interval [
  | some interval ↦ enqueue (start_timer (now + interval)) s
  | none ↦ record s { reconnect_timer = none }
]

-- The delayed closure. It reads `*reconnect_interval_` when it runs.
unfoldable pub run_start_timer : Server → Option Server
run_start_timer s = elim s.reconnect_interval [
  | none ↦ none
  | some interval ↦ some (record s { reconnect_timer = some interval })
]

stop_timer_if_unset : Server → Server
stop_timer_if_unset s = elim s.reconnect_interval [
  | none ↦ record s { reconnect_timer = none }
  | some _ ↦ s
]

-- The closure of `reconnect_timer_`.
unfoldable pub reconnect_timer_ticks : Server → Server
unfolding stop_timer_if_unset run_bind
reconnect_timer_ticks s = run_bind (stop_timer_if_unset s)

-- The slots connected to the signals of the server_impl. Those of warning_reported, bound, received and
-- next_heartbeat_deadline_exceeded only pass the signal on.
unfoldable pub on_signal : Signal → Server → Server
unfolding enqueue
on_signal x s = enqueue (emit x) s

unfoldable pub on_bind_failed : Millis → ErrorCode → Server → Server
unfolding on_signal run_close start_reconnect_timer
on_bind_failed now error_code s =
    start_reconnect_timer now (run_close (on_signal (Signal.bind_failed error_code) s))

unfoldable pub on_closed : Millis → Server → Server
unfolding on_signal run_close start_reconnect_timer
on_closed now s = start_reconnect_timer now (run_close (on_signal Signal.closed s))

-- std::make_shared<impl::send_entry>, in the heap of whoever holds it.
make_shared_entry : SendEntry → Server → ℕ × Server
make_shared_entry e s = elim s.server_impl [
  | none ↦ (
    s.next_address,
    record s { heap = update s.heap s.next_address e; next_address = s.next_address + 1 },
  )
  | some k ↦ (
    k.base.next_address,
    record s {
      server_impl = some (
          on_base
            (λ b. record b {
              heap = update b.heap b.next_address e;
              next_address = b.next_address + 1;
            })
            k);
    },
  )
]

pub enqueue_send : SendEntry → Server → Server
unfolding make_shared_entry enqueue
enqueue_send e s = let (i, t) = make_shared_entry e s in enqueue (send i) t

unfoldable pub async_send_vector : List ℕ → Endpoint → Processed → Server → Server
unfolding enqueue_send of_vector
async_send_vector v destination p s = enqueue_send (of_vector user_data v (some destination) p) s

unfoldable pub async_send_pointer : Pointer → ℕ → Endpoint → Processed → Server → Server
unfolding enqueue_send of_pointer
async_send_pointer v len destination p s =
    enqueue_send (of_pointer user_data v len (some destination) p) s

pub call_back : Processed → Server → Server
unfolding enqueue
call_back none s = s
call_back (some f) s = enqueue (call_processed f) s

-- The closure of async_send.
unfoldable pub run_send : ℕ → Server → Server
unfolding call_back on_base async_send
run_send i s = elim s.server_impl [
  | some k ↦ record s { server_impl = some (on_base (async_send i) k) }
  | none ↦ call_back (s.heap i).processed s
]
