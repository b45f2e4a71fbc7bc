-- ===== src/BaseImpl/State.antt =====
-- base_impl.hpp: the member variables, and the queues through which its two threads work.
use Prim.Native.String.{String}
use cpp_local_datagram.Base.{
  ℕ, ◌+◌, ◌%◌, ◌^◌, Bool, true, false, Option, none, some, List, [], ◌∷◌, ◌++◌, ◌==◌, ltb, ◌&&◌,
  if◌then◌else◌,
}
use cpp_local_datagram.Endpoint.{FilePath, Endpoint}
use cpp_local_datagram.SendEntry.{SendEntry}

-- Milliseconds. A `std::chrono::milliseconds` is the 64-bit pattern of its count.
abbrev pub Millis : Type 0
Millis = ℕ

abbrev pub uint64_mod : ℕ
uint64_mod = 2 ^ 64

pub data Mode : Type 0 where
  server client : Mode

-- The error codes that the code tells apart.
pub data ErrorCode : Type 0 where
  success no_buffer_space message_size : ErrorCode
  other : ℕ → ErrorCode

-- `if (error_code)`.
abbrev pub is_error : ErrorCode → Bool
is_error success = false
is_error _ = true

-- A `steady_timer::time_point`.
pub data TimePoint : Type 0 where
  pos_infin : TimePoint
  at : Millis → TimePoint

-- The options set on a `datagram_protocol::socket`; `none` before they are set.
pub record Socket : Type 0 where
  pub receive_buffer_size : Option ℕ
  pub send_buffer_size : Option ℕ

-- A `next_heartbeat_deadline_timer`: its endpoint, the generation that its slot has captured, and
-- the delay last given to `debounced_task::debounce_after`.
pub record DeadlineTimer : Type 0 where
  pub sender_endpoint : Endpoint
  pub generation : ℕ
  pub delay : Millis

-- What the signals of base_impl and client_impl pass on, in the dispatcher thread; and the call of an
-- entry's `processed`.
pub data Signal : Type 0 where
  warning_reported : String → Signal
  bound : Signal
  bind_failed : ErrorCode → Signal
  connected : Option ℕ → Signal
  connect_failed : ErrorCode → Signal
  received : List ℕ → Endpoint → Signal
  closed : Signal
  next_heartbeat_deadline_exceeded : Endpoint → Signal
  error_occurred : ErrorCode → Signal
  processed : ℕ → Signal

-- The closures given to `enqueue_to_dispatcher`.
pub data Notice : Type 0 where
  emit : Signal → Notice
  clear_timers : Notice
  next_heartbeat : ℕ → Millis → Endpoint → Notice

-- The arguments of `client_impl::async_connect`.
pub record ConnectArgs : Type 0 where
  pub server_socket_file_path : FilePath
  pub client_socket_file_path : Option FilePath
  pub buffer_size : ℕ
  pub server_check_interval : Option Millis
  pub next_heartbeat_deadline : Option Millis
  pub client_socket_check_interval : Option Millis

-- The arguments of `server_impl::async_bind`.
pub record BindArgs : Type 0 where
  pub server_socket_file_path : FilePath
  pub buffer_size : ℕ
  pub server_check_interval : Option Millis

-- The closures given to `asio::post`, of base_impl and of the two classes derived from it.
pub data Task : Type 0 where
  reset_work_guard : Task
  close : Task
  push_entry : ℕ → Task
  connect : ConnectArgs → Task
  bind : BindArgs → Task
  send_heartbeat : Option Millis → Task
  check_socket : FilePath → Task
  reset_check_client : Task

-- The asynchronous operations that have been started and whose handlers have not run.
pub data Op : Type 0 where
  receive_from : Op
  send_to : ℕ → List ℕ → Option Endpoint → Op
  wait_send_invoker : Op
  wait_send_deadline : Op
  connect_to : ConnectArgs → Op

-- What is done to the file of a socket: std::filesystem::remove, and a call of bind.
pub data FileCall : Type 0 where
  removes : FilePath → FileCall
  binds : FilePath → FileCall

-- Whether asio has been told to abort the operations of a kind that are pending: those on the socket, and
-- the waits for the two timers.
pub record Cancelled : Type 0 where
  pub of_socket : Bool
  pub of_send_invoker : Bool
  pub of_send_deadline : Bool

pub record Impl : Type 0 where
  pub mode : Mode
  -- The entries that `std::make_shared` has allocated, by address, and the next free address.
  pub heap : ℕ → SendEntry
  pub next_address : ℕ
  pub send_entries : List ℕ
  pub work_guard : Bool
  pub socket : Option Socket
  pub socket_ready : Bool
  pub bound_path : FilePath
  pub receive_buffer : List ℕ
  pub receive_sender_endpoint : Endpoint
  pub next_heartbeat_deadline_timers : List DeadlineTimer
  pub next_heartbeat_deadline_timers_generation : ℕ
  pub send_invoker : TimePoint
  pub send_deadline : TimePoint
  -- The queue of `io_ctx_`, the operations that asio works on, the queue of the dispatcher.
  pub io_ctx : List Task
  pub pending : List Op
  pub cancelled : Cancelled
  pub dispatcher : List Notice
  -- The signals emitted and the calls for files of sockets, oldest first.
  pub signals : List Signal
  pub files : List FileCall

unfoldable pub post : Task → Impl → Impl
post t s = record s { io_ctx = s.io_ctx ++ t ∷ [] }

unfoldable pub enqueue_to_dispatcher : Notice → Impl → Impl
enqueue_to_dispatcher n s = record s { dispatcher = s.dispatcher ++ n ∷ [] }

-- `cancel` and `close` abort what is pending, not what is started later.
abbrev pub restarted : Op → Cancelled → Cancelled
restarted wait_send_invoker c = record c { of_send_invoker = false }
restarted wait_send_deadline c = record c { of_send_deadline = false }
restarted _ c = record c { of_socket = false }

unfoldable pub start : Op → Impl → Impl
start o s = record s { pending = s.pending ++ o ∷ []; cancelled = restarted o s.cancelled }

unfoldable pub signal : Signal → Impl → Impl
signal x s = record s { signals = s.signals ++ x ∷ [] }

unfoldable pub remove_file : FilePath → Impl → Impl
remove_file p s = record s { files = s.files ++ removes p ∷ [] }

-- The call of bind.
unfoldable pub bind_file : FilePath → Impl → Impl
bind_file p s = record s { files = s.files ++ binds p ∷ [] }

abbrev pub update {ℓ} : {A : Type ℓ} → (ℕ → A) → ℕ → A → ℕ → A
update f i a j = if i == j then a else f j

-- A call of a method of `*entry` that changes it.
unfoldable pub modify : ℕ → (SendEntry → SendEntry) → Impl → Impl
modify i f s = record s { heap = update s.heap i (f (s.heap i)) }

-- std::make_shared<send_entry>(...).
unfoldable pub make_shared : SendEntry → Impl → ℕ × Impl
make_shared e s = (
  s.next_address,
  record s { heap = update s.heap s.next_address e; next_address = s.next_address + 1 },
)

abbrev has_socket : Option Socket → Bool
has_socket none = false
has_socket (some _) = true

-- The negation of `!socket_ || !socket_ready_`.
unfoldable pub is_open : Impl → Bool
is_open s = has_socket s.socket && s.socket_ready

-- a < b, for time points.
abbrev pub before : TimePoint → Millis → Bool
before pos_infin now = false
before (at t) now = ltb t now

unfoldable pub next_generation : ℕ → ℕ
next_generation g = (g + 1) % uint64_mod

-- The constructor.
unfoldable pub init : Mode → (ℕ → SendEntry) → ℕ → List ℕ → Impl
init m heap next entries = record {
  mode = m;
  heap = heap;
  next_address = next;
  send_entries = entries;
  work_guard = true;
  socket = none;
  socket_ready = false;
  bound_path = [];
  receive_buffer = [];
  receive_sender_endpoint = [];
  next_heartbeat_deadline_timers = [];
  next_heartbeat_deadline_timers_generation = 0;
  send_invoker = pos_infin;
  send_deadline = pos_infin;
  io_ctx = [];
  pending = [];
  cancelled = record { of_socket = false; of_send_invoker = false; of_send_deadline = false };
  dispatcher = [];
  signals = [];
  files = [];
}
