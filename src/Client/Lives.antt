-- ===== src/Client/Lives.antt =====
-- client.hpp: the steps of a client and its client_impl, in any order that the threads may choose.
pub mod Accounts
pub mod Conservation
pub mod Stopped
use cpp_local_datagram.Base.{ℕ, ◌≡◌, Option, none, some, List, [], ◌∷◌, ◌++◌}
use cpp_local_datagram.Endpoint.{FilePath}
use cpp_local_datagram.Memcpy.{ByteOrder}
use cpp_local_datagram.SendEntry.{Processed, Pointer}
use cpp_local_datagram.BaseImpl.State.{Impl, ErrorCode, Millis, Signal}
use cpp_local_datagram.BaseImpl.Send.Waiting.{callback}
use cpp_local_datagram.ClientImpl.{ClientImpl}
use cpp_local_datagram.ClientImpl.Session.{ImplStep}
use cpp_local_datagram.Books.{Books, gather}
use cpp_local_datagram.Books.Moves.{handed}
use cpp_local_datagram.Client.{
  Client, ClientTask, connect, stop, start_timer, send, call_processed, emit, make_client,
  set_server_check_interval, set_next_heartbeat_deadline, set_client_socket_check_interval,
  set_reconnect_interval, set_server_socket_file_path_resolver, async_start, async_stop,
  async_send_vector, async_send_pointer, run_send, run_connect, run_stop, run_start_timer,
  reconnect_timer_ticks, on_signal, on_connect_failed, on_closed,
}

-- A client, what its member client_send_entries_ holds once the client_impl, whose base works on that queue
-- before, is gone, and
-- the callbacks that have been called by the client or handed to the dispatcher by that client_impl.
pub record Life : Type 0 where
  pub client : Client
  pub client_send_entries : List ℕ
  pub reported : List ℕ

abbrev pub new_life : FilePath → Option FilePath → ℕ → Life
new_life server_path client_path buffer_size = record {
  client = make_client server_path client_path buffer_size;
  client_send_entries = [];
  reported = [];
}

-- The destructor has waited for the thread, which has run all that was posted.
abbrev pub IsJoined : Option ClientImpl → Type 0
IsJoined none = Unit {0}
IsJoined (some k) = k.base.io_ctx ≡ []

abbrev pub taken : List ClientTask → Client → Client
taken ts c = record c { tasks = ts }

abbrev pub on_client : (Client → Client) → Life → Life
on_client f l = record l { client = f l.client }

-- What is left when stop() destroys the client_impl, if there is one.
abbrev pub left_by : Option ClientImpl → Life → Life
left_by none l = l
left_by (some k) l = record l {
  client_send_entries = k.base.send_entries;
  reported = l.reported ++ handed k.base;
}

pub data LifeStep (order : ByteOrder) (l : Life) : Life → Type 0 where
  -- Calls from other threads.
  sets_check_interval :
      (value : Option Millis) → LifeStep order l (on_client (set_server_check_interval value) l)
  sets_heartbeat_deadline :
      (value : Option Millis) → LifeStep order l (on_client (set_next_heartbeat_deadline value) l)
  sets_socket_check_interval :
      (value : Option Millis)
      → LifeStep order l (on_client (set_client_socket_check_interval value) l)
  sets_reconnect_interval :
      (value : Option Millis) → LifeStep order l (on_client (set_reconnect_interval value) l)
  sets_resolver :
      (value : Option FilePath)
      → LifeStep order l (on_client (set_server_socket_file_path_resolver value) l)
  starts : LifeStep order l (on_client async_start l)
  stops : LifeStep order l (on_client async_stop l)
  sends : (v : List ℕ) (p : Processed) → LifeStep order l (on_client (async_send_vector v p) l)
  sends_pointer :
      (v : Pointer) (len : ℕ) (p : Processed)
      → LifeStep order l (on_client (async_send_pointer v len p) l)
  -- Closures of the dispatcher. A delayed one runs later than those behind it.
  runs_connect :
      (before after : List ClientTask)
      → l.client.tasks ≡ before ++ connect ∷ after
      → LifeStep order l (on_client (λ c. run_connect (taken (before ++ after) c)) l)
  runs_stop :
      (before after : List ClientTask)
      → l.client.tasks ≡ before ++ stop ∷ after
      → IsJoined l.client.client_impl
      → LifeStep order l (
          on_client run_stop (left_by l.client.client_impl (on_client (taken (before ++ after)) l)))
  runs_start_timer :
      (d : Client) (time : Millis) (before after : List ClientTask)
      → l.client.tasks ≡ before ++ start_timer time ∷ after
      → run_start_timer (taken (before ++ after) l.client) ≡ some d
      → LifeStep order l (record l { client = d })
  runs_send :
      (i : ℕ) (before after : List ClientTask)
      → l.client.tasks ≡ before ++ send i ∷ after
      → LifeStep order l (on_client (λ c. run_send i (taken (before ++ after) c)) l)
  runs_processed :
      (f : ℕ) (before after : List ClientTask)
      → l.client.tasks ≡ before ++ call_processed f ∷ after
      → LifeStep order l
          (on_client (taken (before ++ after)) (record l { reported = l.reported ++ f ∷ [] }))
  runs_emit :
      (x : Signal) (before after : List ClientTask)
      → l.client.tasks ≡ before ++ emit x ∷ after
      → LifeStep order l (on_client (taken (before ++ after)) l)
  ticks :
      (interval : Millis)
      → l.client.reconnect_timer ≡ some interval
      → LifeStep order l (on_client reconnect_timer_ticks l)
  -- The client_impl, and the slots connected to its signals.
  works :
      (k m : ClientImpl)
      → l.client.client_impl ≡ some k
      → ImplStep order k m
      → LifeStep order l (on_client (λ c. record c { client_impl = some m }) l)
  passes_on : (x : Signal) → LifeStep order l (on_client (on_signal x) l)
  connect_fails :
      (now : Millis) (c : ErrorCode) → LifeStep order l (on_client (on_connect_failed now c) l)
  closes : (now : Millis) → LifeStep order l (on_client (on_closed now) l)

pub data Lives (order : ByteOrder) (l : Life) : Life → Type 0 where
  here : Lives order l l
  next : {m n : Life} → Lives order l m → LifeStep order m n → Lives order l n

-- The callbacks that are given to async_send.
abbrev pub asked : {order : ByteOrder} {l m : Life} → LifeStep order l m → List ℕ
asked (sends v p) = callback p
asked (sends_pointer v len p) = callback p
asked _ = []

unfoldable pub all_asked : {order : ByteOrder} {l m : Life} → Lives order l m → List ℕ
all_asked here = []
all_asked (next r st) = all_asked r ++ asked st

-- Where the callbacks of a client are.
abbrev pub base_of : Option ClientImpl → Option Impl
base_of none = none
base_of (some k) = some k.base

abbrev pub callback_of : ClientTask → List ℕ
callback_of (call_processed f) = f ∷ []
callback_of _ = []

abbrev pub entry_of : ClientTask → List ℕ
entry_of (send i) = i ∷ []
entry_of _ = []

abbrev pub books : Life → Books
books l = record {
  reported = l.reported;
  calling = gather callback_of l.client.tasks;
  sending = gather entry_of l.client.tasks;
  impl = base_of l.client.client_impl;
  heap = l.client.heap;
  next_address = l.client.next_address;
  queue = l.client_send_entries;
}
