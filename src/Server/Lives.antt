-- ===== src/Server/Lives.antt =====
-- server.hpp: the steps of a server over the lives of its server_impls, in any order that the threads may
-- choose.
pub mod Accounts
pub mod Conservation
pub mod Ordering
use cpp_local_datagram.Base.{ℕ, ◌≡◌, Option, none, some, List, [], ◌∷◌, ◌++◌}
use cpp_local_datagram.Endpoint.{FilePath, Endpoint}
use cpp_local_datagram.Memcpy.{ByteOrder}
use cpp_local_datagram.SendEntry.{Processed, Pointer}
use cpp_local_datagram.BaseImpl.State.{Impl, ErrorCode, Millis, Signal}
use cpp_local_datagram.BaseImpl.Send.Waiting.{callback}
use cpp_local_datagram.ServerImpl.{ServerImpl}
use cpp_local_datagram.Books.{Books, gather}
use cpp_local_datagram.Books.Moves.{handed}
use cpp_local_datagram.ServerImpl.Session.{ImplStep}
use cpp_local_datagram.Server.{
  Server, ServerTask, bind, stop, start_timer, send, call_processed, emit, make_server,
  set_server_check_interval, set_reconnect_interval, async_start, async_stop, async_send_vector,
  async_send_pointer, run_send, run_bind, run_stop, run_start_timer, reconnect_timer_ticks,
  on_signal, on_bind_failed, on_closed,
}

-- A server, and the callbacks that have been called by it or handed to the dispatcher by a server_impl
-- that is gone.
pub record Life : Type 0 where
  pub server : Server
  pub reported : List ℕ

abbrev pub new_life : FilePath → ℕ → Life
new_life path buffer_size = record { server = make_server path buffer_size; reported = [] }

abbrev pub handed_of : Option ServerImpl → List ℕ
handed_of none = []
handed_of (some k) = handed k.base

-- The destructor has waited for the thread, which has run all that was posted.
abbrev pub IsJoined : Option ServerImpl → Type 0
IsJoined none = Unit {0}
IsJoined (some k) = k.base.io_ctx ≡ []

abbrev pub taken : List ServerTask → Server → Server
taken ts s = record s { tasks = ts }

-- `f` ends the life of the server_impl, if there is one.
abbrev pub ending : (Server → Server) → Life → Life
ending f l = record { server = f l.server; reported = l.reported ++ handed_of l.server.server_impl }

pub data LifeStep (order : ByteOrder) (l : Life) : Life → Type 0 where
  -- Calls from other threads.
  sets_check_interval :
      (value : Option Millis)
      → LifeStep order l (record l { server = set_server_check_interval value l.server })
  sets_reconnect_interval :
      (value : Option Millis)
      → LifeStep order l (record l { server = set_reconnect_interval value l.server })
  starts : LifeStep order l (record l { server = async_start l.server })
  stops : LifeStep order l (record l { server = async_stop l.server })
  sends :
      (v : List ℕ) (destination : Endpoint) (p : Processed)
      → LifeStep order l (record l { server = async_send_vector v destination p l.server })
  sends_pointer :
      (v : Pointer) (len : ℕ) (destination : Endpoint) (p : Processed)
      → LifeStep order l (record l { server = async_send_pointer v len destination p l.server })
  -- Closures of the dispatcher. A delayed one runs later than those behind it.
  runs_bind :
      (before after : List ServerTask)
      → l.server.tasks ≡ before ++ bind ∷ after
      → LifeStep order l (record l { server = run_bind (taken (before ++ after) l.server) })
  runs_stop :
      (before after : List ServerTask)
      → l.server.tasks ≡ before ++ stop ∷ after
      → IsJoined l.server.server_impl
      → LifeStep order l (ending (λ s. run_stop (taken (before ++ after) s)) l)
  runs_start_timer :
      (t : Server) (time : Millis) (before after : List ServerTask)
      → l.server.tasks ≡ before ++ start_timer time ∷ after
      → run_start_timer (taken (before ++ after) l.server) ≡ some t
      → LifeStep order l (record l { server = t })
  runs_send :
      (i : ℕ) (before after : List ServerTask)
      → l.server.tasks ≡ before ++ send i ∷ after
      → LifeStep order l (record l { server = run_send i (taken (before ++ after) l.server) })
  runs_processed :
      (f : ℕ) (before after : List ServerTask)
      → l.server.tasks ≡ before ++ call_processed f ∷ after
      → LifeStep order l
          (record { server = taken (before ++ after) l.server; reported = l.reported ++ f ∷ [] })
  runs_emit :
      (x : Signal) (before after : List ServerTask)
      → l.server.tasks ≡ before ++ emit x ∷ after
      → LifeStep order l (record l { server = taken (before ++ after) l.server })
  ticks :
      (interval : Millis)
      → l.server.reconnect_timer ≡ some interval
      → LifeStep order l (record l { server = reconnect_timer_ticks l.server })
  -- The server_impl, and the slots connected to its signals.
  works :
      (k m : ServerImpl)
      → l.server.server_impl ≡ some k
      → ImplStep order k m
      → LifeStep order l (record l { server = record l.server { server_impl = some m } })
  passes_on : (x : Signal) → LifeStep order l (record l { server = on_signal x l.server })
  bind_fails :
      (now : Millis) (c : ErrorCode)
      → IsJoined l.server.server_impl
      → LifeStep order l (ending (on_bind_failed now c) l)
  closes :
      (now : Millis) → IsJoined l.server.server_impl → LifeStep order l (ending (on_closed now) l)

pub data Lives (order : ByteOrder) (l : Life) : Life → Type 0 where
  here : Lives order l l
  next : {m n : Life} → Lives order l m → LifeStep order m n → Lives order l n

-- The callbacks that are given to async_send.
abbrev pub asked : {order : ByteOrder} {l m : Life} → LifeStep order l m → List ℕ
asked (sends v destination p) = callback p
asked (sends_pointer v len destination p) = callback p
asked _ = []

unfoldable pub all_asked : {order : ByteOrder} {l m : Life} → Lives order l m → List ℕ
all_asked here = []
all_asked (next r st) = all_asked r ++ asked st

-- Where the callbacks of a server are.
abbrev pub base_of : Option ServerImpl → Option Impl
base_of none = none
base_of (some k) = some k.base

abbrev pub callback_of : ServerTask → List ℕ
callback_of (call_processed f) = f ∷ []
callback_of _ = []

abbrev pub entry_of : ServerTask → List ℕ
entry_of (send i) = i ∷ []
entry_of _ = []

abbrev pub books : Life → Books
books l = record {
  reported = l.reported;
  calling = gather callback_of l.server.tasks;
  sending = gather entry_of l.server.tasks;
  impl = base_of l.server.server_impl;
  heap = l.server.heap;
  next_address = l.server.next_address;
  queue = l.server.server_send_entries;
}
