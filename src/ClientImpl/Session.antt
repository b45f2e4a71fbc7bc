-- ===== src/ClientImpl/Session.antt =====
-- client_impl.hpp: the steps of an object over its life, and where each callback is.
use cpp_local_datagram.Base.{
  ℕ, ◌≡◌, refl, sym, ap, subst, ◌∙◌, inl, inr, Bool-cases, false, Option, none, some, List, [], ◌∷◌,
  ◌++◌, arith,
}
use cpp_local_datagram.Endpoint.{FilePath}
use cpp_local_datagram.Memcpy.{ByteOrder}
use cpp_local_datagram.BaseImpl.State.{
  Impl, bind_file, Socket, ErrorCode, is_error, Millis, Task, connect, send_heartbeat, check_socket,
  reset_check_client, close, reset_work_guard, ConnectArgs, Op, connect_to, emit, bind_failed,
  connect_failed, connected, is_open, start,
}
use cpp_local_datagram.BaseImpl.Socket.{terminate, async_close, set_socket_options}
use cpp_local_datagram.BaseImpl.Send.{start_actors}
use cpp_local_datagram.BaseImpl.Send.Queued.{lasting, pushing}
use cpp_local_datagram.BaseImpl.Send.Callbacks.{
  Balanced, Balanced-of_eq, Balanced-refl, Balanced-trans, post-Balanced, tell-Balanced,
  if-Balanced,
}
use cpp_local_datagram.BaseImpl.Send.Waiting.{called}
use cpp_local_datagram.BaseImpl.Session.Advances.{
  Advances, Settled-Advances, Advances-trans, Balanced-Advances, make_shared-Advances,
}
use cpp_local_datagram.BaseImpl.Session.{Step}
use cpp_local_datagram.BaseImpl.Session.Accounts.{Step-Settled}
use cpp_local_datagram.BaseImpl.Session.Idle.{is_opening}
use cpp_local_datagram.BaseImpl.Session.Balances.{
  given, Settled, Settled-Balanced, tasks-Settled, tasks-Balanced, start_actors-Balanced,
  pending-Balanced,
}
use cpp_local_datagram.ClientImpl.{
  Started, ClientImpl, on_base, run_connect, handle_connect, check_server, heartbeat_entry,
  send_new, server_check_ticks, client_socket_check_ticks, check_client_socket, on_check_connected,
  on_check_connect_failed, run_reset_check_client, remove_client_socket_file, bind_and_connect,
  open_and_bind, peer_pid,
}
use cpp_local_datagram.ClientImpl.Connecting.{connected_base, handle_connect-base}

-- The closure at the front of the queue of `io_ctx_` has been taken out of it.
abbrev pub taken : List Task → ClientImpl → ClientImpl
taken ts k = record k { base = record k.base { io_ctx = ts } }

-- What happens to a client_impl, calls of async_send and async_connect apart. Its socket is opened when a
-- connect operation has succeeded.
pub data ImplStep (order : ByteOrder) (k : ClientImpl) : ClientImpl → Type 0 where
  steps :
      {t : Impl} (st : Step order k.base t)
      → is_opening st ≡ false
      → given st ≡ []
      → ImplStep order k (record k { base = t })
  connects :
      (open_error bind_error : ErrorCode) (args : ConnectArgs) (ts : List Task)
      → k.base.io_ctx ≡ connect args ∷ ts
      → ImplStep order k (on_base (run_connect open_error bind_error args) (taken ts k))
  is_connected :
      (now : Millis) (c : ErrorCode) (peer : Option ℕ) (args : ConnectArgs) (before after : List Op)
      → k.base.pending ≡ before ++ connect_to args ∷ after
      → ImplStep order k
          (handle_connect now c peer args (on_base (λ s. record s { pending = before ++ after }) k))
  -- The server check, which sends heartbeats.
  server_ticks :
      (t : Started (Option Millis))
      → k.server_check_timer ≡ some t
      → ImplStep order k (server_check_ticks t k)
  heartbeats :
      (deadline : Option Millis) (ts : List Task)
      → k.base.io_ctx ≡ send_heartbeat deadline ∷ ts
      → ImplStep order k (check_server order deadline (taken ts k))
  -- The check of the client's socket, and its client.
  socket_ticks :
      (t : Started FilePath)
      → k.client_socket_check_timer ≡ some t
      → ImplStep order k (client_socket_check_ticks t k)
  checks :
      (path : FilePath) (ts : List Task)
      → k.base.io_ctx ≡ check_socket path ∷ ts
      → ImplStep order k (check_client_socket path (taken ts k))
  check_connects : ImplStep order k (on_check_connected k)
  check_fails : ImplStep order k (on_check_connect_failed k)
  resets_check :
      (ts : List Task)
      → k.base.io_ctx ≡ reset_check_client ∷ ts
      → ImplStep order k (run_reset_check_client (taken ts k))
  -- The destructor, up to the wait for the thread.
  terminates : ImplStep order k (record k { base = terminate k.base })

taken-Balanced :
    (t : Task) (ts : List Task) (s : Impl)
    → lasting (t ∷ ts) ≡ lasting ts
    → s.io_ctx ≡ t ∷ ts
    → Balanced s (record s { io_ctx = ts })
taken-Balanced t ts s same e = tasks-Balanced ts s (sym same ∙ sym (ap lasting e))

set_socket_options-Balanced : (n : _) (s : Impl) → Balanced s (set_socket_options n s)
unfolding set_socket_options
set_socket_options-Balanced n s =
    Balanced-of_eq (ground arith) (ground arith) (ap called (ground arith)) (ground arith)
      (ap lasting (ground arith)) (ground arith)

remove-Balanced :
    (path : Option FilePath) (s : Impl) → Balanced s (remove_client_socket_file path s)
unfolding remove_client_socket_file
remove-Balanced none s = Balanced-refl s
remove-Balanced (some path) s = Balanced-of_eq refl refl refl refl refl refl

bind_and_connect-Balanced :
    (be : ErrorCode) (args : ConnectArgs) (path : Option FilePath) (s : Impl)
    → Balanced s (bind_and_connect be args path s)
unfolding bind_and_connect bind_file start called
bind_and_connect-Balanced be args none s = Balanced-of_eq refl refl refl refl refl refl
bind_and_connect-Balanced be args (some path) s =
    if-Balanced (is_error be)
      (Balanced-trans (Balanced-of_eq refl refl refl refl refl refl)
        (tell-Balanced (emit (bind_failed be)) _ refl))
      (Balanced-of_eq refl refl refl refl refl refl)

open_and_bind-Balanced :
    (oe be : ErrorCode) (args : ConnectArgs) (s : Impl) → Balanced s (open_and_bind oe be args s)
unfolding open_and_bind called
open_and_bind-Balanced oe be args s =
    if-Balanced (is_error oe) (tell-Balanced (emit (connect_failed oe)) s refl) (
      Balanced-trans (set_socket_options-Balanced args.buffer_size s)
        (bind_and_connect-Balanced be args args.client_socket_file_path _))

run_connect-Balanced :
    (oe be : ErrorCode) (args : ConnectArgs) (o : Option Socket) (s : Impl)
    → let t = record s { socket = o } in Balanced t (run_connect oe be args t)
unfolding run_connect
run_connect-Balanced oe be args (some x) s = Balanced-refl _
run_connect-Balanced oe be args none s =
    Balanced-trans (Balanced-of_eq refl refl refl refl refl refl) (
      Balanced-trans (remove-Balanced args.client_socket_file_path _)
        (open_and_bind-Balanced oe be args _))

connected-Balanced :
    (now : Millis) (peer : Option ℕ) (s : Impl)
    → Balanced s (start_actors now (connected_base peer s))
unfolding connected_base called
connected-Balanced now peer s = Balanced-trans (Balanced-of_eq refl refl refl refl refl refl) (
    Balanced-trans (tell-Balanced (emit (connected (peer_pid peer _))) _ refl)
      (start_actors-Balanced now _))

handle_connect-Balanced :
    (now : Millis) (c : ErrorCode) (peer : Option ℕ) (args : ConnectArgs) (k : ClientImpl)
    → Balanced k.base (handle_connect now c peer args k).base
unfolding handle_connect on_base called
handle_connect-Balanced now c peer args k = elim (Bool-cases (is_error c)) [
  | inl e ↦ rw e (tell-Balanced (emit (connect_failed c)) k.base refl)
  | inr e ↦
      subst (Balanced k.base) (sym (handle_connect-base now c peer args k e))
        (connected-Balanced now peer k.base)
]

pub check_client_socket-base :
    (path : FilePath) (k : ClientImpl) → (check_client_socket path k).base ≡ k.base
unfolding check_client_socket
check_client_socket-base path k = ground arith

check_server-Advances :
    (order : ByteOrder) (deadline : Option Millis) (k : ClientImpl)
    → Advances k.base (check_server order deadline k).base
unfolding check_server on_base heartbeat_entry send_new
check_server-Advances order deadline k = elim (Bool-cases (is_open k.base)) [
  | inl e ↦ rw e (make_shared-Advances (heartbeat_entry order deadline) k.base refl)
  | inr e ↦ rw e (Balanced-Advances (Balanced-refl k.base))
]

-- Whatever happens to a client_impl, no callback is lost or called twice.
pub ImplStep-Advances :
    (order : ByteOrder) {k m : ClientImpl} → ImplStep order k m → Advances k.base m.base
unfolding server_check_ticks client_socket_check_ticks on_check_connected on_check_connect_failed
    run_reset_check_client on_base terminate async_close pushing lasting
ImplStep-Advances order {k} (steps {t} st not_opening none_given) =
    Settled-Advances (subst (λ is. Settled is k.base t) none_given (Step-Settled order st))
ImplStep-Advances order {k} (connects oe be args ts e) = Settled-Advances (
    Settled-Balanced (tasks-Settled ts k.base (sym (ap pushing e)))
      (run_connect-Balanced oe be args k.base.socket (record k.base { io_ctx = ts })))
ImplStep-Advances order {k} (is_connected now c peer args earlier later e) = Balanced-Advances (
    Balanced-trans (pending-Balanced (earlier ++ later) k.base)
      (handle_connect-Balanced now c peer args _))
ImplStep-Advances order {k} (server_ticks t e) =
    Balanced-Advances (post-Balanced (send_heartbeat t.captured) k.base refl)
ImplStep-Advances order {k} (heartbeats deadline ts e) =
    Advances-trans (Balanced-Advances (taken-Balanced (send_heartbeat deadline) ts k.base refl e))
      (check_server-Advances order deadline (taken ts k))
ImplStep-Advances order {k} (socket_ticks t e) =
    Balanced-Advances (post-Balanced (check_socket t.captured) k.base refl)
ImplStep-Advances order {k} (checks path ts e) =
    subst (Advances k.base) (sym (check_client_socket-base path (taken ts k)))
      (Balanced-Advances (taken-Balanced (check_socket path) ts k.base refl e))
ImplStep-Advances order {k} check_connects =
    Balanced-Advances (post-Balanced reset_check_client k.base refl)
ImplStep-Advances order {k} check_fails = Balanced-Advances (post-Balanced close k.base refl)
ImplStep-Advances order {k} (resets_check ts e) =
    Balanced-Advances (taken-Balanced reset_check_client ts k.base refl e)
ImplStep-Advances order {k} terminates =
    Balanced-Advances
      (Balanced-trans (post-Balanced close k.base refl) (post-Balanced reset_work_guard _ refl))
