-- ===== src/ServerImpl/Session.antt =====
-- server_impl.hpp: the steps of an object over its life, and where each callback is.
use cpp_local_datagram.Base.{
  ◌≡◌, refl, sym, ap, subst, ◌∙◌, Bool, true, false, Option, none, some, List, [], ◌∷◌, arith,
  if◌then◌else◌,
}
use cpp_local_datagram.Endpoint.{FilePath}
use cpp_local_datagram.Memcpy.{ByteOrder}
use cpp_local_datagram.BaseImpl.State.{
  Impl, ErrorCode, is_error, Millis, Task, bind, check_socket, reset_check_client, close,
  reset_work_guard, BindArgs, emit, bind_failed, bound, remove_file, bind_file,
}
use cpp_local_datagram.BaseImpl.Socket.{terminate, async_close, set_socket_options}
use cpp_local_datagram.BaseImpl.Send.Queued.{lasting, pushing}
use cpp_local_datagram.BaseImpl.Send.Callbacks.{
  Balanced, Balanced-of_eq, Balanced-refl, Balanced-trans, post-Balanced, tell-Balanced,
}
use cpp_local_datagram.BaseImpl.Send.Waiting.{called}
use cpp_local_datagram.BaseImpl.Session.{Step}
use cpp_local_datagram.BaseImpl.Session.Accounts.{Step-Settled}
use cpp_local_datagram.BaseImpl.Session.Idle.{is_opening}
use cpp_local_datagram.BaseImpl.Session.Balances.{
  given, Settled, Settled-Balanced, tasks-Settled, Balanced-Settled, tasks-Balanced,
  start_actors-Balanced,
}
use cpp_local_datagram.ClientImpl.{Started}
use cpp_local_datagram.ServerImpl.{
  ServerImpl, on_base, run_bind, new_socket, bound_base, start_server_check, check_server,
  on_check_connected, on_check_connect_failed, run_reset_check_client, server_check_ticks,
}

-- The closure at the front of the queue of `io_ctx_` has been taken out of it.
abbrev pub taken : List Task → ServerImpl → ServerImpl
taken ts k = record k { base = record k.base { io_ctx = ts } }

-- What happens to a server_impl, calls of async_send apart. Its socket is opened by the closure of
-- async_bind only.
pub data ImplStep (order : ByteOrder) (k : ServerImpl) : ServerImpl → Type 0 where
  steps :
      {t : Impl} (st : Step order k.base t)
      → is_opening st ≡ false
      → given st ≡ []
      → ImplStep order k (record k { base = t })
  binds :
      (now : Millis) (open_error bind_error : ErrorCode) (args : BindArgs) (ts : List Task)
      → k.base.io_ctx ≡ bind args ∷ ts
      → ImplStep order k (run_bind now open_error bind_error args (taken ts k))
  -- The server check and its client.
  check_ticks :
      (t : Started FilePath)
      → k.server_check_timer ≡ some t
      → ImplStep order k (server_check_ticks t k)
  checks :
      (path : FilePath) (ts : List Task)
      → k.base.io_ctx ≡ check_socket path ∷ ts
      → ImplStep order k (check_server path (taken ts k))
  check_connects : ImplStep order k (on_check_connected k)
  check_fails : ImplStep order k (on_check_connect_failed k)
  resets_check :
      (ts : List Task)
      → k.base.io_ctx ≡ reset_check_client ∷ ts
      → ImplStep order k (run_reset_check_client (taken ts k))
  -- The destructor, up to the wait for the thread.
  terminates : ImplStep order k (record k { base = terminate k.base })

pub check_server-base : (path : FilePath) (k : ServerImpl) → (check_server path k).base ≡ k.base
unfolding check_server
check_server-base path k = ground arith

set_socket_options-Balanced : (n : _) (s : Impl) → Balanced s (set_socket_options n s)
unfolding set_socket_options
set_socket_options-Balanced n s =
    Balanced-of_eq (ground arith) (ground arith) (ap called (ground arith)) (ground arith)
      (ap lasting (ground arith)) (ground arith)

taken-Balanced :
    (t : Task) (ts : List Task) (s : Impl)
    → lasting (t ∷ ts) ≡ lasting ts
    → s.io_ctx ≡ t ∷ ts
    → Balanced s (record s { io_ctx = ts })
taken-Balanced t ts s same e = tasks-Balanced ts s (sym same ∙ sym (ap lasting e))

start_server_check-Balanced :
    (p : FilePath) (i : Option Millis) (k : ServerImpl)
    → Balanced k.base (start_server_check p i k).base
unfolding start_server_check
start_server_check-Balanced p none k = Balanced-refl k.base
start_server_check-Balanced p (some i) k = Balanced-refl k.base

if-base :
    {s : Impl} (b : Bool) (k m : ServerImpl)
    → Balanced s k.base
    → Balanced s m.base
    → Balanced s (if b then k else m).base
if-base true k m p q = p
if-base false k m p q = q

pub run_bind-Balanced :
    (now : Millis) (oe be : ErrorCode) (args : BindArgs) (k : ServerImpl)
    → Balanced k.base (run_bind now oe be args k).base
unfolding run_bind on_base new_socket bound_base bind_file remove_file called
run_bind-Balanced now oe be args k =
    let opened = on_base (new_socket args) k in
    let ready =
      on_base (λ s. bind_file args.server_socket_file_path (set_socket_options args.buffer_size s))
        opened in
    let opening : Balanced k.base opened.base = Balanced-of_eq refl refl refl refl refl refl in
    let set = Balanced-trans opening (
      Balanced-trans (set_socket_options-Balanced args.buffer_size opened.base)
        (Balanced-of_eq refl refl refl refl refl refl)) in
    if-base (is_error oe) _ _
      (Balanced-trans opening (tell-Balanced (emit (bind_failed oe)) _ refl))
      (if-base (is_error be) _ _ (Balanced-trans set (tell-Balanced (emit (bind_failed be)) _ refl))
        (Balanced-trans set (
          Balanced-trans (Balanced-of_eq refl refl refl refl refl refl) (
            Balanced-trans
              (start_server_check-Balanced args.server_socket_file_path args.server_check_interval
                (on_base (bound_base args) ready))
              (Balanced-trans (tell-Balanced (emit bound) _ refl) (start_actors-Balanced now _))))))

pub ImplStep-Settled :
    (order : ByteOrder) {k m : ServerImpl} → ImplStep order k m → Settled [] k.base m.base
unfolding server_check_ticks on_check_connected on_check_connect_failed run_reset_check_client
    on_base terminate async_close pushing lasting
ImplStep-Settled order {k} (steps {t} st not_opening none_given) =
    subst (λ is. Settled is k.base t) none_given (Step-Settled order st)
ImplStep-Settled order {k} (binds now oe be args ts e) =
    Settled-Balanced (tasks-Settled ts k.base (sym (ap pushing e)))
      (run_bind-Balanced now oe be args _)
ImplStep-Settled order {k} (check_ticks t e) =
    Balanced-Settled (post-Balanced (check_socket t.captured) k.base refl)
ImplStep-Settled order {k} (checks path ts e) =
    subst (Settled [] k.base) (sym (check_server-base path (taken ts k)))
      (Balanced-Settled (taken-Balanced (check_socket path) ts k.base refl e))
ImplStep-Settled order {k} check_connects =
    Balanced-Settled (post-Balanced reset_check_client k.base refl)
ImplStep-Settled order {k} check_fails = Balanced-Settled (post-Balanced close k.base refl)
ImplStep-Settled order {k} (resets_check ts e) =
    Balanced-Settled (taken-Balanced reset_check_client ts k.base refl e)
ImplStep-Settled order {k} terminates =
    Balanced-Settled
      (Balanced-trans (post-Balanced close k.base refl) (post-Balanced reset_work_guard _ refl))
