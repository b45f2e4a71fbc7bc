-- ===== src/ClientImpl/Connecting.antt =====
-- client_impl.hpp, async_connect: what an attempt to connect reports and leaves behind.
use mathlib.Core.List.{append-nil, append_assoc}
use cpp_local_datagram.Base.{
  ℕ, ◌≡◌, ◌≢◌, refl, ap, ◌∙◌, inl, inr, true, false, ◌||◌, Option, none, some, List, [], ◌∷◌, ◌++◌,
  arith, if◌then◌else◌, Bool-cases,
}
use cpp_local_datagram.Endpoint.{FilePath}
use cpp_local_datagram.BaseImpl.State.{
  Impl, removes, binds, ErrorCode, is_error, success, Millis, ConnectArgs, connect_to, Notice, emit,
  bind_failed, connected, connect_failed, enqueue_to_dispatcher, next_generation,
}
use cpp_local_datagram.BaseImpl.Socket.{run_close}
use cpp_local_datagram.BaseImpl.Send.{start_actors}
use cpp_local_datagram.BaseImpl.Send.Actors.{start_actors-Kept}
use cpp_local_datagram.BaseImpl.Session.{senders}
use cpp_local_datagram.BaseImpl.Session.Sender.{IsSending}
use cpp_local_datagram.BaseImpl.Session.Tasks.{start_actors-IsSending}
use cpp_local_datagram.ClientImpl.{
  ClientImpl, run_connect, handle_connect, on_base, stop_server_check, stop_client_socket_check,
  start_server_check, start_client_socket_check, peer_pid,
}

-- The report that ends an attempt before the connect operation, if there is one.
pub early_report : ErrorCode → ErrorCode → Option FilePath → List Notice
early_report open_error bind_error path =
    if is_error open_error then emit (connect_failed open_error) ∷ [] else elim path [
      | none ↦ []
      | some _ ↦ if is_error bind_error then emit (bind_failed bind_error) ∷ [] else []
    ]

-- The bound path after an attempt.
pub bound_after : ErrorCode → ErrorCode → Option FilePath → FilePath → FilePath
bound_after open_error bind_error none old = old
bound_after open_error bind_error (some path) old =
    if is_error open_error || is_error bind_error then old else path

-- An attempt to connect with no socket yet makes one that is not ready, and then does exactly one of
-- two things: it enqueues the report of the call that failed, or it starts the connect operation.
-- An attempt with a socket does nothing.
pub run_connect_outcome :
    (open_error bind_error : ErrorCode) (args : ConnectArgs) (s : Impl)
    → s.socket ≡ none
    → let t = run_connect open_error bind_error args s in
      let report = early_report open_error bind_error args.client_socket_file_path in
      (t.socket ≢ none)
      × (t.socket_ready ≡ false)
      × (t.dispatcher ≡ s.dispatcher ++ report)
      × (t.pending ≡ s.pending ++ (elim report [ [] ↦ connect_to args ∷ [] | _ ∷ _ ↦ [] ]))
      × (t.bound_path ≡ bound_after open_error bind_error args.client_socket_file_path s.bound_path)
      × (run_connect open_error bind_error args t ≡ t)
unfolding run_connect early_report bound_after
run_connect_outcome open_error bind_error args s e =
    ground (arith, append-nil s.dispatcher, append-nil s.pending)

-- The state in which handle_connect starts the actors.
unfoldable pub connected_base : Option ℕ → Impl → Impl
connected_base peer s =
    let ready = record s {
      socket_ready = true;
      next_heartbeat_deadline_timers_generation =
          next_generation s.next_heartbeat_deadline_timers_generation;
    } in
    enqueue_to_dispatcher (emit (connected (peer_pid peer ready))) ready

start_server_check-base :
    (i d : Option Millis) (k : ClientImpl) → (start_server_check i d k).base ≡ k.base
unfolding start_server_check
start_server_check-base none d k = refl
start_server_check-base (some i) d k = refl

start_client_socket_check-base :
    (p : Option FilePath) (i : Option Millis) (k : ClientImpl)
    → (start_client_socket_check p i k).base ≡ k.base
unfolding start_client_socket_check
start_client_socket_check-base none i k = refl
start_client_socket_check-base (some p) none k = refl
start_client_socket_check-base (some p) (some i) k = refl

pub handle_connect-base :
    (now : Millis) (c : ErrorCode) (peer : Option ℕ) (args : ConnectArgs) (k : ClientImpl)
    → is_error c ≡ false
    → (handle_connect now c peer args k).base ≡ start_actors now (connected_base peer k.base)
unfolding handle_connect connected_base stop_server_check stop_client_socket_check
handle_connect-base now c peer args k e = rw e (
    ap (λ b. start_actors now (enqueue_to_dispatcher (emit (connected (peer_pid peer b))) b))
      (start_client_socket_check-base args.client_socket_file_path _ _
        ∙ start_server_check-base args.server_check_interval args.next_heartbeat_deadline _))

-- A connect operation that completes is reported once: as connected, with the peer that was found,
-- and the socket is ready, or as failed, and nothing else changes.
handle_connect_outcome :
    (now : Millis) (c : ErrorCode) (peer : Option ℕ) (args : ConnectArgs) (k : ClientImpl)
    → let t = (handle_connect now c peer args k).base in
      (t.dispatcher
        ≡ k.base.dispatcher
          ++ emit (if is_error c then connect_failed c else connected (peer_pid peer k.base)) ∷ [])
      × (t.socket_ready ≡ (if is_error c then k.base.socket_ready else true))
      × (t.send_entries ≡ k.base.send_entries)
      × (t.bound_path ≡ k.base.bound_path)
unfolding handle_connect connected_base enqueue_to_dispatcher peer_pid
handle_connect_outcome now c peer args k = elim (Bool-cases (is_error c)) [
  | inl e ↦ rw e (refl, refl, refl, refl)
  | inr e ↦
      let kept = start_actors-Kept now (connected_base peer k.base) in
      rw (handle_connect-base now c peer args k e, e)
        (kept.dispatcher, kept.socket_ready, kept.send_entries, kept.bound_path)
]

-- A client that has bound its own socket file and then cannot connect leaves the file behind: the
-- close that follows forgets the socket, but does not remove the file.
pub failed_connect_leaves_file :
    (now : Millis) (c : ErrorCode) (peer : Option ℕ) (args : ConnectArgs) (path : FilePath)
    (k : ClientImpl)
    → k.base.socket ≡ none
    → args.client_socket_file_path ≡ some path
    → is_error c ≡ true
    → let attempt = on_base (run_connect success success args) k in
      let t = run_close (handle_connect now c peer args attempt).base in
      (t.socket ≡ none)
      × (t.bound_path ≡ path)
      × (t.files ≡ k.base.files ++ removes path ∷ binds path ∷ [])
unfolding handle_connect on_base enqueue_to_dispatcher run_close run_connect
failed_connect_leaves_file now c peer args path k e p h =
    ground (arith, append_assoc k.base.files (removes path ∷ []) (binds path ∷ []))

-- A client whose connect operation succeeds, when no operation of its sender is left from an earlier
-- connection, has its sender in order from the start.
handle_connect-IsSending :
    (now : Millis) (c : ErrorCode) (peer : Option ℕ) (args : ConnectArgs) (k : ClientImpl)
    → is_error c ≡ false
    → senders k.base.pending ≡ []
    → IsSending (handle_connect now c peer args k).base
unfolding connected_base enqueue_to_dispatcher
handle_connect-IsSending now c peer args k e alone =
    rw (handle_connect-base now c peer args k e)
      (start_actors-IsSending now (connected_base peer k.base) alone)
