-- ===== src/ServerImpl/Binding.antt =====
-- server_impl.hpp, async_bind: what an attempt to bind reports and leaves behind.
use mathlib.Core.List.{append_assoc}
use cpp_local_datagram.Base.{
  ◌≡◌, refl, sym, ap, ap₂, ◌∙◌, inl, inr, true, false, not, ◌||◌, Option, none, some, List, [], ◌∷◌,
  ◌++◌, arith, if◌then◌else◌, Bool-cases,
}
use cpp_local_datagram.Endpoint.{FilePath}
use cpp_local_datagram.BaseImpl.State.{
  Impl, FileCall, removes, binds, bind_file, ErrorCode, is_error, Millis, BindArgs, Notice, emit,
  clear_timers, bind_failed, bound, enqueue_to_dispatcher, is_open,
}
use cpp_local_datagram.BaseImpl.Socket.{set_socket_options, run_close}
use cpp_local_datagram.BaseImpl.Socket.Closing.{run_close_open, bound_files}
use cpp_local_datagram.BaseImpl.Send.{start_actors}
use cpp_local_datagram.BaseImpl.Send.Entries.{Kept}
use cpp_local_datagram.BaseImpl.Send.Actors.{start_actors-Kept}
use cpp_local_datagram.BaseImpl.Session.{senders}
use cpp_local_datagram.BaseImpl.Session.Sender.{IsSending}
use cpp_local_datagram.BaseImpl.Session.Tasks.{start_actors-IsSending}
use cpp_local_datagram.ServerImpl.{
  ServerImpl, run_bind, on_base, start_server_check, new_socket, bound_base,
}

-- The state in which run_bind starts the actors.
bound_server : BindArgs → Impl → Impl
bound_server args s = enqueue_to_dispatcher (emit bound) (
    bound_base args (
      bind_file args.server_socket_file_path
        (set_socket_options args.buffer_size (new_socket args s))))

start_server_check-base :
    (p : FilePath) (i : Option Millis) (k : ServerImpl) → (start_server_check p i k).base ≡ k.base
unfolding start_server_check
start_server_check-base p none k = refl
start_server_check-base p (some i) k = refl

run_bind-base :
    (now : Millis) (oe be : ErrorCode) (args : BindArgs) (k : ServerImpl)
    → is_error oe ≡ false
    → is_error be ≡ false
    → (run_bind now oe be args k).base ≡ start_actors now (bound_server args k.base)
unfolding run_bind bound_server on_base
run_bind-base now oe be args k h g =
    rw (h, g)
      (ap (λ b. start_actors now (enqueue_to_dispatcher (emit bound) b))
        (start_server_check-base args.server_socket_file_path args.server_check_interval _))

-- The report of an attempt to bind.
pub bind_report : ErrorCode → ErrorCode → Notice
bind_report oe be =
    emit (if is_error oe then bind_failed oe else if is_error be then bind_failed be else bound)

-- The calls for the file of the socket: bind is called unless the socket cannot be opened.
pub bind_calls : ErrorCode → FilePath → List FileCall
bind_calls oe path = removes path ∷ (if is_error oe then [] else binds path ∷ [])

-- An attempt to bind that fails.
pub run_bind_failed :
    (now : Millis) (oe be : ErrorCode) (args : BindArgs) (k : ServerImpl)
    → (is_error oe || is_error be) ≡ true
    → let t = (run_bind now oe be args k).base in
      (t.dispatcher ≡ k.base.dispatcher ++ bind_report oe be ∷ [])
      × (is_open t ≡ false)
      × (t.files ≡ k.base.files ++ bind_calls oe args.server_socket_file_path)
unfolding run_bind bind_report bind_calls bind_file on_base new_socket enqueue_to_dispatcher
    set_socket_options is_open
run_bind_failed now oe be args k h = ground (
  arith,
  append_assoc k.base.files (removes args.server_socket_file_path ∷ [])
      (binds args.server_socket_file_path ∷ []),
)

pub run_bind_failed-pending :
    (now : Millis) (oe be : ErrorCode) (args : BindArgs) (k : ServerImpl)
    → (is_error oe || is_error be) ≡ true
    → (run_bind now oe be args k).base.pending ≡ k.base.pending
unfolding run_bind on_base new_socket enqueue_to_dispatcher set_socket_options bind_file
run_bind_failed-pending now oe be args k h = ground arith

bound_server-facts :
    (args : BindArgs) (s : Impl)
    → let t = bound_server args s in
      (t.dispatcher ≡ s.dispatcher ++ emit bound ∷ [])
      × (is_open t ≡ true)
      × (t.files
          ≡ s.files
            ++ removes args.server_socket_file_path ∷ binds args.server_socket_file_path ∷ [])
      × (t.bound_path ≡ args.server_socket_file_path)
      × (t.pending ≡ s.pending)
unfolding bound_server bound_base bind_file new_socket enqueue_to_dispatcher set_socket_options
    is_open
bound_server-facts args s = ground (
  arith,
  append_assoc s.files (removes args.server_socket_file_path ∷ [])
      (binds args.server_socket_file_path ∷ []),
)

Kept-is_open : {s t : Impl} → Kept s t → is_open t ≡ is_open s
unfolding is_open
Kept-is_open k = ground arith

-- What holds once the server is bound.
record IsBound (args : BindArgs) (k : ServerImpl) (t : Impl) : Type 0 where
  opening : is_open t ≡ true
  reports : t.dispatcher ≡ k.base.dispatcher ++ emit bound ∷ []
  files :
      t.files
      ≡ k.base.files
        ++ removes args.server_socket_file_path ∷ binds args.server_socket_file_path ∷ []
  path : t.bound_path ≡ args.server_socket_file_path

run_bind-IsBound :
    (now : Millis) (oe be : ErrorCode) (args : BindArgs) (k : ServerImpl)
    → is_error oe ≡ false
    → is_error be ≡ false
    → IsBound args k (run_bind now oe be args k).base
run_bind-IsBound now oe be args k h g =
    let kept = start_actors-Kept now (bound_server args k.base) in
    let facts = bound_server-facts args k.base in
    rw (run_bind-base now oe be args k h g) (record {
      opening = Kept-is_open kept ∙ facts.1;
      reports = kept.dispatcher ∙ facts.0;
      files = kept.files ∙ facts.2;
      path = kept.bound_path ∙ facts.3;
    })

pub no_error :
    (oe be : ErrorCode)
    → (is_error oe || is_error be) ≡ false
    → (is_error oe ≡ false) × (is_error be ≡ false)
no_error oe be h = ground arith

bind_report-bound :
    (oe be : ErrorCode) → is_error oe ≡ false → is_error be ≡ false → bind_report oe be ≡ emit bound
unfolding bind_report
bind_report-bound oe be h g = rw (h, g)

-- However an attempt to bind goes, a file that stands at the path is removed, and then, unless the
-- socket cannot be opened, bind is called with the path; exactly one report is enqueued, `bind_failed` with the error of the call that failed or `bound`, and the socket is
-- open exactly if no call has failed.
pub run_bind_outcome :
    (now : Millis) (oe be : ErrorCode) (args : BindArgs) (k : ServerImpl)
    → let t = (run_bind now oe be args k).base in
      (t.dispatcher ≡ k.base.dispatcher ++ bind_report oe be ∷ [])
      × (is_open t ≡ not (is_error oe || is_error be))
      × (t.files ≡ k.base.files ++ bind_calls oe args.server_socket_file_path)
unfolding bind_calls
run_bind_outcome now oe be args k = elim (Bool-cases (is_error oe || is_error be)) [
  | inl failed ↦
      let f = run_bind_failed now oe be args k failed in (f.0, f.1 ∙ sym (ap not failed), f.2)
  | inr works ↦
      let (h, g) = no_error oe be works in
      let b = run_bind-IsBound now oe be args k h g in
      (
        b.reports ∙ ap (λ n. k.base.dispatcher ++ n ∷ []) (sym (bind_report-bound oe be h g)),
        b.opening ∙ sym (ap not works),
        rw h b.files,
      )
]

-- Of a server that is bound and then closed, the calls for its socket file are, in this order: the
-- removal of an old file, bind, and, unless the path is empty, the removal by the close. The close
-- reports `closed` after `bound`, leaves neither socket nor bound path, and closing again does nothing.
pub run_bind-run_close :
    (now : Millis) (oe be : ErrorCode) (args : BindArgs) (k : ServerImpl)
    → (is_error oe || is_error be) ≡ false
    → let t = run_close (run_bind now oe be args k).base in
      (t.files
        ≡ k.base.files
          ++ removes args.server_socket_file_path
            ∷ binds args.server_socket_file_path
            ∷ bound_files args.server_socket_file_path)
      × (t.dispatcher ≡ k.base.dispatcher ++ emit bound ∷ clear_timers ∷ [])
      × (t.socket ≡ none)
      × (t.bound_path ≡ [])
      × (run_close t ≡ t)
run_bind-run_close now oe be args k h =
    let (p, q) = no_error oe be h in
    let b = run_bind-IsBound now oe be args k p q in
    let c = run_close_open (run_bind now oe be args k).base b.opening in
    (
      c.5
          ∙ ap₂ (λ fs p. fs ++ bound_files p) b.files b.path
          ∙ append_assoc k.base.files
              (removes args.server_socket_file_path ∷ binds args.server_socket_file_path ∷ []) _,
      c.7
          ∙ ap (λ ns. ns ++ clear_timers ∷ []) b.reports
          ∙ append_assoc k.base.dispatcher (emit bound ∷ []) _,
      c.0,
      c.6,
      c.8,
    )

-- The sender of a server that has been bound, when no operation of an earlier one is left, is in order
-- from the start.
pub run_bind-IsSending :
    (now : Millis) (oe be : ErrorCode) (args : BindArgs) (k : ServerImpl)
    → is_error oe ≡ false
    → is_error be ≡ false
    → senders k.base.pending ≡ []
    → IsSending (run_bind now oe be args k).base
run_bind-IsSending now oe be args k h g alone = rw (run_bind-base now oe be args k h g) (
    start_actors-IsSending now (bound_server args k.base)
      (ap senders (bound_server-facts args k.base).4 ∙ alone))
