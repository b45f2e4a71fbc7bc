-- ===== src/Examples/Sessions.antt =====
-- Examples for the timers of base_impl, and for client_impl and server_impl.
use mathlib.Core.Option
use cpp_local_datagram.Base.{
  ◌≡◌, ◌≢◌, refl, false, not, ◌||◌, none, some, [], ◌∷◌, ◌++◌, if◌then◌else◌, bytes_eq,
}
use cpp_local_datagram.SendEntry.{make_buffer}
use cpp_local_datagram.BaseImpl.State.{
  Impl, receive_from, removes, binds, success, is_error, init, is_open, emit, bound, clear_timers,
  next_heartbeat, DeadlineTimer, next_heartbeat_deadline_exceeded, connect_to, send_to, pos_infin,
  at,
}
use cpp_local_datagram.BaseImpl.Socket.{run_close}
use cpp_local_datagram.BaseImpl.Socket.Closing.{bound_files}
use cpp_local_datagram.BaseImpl.Heartbeat.{
  has_timer, run_notice, run_next_heartbeat, run_deadline_exceeded,
}
use cpp_local_datagram.BaseImpl.Heartbeat.Timers.{
  IsUnique, delay_of, run_notice-IsUnique, delay_of_current, run_close_silences,
}
use cpp_local_datagram.BaseImpl.Send.{await_send_entry, start_actors}
use cpp_local_datagram.BaseImpl.Send.Actors.{deadline_waits, start_actors_no_deadline}
use cpp_local_datagram.ClientImpl.{make_client_impl, run_connect, handle_connect, on_base}
use cpp_local_datagram.ClientImpl.Connecting.{
  early_report, bound_after, run_connect_outcome, failed_connect_leaves_file,
}
use cpp_local_datagram.ServerImpl
use cpp_local_datagram.ServerImpl.Binding.{
  bind_calls, bind_report, run_bind_outcome, run_bind-run_close,
}
use cpp_local_datagram.Examples.{
  server_path, client_path, opened_impl, refused, connect_args_of_client, bind_args_of_server,
  a_client_impl, a_server_impl,
}

abbrev a_timer : DeadlineTimer
a_timer = record { sender_endpoint = client_path; generation = 0; delay = 5000 }

abbrev timed_impl : Impl
timed_impl = record opened_impl { next_heartbeat_deadline_timers = a_timer ∷ [] }

run_notice-IsUnique_example :
    IsUnique
      (run_notice (next_heartbeat 0 3000 server_path) timed_impl).next_heartbeat_deadline_timers
    × IsUnique (run_deadline_exceeded a_timer timed_impl).next_heartbeat_deadline_timers
unfolding has_timer
run_notice-IsUnique_example =
    run_notice-IsUnique (next_heartbeat 0 3000 server_path) a_timer timed_impl (refl, tt)

delay_of_current_example :
    (delay_of client_path
        (run_next_heartbeat 0 3000 client_path timed_impl).next_heartbeat_deadline_timers
      ≡ (if bytes_eq client_path client_path
          then some 3000
          else delay_of client_path (a_timer ∷ [])))
    × (delay_of client_path
          (run_deadline_exceeded a_timer timed_impl).next_heartbeat_deadline_timers
        ≡ (if bytes_eq client_path client_path then none else delay_of client_path (a_timer ∷ [])))
    × ((run_deadline_exceeded a_timer timed_impl).signals
        ≡ timed_impl.signals ++ next_heartbeat_deadline_exceeded client_path ∷ [])
unfolding init
delay_of_current_example = delay_of_current 3000 client_path client_path a_timer timed_impl refl

run_close_silences_example :
    (run_next_heartbeat 0 3000 client_path (run_close timed_impl) ≡ run_close timed_impl)
    × (run_deadline_exceeded a_timer (run_close timed_impl) ≡ run_close timed_impl)
unfolding init is_open
run_close_silences_example = run_close_silences 3000 client_path a_timer timed_impl refl refl

run_bind_outcome_example :
    let t = (ServerImpl.run_bind 1 success refused bind_args_of_server a_server_impl).base in
    (t.dispatcher ≡ a_server_impl.base.dispatcher ++ bind_report success refused ∷ [])
    × (is_open t ≡ not (is_error success || is_error refused))
    × (t.files ≡ a_server_impl.base.files ++ bind_calls success server_path)
run_bind_outcome_example = run_bind_outcome 1 success refused bind_args_of_server a_server_impl

run_bind-run_close_example :
    let t =
      run_close (ServerImpl.run_bind 1 success success bind_args_of_server a_server_impl).base in
    (t.files
      ≡ a_server_impl.base.files
        ++ removes server_path ∷ binds server_path ∷ bound_files server_path)
    × (t.dispatcher ≡ a_server_impl.base.dispatcher ++ emit bound ∷ clear_timers ∷ [])
    × (t.socket ≡ none)
    × (t.bound_path ≡ [])
    × (run_close t ≡ t)
run_bind-run_close_example =
    run_bind-run_close 1 success success bind_args_of_server a_server_impl refl

run_connect_outcome_example :
    let s = a_client_impl.base in
    let t = run_connect success refused connect_args_of_client s in
    let report = early_report success refused (some client_path) in
    (t.socket ≢ none)
    × (t.socket_ready ≡ false)
    × (t.dispatcher ≡ s.dispatcher ++ report)
    × (t.pending
        ≡ s.pending ++ (elim report [ [] ↦ connect_to connect_args_of_client ∷ [] | _ ∷ _ ↦ [] ]))
    × (t.bound_path ≡ bound_after success refused (some client_path) s.bound_path)
    × (run_connect success refused connect_args_of_client t ≡ t)
unfolding make_client_impl init
run_connect_outcome_example =
    run_connect_outcome success refused connect_args_of_client a_client_impl.base refl

failed_connect_leaves_file_example :
    let attempt = on_base (run_connect success success connect_args_of_client) a_client_impl in
    let t = run_close (handle_connect 1 refused none connect_args_of_client attempt).base in
    (t.socket ≡ none)
    × (t.bound_path ≡ client_path)
    × (t.files ≡ a_client_impl.base.files ++ removes client_path ∷ binds client_path ∷ [])
unfolding make_client_impl init
failed_connect_leaves_file_example =
    failed_connect_leaves_file 1 refused none connect_args_of_client client_path a_client_impl refl
      refl refl

start_actors_no_deadline_example :
    ((await_send_entry 9 none opened_impl).send_deadline ≡ at 5009)
    × ((start_actors 9 opened_impl).pending
        ≡ opened_impl.pending
          ++ send_to 0 (make_buffer (opened_impl.heap 0)) (opened_impl.heap 0).destination_endpoint
            ∷ []
          ++ deadline_waits opened_impl.mode
          ++ receive_from ∷ [])
    × ((start_actors 9 opened_impl).send_deadline ≡ pos_infin)
unfolding init is_open
start_actors_no_deadline_example = start_actors_no_deadline 9 0 [] opened_impl refl refl

abbrev opened_server_impl : ServerImpl.ServerImpl
opened_server_impl = record a_server_impl { base = opened_impl }
