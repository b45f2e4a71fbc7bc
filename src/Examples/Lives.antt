-- ===== src/Examples/Lives.antt =====
-- Examples for the lives of a server.
use cpp_local_datagram.Base.{◌≡◌, refl, some, [], ◌∷◌, ◌++◌}
use cpp_local_datagram.Memcpy.{little_endian}
use cpp_local_datagram.BaseImpl.Send.Queued.{count}
use cpp_local_datagram.Server
use cpp_local_datagram.Server.{
  make_server, set_server_check_interval, set_reconnect_interval, start_timer, on_bind_failed,
  run_start_timer, reconnect_timer_ticks, run_bind, run_send, async_start, async_send_vector,
}
use cpp_local_datagram.Server.Lives.{
  Life, Lives, here, next, new_life, ending, starts, sets_check_interval, sets_reconnect_interval,
  taken, bind_fails, runs_emit, runs_start_timer, ticks, runs_bind, sends, runs_send, works,
  all_asked, books,
}
use cpp_local_datagram.Books.{total}
use cpp_local_datagram.Server.Lives.Conservation.{Lives-total}
use cpp_local_datagram.Server.Lives.Ordering.{Lives-IsSending}
use cpp_local_datagram.Server.Reconnecting.{bind_args}
use cpp_local_datagram.SendEntry.{of_vector, user_data}
use cpp_local_datagram.BaseImpl.State.{
  ErrorCode, Signal, receive_from, send_to, reset_work_guard, success, update, push_entry, bind,
}
use cpp_local_datagram.BaseImpl.Socket
use cpp_local_datagram.BaseImpl.Socket.{set_socket_options}
use cpp_local_datagram.BaseImpl.Receive.{async_receive}
use cpp_local_datagram.BaseImpl.Send.{
  run_push_entry, start_actors, await_send_entry, check_deadline_of, await_next, await_front,
}
use cpp_local_datagram.BaseImpl.Session
use cpp_local_datagram.BaseImpl.Session.Sender.{IsSending}
use cpp_local_datagram.ServerImpl
use cpp_local_datagram.ServerImpl.{ServerImpl, make_server_impl, async_bind}
use cpp_local_datagram.ServerImpl.Joining.{Returns, close-Returns}
use cpp_local_datagram.BaseImpl.Session.Left.{ends, serves}
use cpp_local_datagram.ServerImpl.Session.{ImplStep, steps, check_ticks, checks}
use cpp_local_datagram.Examples.{server_path, client_path, three_bytes, a_socket, refused}

-- A server with both intervals binds, and is given data.
abbrev server_of_life : Server.Server
server_of_life = record (make_server server_path 1024) {
  server_check_interval = some 500;
  reconnect_interval = some 1000;
}

abbrev bound_life : Life
bound_life = record (new_life server_path 1024) { server = run_bind server_of_life }

abbrev given_life : Life
given_life = record bound_life {
  server =
      run_send 0 (record (async_send_vector three_bytes client_path (some 7) bound_life.server) {
        tasks = [];
      });
}

given_life_reached : Lives little_endian (new_life server_path 1024) given_life
unfolding make_server async_start run_bind async_send_vector set_server_check_interval
    set_reconnect_interval
given_life_reached =
    next
      (next
        (next
          (next
            (next (next here (sets_check_interval (some 500)))
              (sets_reconnect_interval (some 1000)))
            starts)
          (runs_bind [] [] refl))
        (sends three_bytes client_path (some 7)))
      (runs_send 0 [] [] refl)

-- Its server_impl runs the close, and then the bind.
abbrev given_impl : ServerImpl
given_impl =
    let k = async_bind (bind_args server_of_life) (make_server_impl server_of_life.heap 0 []) in
    record k {
      base = record k.base {
        heap = update k.base.heap 0 (of_vector user_data three_bytes (some client_path) (some 7));
        next_address = 1;
        io_ctx = k.base.io_ctx ++ push_entry 0 ∷ [];
      };
    }

abbrev closed_impl : ServerImpl
closed_impl = record given_impl {
  base =
      Socket.run_close
        (record given_impl.base { io_ctx = bind (bind_args server_of_life) ∷ push_entry 0 ∷ [] });
}

abbrev tried_impl : ErrorCode → ServerImpl
tried_impl c =
    ServerImpl.run_bind 1 success c (bind_args server_of_life)
      (record closed_impl { base = record closed_impl.base { io_ctx = push_entry 0 ∷ [] } })

abbrev pushed_impl : ErrorCode → ServerImpl
pushed_impl c = record (tried_impl c) {
  base = run_push_entry 2 0 (record (tried_impl c).base { io_ctx = [] });
}

abbrev working : ServerImpl → Life
working k = record given_life { server = record given_life.server { server_impl = some k } }

pushed_life_reached :
    (c : ErrorCode)
    → (tried_impl c).base.io_ctx ≡ push_entry 0 ∷ []
    → Lives little_endian (new_life server_path 1024) (working (pushed_impl c))
unfolding make_server run_bind async_send_vector run_send async_bind make_server_impl
    Socket.run_close
pushed_life_reached c e =
    next
      (next
        (next given_life_reached
          (works given_impl closed_impl refl (steps (Session.runs_close _ refl) refl refl)))
        (works closed_impl (tried_impl c) refl (ImplStep.binds 1 success c _ _ refl)))
      (works (tried_impl c) (pushed_impl c) refl (steps (Session.runs_push 2 0 [] e) refl refl))

-- The server cannot bind, the timer starts, and its tick makes the server bind anew with its entry.
abbrev failed_life : Life
failed_life = ending (on_bind_failed 3 refused) (working (pushed_impl refused))

abbrev timed_life : Life
timed_life = record failed_life {
  server = record (taken [] failed_life.server) { reconnect_timer = some 1000 };
}

abbrev retried_life : Life
retried_life = record timed_life { server = reconnect_timer_ticks timed_life.server }

retried_life_reached : Lives little_endian (new_life server_path 1024) retried_life
unfolding ServerImpl.run_bind run_push_entry on_bind_failed run_start_timer async_send_vector
    run_send async_bind make_server_impl Socket.run_close run_bind set_socket_options make_server
retried_life_reached =
    next
      (next
        (next (next (pushed_life_reached refused refl) (bind_fails 3 refused refl))
          (runs_emit (Signal.bind_failed refused) [] (start_timer 1003 ∷ []) refl))
        (runs_start_timer timed_life.server 1003 [] [] refl refl))
      (ticks 1000 refl)

Lives-total_example : total 7 (books retried_life) ≡ count 7 (all_asked retried_life_reached)
Lives-total_example = Lives-total little_endian server_path 1024 7 retried_life retried_life_reached

-- The server binds, and its check makes a client.
abbrev ticked_impl : ServerImpl
ticked_impl =
    ServerImpl.server_check_ticks (record { interval = 500; captured = server_path })
      (pushed_impl success)

abbrev checked_impl : ServerImpl
checked_impl =
    ServerImpl.check_server server_path
      (record ticked_impl { base = record ticked_impl.base { io_ctx = [] } })

checked_life_reached : Lives little_endian (new_life server_path 1024) (working checked_impl)
unfolding ServerImpl.run_bind run_push_entry set_socket_options start_actors await_send_entry
    check_deadline_of async_receive ServerImpl.server_check_ticks async_bind make_server_impl
    Socket.run_close run_bind async_send_vector run_send await_next await_front make_server
checked_life_reached =
    next
      (next (pushed_life_reached success refl) (
        works (pushed_impl success) ticked_impl refl
          (check_ticks (record { interval = 500; captured = server_path }) refl)))
      (works ticked_impl checked_impl refl (checks server_path [] refl))

Lives-IsSending_example : IsSending checked_impl.base
Lives-IsSending_example =
    Lives-IsSending little_endian server_path 1024 (working checked_impl) checked_impl
      checked_life_reached refl

-- A server with a receive and a send that the peer never lets complete, when the destructor's close is run.
abbrev closing_server : ServerImpl
closing_server = record (pushed_impl success) {
  base = record (pushed_impl success).base {
    socket = some a_socket;
    pending = receive_from ∷ send_to 0 three_bytes (some client_path) ∷ [];
  };
}

close-Returns_example : Returns little_endian (
    ServerImpl.on_base
      (λ s. Socket.run_close (record s { io_ctx = reset_work_guard ∷ push_entry 0 ∷ [] }))
      closing_server)
unfolding ends serves
close-Returns_example =
    close-Returns little_endian (push_entry 0 ∷ []) closing_server refl refl (λ e. absurd (cc))
