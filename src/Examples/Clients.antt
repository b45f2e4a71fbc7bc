-- ===== src/Examples/Clients.antt =====
-- Examples for the life of a client.
use cpp_local_datagram.Base.{◌≡◌, refl, none, some, [], ◌∷◌}
use cpp_local_datagram.Memcpy.{little_endian}
use cpp_local_datagram.BaseImpl.Send.Queued.{count}
use cpp_local_datagram.Books.{total}
use cpp_local_datagram.Client.{
  Client, connect_args, set_server_check_interval, set_next_heartbeat_deadline, make_client,
  set_reconnect_interval, async_start, run_connect, async_send_vector, run_send, run_stop,
}
use cpp_local_datagram.Client.Lives.{
  Life, Lives, here, next, new_life, works, sets_check_interval, sets_heartbeat_deadline, left_by,
  sets_reconnect_interval, starts, sends, runs_connect, runs_send, all_asked, books, taken,
  on_client,
}
use cpp_local_datagram.Client.Lives.Stopped.{Lives-stopped}
use cpp_local_datagram.Client.Lives.Conservation.{total-books}
use cpp_local_datagram.BaseImpl.State.{
  success, connect, push_entry, update, connect_to, wait_send_invoker, reset_work_guard,
  send_heartbeat,
}
use cpp_local_datagram.BaseImpl.Socket.{run_close}
use cpp_local_datagram.BaseImpl.Session.Left.{ends}
use cpp_local_datagram.SendEntry.{of_vector, user_data}
use cpp_local_datagram.BaseImpl.Send.{
  run_push_entry, start_actors, check_deadline_of, await_send_entry, await_next, await_front,
}
use cpp_local_datagram.BaseImpl.Receive.{async_receive}
use cpp_local_datagram.BaseImpl.Session
use cpp_local_datagram.ClientImpl.Session.{steps, connects, is_connected, server_ticks, heartbeats}
use cpp_local_datagram.ClientImpl
use cpp_local_datagram.ClientImpl.{ClientImpl}
use cpp_local_datagram.ClientImpl.Joining.{Returns, join-Returns}
use cpp_local_datagram.Examples.{
  a_client_impl, a_socket, connect_args_of_client, server_path, client_path, three_bytes,
}

-- A client with a server check is asked to connect and given data with a callback.
abbrev client_of_life : Client
client_of_life = record (make_client server_path (some client_path) 1024) {
  server_check_interval = some 500;
  next_heartbeat_deadline = some 3000;
}

abbrev first_life : Life
first_life = new_life server_path (some client_path) 1024

abbrev connecting_life : Life
connecting_life = record first_life { client = run_connect client_of_life }

abbrev sent_life : Life
sent_life =
    on_client (λ c. run_send 0 (taken [] c))
      (on_client (async_send_vector three_bytes (some 7)) connecting_life)

sent_life_reached : Lives little_endian first_life sent_life
unfolding make_client async_start run_connect async_send_vector set_server_check_interval
    set_next_heartbeat_deadline
sent_life_reached =
    next
      (next
        (next
          (next
            (next (next here (sets_check_interval (some 500)))
              (sets_heartbeat_deadline (some 3000)))
            starts)
          (runs_connect [] [] refl))
        (sends three_bytes (some 7)))
      (runs_send 0 [] [] refl)

-- Its client_impl connects, and its timer makes it send a heartbeat.
abbrev given_impl : ClientImpl
given_impl =
    let k = ClientImpl.make_client_impl client_of_life.heap 0 [] in
    record k {
      base = record k.base {
        heap = update k.base.heap 0 (of_vector user_data three_bytes none (some 7));
        next_address = 1;
        io_ctx = connect (connect_args client_of_life) ∷ push_entry 0 ∷ [];
      };
    }

abbrev joining_impl : ClientImpl
joining_impl =
    ClientImpl.on_base (ClientImpl.run_connect success success (connect_args client_of_life))
      (record given_impl { base = record given_impl.base { io_ctx = push_entry 0 ∷ [] } })

abbrev pushed_impl : ClientImpl
pushed_impl = record joining_impl {
  base = run_push_entry 1 0 (record joining_impl.base { io_ctx = [] });
}

abbrev connected_impl : ClientImpl
connected_impl =
    ClientImpl.handle_connect 2 success none (connect_args client_of_life)
      (ClientImpl.on_base (λ s. record s { pending = [] }) pushed_impl)

abbrev ticked_impl : ClientImpl
ticked_impl =
    ClientImpl.server_check_ticks (record { interval = 500; captured = some 3000 }) connected_impl

abbrev beating_impl : ClientImpl
beating_impl =
    ClientImpl.check_server little_endian (some 3000)
      (record ticked_impl { base = record ticked_impl.base { io_ctx = [] } })

abbrev working : ClientImpl → Life
working k = on_client (λ c. record c { client_impl = some k }) sent_life

beating_life_reached : Lives little_endian first_life (working beating_impl)
unfolding make_client run_connect async_send_vector run_send ClientImpl.make_client_impl
    ClientImpl.run_connect run_push_entry ClientImpl.handle_connect ClientImpl.server_check_ticks
    ClientImpl.start_client_socket_check ClientImpl.stop_client_socket_check
    ClientImpl.start_server_check ClientImpl.stop_server_check start_actors async_receive
    check_deadline_of await_send_entry await_next await_front
beating_life_reached =
    next
      (next
        (next
          (next
            (next sent_life_reached
              (works given_impl joining_impl refl (connects success success _ _ refl)))
            (works joining_impl pushed_impl refl (steps (Session.runs_push 1 0 [] refl) refl refl)))
          (works pushed_impl connected_impl refl (is_connected 2 success none _ [] [] refl)))
        (works connected_impl ticked_impl refl
          (server_ticks (record { interval = 500; captured = some 3000 }) refl)))
      (works ticked_impl beating_impl refl (heartbeats (some 3000) [] refl))

total-books_example :
    total 7 (books (working beating_impl)) ≡ count 7 (all_asked beating_life_reached)
total-books_example =
    total-books little_endian server_path (some client_path) 1024 7 (working beating_impl)
      beating_life_reached

-- The client is stopped with data in its queue, is given a reconnect interval, and is started again.
abbrev stopped_life : Life
stopped_life = on_client run_stop (left_by sent_life.client.client_impl sent_life)

abbrev restarted_life : Life
restarted_life =
    on_client (λ c. run_connect (taken [] c))
      (on_client async_start (on_client (set_reconnect_interval (some 1000)) stopped_life))

restarted_life_reached : Lives little_endian stopped_life restarted_life
unfolding make_client async_start run_connect async_send_vector run_send run_stop
    set_reconnect_interval
restarted_life_reached =
    next (next (next here (sets_reconnect_interval (some 1000))) starts) (runs_connect [] [] refl)

Lives-stopped_example : restarted_life.client.client_impl ≡ none
unfolding run_connect
Lives-stopped_example = Lives-stopped little_endian sent_life restarted_life restarted_life_reached

-- The destructor runs its close while a connection is being made and a heartbeat is to be sent.
abbrev connecting_impl : ClientImpl
connecting_impl = record a_client_impl {
  base = record a_client_impl.base {
    socket = some a_socket;
    pending = connect_to connect_args_of_client ∷ wait_send_invoker ∷ [];
  };
}

join-Returns_example : Returns little_endian (
    ClientImpl.on_base
      (λ s. run_close (record s { io_ctx = reset_work_guard ∷ send_heartbeat none ∷ [] }))
      connecting_impl)
unfolding ends
join-Returns_example =
    join-Returns little_endian (send_heartbeat none ∷ []) connecting_impl refl (λ e. absurd (cc))
