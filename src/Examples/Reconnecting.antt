-- ===== src/Examples/Reconnecting.antt =====
-- Examples for client and server.
use mathlib.Core.Option
use cpp_local_datagram.Base.{◌≡◌, refl, none, some, [], ◌∷◌, ◌++◌}
use cpp_local_datagram.BaseImpl.State.{Signal, close, connect}
use cpp_local_datagram.Server
use cpp_local_datagram.Server.{Server, make_server}
use cpp_local_datagram.Server.Reconnecting.{new_impl, on_closed_rebinds, run_stop_rebinds}
use cpp_local_datagram.Client
use cpp_local_datagram.Client.{Client, make_client}
use cpp_local_datagram.Client.Stopping.{on_connect_failed_reconnects}
use cpp_local_datagram.Examples.{server_path, client_path, refused, a_client_impl, a_server_impl}

-- A server with a server_impl, and one that has been made only.
abbrev a_server : Server
a_server = record (make_server server_path 1024) {
  server_impl = some a_server_impl;
  reconnect_interval = some 1000;
}

on_closed_rebinds_example :
    let t = Server.on_closed 9 a_server in
    let u = Server.on_bind_failed 9 refused a_server in
    (t.tasks ≡ a_server.tasks ++ Server.emit Signal.closed ∷ Server.start_timer 1009 ∷ [])
    × (u.tasks
        ≡ a_server.tasks ++ Server.emit (Signal.bind_failed refused) ∷ Server.start_timer 1009 ∷ [])
    × (t.server_impl ≡ none)
    × (u.server_impl ≡ none)
    × (t.server_send_entries ≡ a_server_impl.base.send_entries)
    × (u.server_send_entries ≡ a_server_impl.base.send_entries)
    × (Server.run_start_timer t ≡ some (record t { reconnect_timer = some 1000 }))
    × ((Server.reconnect_timer_ticks (record t { reconnect_timer = some 1000 })).server_impl
        ≡ some (new_impl t))
    × (Server.run_start_timer u ≡ some (record u { reconnect_timer = some 1000 }))
    × ((Server.reconnect_timer_ticks (record u { reconnect_timer = some 1000 })).server_impl
        ≡ some (new_impl u))
on_closed_rebinds_example = on_closed_rebinds 9 refused 1000 a_server_impl a_server refl refl

run_stop_rebinds_example :
    let t = Server.run_stop a_server in
    (t.server_impl ≡ none)
    × (t.reconnect_interval ≡ none)
    × (t.reconnect_timer ≡ a_server.reconnect_timer)
    × ((Server.reconnect_timer_ticks t).server_impl ≡ some (new_impl t))
run_stop_rebinds_example = run_stop_rebinds a_server

abbrev a_client : Client
a_client = record (make_client server_path (some client_path) 1024) {
  client_impl = some a_client_impl;
  reconnect_interval = some 1000;
}

-- The timer of a stopped client ticks.
on_connect_failed_reconnects_example :
    let t = Client.on_connect_failed 9 refused a_client in
    let u = Client.reconnect_timer_ticks (record t { reconnect_timer = some 1000 }) in
    (t.tasks
      ≡ a_client.tasks
        ++ Client.emit (Signal.connect_failed refused) ∷ Client.start_timer 1009 ∷ [])
    × (Client.run_start_timer t ≡ some (record t { reconnect_timer = some 1000 }))
    × (Option.map (λ m. m.base.io_ctx) u.client_impl
        ≡ some (a_client_impl.base.io_ctx ++ close ∷ connect (Client.connect_args a_client) ∷ []))
    × ((Client.on_connect_failed 9 refused
          (record a_client { reconnect_interval = none })).reconnect_timer
        ≡ none)
    × ((Client.on_connect_failed 9 refused (record a_client { reconnect_interval = none })).tasks
        ≡ a_client.tasks ++ Client.emit (Signal.connect_failed refused) ∷ [])
on_connect_failed_reconnects_example =
    on_connect_failed_reconnects 9 refused 1000 a_client_impl a_client refl refl
