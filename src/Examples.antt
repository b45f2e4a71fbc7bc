-- ===== src/Examples.antt =====
-- The data of the examples, and the examples for each component.
mod Connection
mod Peers
mod Sessions
mod Reconnecting
mod Progress
mod Protocol
mod Lives
mod Clients
mod Wires
use cpp_local_datagram.Base.{arith, ℕ, ◌<◌, ◌≤◌, Bool, true, false, none, some, List, [], ◌∷◌, ◌==◌}
use cpp_local_datagram.Endpoint.{FilePath}
use cpp_local_datagram.SendEntry.{SendEntry, user_data, of_vector}
use cpp_local_datagram.SendEntry.Transfer.{IsValid}
use cpp_local_datagram.BaseImpl.State.{
  Impl, Mode, client, server, Socket, ErrorCode, other, init, ConnectArgs, BindArgs,
}
use cpp_local_datagram.ClientImpl.{ClientImpl, make_client_impl}
use cpp_local_datagram.ServerImpl.{ServerImpl, make_server_impl}

-- "/s" and "/c".
abbrev pub server_path : FilePath
server_path = 47 ∷ 115 ∷ []

abbrev pub client_path : FilePath
client_path = 47 ∷ 99 ∷ []

abbrev pub three_bytes : List ℕ
three_bytes = 10 ∷ 20 ∷ 30 ∷ []

-- An entry of the type byte and three bytes, with the callback 7.
abbrev pub an_entry : SendEntry
an_entry = of_vector user_data three_bytes none (some 7)

pub an_entry-IsValid : IsValid an_entry
unfolding of_vector
an_entry-IsValid = record { buffer_fits = omega arith; within = omega arith }

abbrev pub a_heap : ℕ → SendEntry
a_heap i = an_entry

abbrev pub a_socket : Socket
a_socket = record { receive_buffer_size = none; send_buffer_size = none }

-- A server after its constructor, with one entry of an earlier connection.
abbrev pub new_impl_object : Impl
new_impl_object = init server a_heap 1 (0 ∷ [])

abbrev pub opened_impl : Impl
opened_impl = record (init server a_heap 1 (0 ∷ [])) {
  socket = some a_socket;
  socket_ready = true;
  bound_path = server_path;
}

abbrev pub refused : ErrorCode
refused = other 111

abbrev pub connect_args_of_client : ConnectArgs
connect_args_of_client = record {
  server_socket_file_path = server_path;
  client_socket_file_path = some client_path;
  buffer_size = 1024;
  server_check_interval = some 3000;
  next_heartbeat_deadline = some 5000;
  client_socket_check_interval = some 3000;
}

abbrev pub bind_args_of_server : BindArgs
bind_args_of_server = record {
  server_socket_file_path = server_path;
  buffer_size = 1024;
  server_check_interval = some 3000;
}

abbrev pub a_client_impl : ClientImpl
a_client_impl = make_client_impl a_heap 1 (0 ∷ [])

abbrev pub a_server_impl : ServerImpl
a_server_impl = make_server_impl a_heap 1 (0 ∷ [])
