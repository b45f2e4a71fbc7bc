-- ===== src/Echo.antt =====
-- example/main.cpp: a server that sends back what it receives, and a client. What they print is a list of
-- pieces, where std::endl is the text "\n".
pub mod Delivery
use Prim.Native.Char.{code}
use Prim.Native.String.{String}
use cpp_local_datagram.Base.{
  ℕ, zero, suc, ◌+◌, ◌*◌, Bool, true, false, Option, none, some, List, [], ◌∷◌, ◌++◌, ltb,
  if◌then◌else◌, length,
}
use cpp_local_datagram.Endpoint.{FilePath, Endpoint, non_empty_filesystem_endpoint_path}
use cpp_local_datagram.BaseImpl.State.{
  ErrorCode, Signal, bound, bind_failed, connected, connect_failed, received, closed,
  next_heartbeat_deadline_exceeded, error_occurred, processed,
}
use cpp_local_datagram.Server.{Server, make_server}
use cpp_local_datagram.Server
use cpp_local_datagram.Client.{Client, make_client}
use cpp_local_datagram.Client

pub data Output : Type 0 where
  text : String → Output
  byte number : ℕ → Output

-- The loop of output_received_data; `size` is the size of the buffer.
output_bytes : ℕ → ℕ → List ℕ → List Output
output_bytes size count [] = []
output_bytes size count (c ∷ cs) =
    let rest = output_bytes size (count + 1) cs in
    byte c ∷ (if ltb 40 (count + 1) then text "... (" ∷ number size ∷ text "bytes)" ∷ [] else rest)

unfoldable pub output_received_data : List ℕ → List Output
unfolding output_bytes
output_received_data [] = []
output_received_data (c ∷ cs) =
    (text "buffer: `" ∷ output_bytes (length (c ∷ cs)) 0 (c ∷ cs)) ++ text "`" ∷ text "\n" ∷ []

-- The bytes of an ASCII text.
abbrev pub codes : String → List ℕ
codes String.[] = []
codes (String.◌∷◌ c s) = code c ∷ codes s

abbrev pub server_socket_file_path : FilePath
server_socket_file_path = codes "tmp/server.sock"

abbrev pub client_socket_file_path : FilePath
client_socket_file_path = codes "tmp/client.sock"

unfoldable pub main_server : Server
main_server =
    Server.set_reconnect_interval (some 1000) (
      Server.set_server_check_interval (some 3000)
        (make_server server_socket_file_path (32 * 1024)))

unfoldable pub main_server_started : Server
unfolding main_server
main_server_started = Server.async_start main_server

-- The slot of the server's `received`: the data goes back to a sender with a socket file.
unfoldable pub on_server_received : List ℕ → Endpoint → Server → Server
on_server_received buffer sender_endpoint s =
    if non_empty_filesystem_endpoint_path sender_endpoint
    then Server.async_send_vector buffer sender_endpoint none s
    else s

-- What the slots of the server print. `message` and `shown` are what the library gives for an error code
-- and for an endpoint.
unfoldable pub server_printed : (ErrorCode → String) → (Endpoint → String) → Signal → List Output
server_printed message shown bound = text "server bound" ∷ text "\n" ∷ []
server_printed message shown (bind_failed c) =
    text "server bind_failed:" ∷ text (message c) ∷ text "\n" ∷ []
server_printed message shown closed = text "server closed" ∷ text "\n" ∷ []
server_printed message shown (received buffer sender_endpoint) =
    (text "server received size:" ∷ number (length buffer) ∷ text "\n" ∷ [])
    ++ output_received_data buffer
server_printed message shown (next_heartbeat_deadline_exceeded sender_endpoint) =
    text "server next_heartbeat_deadline_exceeded " ∷ text (shown sender_endpoint) ∷ text "\n" ∷ []
server_printed message shown _ = []

peer_pid_printed : Option ℕ → Output
peer_pid_printed none = text "-1"
peer_pid_printed (some pid) = number pid

-- What the slots of the client print; an entry's callback is known by the byte that it prints.
unfoldable pub client_printed : (ErrorCode → String) → Signal → List Output
unfolding peer_pid_printed
client_printed message (connected peer_pid) =
    text "client connected"
    ∷ text "\n"
    ∷ text "peer_pid: "
    ∷ peer_pid_printed peer_pid
    ∷ text "\n"
    ∷ []
client_printed message (connect_failed c) =
    text "client connect_failed:" ∷ text (message c) ∷ text "\n" ∷ []
client_printed message closed = text "client closed" ∷ text "\n" ∷ []
client_printed message (error_occurred c) =
    text "client error_occurred:" ∷ text (message c) ∷ text "\n" ∷ []
client_printed message (received buffer sender_endpoint) =
    (text "client received size:" ∷ number (length buffer) ∷ text "\n" ∷ [])
    ++ output_received_data buffer
client_printed message (processed f) = text "processed `" ∷ byte f ∷ text "`" ∷ text "\n" ∷ []
client_printed message _ = []

replicate : ℕ → ℕ → List ℕ
replicate zero c = []
replicate (suc n) c = c ∷ replicate n c

unfoldable pub main_client : Client
main_client = Client.set_reconnect_interval (some 1000) (
    Client.set_next_heartbeat_deadline (some 10000) (
      Client.set_server_check_interval (some 3000)
        (make_client server_socket_file_path (some client_socket_file_path) (64 * 1024))))

-- The slot of the client's `connected`.
unfoldable pub on_client_connected : Client → Client
on_client_connected c = Client.async_send_vector (codes "Type control-c to quit.") none c

-- The client is started and given four buffers. A callback is known by the byte that it prints.
unfoldable pub main_sends : Client → Client
unfolding replicate
main_sends c = Client.async_send_vector (replicate (64 * 1024) b'4') (some b'4') (
    Client.async_send_vector (replicate (30 * 1024) b'3') none (
      Client.async_send_vector (b'1' ∷ b'2' ∷ []) none
        (Client.async_send_vector (b'1' ∷ []) (some b'1') (Client.async_start c))))
