-- ===== src/Handshake.antt =====
-- example/extra_peer_manager_example.hpp: a server that answers only those who know the secret that it
-- has given them, and its client. JSON values are those of a library.
pub mod Answers
pub mod Completion
use Prim.Native.String.{String}
use cpp_local_datagram.Base.{
  ℕ, ◌*◌, ◌≡◌, Bool, true, false, Option, none, some, List, [], ◌∷◌, ◌++◌, if◌then◌else◌,
}
use cpp_local_datagram.Endpoint.{FilePath, Endpoint}
use cpp_local_datagram.BaseImpl.State.{ErrorCode}
use cpp_local_datagram.Server.{Server}
use cpp_local_datagram.Server
use cpp_local_datagram.Client.{Client}
use cpp_local_datagram.Client
use cpp_local_datagram.Echo.{codes}
use cpp_local_datagram.PeerManager.{
  PeerManager, make_peer_manager, insert_shared_secret, verify_shared_secret, run_async_send,
  on_peer_connected, on_peer_connect_failed, on_peer_closed,
}
use cpp_local_datagram.PeerManager.Secrets.{AreBytes}

-- The enumeration, with the names that NLOHMANN_JSON_SERIALIZE_ENUM gives.
pub data PayloadType : Type 0 where
  handshake shared_secret message message_response : PayloadType

-- The JSON objects that the two sides build, by their `type`; a message has the text "hello" as well.
pub data Payload : Type 0 where
  handshake : Payload
  shared_secret : List ℕ → Payload
  message : List ℕ → Payload
  message_response : String → Payload

abbrev pub payload_type : Payload → PayloadType
payload_type handshake = PayloadType.handshake
payload_type (shared_secret _) = PayloadType.shared_secret
payload_type (message _) = PayloadType.message
payload_type (message_response _) = PayloadType.message_response

-- What the code uses of nlohmann::json; `none` is an exception.
pub record Json : Type 1 where
  pub Value : Type 0
  pub parse : List ℕ → Option Value
  -- json["type"].get<payload_type>() and json["secret"].get<std::vector<uint8_t>>().
  pub get_type : Value → Option PayloadType
  pub get_secret : Value → Option (List ℕ)
  pub dump : Payload → List ℕ

-- An object that has been dumped is read back.
pub record IsLawful (j : Json) : Type 0 where
  pub value : Payload → j.Value
  pub parse-dump : (p : Payload) → j.parse (j.dump p) ≡ some (value p)
  pub type-value : (p : Payload) → j.get_type (value p) ≡ some (payload_type p)
  pub secret-shared :
      (secret : List ℕ)
      → AreBytes secret
      → j.get_secret (value (shared_secret secret)) ≡ some secret
  pub secret-message :
      (secret : List ℕ) → AreBytes secret → j.get_secret (value (message secret)) ≡ some secret

abbrev pub server_socket_file_path : FilePath
server_socket_file_path = codes "tmp/extra_peer_manager_example_server.sock"

abbrev pub client_socket_file_path : FilePath
client_socket_file_path = codes "tmp/extra_peer_manager_example_client.sock"

unfoldable pub run_server : Server
run_server = Server.make_server server_socket_file_path (32 * 1024)

unfoldable pub run_server_started : Server
unfolding run_server
run_server_started = Server.async_start run_server

unfoldable pub run_client : Client
run_client = Client.make_client server_socket_file_path (some client_socket_file_path) (32 * 1024)

unfoldable pub run_client_started : Client
unfolding run_client
run_client_started = Client.async_start run_client

-- The side of the server: the peer_manager, and the closures that its async_send has enqueued.
pub record Host : Type 0 where
  pub peer_manager : PeerManager
  pub sends : List (FilePath × List ℕ)

-- The buffer size is 32 * 1024; verify_peer is the place where the example tells its users to add a
-- verification.
unfoldable pub make_host : (Option ℕ → FilePath → Bool) → Host
unfolding make_peer_manager
make_host verify_peer = record {
  peer_manager = make_peer_manager (32 * 1024) verify_peer;
  sends = [];
}

-- The side of the client: the data given to its async_send, and whether the waiting thread has been
-- notified.
pub record Guest : Type 0 where
  pub sends : List (List ℕ)
  pub notified : Bool

abbrev pub new_guest : Guest
new_guest = record { sends = []; notified = false }

abbrev pub answer_to : Bool → String
answer_to true = "world"
answer_to false = "invalid secret"

module _ (j : Json) where
  send_to_peer : FilePath → Payload → Host → Host
  send_to_peer path p h = record h { sends = h.sends ++ (path, j.dump p) ∷ [] }

  -- `secret` is what arc4random_buf has written.
  answer_handshake : List ℕ → Endpoint → Host → Host
  unfolding send_to_peer insert_shared_secret
  answer_handshake secret sender h =
      send_to_peer sender (shared_secret secret)
        (record h { peer_manager = insert_shared_secret sender secret h.peer_manager })

  answer_message : Option (List ℕ) → Endpoint → Host → Host
  unfolding send_to_peer
  answer_message none sender h = h
  answer_message (some secret) sender h =
      send_to_peer sender
        (message_response (answer_to (verify_shared_secret sender secret h.peer_manager))) h

  -- The `switch` of the server.
  answer : Option PayloadType → j.Value → List ℕ → Endpoint → Host → Host
  unfolding answer_handshake answer_message
  answer (some PayloadType.handshake) v secret sender h = answer_handshake secret sender h
  answer (some PayloadType.message) v secret sender h = answer_message (j.get_secret v) sender h
  answer _ v secret sender h = h

  answer_parsed : Option j.Value → List ℕ → Endpoint → Host → Host
  unfolding answer
  answer_parsed none secret sender h = h
  answer_parsed (some v) secret sender h = answer (j.get_type v) v secret sender h

  -- The slot of the server's `received`.
  unfoldable pub on_server_received : List ℕ → List ℕ → Endpoint → Host → Host
  unfolding answer_parsed
  on_server_received secret buffer sender h = answer_parsed (j.parse buffer) secret sender h

  client_send : Payload → Guest → Guest
  client_send p g = record g { sends = g.sends ++ j.dump p ∷ [] }

  -- The slot of the client's `connected`.
  unfoldable pub on_client_connected : Guest → Guest
  unfolding client_send
  on_client_connected g = client_send handshake g

  notify : Guest → Guest
  notify g = record g { notified = true }

  reply : Option (List ℕ) → Guest → Guest
  unfolding notify client_send
  reply none g = notify g
  reply (some secret) g = client_send (message secret) g

  -- The `switch` of the client; an exception ends the wait.
  receive : Option PayloadType → j.Value → Guest → Guest
  unfolding notify reply
  receive none v g = notify g
  receive (some PayloadType.shared_secret) v g = reply (j.get_secret v) g
  receive (some PayloadType.message_response) v g = notify g
  receive (some _) v g = g

  receive_parsed : Option j.Value → Guest → Guest
  unfolding notify receive
  receive_parsed none g = notify g
  receive_parsed (some v) g = receive (j.get_type v) v g

  -- The slot of the client's `received`.
  unfoldable pub on_client_received : List ℕ → Guest → Guest
  unfolding receive_parsed
  on_client_received buffer g = receive_parsed (j.parse buffer) g

-- What happens in the dispatcher thread of the server.
pub data HostEvent : Type 0 where
  received : List ℕ → List ℕ → Endpoint → HostEvent
  runs_send : HostEvent
  peer_connected : FilePath → Option ℕ → HostEvent
  peer_connect_failed : FilePath → ErrorCode → HostEvent
  peer_closed : FilePath → HostEvent

-- The first closure that async_send has enqueued.
unfoldable pub run_first_send : List (FilePath × List ℕ) → Host → Host
run_first_send [] h = h
run_first_send ((path, v) ∷ rest) h = record h {
  peer_manager = run_async_send path v h.peer_manager;
  sends = rest;
}

on_manager : (PeerManager → PeerManager) → Host → Host
on_manager f h = record h { peer_manager = f h.peer_manager }

unfoldable pub step_host : Json → HostEvent → Host → Host
unfolding on_manager
step_host j (received secret buffer sender) h = on_server_received j secret buffer sender h
step_host j runs_send h = run_first_send h.sends h
step_host j (peer_connected path pid) h = on_manager (on_peer_connected path pid) h
step_host j (peer_connect_failed path c) h = on_manager (on_peer_connect_failed path c) h
step_host j (peer_closed path) h = on_manager (on_peer_closed path) h

unfoldable pub run_host : Json → List HostEvent → Host → Host
run_host j [] h = h
run_host j (e ∷ es) h = run_host j es (step_host j e h)
