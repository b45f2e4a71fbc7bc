-- ===== src/Examples/Protocol.antt =====
-- Examples for the two programs of the repository.
use mathlib.Core.Option
use cpp_local_datagram.Base.{
  ℕ, zero, suc, ◌≡◌, ◌≢◌, refl, ◌⊎◌, arith, true, false, Option, none, some, List, [], ◌∷◌, ◌++◌,
  bytes_eq,
}
use cpp_local_datagram.Endpoint.{non_empty_filesystem_endpoint_path}
use cpp_local_datagram.BaseImpl.State.{Impl, is_open, send_to, emit, received}
use cpp_local_datagram.BaseImpl.Receive.{complete_receive}
use cpp_local_datagram.Memcpy.{little_endian}
use cpp_local_datagram.ClientImpl.{ClientImpl}
use cpp_local_datagram.ServerImpl.{ServerImpl}
use cpp_local_datagram.Client.{Client, make_client}
use cpp_local_datagram.Client
use cpp_local_datagram.Server.{Server, make_server}
use cpp_local_datagram.Server
use cpp_local_datagram.PeerManager.Paths.{lookup}
use cpp_local_datagram.PeerManager.Secrets.{AreBytes}
use cpp_local_datagram.Handshake.{
  PayloadType, Payload, handshake, shared_secret, message, message_response, Json, IsLawful, Host,
  make_host, new_guest, HostEvent, runs_send, peer_connected, on_server_received,
  on_client_connected, on_client_received, run_host,
}
use cpp_local_datagram.Handshake
use cpp_local_datagram.Handshake.Answers.{type_of, secret_of, given_by, given, message_outcome}
use cpp_local_datagram.Handshake.Completion.{handshake_completes}
use cpp_local_datagram.Echo.Delivery.{sent_next, echo_returns}
use cpp_local_datagram.Echo
use cpp_local_datagram.Examples.{
  server_path, client_path, three_bytes, opened_impl, a_client_impl, a_server_impl,
}

-- A library that writes a byte for the type, and the secret behind it.
abbrev written : Payload → List ℕ
written handshake = 0 ∷ []
written (shared_secret secret) = 1 ∷ secret
written (message secret) = 2 ∷ secret
written (message_response text) = 3 ∷ []

abbrev type_read : List ℕ → Option PayloadType
type_read (zero ∷ _) = some PayloadType.handshake
type_read (suc zero ∷ _) = some PayloadType.shared_secret
type_read (suc (suc zero) ∷ _) = some PayloadType.message
type_read (suc (suc (suc zero)) ∷ _) = some PayloadType.message_response
type_read _ = none

abbrev secret_read : List ℕ → Option (List ℕ)
secret_read [] = none
secret_read (_ ∷ secret) = some secret

abbrev a_json : Json
a_json = record {
  Value = List ℕ;
  parse = λ buffer. some buffer;
  get_type = type_read;
  get_secret = secret_read;
  dump = written;
}

type_read-written : (p : Payload) → type_read (written p) ≡ some (Handshake.payload_type p)
type_read-written handshake = refl
type_read-written (shared_secret _) = refl
type_read-written (message _) = refl
type_read-written (message_response _) = refl

a_json-IsLawful : IsLawful a_json
a_json-IsLawful = record {
  value = written;
  parse-dump = λ p. refl;
  type-value = type_read-written;
  secret-shared = λ secret b. refl;
  secret-message = λ secret b. refl;
}

three_bytes-AreBytes : AreBytes three_bytes
three_bytes-AreBytes = (omega arith, (omega arith, (omega arith, tt)))

-- A secret is given, and the message has it.
message_outcome_example :
    let es = Handshake.received three_bytes (0 ∷ []) client_path ∷ runs_send ∷ [] in
    let h = run_host a_json es (make_host (λ pid path. true)) in
    let t = on_server_received a_json [] (2 ∷ three_bytes) client_path h in
    ((given a_json client_path none es ≡ some three_bytes)
      × (t.sends ≡ h.sends ++ (client_path, a_json.dump (message_response "world")) ∷ []))
    ⊎ ((given a_json client_path none es ≢ some three_bytes)
        × (t.sends
            ≡ h.sends ++ (client_path, a_json.dump (message_response "invalid secret")) ∷ []))
unfolding type_of secret_of given given_by bytes_eq
message_outcome_example =
    message_outcome a_json (λ pid path. true)
      (Handshake.received three_bytes (0 ∷ []) client_path ∷ runs_send ∷ []) three_bytes
      (2 ∷ three_bytes) [] client_path refl refl three_bytes-AreBytes three_bytes-AreBytes

handshake_completes_example :
    let h =
      run_host a_json
        (Handshake.received three_bytes (a_json.dump handshake) client_path
          ∷ runs_send
          ∷ peer_connected client_path (some 42)
          ∷ Handshake.received [] (a_json.dump (message three_bytes)) client_path
          ∷ runs_send
          ∷ [])
        (make_host (λ pid path. true)) in
    let g =
      on_client_received a_json
        (a_json.dump (shared_secret three_bytes))
        (on_client_connected a_json new_guest) in
    (Option.map (λ e. e.sends) (lookup client_path h.peer_manager.entries)
      ≡ some
          (a_json.dump (shared_secret three_bytes) ∷ a_json.dump (message_response "world") ∷ []))
    × (g.sends ≡ a_json.dump handshake ∷ a_json.dump (message three_bytes) ∷ [])
    × (g.notified ≡ false)
    × ((on_client_received a_json (a_json.dump (message_response "world")) g).notified ≡ true)
handshake_completes_example =
    handshake_completes a_json a_json-IsLawful (λ pid path. true) (some 42) client_path three_bytes
      [] refl three_bytes-AreBytes

-- Both sides have an open socket, a buffer of five bytes and an empty queue.
abbrev ready_impl : Impl
ready_impl = record opened_impl { send_entries = []; receive_buffer = 0 ∷ 0 ∷ 0 ∷ 0 ∷ 0 ∷ [] }

abbrev ready_client_impl : ClientImpl
ready_client_impl = record a_client_impl { base = ready_impl }

abbrev ready_server_impl : ServerImpl
ready_server_impl = record a_server_impl { base = ready_impl }

abbrev ready_client : Client
ready_client = record (make_client server_path (some client_path) 1024) {
  client_impl = some ready_client_impl;
}

abbrev ready_server : Server
ready_server = record (make_server server_path 1024) { server_impl = some ready_server_impl }

echo_returns_example :
    let i = ready_client_impl.base.next_address in
    let asked = Client.run_send i (Client.async_send_vector three_bytes (some 7) ready_client) in
    let heard = record ready_server_impl {
      base = complete_receive little_endian (1 ∷ three_bytes) client_path ready_server_impl.base;
    } in
    let j = heard.base.next_address in
    let answered = Server.run_send j (
      Echo.on_server_received three_bytes client_path
        (record ready_server { server_impl = some heard })) in
    (Option.map (λ m. (sent_next 9 i m.base).pending) asked.client_impl
      ≡ some (ready_client_impl.base.pending ++ send_to i (1 ∷ three_bytes) none ∷ []))
    × (heard.base.dispatcher
        ≡ ready_server_impl.base.dispatcher ++ emit (received three_bytes client_path) ∷ [])
    × (Option.map (λ m. (sent_next 9 j m.base).pending) answered.server_impl
        ≡ some (heard.base.pending ++ send_to j (1 ∷ three_bytes) (some client_path) ∷ []))
    × (Option.map
          (λ m.
            (complete_receive little_endian
              (1 ∷ three_bytes)
              server_path
              (sent_next 9 i m.base)).dispatcher)
          asked.client_impl
        ≡ some (ready_client_impl.base.dispatcher ++ emit (received three_bytes server_path) ∷ []))
unfolding is_open non_empty_filesystem_endpoint_path
echo_returns_example =
    echo_returns little_endian three_bytes (some 7) client_path server_path 9 ready_client
      ready_client_impl ready_server ready_server_impl refl refl refl refl refl refl (omega arith)
      (omega arith) refl
