-- ===== src/Handshake/Completion.antt =====
-- extra_peer_manager_example.hpp: the exchange of one client with a new server.
use Prim.Native.String.{String}
use cpp_local_datagram.Base.{
  ℕ, ◌*◌, ◌≡◌, refl, ap, ◌∙◌, Bool, true, false, Option, some, List, [], ◌∷◌, ◌++◌, arith,
  bytes_eq_refl, drop,
}
use mathlib.Core.Option
use cpp_local_datagram.Endpoint.{FilePath}
use cpp_local_datagram.PeerManager.Paths.{PathMap, lookup, insert}
use cpp_local_datagram.PeerManager.{
  Entry, insert_shared_secret, run_async_send, on_peer_connected, verify_shared_secret,
}
use cpp_local_datagram.PeerManager.Secrets.{AreBytes, constant_time_equal_iff}
use cpp_local_datagram.Handshake.{
  handshake, shared_secret, message, message_response, Json, IsLawful, Host, make_host, Guest,
  new_guest, HostEvent, received, runs_send, peer_connected, on_server_received,
  on_client_connected, on_client_received, step_host, run_host, answer_handshake, answer_message,
  run_first_send,
}

module _ (j : Json) (l : IsLawful j) where
  server_received-handshake :
      (r : List ℕ) (p : FilePath) (h : Host)
      → on_server_received j r (j.dump handshake) p h ≡ answer_handshake j r p h
  unfolding on_server_received
  server_received-handshake r p h = rw (l.parse-dump handshake) (rw (l.type-value handshake) refl)

  server_received-message :
      (r secret : List ℕ) (p : FilePath) (h : Host)
      → AreBytes secret
      → on_server_received j r (j.dump (message secret)) p h ≡ answer_message j (some secret) p h
  unfolding on_server_received
  server_received-message r secret p h b =
      rw (l.parse-dump (message secret))
        (rw (l.type-value (message secret)) (rw (l.secret-message secret b) refl))

  client_received-shared_secret :
      (secret : List ℕ) (g : Guest)
      → AreBytes secret
      → on_client_received j (j.dump (shared_secret secret)) g
        ≡ record g { sends = g.sends ++ j.dump (message secret) ∷ [] }
  unfolding on_client_received
  client_received-shared_secret secret g b =
      rw (l.parse-dump (shared_secret secret))
        (rw (l.type-value (shared_secret secret)) (rw (l.secret-shared secret b) refl))

  client_received-response :
      (text : String) (g : Guest)
      → on_client_received j (j.dump (message_response text)) g ≡ record g { notified = true }
  unfolding on_client_received
  client_received-response text g =
      rw (l.parse-dump (message_response text)) (rw (l.type-value (message_response text)) refl)

lookup_own : {V : Type 0} (p : FilePath) (v : V) (m : PathMap V) → lookup p ((p, v) ∷ m) ≡ some v
unfolding lookup
lookup_own p v m = ground (arith, bytes_eq_refl p)

insert_own :
    {V : Type 0} (p : FilePath) (v w : V) (m : PathMap V) → insert p w ((p, v) ∷ m) ≡ (p, w) ∷ m
unfolding insert
insert_own p v w m = ground (arith, bytes_eq_refl p)

-- The states that the server goes through.
module _ (j : Json) (verify_peer : Option ℕ → FilePath → Bool) (path : FilePath)
    (secret : List ℕ) where
  abbrev entry_of : Bool → List (List ℕ) → List (List ℕ) → Entry
  entry_of ready sends queue = record {
    peer_socket_file_path = path;
    buffer_size = 32 * 1024;
    server_check_interval = 1000;
    started = true;
    sends = sends;
    connected = ready;
    verified = ready;
    queue = queue;
  }

  abbrev host_of : PathMap Entry → List (FilePath × List ℕ) → Host
  host_of entries sends = record {
    peer_manager = record {
      buffer_size = 32 * 1024;
      verify_peer = verify_peer;
      entries = entries;
      shared_secrets = (path, secret) ∷ [];
      signals = [];
    };
    sends = sends;
  }

  abbrev given_data : List ℕ
  given_data = j.dump (shared_secret secret)

  abbrev world_data : List ℕ
  world_data = j.dump (message_response "world")

  secret_given :
      answer_handshake j secret path (make_host verify_peer) ≡ host_of [] ((path, given_data) ∷ [])
  unfolding answer_handshake insert_shared_secret make_host insert
  secret_given = refl

  secret_queued :
      step_host j runs_send (host_of [] ((path, given_data) ∷ []))
      ≡ host_of ((path, entry_of false [] (given_data ∷ [])) ∷ []) []
  unfolding step_host run_first_send run_async_send insert lookup
  secret_queued = refl

  secret_sent :
      (pid : Option ℕ)
      → verify_peer pid path ≡ true
      → step_host j
          (peer_connected path pid)
          (host_of ((path, entry_of false [] (given_data ∷ [])) ∷ []) [])
        ≡ host_of ((path, entry_of true (given_data ∷ []) []) ∷ []) []
  unfolding step_host on_peer_connected
  secret_sent pid v = ground (
    arith,
    lookup_own path (entry_of false [] (given_data ∷ [])) [],
    insert_own path (entry_of false [] (given_data ∷ [])) (entry_of true (given_data ∷ []) []) [],
  )

  world_given :
      AreBytes secret
      → answer_message j
          (some secret)
          path
          (host_of ((path, entry_of true (given_data ∷ []) []) ∷ []) [])
        ≡ host_of ((path, entry_of true (given_data ∷ []) []) ∷ []) ((path, world_data) ∷ [])
  unfolding answer_message verify_shared_secret
  world_given b =
      ground (arith, lookup_own path secret [], (constant_time_equal_iff secret secret b b).1 refl)

  world_sent :
      step_host j runs_send
        (host_of ((path, entry_of true (given_data ∷ []) []) ∷ []) ((path, world_data) ∷ []))
      ≡ host_of ((path, entry_of true (given_data ∷ world_data ∷ []) []) ∷ []) []
  unfolding step_host run_first_send run_async_send
  world_sent = ground (
    arith,
    lookup_own path (entry_of true (given_data ∷ []) []) [],
    insert_own path (entry_of true (given_data ∷ []) [])
        (entry_of true (given_data ∷ world_data ∷ []) []) [],
  )

  abbrev exchange : List ℕ → Option ℕ → List HostEvent
  exchange unused pid =
      received secret (j.dump handshake) path
      ∷ runs_send
      ∷ peer_connected path pid
      ∷ received unused (j.dump (message secret)) path
      ∷ runs_send
      ∷ []

  run_host-exchange :
      (l : IsLawful j) (unused : List ℕ) (pid : Option ℕ)
      → verify_peer pid path ≡ true
      → AreBytes secret
      → run_host j (exchange unused pid) (make_host verify_peer)
        ≡ host_of ((path, entry_of true (given_data ∷ world_data ∷ []) []) ∷ []) []
  unfolding run_host step_host
  run_host-exchange l unused pid v b =
      ap (run_host j (drop 1 (exchange unused pid)))
        (server_received-handshake j l secret path (make_host verify_peer) ∙ secret_given)
      ∙ ap (run_host j (drop 2 (exchange unused pid))) secret_queued
      ∙ ap (run_host j (drop 3 (exchange unused pid))) (secret_sent pid v)
      ∙ ap (run_host j (drop 4 (exchange unused pid)))
          (server_received-message j l unused secret path _ b ∙ world_given b)
      ∙ world_sent

-- When verify_peer accepts the client, the JSON library reads back what was dumped, and the secret
-- consists of bytes: the client connects and sends its handshake; the server gives it the secret,
-- connects to it and verifies it; the client sends its message with the secret. The server has then
-- sent the secret and after it the answer "world", and the client its handshake and its message; the
-- client has not been notified before the answer, and is notified by it.
pub handshake_completes :
    (j : Json) (l : IsLawful j) (verify_peer : Option ℕ → FilePath → Bool) (pid : Option ℕ)
    (path : FilePath) (secret unused : List ℕ)
    → verify_peer pid path ≡ true
    → AreBytes secret
    → let h =
        run_host j
          (received secret (j.dump handshake) path
            ∷ runs_send
            ∷ peer_connected path pid
            ∷ received unused (j.dump (message secret)) path
            ∷ runs_send
            ∷ [])
          (make_host verify_peer) in
      let g =
        on_client_received j (j.dump (shared_secret secret)) (on_client_connected j new_guest) in
      (Option.map (λ e. e.sends) (lookup path h.peer_manager.entries)
        ≡ some (j.dump (shared_secret secret) ∷ j.dump (message_response "world") ∷ []))
      × (g.sends ≡ j.dump handshake ∷ j.dump (message secret) ∷ [])
      × (g.notified ≡ false)
      × ((on_client_received j (j.dump (message_response "world")) g).notified ≡ true)
unfolding on_client_connected
handshake_completes j l verify_peer pid path secret unused v b =
    let asked = client_received-shared_secret j l secret (on_client_connected j new_guest) b in
    (
      ap (λ h. Option.map (λ e. e.sends) (lookup path h.peer_manager.entries))
            (run_host-exchange j verify_peer path secret l unused pid v b)
          ∙ ap (Option.map (λ e. e.sends)) (
              lookup_own path
                (entry_of j verify_peer path secret true
                  (j.dump (shared_secret secret) ∷ j.dump (message_response "world") ∷ []) [])
                []),
      ap (λ g. g.sends) asked,
      ap (λ g. g.notified) asked,
      ap (λ g. g.notified)
          (client_received-response j l "world" (
            on_client_received j (j.dump (shared_secret secret))
              (on_client_connected j new_guest))),
    )
