-- ===== src/Handshake/Answers.antt =====
-- extra_peer_manager_example.hpp: the answers of the server, by the secrets that it has given.
use cpp_local_datagram.Base.{
  ℕ, ◌≡◌, ◌≢◌, refl, sym, ap, subst, ◌∙◌, ◌⊎◌, ◌↔◌, inl, inr, Bool, true, false, Option, none, some,
  List, [], ◌∷◌, ◌++◌, Bool-cases, if◌then◌else◌, bytes_eq,
}
use cpp_local_datagram.Endpoint.{FilePath, Endpoint}
use cpp_local_datagram.PeerManager.{
  PeerManager, constant_time_equal, find_shared_secret, verify_shared_secret, on_peer_closed,
  on_peer_connect_failed,
}
use cpp_local_datagram.PeerManager.Paths.{lookup, lookup-insert, lookup-erase}
use cpp_local_datagram.PeerManager.Secrets.{
  AreBytes, constant_time_equal_iff, run_async_send-find, on_peer_connected-find,
}
use cpp_local_datagram.Handshake.{
  PayloadType, Json, Host, make_host, HostEvent, received, runs_send, peer_connected,
  peer_connect_failed, peer_closed, message_response, answer_to, on_server_received, answer_parsed,
  answer, answer_message, step_host, run_host, run_first_send,
}

module _ (j : Json) where
  -- The type and the secret of a buffer, where no exception is thrown.
  unfoldable pub type_of : List ℕ → Option PayloadType
  type_of buffer = elim (j.parse buffer) [ none ↦ none | some v ↦ j.get_type v ]

  unfoldable pub secret_of : List ℕ → Option (List ℕ)
  secret_of buffer = elim (j.parse buffer) [ none ↦ none | some v ↦ j.get_secret v ]

  -- What an event makes of the secret of `q`.
  unfoldable pub given_by : FilePath → Option (List ℕ) → HostEvent → Option (List ℕ)
  given_by q s (received secret buffer p) = elim (type_of buffer) [
    | some PayloadType.handshake ↦ (if bytes_eq p q then some secret else s)
    | _ ↦ s
  ]
  given_by q s (peer_connect_failed p c) = if bytes_eq p q then none else s
  given_by q s (peer_closed p) = if bytes_eq p q then none else s
  given_by q s _ = s

  -- The secret given to `q` last, if a handshake gave it one since its connection last ended.
  unfoldable pub given : FilePath → Option (List ℕ) → List HostEvent → Option (List ℕ)
  given q s [] = s
  given q s (e ∷ es) = given q (given_by q s e) es

  answer_message-find :
      (q : FilePath) (s : Option (List ℕ)) (sender : Endpoint) (h : Host)
      → find_shared_secret q (answer_message j s sender h).peer_manager
        ≡ find_shared_secret q h.peer_manager
  unfolding answer_message
  answer_message-find q none sender h = refl
  answer_message-find q (some x) sender h = refl

  answer-find :
      (q : FilePath) (t : Option PayloadType) (v : j.Value) (secret : List ℕ) (sender : Endpoint)
      (h : Host)
      → find_shared_secret q (answer j t v secret sender h).peer_manager ≡ elim t [
        | some PayloadType.handshake ↦
            (if bytes_eq sender q then some secret else find_shared_secret q h.peer_manager)
        | _ ↦ find_shared_secret q h.peer_manager
      ]
  unfolding answer find_shared_secret
  answer-find q (some PayloadType.handshake) v secret sender h =
      lookup-insert sender q secret h.peer_manager.shared_secrets
  answer-find q (some PayloadType.message) v secret sender h =
      answer_message-find q (j.get_secret v) sender h
  answer-find q (some PayloadType.shared_secret) v secret sender h = refl
  answer-find q (some PayloadType.message_response) v secret sender h = refl
  answer-find q none v secret sender h = refl

  on_server_received-find :
      (q : FilePath) (secret buffer : List ℕ) (p : Endpoint) (h : Host)
      → find_shared_secret q (on_server_received j secret buffer p h).peer_manager
        ≡ given_by q (find_shared_secret q h.peer_manager) (received secret buffer p)
  unfolding on_server_received given_by type_of
  on_server_received-find q secret buffer p h = by_value (j.parse buffer)
    where
      by_value :
          (v : Option j.Value)
          → find_shared_secret q (answer_parsed j v secret p h).peer_manager
            ≡ elim (elim v as (λ _. Option PayloadType) [ none ↦ none | some w ↦ j.get_type w ]) [
              | some PayloadType.handshake ↦
                  (if bytes_eq p q then some secret else find_shared_secret q h.peer_manager)
              | _ ↦ find_shared_secret q h.peer_manager
            ]
      by_value none = refl
      by_value (some w) = answer-find q (j.get_type w) w secret p h

  run_first_send-find :
      (q : FilePath) (ss : List (FilePath × List ℕ)) (h : Host)
      → find_shared_secret q (run_first_send ss h).peer_manager
        ≡ find_shared_secret q h.peer_manager
  unfolding run_first_send
  run_first_send-find q [] h = refl
  run_first_send-find q ((p, v) ∷ ss) h = run_async_send-find q p v h.peer_manager

  step_host-find :
      (q : FilePath) (e : HostEvent) (h : Host)
      → find_shared_secret q (step_host j e h).peer_manager
        ≡ given_by q (find_shared_secret q h.peer_manager) e
  unfolding step_host given_by on_peer_closed on_peer_connect_failed find_shared_secret
  step_host-find q (received secret buffer p) h = on_server_received-find q secret buffer p h
  step_host-find q runs_send h = run_first_send-find q h.sends h
  step_host-find q (peer_connected p pid) h = on_peer_connected-find q p pid h.peer_manager
  step_host-find q (peer_connect_failed p c) h = lookup-erase p q h.peer_manager.shared_secrets
  step_host-find q (peer_closed p) h = lookup-erase p q h.peer_manager.shared_secrets

  run_host-find :
      (q : FilePath) (es : List HostEvent) (h : Host)
      → find_shared_secret q (run_host j es h).peer_manager
        ≡ given q (find_shared_secret q h.peer_manager) es
  unfolding run_host given
  run_host-find q [] h = refl
  run_host-find q (e ∷ es) h =
      run_host-find q es (step_host j e h) ∙ ap (λ s. given q s es) (step_host-find q e h)

  -- The data that a message from `sender` makes the server send.
  message_answered :
      (secret buffer r : List ℕ) (sender : Endpoint) (h : Host)
      → type_of buffer ≡ some PayloadType.message
      → secret_of buffer ≡ some secret
      → (on_server_received j r buffer sender h).sends
        ≡ h.sends
          ++ (
            sender,
            j.dump
                (message_response (answer_to (verify_shared_secret sender secret h.peer_manager))),
          )
            ∷ []
  unfolding on_server_received type_of secret_of
  message_answered secret buffer r sender h = by_value (j.parse buffer)
    where
      by_value :
          (v : Option j.Value)
          → (elim v as (λ _. Option PayloadType) [ none ↦ none | some w ↦ j.get_type w ])
            ≡ some PayloadType.message
          → (elim v as (λ _. Option (List ℕ)) [ none ↦ none | some w ↦ j.get_secret w ])
            ≡ some secret
          → (answer_parsed j v r sender h).sends
            ≡ h.sends
              ++ (
                sender,
                j.dump (
                    message_response
                      (answer_to (verify_shared_secret sender secret h.peer_manager))),
              )
                ∷ []
      by_value none t s = absurd (cc)
      by_value (some w) t s = rw t (rw (s, answer_message) refl)

-- The secret that was given, as bytes.
abbrev pub IsGivenBytes : Option (List ℕ) → Type 0
IsGivenBytes none = Unit {0}
IsGivenBytes (some secret) = AreBytes secret

equal_iff :
    (secret : List ℕ) (found : Option (List ℕ))
    → AreBytes secret
    → IsGivenBytes found
    → ((elim found as (λ _. Bool) [
      | none ↦ false
      | some stored ↦ constant_time_equal stored secret
    ])
        ≡ true)
      ↔ (found ≡ some secret)
equal_iff secret none b g = (λ e. absurd (cc), λ e. absurd (cc))
equal_iff secret (some stored) b g =
    let (there, back) = constant_time_equal_iff stored secret g b in
    (λ e. ap some (there e), λ e. back (cc))

verified_iff :
    (path : FilePath) (secret : List ℕ) (m : PeerManager)
    → AreBytes secret
    → IsGivenBytes (find_shared_secret path m)
    → (verify_shared_secret path secret m ≡ true) ↔ (find_shared_secret path m ≡ some secret)
unfolding verify_shared_secret find_shared_secret
verified_iff path secret m b g = equal_iff secret (lookup path m.shared_secrets) b g

make_host-find :
    (path : FilePath) (verify_peer : Option ℕ → FilePath → Bool)
    → find_shared_secret path (make_host verify_peer).peer_manager ≡ none
unfolding make_host find_shared_secret lookup
make_host-find path verify_peer = refl

-- After any events of a new server, a message that carries a secret is answered once, to its sender:
-- with "world" if the secret is the one that the server has given to this sender last, by a handshake
-- since the connection to it last ended, and with "invalid secret" if it is not. The secret sent and
-- the secret given, if there is one, are bytes.
pub message_outcome :
    (j : Json) (verify_peer : Option ℕ → FilePath → Bool) (es : List HostEvent)
    (secret buffer r : List ℕ) (sender : Endpoint)
    → type_of j buffer ≡ some PayloadType.message
    → secret_of j buffer ≡ some secret
    → AreBytes secret
    → IsGivenBytes (given j sender none es)
    → let h = run_host j es (make_host verify_peer) in
      let t = on_server_received j r buffer sender h in
      ((given j sender none es ≡ some secret)
        × (t.sends ≡ h.sends ++ (sender, j.dump (message_response "world")) ∷ []))
      ⊎ ((given j sender none es ≢ some secret)
          × (t.sends ≡ h.sends ++ (sender, j.dump (message_response "invalid secret")) ∷ []))
message_outcome j verify_peer es secret buffer r sender t s b g =
    elim (Bool-cases (verify_shared_secret sender secret h.peer_manager)) [
      | inl e ↦ inl (sym found ∙ iff.0 e, answered ∙ ap sends_with e)
      | inr e ↦ inr (λ same. absurd (cc (e, iff.1 (found ∙ same))), answered ∙ ap sends_with e)
    ]
  where
    h : Host
    h = run_host j es (make_host verify_peer)

    sends_with : Bool → List (FilePath × List ℕ)
    sends_with b = h.sends ++ (sender, j.dump (message_response (answer_to b))) ∷ []

    found : find_shared_secret sender h.peer_manager ≡ given j sender none es
    found =
        run_host-find j sender es (make_host verify_peer)
        ∙ ap (λ x. given j sender x es) (make_host-find sender verify_peer)

    answered :
        (on_server_received j r buffer sender h).sends
        ≡ sends_with (verify_shared_secret sender secret h.peer_manager)
    answered = message_answered j secret buffer r sender h t s

    iff :
        (verify_shared_secret sender secret h.peer_manager ≡ true)
        ↔ (find_shared_secret sender h.peer_manager ≡ some secret)
    iff = verified_iff sender secret h.peer_manager b (subst IsGivenBytes (sym found) g)
