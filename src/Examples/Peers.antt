-- ===== src/Examples/Peers.antt =====
-- Examples for the peer manager.
use cpp_local_datagram.Base.{
  ◌≡◌, ◌≢◌, ◌↔◌, refl, arith, true, false, none, [], ◌∷◌, ◌++◌, map, length,
}
use cpp_local_datagram.Endpoint.{FilePath}
use cpp_local_datagram.PeerManager.{
  PeerManager, make_entry, make_peer_manager, constant_time_equal, find_shared_secret,
  on_peer_closed, run_async_send,
}
use cpp_local_datagram.PeerManager.PeerSignal.{peer_closed}
use cpp_local_datagram.PeerManager.Paths.{lookup}
use cpp_local_datagram.PeerManager.Secrets.{
  constant_time_equal_iff, insert_event, closed_event, run_secrets, secret_after, run_secrets-find,
}
use cpp_local_datagram.PeerManager.Entries.{
  send_event, connected_event, run_entry, NeverVerified, run_entry-NeverVerified, run_entry-sends,
  on_peer_closed_lem, verified_of,
}
use cpp_local_datagram.Examples.{client_path, three_bytes}

abbrev a_peer_manager : PeerManager
a_peer_manager = make_peer_manager 1024 (λ pid path. true)

constant_time_equal_iff_example :
    (constant_time_equal three_bytes three_bytes ≡ true) ↔ (three_bytes ≡ three_bytes)
constant_time_equal_iff_example =
    constant_time_equal_iff three_bytes three_bytes (omega arith, (omega arith, (omega arith, tt)))
      (omega arith, (omega arith, (omega arith, tt)))

-- A secret is inserted, and its peer closes.
run_secrets-find_example :
    find_shared_secret client_path (
      run_secrets
        (insert_event client_path three_bytes ∷ closed_event client_path ∷ [])
        a_peer_manager)
    ≡ secret_after client_path
        (find_shared_secret client_path a_peer_manager)
        (insert_event client_path three_bytes ∷ closed_event client_path ∷ [])
run_secrets-find_example =
    run_secrets-find client_path
      (insert_event client_path three_bytes ∷ closed_event client_path ∷ []) a_peer_manager

run_entry-NeverVerified_example :
    (run_entry
      (send_event three_bytes ∷ connected_event false ∷ send_event three_bytes ∷ [])
      (make_entry client_path 1024)).sends
    ≡ []
unfolding make_entry NeverVerified
run_entry-NeverVerified_example =
    run_entry-NeverVerified
      (send_event three_bytes ∷ connected_event false ∷ send_event three_bytes ∷ [])
      (make_entry client_path 1024) refl (refl, tt)

run_entry-sends_example :
    let e =
      run_entry
        (map send_event (three_bytes ∷ []) ++ connected_event true ∷ map send_event ([] ∷ []))
        (make_entry client_path 1024) in
    (e.sends ≡ three_bytes ∷ [] ∷ []) × (e.queue ≡ [])
run_entry-sends_example = run_entry-sends client_path 1024 (three_bytes ∷ []) ([] ∷ [])

on_peer_closed_lem_example :
    let m = run_async_send client_path three_bytes a_peer_manager in
    let n = on_peer_closed client_path m in
    (lookup client_path n.entries ≡ none)
    × (find_shared_secret client_path n ≡ none)
    × ((q : FilePath)
        → q ≢ client_path
        → (lookup q n.entries ≡ lookup q m.entries)
          × (find_shared_secret q n ≡ find_shared_secret q m))
    × (n.signals ≡ m.signals ++ peer_closed client_path (length (verified_of n.entries)) ∷ [])
on_peer_closed_lem_example =
    on_peer_closed_lem client_path (run_async_send client_path three_bytes a_peer_manager)
