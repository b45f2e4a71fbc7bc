-- ===== src/PeerManager/Entries.antt =====
-- peer_manager.hpp: the entries, their queues and the verdicts on their peers.
use mathlib.Core.List.{append_assoc, append-nil}
use cpp_local_datagram.Base.{
  ℕ, ◌≡◌, refl, ap, ap₂, sym, ◌≢◌, bytes_eq_iff, ◌∙◌, map, Bool, true, false, none, List, [], ◌∷◌,
  ◌++◌, arith, bytes_eq_refl, length, inl, inr, Bool-cases, if◌then◌else◌,
}
use cpp_local_datagram.Endpoint.{FilePath}
use cpp_local_datagram.PeerManager.Paths.{lookup, lookup-erase}
use cpp_local_datagram.PeerManager.PeerSignal.{peer_closed}
use cpp_local_datagram.PeerManager.{
  Entry, PeerManager, make_entry, on_peer_closed, erase_peer, count_verified, find_shared_secret,
  client_send, send_all, set_verified, set_connected, flush, send_or_queue, entry_async_send,
  on_connected, PathMap,
}

-- What happens to an entry: data to send, or its client has connected and verify_peer has given a verdict.
pub data EntryEvent : Type 0 where
  send_event : List ℕ → EntryEvent
  connected_event : Bool → EntryEvent

pub run_entry : List EntryEvent → Entry → Entry
run_entry [] e = e
run_entry (send_event v ∷ es) e = run_entry es (entry_async_send v e)
run_entry (connected_event valid ∷ es) e = run_entry es (on_connected valid e)

-- The data of the events, and whether no verdict was positive.
payloads : List EntryEvent → List (List ℕ)
payloads [] = []
payloads (send_event v ∷ es) = v ∷ payloads es
payloads (connected_event _ ∷ es) = payloads es

unfoldable pub NeverVerified : List EntryEvent → Type 0
NeverVerified [] = Unit {0}
NeverVerified (send_event v ∷ es) = NeverVerified es
NeverVerified (connected_event valid ∷ es) = (valid ≡ false) × NeverVerified es

-- No data goes to a peer that is not verified: as long as every verdict on an unverified entry is
-- negative, whatever data is given to it, and however often its client connects, nothing is sent.
pub run_entry-NeverVerified :
    (es : List EntryEvent) (e : Entry)
    → e.verified ≡ false
    → NeverVerified es
    → (run_entry es e).sends ≡ e.sends
unfolding run_entry NeverVerified entry_async_send on_connected flush
run_entry-NeverVerified [] e h n = refl
run_entry-NeverVerified (send_event v ∷ es) e h n =
    ground (arith, run_entry-NeverVerified es (entry_async_send v e))
run_entry-NeverVerified (connected_event valid ∷ es) e h n =
    ground (arith, run_entry-NeverVerified es (on_connected valid e))

with_sends : List (List ℕ) → Entry → Entry
with_sends vs e = record e { sends = vs }

send_all_lem : (vs : List (List ℕ)) (e : Entry) → send_all vs e ≡ with_sends (e.sends ++ vs) e
unfolding send_all with_sends
send_all_lem [] e = ap (λ vs. record e { sends = vs }) (sym (append-nil e.sends))
send_all_lem (v ∷ vs) e =
    send_all_lem vs (client_send v e)
    ∙ ap (λ vs. record e { sends = vs }) (append_assoc e.sends (v ∷ []) vs)

flush-verified :
    (e : Entry)
    → e.connected ≡ true
    → e.verified ≡ true
    → flush e ≡ record e { sends = e.sends ++ e.queue; queue = [] }
unfolding flush with_sends
flush-verified e h k = ground (arith, send_all_lem e.queue e)

flush_ready : (e : Entry) → e.connected ≡ true → e.verified ≡ true → e.queue ≡ [] → flush e ≡ e
flush_ready e h k q =
    flush-verified e h k
    ∙ ap₂ (λ vs ws. record e { sends = vs; queue = ws }) (ap (◌++◌ e.sends) q ∙ append-nil e.sends)
        (sym q)

async_send_ready :
    (v : List ℕ) (e : Entry)
    → e.connected ≡ true
    → e.verified ≡ true
    → e.queue ≡ []
    → entry_async_send v e ≡ client_send v e
unfolding entry_async_send send_or_queue
async_send_ready v e h k q = ap (send_or_queue v) (flush_ready e h k q) ∙ ground arith

on_connected-true :
    (e : Entry)
    → on_connected true e
      ≡ record e { connected = true; verified = true; sends = e.sends ++ e.queue; queue = [] }
unfolding on_connected
on_connected-true e = flush-verified (set_verified true (set_connected true e)) refl refl

-- Before a connection the data waits; after a verified one it goes to the client.
run_entry-waiting :
    (vs : List (List ℕ)) (es : List EntryEvent) (e : Entry)
    → e.connected ≡ false
    → run_entry (map send_event vs ++ es) e ≡ run_entry es (record e { queue = e.queue ++ vs })
unfolding run_entry entry_async_send flush send_or_queue
run_entry-waiting [] es e h =
    ap (λ vs. run_entry es (record e { queue = vs })) (sym (append-nil e.queue))
run_entry-waiting (v ∷ vs) es e h =
    ap (λ f. run_entry (map send_event vs ++ es) f) (ground arith)
    ∙ run_entry-waiting vs es (record e { queue = e.queue ++ v ∷ [] }) h
    ∙ ap (λ vs. run_entry es (record e { queue = vs })) (append_assoc e.queue (v ∷ []) vs)

run_entry-verified :
    (vs : List (List ℕ)) (e : Entry)
    → e.connected ≡ true
    → e.verified ≡ true
    → e.queue ≡ []
    → run_entry (map send_event vs) e ≡ with_sends (e.sends ++ vs) e
unfolding run_entry with_sends client_send
run_entry-verified [] e h k q = ap (λ vs. record e { sends = vs }) (sym (append-nil e.sends))
run_entry-verified (v ∷ vs) e h k q =
    ap (λ f. run_entry (map send_event vs) f) (async_send_ready v e h k q)
    ∙ run_entry-verified vs (client_send v e) h k q
    ∙ ap (λ vs. record e { sends = vs }) (append_assoc e.sends (v ∷ []) vs)

-- The data given to a new entry before its client connects and is verified, and the data given to it
-- after that, are all sent, in the order given, and none is left in the queue.
pub run_entry-sends :
    (path : FilePath) (size : ℕ) (vs ws : List (List ℕ))
    → let e =
        run_entry
          (map send_event vs ++ connected_event true ∷ map send_event ws)
          (make_entry path size) in
      (e.sends ≡ vs ++ ws) × (e.queue ≡ [])
unfolding run_entry with_sends make_entry
run_entry-sends path size vs ws =
    let e = make_entry path size in
    let r =
      run_entry-waiting vs (connected_event true ∷ map send_event ws) e refl
      ∙ ap (run_entry (map send_event ws)) (on_connected-true (record e { queue = vs }))
      ∙ run_entry-verified ws
          (record e { connected = true; verified = true; sends = vs; queue = [] }) refl refl refl in
    (ap (λ f. f.sends) r, ap (λ f. f.queue) r)

-- The paths of the peers that are verified.
pub verified_of : PathMap Entry → List FilePath
verified_of [] = []
verified_of ((path, e) ∷ es) = if e.verified then path ∷ verified_of es else verified_of es

count_verified-length : (es : PathMap Entry) → count_verified es ≡ length (verified_of es)
unfolding count_verified verified_of
count_verified-length [] = refl
count_verified-length ((path, e) ∷ es) = elim (Bool-cases e.verified) [
  | inl v ↦ rw v (omega (arith, count_verified-length es))
  | inr v ↦ rw v (omega (arith, count_verified-length es))
]

-- When the client of a peer is closed, its entry and its secret are gone, those of every other path
-- are as before, and the signal tells how many of the remaining peers are verified.
pub on_peer_closed_lem :
    (path : FilePath) (m : PeerManager)
    → let n = on_peer_closed path m in
      (lookup path n.entries ≡ none)
      × (find_shared_secret path n ≡ none)
      × ((q : FilePath)
          → q ≢ path
          → (lookup q n.entries ≡ lookup q m.entries)
            × (find_shared_secret q n ≡ find_shared_secret q m))
      × (n.signals ≡ m.signals ++ peer_closed path (length (verified_of n.entries)) ∷ [])
unfolding on_peer_closed find_shared_secret
on_peer_closed_lem path m = (
  lookup-erase path path m.entries ∙ ground (arith, bytes_eq_refl path),
  lookup-erase path path m.shared_secrets ∙ ground (arith, bytes_eq_refl path),
  λ q d. (
    lookup-erase path q m.entries ∙ ground (arith, bytes_eq_iff path q),
    lookup-erase path q m.shared_secrets ∙ ground (arith, bytes_eq_iff path q),
  ),
  ap (λ c. m.signals ++ peer_closed path c ∷ [])
      (count_verified-length (erase_peer path m).entries),
)
