-- ===== src/PeerManager.antt =====
-- include/pqrs/local_datagram/extra/peer_manager.hpp: the peers of a server, by socket file path. What
-- runs in the dispatcher thread, and the shared secrets, which any thread may use under a lock.
pub mod Paths
pub mod Entries
pub mod Secrets
use Prim.Native.Nat.{bit_or, bit_xor}
use Prim.Native.String.{String}
use cpp_local_datagram.Base.{
  ℕ, ◌+◌, ◌%◌, Bool, true, false, not, ◌&&◌, Option, none, some, List, [], ◌∷◌, ◌++◌, ◌==◌,
  if◌then◌else◌, length,
}
use cpp_local_datagram.Endpoint.{FilePath}
use cpp_local_datagram.BaseImpl.State.{ErrorCode, Millis}
use Paths.{PathMap, lookup, insert, erase}

-- A peer. `client` is known by the calls made of it: `async_start`, and the data of each `async_send`.
pub record Entry : Type 0 where
  pub peer_socket_file_path : FilePath
  pub buffer_size : ℕ
  pub server_check_interval : Millis
  pub started : Bool
  pub sends : List (List ℕ)
  pub connected : Bool
  pub verified : Bool
  pub queue : List (List ℕ)

-- The constructor, with the default interval of 1000 milliseconds.
unfoldable pub make_entry : FilePath → ℕ → Entry
make_entry path buffer_size = record {
  peer_socket_file_path = path;
  buffer_size = buffer_size;
  server_check_interval = 1000;
  started = false;
  sends = [];
  connected = false;
  verified = false;
  queue = [];
}

unfoldable pub set_connected : Bool → Entry → Entry
set_connected value e = record e { connected = value }

unfoldable pub set_verified : Bool → Entry → Entry
set_verified value e = record e { verified = value }

unfoldable pub client_send : List ℕ → Entry → Entry
client_send v e = record e { sends = e.sends ++ v ∷ [] }

-- The loop over the queue.
send_all : List (List ℕ) → Entry → Entry
unfolding client_send
send_all [] e = e
send_all (v ∷ vs) e = send_all vs (client_send v e)

unfoldable pub flush : Entry → Entry
unfolding send_all
flush e =
    if e.connected then record (if e.verified then send_all e.queue e else e) { queue = [] } else e

send_or_queue : List ℕ → Entry → Entry
unfolding client_send
send_or_queue v e =
    if e.connected && e.verified then client_send v e else record e { queue = e.queue ++ v ∷ [] }

unfoldable pub entry_async_send : List ℕ → Entry → Entry
unfolding flush send_or_queue
entry_async_send v e = send_or_queue v (flush e)

-- The slot of the client's `connected`; `valid` is the verdict of verify_peer_.
unfoldable pub on_connected : Bool → Entry → Entry
unfolding set_connected set_verified flush
on_connected valid e = flush (set_verified valid (set_connected true e))

-- The signals of the peer_manager.
pub data PeerSignal : Type 0 where
  warning : FilePath → String → PeerSignal
  error : FilePath → ErrorCode → PeerSignal
  peer_closed : FilePath → ℕ → PeerSignal

pub record PeerManager : Type 0 where
  pub buffer_size : ℕ
  pub verify_peer : Option ℕ → FilePath → Bool
  pub entries : PathMap Entry
  pub shared_secrets : PathMap (List ℕ)
  pub signals : List PeerSignal

unfoldable pub make_peer_manager : ℕ → (Option ℕ → FilePath → Bool) → PeerManager
make_peer_manager buffer_size verify_peer = record {
  buffer_size = buffer_size;
  verify_peer = verify_peer;
  entries = [];
  shared_secrets = [];
  signals = [];
}

-- A new entry has its client started.
new_entry : FilePath → PeerManager → Entry
unfolding make_entry
new_entry path m = record (make_entry path m.buffer_size) { started = true }

-- The closure of async_send: an entry is made for a path that has none.
unfoldable pub run_async_send : FilePath → List ℕ → PeerManager → PeerManager
unfolding new_entry entry_async_send
run_async_send path v m = elim (lookup path m.entries) [
  | some e ↦ record m { entries = insert path (entry_async_send v e) m.entries }
  | none ↦ record m { entries = insert path (entry_async_send v (new_entry path m)) m.entries }
]

-- The slots connected to the signals of an entry's client. `weak_entry.lock()` fails when the entry is
-- gone.
unfoldable pub on_peer_connected : FilePath → Option ℕ → PeerManager → PeerManager
unfolding on_connected
on_peer_connected path peer_pid m = elim (lookup path m.entries) [
  | some e ↦ record m {
    entries = insert path (on_connected (m.verify_peer peer_pid path) e) m.entries;
  }
  | none ↦ m
]

unfoldable pub erase_shared_secret : FilePath → PeerManager → PeerManager
erase_shared_secret path m = record m { shared_secrets = erase path m.shared_secrets }

unfoldable pub signal : PeerSignal → PeerManager → PeerManager
signal x m = record m { signals = m.signals ++ x ∷ [] }

unfoldable pub erase_peer : FilePath → PeerManager → PeerManager
unfolding erase_shared_secret
erase_peer path m = erase_shared_secret path (record m { entries = erase path m.entries })

unfoldable pub on_peer_connect_failed : FilePath → ErrorCode → PeerManager → PeerManager
unfolding erase_peer signal
on_peer_connect_failed path error_code m = signal (error path error_code) (erase_peer path m)

-- std::ranges::count_if.
unfoldable pub count_verified : PathMap Entry → ℕ
count_verified [] = 0
count_verified ((_, e) ∷ es) = (if e.verified then 1 else 0) + count_verified es

unfoldable pub on_peer_closed : FilePath → PeerManager → PeerManager
unfolding erase_peer signal count_verified
on_peer_closed path m =
    let erased = erase_peer path m in
    signal (peer_closed path (count_verified erased.entries)) erased

unfoldable pub on_peer_warning : FilePath → String → PeerManager → PeerManager
unfolding signal
on_peer_warning path message m = signal (warning path message) m

unfoldable pub on_peer_error : FilePath → ErrorCode → PeerManager → PeerManager
unfolding signal
on_peer_error path error_code m = signal (error path error_code) m

-- The destructor.
unfoldable pub clear_entries : PeerManager → PeerManager
clear_entries m = record m { entries = [] }

unfoldable pub insert_shared_secret : FilePath → List ℕ → PeerManager → PeerManager
insert_shared_secret path secret m = record m {
  shared_secrets = insert path secret m.shared_secrets;
}

-- The loop of constant_time_equal, over vectors of the same size. `diff` is a `uint8_t`.
unfoldable pub difference : ℕ → List ℕ → List ℕ → ℕ
difference diff (x ∷ xs) (y ∷ ys) = difference (bit_or diff (bit_xor x y % 256)) xs ys
difference diff _ _ = diff

unfoldable pub constant_time_equal : List ℕ → List ℕ → Bool
constant_time_equal a b = if length a == length b then difference 0 a b == 0 else false

unfoldable pub verify_shared_secret : FilePath → List ℕ → PeerManager → Bool
unfolding constant_time_equal
verify_shared_secret path secret m = elim (lookup path m.shared_secrets) [
  | none ↦ false
  | some stored ↦ constant_time_equal stored secret
]

unfoldable pub find_shared_secret : FilePath → PeerManager → Option (List ℕ)
find_shared_secret path m = lookup path m.shared_secrets
