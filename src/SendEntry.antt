-- ===== src/SendEntry.antt =====
-- include/pqrs/local_datagram/impl/send_entry.hpp: one datagram that waits to be sent.
pub mod Transfer
use cpp_local_datagram.Base.{
  ℕ, ◌+◌, ◌-◌, ◌%◌, ◌^◌, ◌<◌, Bool, true, false, Option, none, some, List, [], ◌∷◌, ◌++◌, leb, ltb,
  if◌then◌else◌, length, take, drop,
}
use cpp_local_datagram.Endpoint.{Endpoint}

-- `size_t` has 64 bits.
abbrev pub size_mod : ℕ
size_mod = 2 ^ 64

pub data EntryType : Type 0 where
  heartbeat user_data : EntryType

-- `static_cast<uint8_t>(t)`.
abbrev pub type_code : EntryType → ℕ
type_code heartbeat = 0
type_code user_data = 1

-- A `std::function<void()>` that may be empty: callbacks are known by a number.
abbrev pub Processed : Type 0
Processed = Option ℕ

pub record SendEntry : Type 0 where
  pub destination_endpoint : Option Endpoint
  pub processed : Processed
  pub bytes_transferred : ℕ
  pub no_buffer_space_error_count : ℕ
  pub buffer : List ℕ

-- `send_entry(type, endpoint, processed)`.
unfoldable pub of_type : EntryType → Option Endpoint → Processed → SendEntry
of_type t destination processed = record {
  destination_endpoint = destination;
  processed = processed;
  bytes_transferred = 0;
  no_buffer_space_error_count = 0;
  buffer = type_code t ∷ [];
}

-- `send_entry(type, vector, endpoint, processed)`.
unfoldable pub of_vector : EntryType → List ℕ → Option Endpoint → Processed → SendEntry
of_vector t v destination processed = record {
  destination_endpoint = destination;
  processed = processed;
  bytes_transferred = 0;
  no_buffer_space_error_count = 0;
  buffer = (type_code t ∷ []) ++ v;
}

-- What `p` points to; `none` is the null pointer.
abbrev pub Pointer : Type 0
Pointer = Option (List ℕ)

-- The bytes that `buffer_.insert(buffer_.end(), p, p + length)` adds, if it is called.
pointed_bytes : Pointer → ℕ → List ℕ
pointed_bytes none len = []
pointed_bytes (some p) len = if ltb 0 len then take len p else []

-- `send_entry(type, p, length, endpoint, processed)`.
unfoldable pub of_pointer : EntryType → Pointer → ℕ → Option Endpoint → Processed → SendEntry
unfolding pointed_bytes
of_pointer t p len destination processed = record {
  destination_endpoint = destination;
  processed = processed;
  bytes_transferred = 0;
  no_buffer_space_error_count = 0;
  buffer = (type_code t ∷ []) ++ pointed_bytes p len;
}

unfoldable pub set_no_buffer_space_error_count : ℕ → SendEntry → SendEntry
set_no_buffer_space_error_count value e = record e { no_buffer_space_error_count = value }

-- The bytes of the `asio::const_buffer`.
unfoldable pub make_buffer : SendEntry → List ℕ
make_buffer e =
    if leb (length e.buffer) e.bytes_transferred then [] else drop e.bytes_transferred e.buffer

unfoldable pub add_bytes_transferred : ℕ → SendEntry → SendEntry
add_bytes_transferred value e = record e {
  bytes_transferred = (e.bytes_transferred + value) % size_mod;
}

unfoldable pub rest_bytes : SendEntry → ℕ
rest_bytes e =
    if leb (length e.buffer) e.bytes_transferred then 0 else length e.buffer - e.bytes_transferred

unfoldable pub transfer_complete : SendEntry → Bool
transfer_complete e = leb (length e.buffer) e.bytes_transferred
