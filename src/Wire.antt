-- ===== src/Wire.antt =====
-- base_impl.hpp: a sender and the datagrams that the system has taken from it, in any order of steps.
pub mod Entries
pub mod Sound
pub mod Datagrams
use cpp_local_datagram.Base.{
  ℕ, ◌<◌, ◌≡◌, ◌⊎◌, Bool, true, false, Option, List, [], ◌∷◌, ◌++◌, length,
}
use cpp_local_datagram.Endpoint.{Endpoint}
use cpp_local_datagram.Memcpy.{ByteOrder}
use cpp_local_datagram.SendEntry.{SendEntry, size_mod, rest_bytes}
use cpp_local_datagram.BaseImpl.State.{Impl, ErrorCode, success, is_error, Millis, send_to, Op}
use cpp_local_datagram.BaseImpl.Send.{handle_send}
use cpp_local_datagram.BaseImpl.Session.{Step, sends}

-- A sender, and the datagrams that have not been received.
pub record Line : Type 0 where
  pub sender : Impl
  pub wire : List (List ℕ)

-- Is the step the end of a send?
abbrev pub is_send : {order : ByteOrder} {s t : Impl} → Step order s t → Bool
is_send (sends now c n i b d before after e) = true
is_send _ = false

-- A send takes all that is left of its entry, or fails. A datagram may stay, be lost, or be received
-- at any time.
pub data LineStep (order : ByteOrder) (l : Line) : Line → Type 0 where
  steps :
      {t : Impl} (st : Step order l.sender t)
      → is_send st ≡ false
      → LineStep order l (record l { sender = t })
  delivers :
      (now : Millis) (i : ℕ) (b : List ℕ) (d : Option Endpoint) (before after : List Op)
      → l.sender.pending ≡ before ++ send_to i b d ∷ after
      → LineStep order l (record {
        sender =
            handle_send now success
              (rest_bytes (l.sender.heap i))
              i
              (record l.sender { pending = before ++ after });
        wire = l.wire ++ b ∷ [];
      })
  fails :
      (now : Millis) (c : ErrorCode) (i : ℕ) (b : List ℕ) (d : Option Endpoint)
      (before after : List Op)
      → is_error c ≡ true
      → l.sender.pending ≡ before ++ send_to i b d ∷ after
      → LineStep order l (record l {
        sender = handle_send now c 0 i (record l.sender { pending = before ++ after });
      })
  leaves :
      (b : List ℕ) (before after : List (List ℕ))
      → l.wire ≡ before ++ b ∷ after
      → LineStep order l (record l { wire = before ++ after })

pub data LineRun (order : ByteOrder) (l : Line) : Line → Type 0 where
  here : LineRun order l l
  next : {m n : Line} → LineRun order l m → LineStep order m n → LineRun order l n

-- The bytes of a datagram: nothing, a heartbeat, or user data of which `P` holds.
pub data IsDatagram (P : List ℕ → Type 0) (b : List ℕ) : Type 0 where
  nothing : b ≡ [] → IsDatagram P b
  heartbeat : (v : List ℕ) → b ≡ 0 ∷ v → IsDatagram P b
  user_data : (v : List ℕ) → b ≡ 1 ∷ v → P v → IsDatagram P b

-- An entry that has been sent whole or not at all.
pub record IsSendable (P : List ℕ → Type 0) (e : SendEntry) : Type 0 where
  pub bytes : IsDatagram P e.buffer
  pub fits : length e.buffer < size_mod
  pub whole : (e.bytes_transferred ≡ 0) ⊎ (e.bytes_transferred ≡ length e.buffer)
