-- ===== src/BaseImpl/Send/Attempts.antt =====
-- base_impl.hpp, handle_send: how often an entry is sent.
use cpp_local_datagram.Base.{
  ℕ, ◌+◌, ◌≤◌, ◌<◌, ◌≡◌, ap, Bool, true, false, List, [], ◌∷◌, arith, length,
}
use cpp_local_datagram.SendEntry.{
  SendEntry, add_bytes_transferred, rest_bytes, transfer_complete, set_no_buffer_space_error_count,
}
use cpp_local_datagram.SendEntry.Transfer.{IsValid}
use cpp_local_datagram.BaseImpl.State.{
  Impl, Mode, server, client, ErrorCode, success, no_buffer_space, message_size, other, Millis,
}
use cpp_local_datagram.BaseImpl.Send.{count_no_buffer_space, handle_send}
use cpp_local_datagram.BaseImpl.Send.Entries.{sent_entry, handle_send-sent_entry}

-- The bytes that have gone, and the errors that were counted.
abbrev pub progress : SendEntry → ℕ
progress e = e.bytes_transferred + e.no_buffer_space_error_count

-- What asio reports of a send: success takes at least one byte of a rest that has one, and no result
-- takes more than the rest.
abbrev pub IsResult : ErrorCode → ℕ → SendEntry → Type 0
IsResult c n e = (n ≤ rest_bytes e) × (c ≡ success → 0 < n)

-- An entry that is still incomplete is within the limits on errors.
pub record IsLimited (e : SendEntry) : Type 0 where
  pub valid : IsValid e
  pub errors : e.no_buffer_space_error_count ≤ 100
  pub untouched : e.bytes_transferred ≡ 0 → e.no_buffer_space_error_count ≤ 10

-- The results that make handle_send close the connection.
abbrev pub closes : Mode → ErrorCode → Bool
closes client (other _) = true
closes _ _ = false

-- A result that does not close the connection either completes the entry, so that it leaves the queue,
-- or keeps it within the limits and brings it on.
sent_entry-progress :
    (m : Mode) (c : ErrorCode) (n : ℕ) (e : SendEntry)
    → IsLimited e
    → IsResult c n e
    → closes m c ≡ false
    → transfer_complete (sent_entry m c n e) ≡ false
    → IsLimited (sent_entry m c n e)
      × (progress e < progress (sent_entry m c n e))
      × ((sent_entry m c n e).buffer ≡ e.buffer)
unfolding sent_entry transfer_complete rest_bytes add_bytes_transferred count_no_buffer_space
    set_no_buffer_space_error_count
sent_entry-progress m success n e v r k h = ground arith
sent_entry-progress m no_buffer_space n e v r k h = ground arith
sent_entry-progress server message_size n e v r k h = ground arith
sent_entry-progress client message_size n e v r k h = ground arith
sent_entry-progress server (other x) n e v r k h = ground arith
sent_entry-progress client (other x) n e v r k h = cc

-- Results of sends of the entry `i`, one after the other, none of which takes it out of the queue or
-- closes the connection: the time, the error code and the bytes transferred.
abbrev pub Attempts : List (Millis × ErrorCode × ℕ) → ℕ → Impl → Type 0
Attempts [] i s = Unit {0}
Attempts ((now, c, n) ∷ rs) i s =
    IsResult c n (s.heap i)
    × (closes s.mode c ≡ false)
    × (transfer_complete ((handle_send now c n i s).heap i) ≡ false)
    × Attempts rs i (handle_send now c n i s)

attempt-progress :
    (now : Millis) (c : ErrorCode) (n i : ℕ) (s : Impl)
    → IsLimited (s.heap i)
    → IsResult c n (s.heap i)
    → closes s.mode c ≡ false
    → transfer_complete ((handle_send now c n i s).heap i) ≡ false
    → let e = (handle_send now c n i s).heap i in
      IsLimited e × (progress (s.heap i) < progress e) × (e.buffer ≡ (s.heap i).buffer)
attempt-progress now c n i s v r k h =
    let same = handle_send-sent_entry now c n i s in
    rw same (sent_entry-progress s.mode c n (s.heap i) v r k (rw same at h))

Attempts-progress :
    (rs : List (Millis × ErrorCode × ℕ)) (i : ℕ) (s : Impl)
    → IsLimited (s.heap i)
    → transfer_complete (s.heap i) ≡ false
    → Attempts rs i s
    → length rs + progress (s.heap i) < length (s.heap i).buffer + 100
unfolding transfer_complete
Attempts-progress [] i s v h a = ground arith
Attempts-progress ((now, c, n) ∷ rs) i s v h a =
    let (v', p, b) = attempt-progress now c n i s v a.0 a.1 a.2 in
    omega (arith, Attempts-progress rs i (handle_send now c n i s) v' a.2 a.3, ap length b)

-- Take any sends of an entry that is incomplete and within the limits on errors, one after the other,
-- where a success takes at least one byte, no send takes more than the rest, and none fails with a
-- connection error in client mode: fewer than 100 more than its buffer has bytes leave it in the queue.
pub Attempts-bounded :
    (rs : List (Millis × ErrorCode × ℕ)) (i : ℕ) (s : Impl)
    → IsLimited (s.heap i)
    → transfer_complete (s.heap i) ≡ false
    → Attempts rs i s
    → length rs < length (s.heap i).buffer + 100
Attempts-bounded rs i s v h a = omega (arith, Attempts-progress rs i s v h a)
