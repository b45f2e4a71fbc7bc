-- ===== src/BaseImpl/Receive/Datagrams.antt =====
-- base_impl.hpp, async_receive: what a datagram means, without the receive buffer.
pub mod Received
use mathlib.Core.List.{append-nil}
use cpp_local_datagram.Base.{
  ℕ, zero, suc, ◌-◌, ◌<◌, ◌≡◌, refl, sym, ap, ◌∙◌, inl, inr, Bool, true, List, [], ◌∷◌, ◌++◌, arith,
  leb, ltb, Bool-cases, if◌then◌else◌, length, take, drop, take-append,
}
use cpp_local_datagram.Endpoint.{Endpoint, non_empty_filesystem_endpoint_path}
use cpp_local_datagram.Memcpy.{
  ByteOrder, little_endian, big_endian, load_uint32, store_uint32, load-store_uint32, uint32_mod,
}
use cpp_local_datagram.BaseImpl.State.{
  Impl, ErrorCode, is_error, Notice, emit, next_heartbeat, warning_reported, received,
  enqueue_to_dispatcher, start, is_open,
}
use cpp_local_datagram.BaseImpl.Send.Waiting.{called}
use cpp_local_datagram.BaseImpl.Receive.{
  async_receive, fill_receive_buffer, accept_heartbeat, receive_heartbeat, receive_user_data,
  receive_datagram, handle_receive, complete_receive,
}

-- The notice that a heartbeat with this deadline deserves: none for the deadline 0, a warning for a
-- sender with no socket file.
heartbeat_notices : ℕ → Endpoint → ℕ → List Notice
heartbeat_notices zero sender generation = []
heartbeat_notices (suc n) sender generation =
    if non_empty_filesystem_endpoint_path sender
    then next_heartbeat generation (suc n) sender ∷ []
    else emit
        (warning_reported "sender endpoint is required when next_heartbeat_deadline is specified")
      ∷ []

-- A meaning for the bytes of a datagram alone: an empty one, one of an unknown type, and a heartbeat
-- with no room for a deadline mean nothing.
pub datagram_notices : ByteOrder → List ℕ → Endpoint → ℕ → List Notice
unfolding heartbeat_notices
datagram_notices order [] sender generation = []
datagram_notices order (zero ∷ a ∷ b ∷ c ∷ d ∷ _) sender generation =
    heartbeat_notices (load_uint32 order (a ∷ b ∷ c ∷ d ∷ [])) sender generation
datagram_notices order (suc zero ∷ v) sender generation = emit (received v sender) ∷ []
datagram_notices order (_ ∷ _) sender generation = []

abbrev tell : List Notice → Impl → Impl
tell ns s = record s { dispatcher = s.dispatcher ++ ns }

tell-nil : (s : Impl) → s ≡ tell [] s
tell-nil s = ap (λ ns. record s { dispatcher = ns }) (sym (append-nil s.dispatcher))

accept_heartbeat-tell :
    (n : ℕ) (s : Impl)
    → accept_heartbeat n s
      ≡ tell
          (heartbeat_notices n s.receive_sender_endpoint
            s.next_heartbeat_deadline_timers_generation)
          s
unfolding accept_heartbeat heartbeat_notices
accept_heartbeat-tell zero s = tell-nil s
accept_heartbeat-tell (suc n) s = ground arith

load_uint32-front :
    (order : ByteOrder) (a b c d : ℕ) (xs : List ℕ)
    → load_uint32 order (a ∷ b ∷ c ∷ d ∷ xs) ≡ load_uint32 order (a ∷ b ∷ c ∷ d ∷ [])
unfolding load_uint32
load_uint32-front little_endian a b c d xs = refl
load_uint32-front big_endian a b c d xs = refl

-- The body of a datagram stands in a buffer, with `rest` behind it.
module _ (order : ByteOrder) (rest : List ℕ) (s : Impl) where
  abbrev tell_of : List ℕ → Impl
  tell_of bytes =
      tell
        (datagram_notices order bytes s.receive_sender_endpoint
          s.next_heartbeat_deadline_timers_generation)
        s

  receive_heartbeat-tell :
      (body : List ℕ)
      → receive_heartbeat order (suc (length body)) (body ++ rest) s ≡ tell_of (0 ∷ body)
  unfolding receive_heartbeat datagram_notices
  receive_heartbeat-tell (a ∷ b ∷ c ∷ d ∷ body) =
      rw (long, load_uint32-front order a b c d (body ++ rest)) (accept_heartbeat-tell _ s)
    where
      long : leb 4 (suc (length (a ∷ b ∷ c ∷ d ∷ body)) - 1) ≡ true
      long = ground arith
  receive_heartbeat-tell _ = tell-nil s

  receive_user_data-tell :
      (body : List ℕ) → receive_user_data (suc (length body)) (body ++ rest) s ≡ tell_of (1 ∷ body)
  unfolding receive_user_data enqueue_to_dispatcher datagram_notices
  receive_user_data-tell body = rw (one_less, take-append body rest) refl
    where
      one_less : suc (length body) - 1 ≡ length body
      one_less = omega arith

  receive_datagram-tell :
      (t : ℕ) (body : List ℕ)
      → receive_datagram order (suc (length body)) (t ∷ (body ++ rest)) s ≡ tell_of (t ∷ body)
  unfolding receive_datagram datagram_notices
  receive_datagram-tell zero body = receive_heartbeat-tell body
  receive_datagram-tell (suc zero) body = receive_user_data-tell body
  receive_datagram-tell (suc (suc t)) body = unknown_type ∙ tell-nil s
    where
      unknown_type : receive_datagram order (suc (length body)) (suc (suc t) ∷ (body ++ rest)) s ≡ s
      unknown_type = ground arith

receive_again : (s : Impl) → (if s.socket_ready then async_receive s else s) ≡ async_receive s
unfolding async_receive is_open
receive_again s = elim (Bool-cases s.socket_ready) [ inl e ↦ rw e | inr e ↦ ground arith ]

-- The guards before the `switch`.
received_of : ByteOrder → ℕ → Impl → Impl
received_of order n s = if ltb 0 n then receive_datagram order n s.receive_buffer s else s

received_of-tell :
    (order : ByteOrder) (filled rest : List ℕ) (s : Impl)
    → s.receive_buffer ≡ filled ++ rest
    → received_of order (length filled) s ≡ tell_of order rest s filled
unfolding received_of datagram_notices
received_of-tell order [] rest s e = tell-nil s
received_of-tell order (t ∷ body) rest s e =
    ap (λ b. if some_bytes then receive_datagram order (suc (length body)) b s else s) e
    ∙ rw (positive) (receive_datagram-tell order rest s t body)
  where
    some_bytes : Bool
    some_bytes = ltb 0 (suc (length body))

    positive : ltb 0 (suc (length body)) ≡ true
    positive = ground arith

handle_receive-tell :
    (order : ByteOrder) (filled rest : List ℕ) (s : Impl)
    → s.receive_buffer ≡ filled ++ rest
    → handle_receive order ErrorCode.success (length filled) s
      ≡ async_receive (tell_of order rest s filled)
unfolding handle_receive received_of
handle_receive-tell order filled rest s e =
    receive_again (received_of order (length filled) s)
    ∙ ap async_receive (received_of-tell order filled rest s e)

-- When a receive operation has put a datagram at the front of the buffer, the handler depends on the
-- bytes of the datagram alone, whatever stands behind them: it enqueues the notices that
-- `datagram_notices` gives for them, changes nothing else, and then starts the next receive as
-- async_receive does.
pub handle_receive-datagram :
    (order : ByteOrder) (datagram rest : List ℕ) (s : Impl)
    → s.receive_buffer ≡ datagram ++ rest
    → handle_receive order ErrorCode.success (length datagram) s
      ≡ async_receive (record s {
        dispatcher =
            s.dispatcher
            ++ datagram_notices order datagram s.receive_sender_endpoint
                s.next_heartbeat_deadline_timers_generation;
      })
handle_receive-datagram order datagram rest s e = handle_receive-tell order datagram rest s e

-- With what asio does before, a datagram that is longer than the buffer is cut off.
pub complete_receive-datagram :
    (order : ByteOrder) (datagram : List ℕ) (sender : Endpoint) (s : Impl)
    → let filled = take (length s.receive_buffer) datagram in
      complete_receive order datagram sender s
      ≡ async_receive (record s {
        receive_buffer = filled ++ drop (length filled) s.receive_buffer;
        receive_sender_endpoint = sender;
        dispatcher =
            s.dispatcher
            ++ datagram_notices order filled sender s.next_heartbeat_deadline_timers_generation;
      })
unfolding complete_receive fill_receive_buffer
complete_receive-datagram order datagram sender s =
    handle_receive-tell order (take (length s.receive_buffer) datagram) _
      (fill_receive_buffer datagram sender s) refl

-- A receive that fails only starts the next one.
pub handle_receive_error :
    (order : ByteOrder) (c : ErrorCode) (n : ℕ) (s : Impl)
    → is_error c ≡ true
    → handle_receive order c n s ≡ async_receive s
unfolding handle_receive
handle_receive_error order c n s e = rw e (receive_again s)

pub async_receive-dispatcher : (s : Impl) → (async_receive s).dispatcher ≡ s.dispatcher
unfolding async_receive start
async_receive-dispatcher s = ground arith

pub datagram_notices-user_data :
    (order : ByteOrder) (v : List ℕ) (sender : Endpoint) (g : ℕ)
    → datagram_notices order (1 ∷ v) sender g ≡ emit (received v sender) ∷ []
unfolding datagram_notices
datagram_notices-user_data order v sender g = refl

heartbeat_notices-positive :
    (n : ℕ) (sender : Endpoint) (g : ℕ)
    → 0 < n
    → non_empty_filesystem_endpoint_path sender ≡ true
    → heartbeat_notices n sender g ≡ next_heartbeat g n sender ∷ []
unfolding heartbeat_notices
heartbeat_notices-positive zero sender g h e = absurd (omega arith)
heartbeat_notices-positive (suc n) sender g h e = rw e

-- A heartbeat with a deadline other than 0, from a sender with a socket file.
pub datagram_notices-heartbeat :
    (order : ByteOrder) (n : ℕ) (sender : Endpoint) (g : ℕ)
    → 0 < n
    → n < uint32_mod
    → non_empty_filesystem_endpoint_path sender ≡ true
    → datagram_notices order (0 ∷ store_uint32 order n) sender g ≡ next_heartbeat g n sender ∷ []
unfolding datagram_notices store_uint32
datagram_notices-heartbeat little_endian n sender g h k e =
    ap (λ m. heartbeat_notices m sender g) (load-store_uint32 little_endian n [] k)
    ∙ heartbeat_notices-positive n sender g h e
datagram_notices-heartbeat big_endian n sender g h k e =
    ap (λ m. heartbeat_notices m sender g) (load-store_uint32 big_endian n [] k)
    ∙ heartbeat_notices-positive n sender g h e

heartbeat_notices-called :
    (d : ℕ) (sender : Endpoint) (g : ℕ) → called (heartbeat_notices d sender g) ≡ []
unfolding heartbeat_notices called
heartbeat_notices-called zero sender g = refl
heartbeat_notices-called (suc n) sender g =
    elim (Bool-cases (non_empty_filesystem_endpoint_path sender)) [
      | inl e ↦ rw e refl
      | inr e ↦ rw e refl
    ]

-- No datagram calls a callback.
pub datagram_notices-called :
    (order : ByteOrder) (bytes : List ℕ) (sender : Endpoint) (g : ℕ)
    → called (datagram_notices order bytes sender g) ≡ []
unfolding called datagram_notices
datagram_notices-called order [] sender g = refl
datagram_notices-called order (zero ∷ a ∷ b ∷ c ∷ d ∷ _) sender g =
    heartbeat_notices-called (load_uint32 order (a ∷ b ∷ c ∷ d ∷ [])) sender g
datagram_notices-called order (suc zero ∷ v) sender g = refl
datagram_notices-called order (zero ∷ _) sender g = refl
datagram_notices-called order (suc (suc _) ∷ _) sender g = refl
