-- ===== src/RoundTrip.antt =====
-- From client_impl.hpp and send_entry.hpp to the receiver of base_impl.hpp: what one side sends is
-- what the other side understands. Both run on one host, so they share the byte order.
use cpp_local_datagram.Base.{
  ℕ, ◌+◌, ◌%◌, ◌≤◌, ◌<◌, ◌≡◌, ap, ap₂, ◌∙◌, true, Option, some, List, [], ◌∷◌, ◌++◌, arith, length,
  take_all,
}
use cpp_local_datagram.Endpoint.{Endpoint, non_empty_filesystem_endpoint_path}
use cpp_local_datagram.Memcpy.{ByteOrder, uint32_mod, store_uint32, length-store_uint32}
use cpp_local_datagram.SendEntry.{Processed, size_mod, user_data, of_vector, make_buffer}
use cpp_local_datagram.SendEntry.Transfer.{make_buffer-drop}
use cpp_local_datagram.BaseImpl.State.{Impl, Socket, Millis, emit, received, next_heartbeat}
use cpp_local_datagram.BaseImpl.Socket.{buffer_margin, set_socket_options}
use cpp_local_datagram.BaseImpl.Socket.Closing.{length-resize}
use cpp_local_datagram.BaseImpl.Receive.{complete_receive}
use cpp_local_datagram.BaseImpl.Receive.Datagrams.{
  datagram_notices, complete_receive-datagram, async_receive-dispatcher, datagram_notices-user_data,
  datagram_notices-heartbeat,
}
use cpp_local_datagram.ClientImpl.{heartbeat_entry}

-- A datagram that fits into the receive buffer is understood whole.
pub received_whole :
    (order : ByteOrder) (datagram : List ℕ) (sender : Endpoint) (s : Impl)
    → length datagram ≤ length s.receive_buffer
    → (complete_receive order datagram sender s).dispatcher
      ≡ s.dispatcher
        ++ datagram_notices order datagram sender s.next_heartbeat_deadline_timers_generation
received_whole order datagram sender s h =
    ap (λ t. t.dispatcher) (complete_receive-datagram order datagram sender s)
    ∙ async_receive-dispatcher _
    ∙ ap
        (λ d.
          s.dispatcher
          ++ datagram_notices order d sender s.next_heartbeat_deadline_timers_generation)
        (take_all (length s.receive_buffer) datagram h)

-- The receive buffer of a socket with its options set.
length-receive_buffer :
    (buffer_size : ℕ) (k : Socket) (s : Impl)
    → s.socket ≡ some k
    → buffer_size + buffer_margin < size_mod
    → length (set_socket_options buffer_size s).receive_buffer ≡ buffer_size + buffer_margin
unfolding set_socket_options
length-receive_buffer buffer_size k s e h = rw e (length-resize _ s.receive_buffer ∙ omega arith)

-- The buffer of a new entry is sent whole.
make_buffer-of_vector :
    (v : List ℕ) (destination : Option Endpoint) (p : Processed)
    → make_buffer (of_vector user_data v destination p) ≡ 1 ∷ v
unfolding of_vector
make_buffer-of_vector v destination p = make_buffer-drop _

make_buffer-heartbeat :
    (order : ByteOrder) (d : Millis)
    → make_buffer (heartbeat_entry order (some d)) ≡ 0 ∷ store_uint32 order (d % uint32_mod)
unfolding heartbeat_entry
make_buffer-heartbeat order d = make_buffer-drop _

set_socket_options-kept :
    (buffer_size : ℕ) (s : Impl)
    → let t = set_socket_options buffer_size s in
      (t.dispatcher ≡ s.dispatcher)
      × (t.next_heartbeat_deadline_timers_generation ≡ s.next_heartbeat_deadline_timers_generation)
unfolding set_socket_options
set_socket_options-kept buffer_size s = ground arith

-- A datagram of at most the buffer size and the margin is understood whole by a socket that has its
-- options set.
received_with_options :
    (order : ByteOrder) (datagram : List ℕ) (sender : Endpoint) (buffer_size : ℕ) (k : Socket)
    (s : Impl)
    → s.socket ≡ some k
    → length datagram ≤ buffer_size + buffer_margin
    → buffer_size + buffer_margin < size_mod
    → (complete_receive order datagram sender (set_socket_options buffer_size s)).dispatcher
      ≡ s.dispatcher
        ++ datagram_notices order datagram sender s.next_heartbeat_deadline_timers_generation
received_with_options order datagram sender buffer_size k s e fits small =
    let (same, generation) = set_socket_options-kept buffer_size s in
    received_whole order datagram sender (set_socket_options buffer_size s)
      (rw (length-receive_buffer buffer_size k s e small) fits)
    ∙ ap₂ (λ ns g. ns ++ datagram_notices order datagram sender g) same generation

-- User data shorter than the buffer size and its margin of 32 bytes together, a sum that does not
-- overflow size_t, arrives at a socket with this buffer size as it was given to the sender, with the
-- endpoint of the sender.
pub user_data_received :
    (order : ByteOrder) (v : List ℕ) (destination : Option Endpoint) (p : Processed)
    (sender : Endpoint) (buffer_size : ℕ) (k : Socket) (s : Impl)
    → s.socket ≡ some k
    → length v < buffer_size + buffer_margin
    → buffer_size + buffer_margin < size_mod
    → (complete_receive order
        (make_buffer (of_vector user_data v destination p))
        sender
        (set_socket_options buffer_size s)).dispatcher
      ≡ s.dispatcher ++ emit (received v sender) ∷ []
user_data_received order v destination p sender buffer_size k s e fits small =
    rw (make_buffer-of_vector v destination p) (
      received_with_options order (1 ∷ v) sender buffer_size k s e fits small
      ∙ ap (◌++◌ s.dispatcher) (datagram_notices-user_data order v sender _))

-- The heartbeat of a client with the deadline `d` asks a server whose socket has its options set to
-- expect the next one within `d` milliseconds, modulo 2 ^ 32, if that is not 0, the client has a
-- socket file, and the buffer size of the server and its margin of 32 bytes together do not overflow
-- size_t.
pub heartbeat_received :
    (order : ByteOrder) (d : Millis) (sender : Endpoint) (buffer_size : ℕ) (k : Socket) (s : Impl)
    → s.socket ≡ some k
    → 0 < d % uint32_mod
    → non_empty_filesystem_endpoint_path sender ≡ true
    → buffer_size + buffer_margin < size_mod
    → (complete_receive order
        (make_buffer (heartbeat_entry order (some d)))
        sender
        (set_socket_options buffer_size s)).dispatcher
      ≡ s.dispatcher
        ++ next_heartbeat s.next_heartbeat_deadline_timers_generation (d % uint32_mod) sender ∷ []
heartbeat_received order d sender buffer_size k s e positive named small =
    rw (make_buffer-heartbeat order d) (
      received_with_options order _ sender buffer_size k s e
        (omega (arith, length-store_uint32 order (d % uint32_mod))) small
      ∙ ap (◌++◌ s.dispatcher)
          (datagram_notices-heartbeat order (d % uint32_mod) sender _ positive (omega arith) named))
