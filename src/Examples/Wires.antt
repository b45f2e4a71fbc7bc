-- ===== src/Examples/Wires.antt =====
-- Examples for the datagrams under way.
use cpp_local_datagram.Base.{
  ℕ, ◌-◌, ◌≡◌, refl, ◌⊎◌, inl, arith, none, List, [], ◌∷◌, ◌++◌, length, take,
}
use cpp_local_datagram.Memcpy.{little_endian}
use cpp_local_datagram.SendEntry.{make_buffer, rest_bytes, of_vector}
use cpp_local_datagram.BaseImpl.State.{Impl, server, init, success, Notice, receive_from}
use cpp_local_datagram.BaseImpl.Receive.{async_receive, complete_receive}
use cpp_local_datagram.BaseImpl.Receive.Datagrams.Received.{received_of}
use cpp_local_datagram.BaseImpl.Send.{
  start_actors, check_deadline_of, await_send_entry, await_next, await_front, send_front,
  handle_send,
}
use cpp_local_datagram.BaseImpl.Session.{senders, opened, opens}
use cpp_local_datagram.Wire.{Line, LineRun, here, next, steps, delivers, user_data, IsSendable}
use cpp_local_datagram.Wire.Datagrams.{received_was_sent}
use cpp_local_datagram.Examples.{
  a_heap, a_socket, an_entry, new_impl_object, opened_impl, client_path, three_bytes,
}

-- A server that has an entry opens its socket and sends the entry.
abbrev sending : Impl
sending = start_actors 9 (opened a_socket new_impl_object)

abbrev sent_line : Line
sent_line = record {
  sender =
      handle_send 10 success (rest_bytes (sending.heap 0)) 0
        (record sending { pending = receive_from ∷ [] });
  wire = (1 ∷ three_bytes) ∷ [];
}

sent_line_reached :
    LineRun little_endian (record { sender = init server a_heap 1 (0 ∷ []); wire = [] }) sent_line
unfolding init senders start_actors async_receive check_deadline_of await_send_entry await_next
    await_front send_front make_buffer of_vector
sent_line_reached =
    next (next here (steps (opens 9 a_socket refl) refl))
      (delivers 10 0 (1 ∷ three_bytes) none [] (receive_from ∷ []) refl)

-- A receiver with room for eight bytes.
abbrev large_receiver : Impl
large_receiver = record opened_impl { receive_buffer = 0 ∷ 0 ∷ 0 ∷ 0 ∷ 0 ∷ 0 ∷ 0 ∷ 0 ∷ [] }

IsThree : List ℕ → Type 0
IsThree v = v ≡ three_bytes

an_entry-IsSendable : IsSendable IsThree an_entry
unfolding of_vector IsThree
an_entry-IsSendable = record {
  bytes = user_data three_bytes refl refl;
  fits = omega arith;
  whole = inl refl;
}

received_was_sent_example :
    (ns : List Notice) × ((complete_receive little_endian
        (1 ∷ three_bytes)
        client_path
        large_receiver).dispatcher
      ≡ large_receiver.dispatcher ++ ns)
    × ((received_of ns ≡ [])
        ⊎ ((v : List ℕ) × IsThree v
            × (received_of ns
                ≡ (take (length large_receiver.receive_buffer - 1) v, client_path) ∷ [])))
received_was_sent_example =
    received_was_sent little_endian IsThree server a_heap 1 (0 ∷ []) sent_line (1 ∷ three_bytes) []
      [] client_path large_receiver (λ j. an_entry-IsSendable) sent_line_reached refl
