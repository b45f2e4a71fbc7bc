-- ===== src/Examples/Progress.antt =====
-- Examples for what the steps of an object lead to.
use cpp_local_datagram.Base.{◌≡◌, refl, ◌⊎◌, arith, true, none, List, [], ◌∷◌, ◌++◌}
use cpp_local_datagram.Memcpy.{little_endian}
use cpp_local_datagram.BaseImpl.State.{
  Impl, client, server, init, is_open, Op, wait_send_deadline, receive_from,
}
use cpp_local_datagram.BaseImpl.Receive.{async_receive}
use cpp_local_datagram.BaseImpl.Send.{
  async_send, run_push_entry, await_send_entry, await_next, await_front, start_actors,
  check_deadline_of, check_send_deadline,
}
use cpp_local_datagram.BaseImpl.Send.Waiting.{called, waiting}
use cpp_local_datagram.BaseImpl.Session.{
  senders, opened, Reach, here, next, calls_send, runs_push, opens, wakes,
}
use cpp_local_datagram.BaseImpl.Session.Sender.{has_close}
use cpp_local_datagram.BaseImpl.Session.Draining.{Reach-Drained}
use cpp_local_datagram.BaseImpl.Session.Deadline.{Reach-overdue}
use cpp_local_datagram.Examples.{a_heap, a_socket, an_entry-IsValid, new_impl_object}

-- A server with one entry in its queue, whose sender has started.
abbrev sending_server : Impl
sending_server = start_actors 9 (opened a_socket new_impl_object)

Reach-Drained_example :
    (t : Impl) × Reach little_endian sending_server t
    × (t.send_entries ≡ [])
    × (called t.dispatcher
        ≡ called sending_server.dispatcher
          ++ waiting sending_server.heap sending_server.send_entries)
    × (is_open t ≡ true)
unfolding init senders has_close is_open start_actors async_receive check_deadline_of
    await_send_entry await_next await_front
Reach-Drained_example =
    Reach-Drained little_endian server a_heap 1 (0 ∷ []) 10 sending_server
      (next here (opens 9 a_socket refl)) refl refl (λ j. an_entry-IsValid)

-- A client that is opened with an empty queue, is given an entry, and sends it.
abbrev new_client : Impl
new_client = init client a_heap 1 []

abbrev opened_client : Impl
opened_client = start_actors 9 (opened a_socket new_client)

abbrev given_client : Impl
given_client = run_push_entry 10 0 (record (async_send 0 opened_client) { io_ctx = [] })

abbrev sending_client : Impl
sending_client =
    await_send_entry 10 none
      (record given_client { pending = wait_send_deadline ∷ receive_from ∷ [] })

sending_client_reached : Reach little_endian new_client sending_client
unfolding init senders async_send start_actors async_receive check_deadline_of await_send_entry
    await_next await_front run_push_entry
sending_client_reached =
    next (next (next (next here (opens 9 a_socket refl)) (calls_send 0)) (runs_push 10 0 [] refl))
      (wakes 10 [] (wait_send_deadline ∷ receive_from ∷ []) refl)

Reach-overdue_example :
    (has_close sending_client.io_ctx ≡ true)
    ⊎ ((earlier : List Op) × (later : List Op) × (sending_client.pending
          ≡ earlier ++ wait_send_deadline ∷ later)
        × (has_close
              (check_send_deadline 5011
                (record sending_client { pending = earlier ++ later })).io_ctx
            ≡ true))
unfolding init is_open await_send_entry run_push_entry async_send start_actors async_receive
    check_deadline_of await_next await_front
Reach-overdue_example =
    Reach-overdue little_endian a_heap 1 [] 5010 5011 sending_client sending_client_reached refl
      refl (omega arith)
