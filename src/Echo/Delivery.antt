-- ===== src/Echo/Delivery.antt =====
-- example/main.cpp: data on its way from a client to the server and back.
use cpp_local_datagram.Base.{
  ℕ, ◌+◌, ◌<◌, ◌≡◌, refl, ap, ◌∙◌, true, Option, none, some, List, [], ◌∷◌, ◌++◌, arith, length,
  if◌then◌else◌,
}
use mathlib.Core.Option
use cpp_local_datagram.Endpoint.{Endpoint, non_empty_filesystem_endpoint_path}
use cpp_local_datagram.Memcpy.{ByteOrder}
use cpp_local_datagram.SendEntry.{SendEntry, Processed, user_data, of_vector, make_buffer}
use cpp_local_datagram.BaseImpl.State.{
  Impl, Millis, send_to, emit, received, is_open, start, post, update,
}
use cpp_local_datagram.BaseImpl.Receive.{complete_receive, async_receive}
use cpp_local_datagram.BaseImpl.Send.{
  run_push_entry, await_send_entry, await_next, await_front, send_front, async_send, wait_for_entry,
}
use cpp_local_datagram.ClientImpl.{ClientImpl}
use cpp_local_datagram.ServerImpl.{ServerImpl}
use cpp_local_datagram.Client.{Client}
use cpp_local_datagram.Client
use cpp_local_datagram.Server.{Server}
use cpp_local_datagram.Server
use cpp_local_datagram.RoundTrip.{received_whole}
use cpp_local_datagram.BaseImpl.Receive.Datagrams.{
  complete_receive-datagram, datagram_notices-user_data,
}
use cpp_local_datagram.Echo.{on_server_received}

-- The entry at `i` is queued, and the wait of the sender ends.
abbrev pub sent_next : Millis → ℕ → Impl → Impl
sent_next now i b = await_send_entry now none (run_push_entry now i b)

-- What the base of an impl holds once data has been given to async_send.
abbrev given : SendEntry → Impl → Impl
given e b = record b { heap = update b.heap b.next_address e; next_address = b.next_address + 1 }

client_given :
    (v : List ℕ) (p : Processed) (c : Client) (k : ClientImpl)
    → c.client_impl ≡ some k
    → Option.map
        (λ m. m.base)
        (Client.run_send k.base.next_address (Client.async_send_vector v p c)).client_impl
      ≡ some (async_send k.base.next_address (given (of_vector user_data v none p) k.base))
unfolding Client.run_send Client.async_send_vector
client_given v p c k e = ground arith

server_given :
    (v : List ℕ) (sender : Endpoint) (s : Server) (k : ServerImpl)
    → s.server_impl ≡ some k
    → Option.map
        (λ m. m.base)
        (Server.run_send k.base.next_address (Server.async_send_vector v sender none s)).server_impl
      ≡ some
          (async_send k.base.next_address (given (of_vector user_data v (some sender) none) k.base))
unfolding Server.run_send Server.async_send_vector
server_given v sender s k e = ground arith

next_sent :
    (now : Millis) (v : List ℕ) (d : Option Endpoint) (p : Processed) (b : Impl)
    → is_open b ≡ true
    → b.send_entries ≡ []
    → (sent_next now b.next_address
        (async_send b.next_address (given (of_vector user_data v d p) b))).pending
      ≡ b.pending ++ send_to b.next_address (1 ∷ v) d ∷ []
unfolding async_send post run_push_entry await_send_entry await_next await_front send_front start
    make_buffer of_vector is_open
next_sent now v d p b o e = ground arith

map-then :
    {A B C : Type 0} (f : A → B) (g : B → C) {b : B} (m : Option A)
    → Option.map f m ≡ some b
    → Option.map (λ a. g (f a)) m ≡ some (g b)
map-then f g none e = ap (Option.map g) e
map-then f g (some a) e = ap (Option.map g) e

-- The server's slot for a sender with a socket file.
given_back :
    (v : List ℕ) (path : Endpoint) (s : Server)
    → non_empty_filesystem_endpoint_path path ≡ true
    → on_server_received v path s ≡ Server.async_send_vector v path none s
unfolding on_server_received
given_back v path s file = ap (λ t. if t then Server.async_send_vector v path none s else s) file

user_data_reported :
    (order : ByteOrder) (v : List ℕ) (sender : Endpoint) (b : Impl)
    → length v < length b.receive_buffer
    → (complete_receive order (1 ∷ v) sender b).dispatcher
      ≡ b.dispatcher ++ emit (received v sender) ∷ []
user_data_reported order v sender b fits =
    received_whole order (1 ∷ v) sender b (omega arith)
    ∙ ap (◌++◌ b.dispatcher) (datagram_notices-user_data order v sender _)

-- The receipt of a datagram leaves the sender alone.
receipt_beside_sender :
    (order : ByteOrder) (datagram : List ℕ) (sender : Endpoint) (b : Impl)
    → let t = complete_receive order datagram sender b in
      (is_open t ≡ is_open b)
      × (t.send_entries ≡ b.send_entries)
      × (t.next_address ≡ b.next_address)
unfolding async_receive start is_open
receipt_beside_sender order datagram sender b =
    rw (complete_receive-datagram order datagram sender b)
      (ground arith, ground arith, ground arith)

-- A send leaves the receiver alone.
send_beside_receiver :
    (now : Millis) (i : ℕ) (e : SendEntry) (b : Impl)
    → let t = sent_next now i (async_send i (given e b)) in
      (t.receive_buffer ≡ b.receive_buffer) × (t.dispatcher ≡ b.dispatcher)
unfolding async_send post run_push_entry await_send_entry await_next await_front send_front
    wait_for_entry start is_open
send_beside_receiver now i e b = (ground arith, ground arith)

heard_after_send :
    (order : ByteOrder) (now : Millis) (v : List ℕ) (sender : Endpoint) (e : SendEntry) (b : Impl)
    → length v < length b.receive_buffer
    → (complete_receive order
        (1 ∷ v)
        sender
        (sent_next now b.next_address (async_send b.next_address (given e b)))).dispatcher
      ≡ b.dispatcher ++ emit (received v sender) ∷ []
heard_after_send order now v sender e b fits =
    let (buffer, notices) = send_beside_receiver now b.next_address e b in
    user_data_reported order v sender _ (rw buffer fits)
    ∙ ap (λ ns. ns ++ emit (received v sender) ∷ []) notices

-- Data of less than the size of the receive buffers goes to the server and back, when both sockets are
-- open, both queues are empty, and the client has a socket file: given to async_send and once its
-- closures and the end of the wait have run, the data is sent behind the type byte; the server reports
-- what it receives as the data, from the client; its slot then gives the data back to async_send, and it
-- is sent in the same way to the endpoint of the client; the client, after its send, reports what it
-- receives as the data, from the server.
pub echo_returns :
    (order : ByteOrder) (v : List ℕ) (p : Processed) (path server_path : Endpoint) (now : Millis)
    (c : Client) (kc : ClientImpl) (s : Server) (ks : ServerImpl)
    → c.client_impl ≡ some kc
    → s.server_impl ≡ some ks
    → is_open kc.base ≡ true
    → is_open ks.base ≡ true
    → kc.base.send_entries ≡ []
    → ks.base.send_entries ≡ []
    → length v < length kc.base.receive_buffer
    → length v < length ks.base.receive_buffer
    → non_empty_filesystem_endpoint_path path ≡ true
    → let i = kc.base.next_address in
      let asked = Client.run_send i (Client.async_send_vector v p c) in
      let heard = record ks { base = complete_receive order (1 ∷ v) path ks.base } in
      let j = heard.base.next_address in
      let answered =
        Server.run_send j (on_server_received v path (record s { server_impl = some heard })) in
      (Option.map (λ m. (sent_next now i m.base).pending) asked.client_impl
        ≡ some (kc.base.pending ++ send_to i (1 ∷ v) none ∷ []))
      × (heard.base.dispatcher ≡ ks.base.dispatcher ++ emit (received v path) ∷ [])
      × (Option.map (λ m. (sent_next now j m.base).pending) answered.server_impl
          ≡ some (heard.base.pending ++ send_to j (1 ∷ v) (some path) ∷ []))
      × (Option.map
            (λ m. (complete_receive order (1 ∷ v) server_path (sent_next now i m.base)).dispatcher)
            asked.client_impl
          ≡ some (kc.base.dispatcher ++ emit (received v server_path) ∷ []))
echo_returns order v p path server_path now c kc s ks ec es oc os qc qs lc ls file =
    let i = kc.base.next_address in
    let heard = record ks { base = complete_receive order (1 ∷ v) path ks.base } in
    let t = record s { server_impl = some heard } in
    let j = heard.base.next_address in
    let (opened, queue, _) = receipt_beside_sender order (1 ∷ v) path ks.base in
    let entry = of_vector user_data v none p in
    (
      map-then (λ m. m.base) (λ b. (sent_next now i b).pending) _ (client_given v p c kc ec)
          ∙ ap some (next_sent now v none p kc.base oc qc),
      user_data_reported order v path ks.base ls,
      map-then (λ m. m.base) (λ b. (sent_next now j b).pending)
            (Server.run_send j (on_server_received v path t)).server_impl
            (ap (λ u. Option.map (λ m. m.base) (Server.run_send j u).server_impl)
                (given_back v path t file)
              ∙ server_given v path t heard refl)
          ∙ ap some (next_sent now v (some path) none heard.base (opened ∙ os) (queue ∙ qs)),
      map-then (λ m. m.base)
            (λ b. (complete_receive order (1 ∷ v) server_path (sent_next now i b)).dispatcher) _
            (client_given v p c kc ec)
          ∙ ap some (heard_after_send order now v server_path entry kc.base lc),
    )
