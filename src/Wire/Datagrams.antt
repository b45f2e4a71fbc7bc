-- ===== src/Wire/Datagrams.antt =====
-- base_impl.hpp: the datagrams of a sender, and what a receiver makes of them.
use cpp_local_datagram.Base.{
  ℕ, zero, suc, ◌-◌, ◌≡◌, ap, subst, ◌∙◌, ◌⊎◌, inl, inr, List, [], ◌∷◌, ◌++◌, arith, length, take,
}
use cpp_local_datagram.Endpoint.{Endpoint}
use cpp_local_datagram.Memcpy.{ByteOrder}
use cpp_local_datagram.SendEntry.{SendEntry}
use cpp_local_datagram.BaseImpl.State.{Impl, Mode, init, success, Notice, send_to}
use cpp_local_datagram.BaseImpl.Receive.{complete_receive}
use cpp_local_datagram.BaseImpl.Receive.Datagrams.{
  datagram_notices, complete_receive-datagram, async_receive-dispatcher,
}
use cpp_local_datagram.BaseImpl.Receive.Datagrams.Received.{
  received_of, nothing-received_of, heartbeat-received_of, user_data-received_of,
}
use cpp_local_datagram.Wire.{
  Line, LineStep, steps, delivers, fails, leaves, LineRun, here, next, IsDatagram, nothing,
  heartbeat, user_data, IsSendable,
}
use cpp_local_datagram.Wire.Entries.{AreDatagrams, IsSound, taken-IsSound, add_none, add_rest}
use cpp_local_datagram.Wire.Sound.{handle_send-IsSound, Step-IsSound}

module _ (P : List ℕ → Type 0) where
  Carries : List (List ℕ) → Type 0
  Carries [] = Unit {0}
  Carries (b ∷ bs) = IsDatagram P b × Carries bs

  Carries-append :
      (bs : List (List ℕ)) (b : List ℕ) → Carries bs → IsDatagram P b → Carries (bs ++ b ∷ [])
  unfolding Carries
  Carries-append [] b c d = (d, tt)
  Carries-append (x ∷ bs) b c d = (c.0, Carries-append bs b c.1 d)

  Carries-drop :
      (bs : List (List ℕ)) (b : List ℕ) (cs : List (List ℕ))
      → Carries (bs ++ b ∷ cs)
      → Carries (bs ++ cs) × IsDatagram P b
  unfolding Carries
  Carries-drop [] b cs c = (c.1, c.0)
  Carries-drop (x ∷ bs) b cs c = let (rest, one) = Carries-drop bs b cs c.1 in ((c.0, rest), one)

  LineStep-Carries :
      (order : ByteOrder) {l m : Line}
      → LineStep order l m
      → IsSound P l.sender × Carries l.wire
      → IsSound P m.sender × Carries m.wire
  unfolding AreDatagrams
  LineStep-Carries order {l} (steps st beside) (sound, c) =
      (Step-IsSound P order st beside sound, c)
  LineStep-Carries order {l} (delivers now i b d before after e) (sound, c) =
      let (rest, one) = taken-IsSound P before (send_to i b d) after l.sender e sound in
      (
        handle_send-IsSound P now success _ i _ (add_rest P (l.sender.heap i) (sound.heap i)) rest,
        Carries-append l.wire b c one.0,
      )
  LineStep-Carries order {l} (fails now code i b d before after failed e) (sound, c) =
      let (rest, _) = taken-IsSound P before (send_to i b d) after l.sender e sound in
      (handle_send-IsSound P now code 0 i _ (add_none P (l.sender.heap i) (sound.heap i)) rest, c)
  LineStep-Carries order {l} (leaves b before after e) (sound, c) =
      (sound, (Carries-drop before b after (subst Carries e c)).0)

  LineRun-Carries :
      (order : ByteOrder) {l m : Line}
      → LineRun order l m
      → IsSound P l.sender × Carries l.wire
      → IsSound P m.sender × Carries m.wire
  LineRun-Carries order here h = h
  LineRun-Carries order (next r st) h = LineStep-Carries order st (LineRun-Carries order r h)

  -- What a datagram cut off at `n` bytes makes its receiver report.
  cut_off :
      (order : ByteOrder) (n : ℕ) (b : List ℕ) (sender : Endpoint) (g : ℕ)
      → IsDatagram P b
      → (received_of (datagram_notices order (take n b) sender g) ≡ [])
        ⊎ ((v : List ℕ) × P v
            × (received_of (datagram_notices order (take n b) sender g)
                ≡ (take (n - 1) v, sender) ∷ []))
  cut_off order n b sender g (nothing e) = inl (rw e (empty n))
    where
      empty : (n : ℕ) → received_of (datagram_notices order (take n []) sender g) ≡ []
      empty zero = nothing-received_of order sender g
      empty (suc n) = nothing-received_of order sender g
  cut_off order zero b sender g _ = inl (nothing-received_of order sender g)
  cut_off order (suc n) b sender g (heartbeat v e) =
      inl (rw e (heartbeat-received_of order (take n v) sender g))
  cut_off order (suc n) b sender g (user_data v e p) = inr (
    v,
    p,
    rw e (
        user_data-received_of order (take n v) sender g
        ∙ ap (λ k. (take k v, sender) ∷ []) one_less),
  )
    where
      one_less : n ≡ suc n - 1
      one_less = omega arith

-- When each entry is a heartbeat or data of which `P` holds, is shorter than 2 ^ 64 bytes, and has been
-- sent whole or not at all at the start, and each send takes all that is left of its entry or fails: in
-- every state that the sender and the datagrams under way can come to, each of these datagrams makes
-- any receiver report nothing as received, or data of which `P` holds, up to the end of its receive
-- buffer, once and with the endpoint of the sender.
pub received_was_sent :
    (order : ByteOrder) (P : List ℕ → Type 0) (m : Mode) (heap : ℕ → SendEntry) (address : ℕ)
    (is : List ℕ) (l : Line) (b : List ℕ) (before after : List (List ℕ)) (sender : Endpoint)
    (s : Impl)
    → ((j : ℕ) → IsSendable P (heap j))
    → LineRun order (record { sender = init m heap address is; wire = [] }) l
    → l.wire ≡ before ++ b ∷ after
    → (ns : List Notice) × ((complete_receive order b sender s).dispatcher ≡ s.dispatcher ++ ns)
      × ((received_of ns ≡ [])
          ⊎ ((v : List ℕ) × P v
              × (received_of ns ≡ (take (length s.receive_buffer - 1) v, sender) ∷ [])))
unfolding init Carries AreDatagrams
received_was_sent order P m heap address is l b before after sender s sendable r e = (
  datagram_notices order (take (length s.receive_buffer) b) sender
      s.next_heartbeat_deadline_timers_generation,
  ap (λ t. t.dispatcher) (complete_receive-datagram order b sender s) ∙ async_receive-dispatcher _,
  cut_off P order (length s.receive_buffer) b sender s.next_heartbeat_deadline_timers_generation
      (Carries-drop P before b after (subst (Carries P) e carried)).1,
)
  where
    carried : Carries P l.wire
    carried = (LineRun-Carries P order r (record { heap = sendable; pending = tt }, tt)).1
