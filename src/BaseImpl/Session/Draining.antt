-- ===== src/BaseImpl/Session/Draining.antt =====
-- base_impl.hpp: the steps that empty the queue of the sender.
use mathlib.Core.List.{append-nil}
use cpp_local_datagram.Base.{
  ℕ, ◌≡◌, refl, sym, ap, subst, ◌∙◌, inl, inr, Bool, true, false, Option, none, List, [], ◌∷◌, ◌++◌,
  arith,
}
use cpp_local_datagram.Endpoint.{Endpoint}
use cpp_local_datagram.Memcpy.{ByteOrder}
use cpp_local_datagram.SendEntry.{SendEntry, rest_bytes, make_buffer}
use cpp_local_datagram.SendEntry.Transfer.{IsValid}
use cpp_local_datagram.BaseImpl.State.{
  Impl, Mode, init, ErrorCode, Millis, Op, send_to, wait_send_invoker, receive_from,
  wait_send_deadline, connect_to, is_open, start,
}
use cpp_local_datagram.BaseImpl.Send.{await_send_entry, await_next, await_front, send_front}
use cpp_local_datagram.BaseImpl.Send.Entries.{await_send_entry-Kept}
use cpp_local_datagram.BaseImpl.Send.Callbacks.{handle_send-Balanced, await-Balanced}
use cpp_local_datagram.BaseImpl.Send.Waiting.{called, waiting, ledger}
use cpp_local_datagram.BaseImpl.Session.{senders, Step, sends, wakes, Reach, here, next}
use cpp_local_datagram.BaseImpl.Session.Sender.{has_close, front, IsSending, Suits}
use cpp_local_datagram.BaseImpl.Session.Steps.{Step-IsSending, Reach-IsSending}
use cpp_local_datagram.BaseImpl.Session.Ready.{
  Reach-trans, At, senders-At, IsReady, IsReady-Kept, handle_send-IsReady,
}

-- What the steps come to.
abbrev Drained : ByteOrder → Impl → Type 0
Drained order s =
    (t : Impl) × Reach order s t
    × (t.send_entries ≡ [])
    × (called t.dispatcher ≡ ledger s)
    × (is_open t ≡ true)

Drained-next :
    (order : ByteOrder) {s t : Impl}
    → Step order s t
    → ledger t ≡ ledger s
    → Drained order t
    → Drained order s
Drained-next order st e (u, r, empty, all, opening) =
    (u, Reach-trans order (next here st) r, empty, all ∙ e, opening)

Drained-here : (order : ByteOrder) (s : Impl) → IsReady [] s → Drained order s
unfolding ledger waiting
Drained-here order s r = (
  s,
  here,
  r.entries,
  sym (append-nil (called s.dispatcher))
      ∙ ap (λ is. called s.dispatcher ++ waiting s.heap is) (sym r.entries),
  r.opening,
)

-- The send of the front entry succeeds, given that it is pending; `rest` empties what is left.
sends_front :
    (order : ByteOrder) (now : Millis) (i : ℕ) (is : List ℕ) (b : List ℕ) (d : Option Endpoint)
    (s : Impl)
    → At (send_to i b d) s.pending
    → IsReady (i ∷ is) s
    → IsSending s
    → ((t : Impl) → IsReady is t → IsSending t → Drained order t)
    → Drained order s
unfolding ledger is_open
sends_front order now i is b d s (earlier, later, e) r h rest =
    let taken : Impl = record s { pending = earlier ++ later } in
    let st = sends now ErrorCode.success (rest_bytes (s.heap i)) i b d earlier later e in
    let ready : IsReady (i ∷ is) taken = record {
      opening = r.opening;
      staying = r.staying;
      entries = r.entries;
      valid = r.valid;
    } in
    Drained-next order st
      (handle_send-Balanced now ErrorCode.success (rest_bytes (s.heap i)) i taken).balance
      (rest _ (handle_send-IsReady now i is taken ready) (Step-IsSending order st h))

await_started :
    (now : Millis) (i : ℕ) (is : List ℕ) (s : Impl)
    → is_open s ≡ true
    → s.send_entries ≡ i ∷ is
    → (await_send_entry now none s).pending
      ≡ s.pending ++ send_to i (make_buffer (s.heap i)) (s.heap i).destination_endpoint ∷ []
unfolding await_send_entry await_next await_front send_front start
await_started now i is s o e = ground arith

-- The wait ends, and the send of the front entry starts.
wakes_front :
    (order : ByteOrder) (now : Millis) (i : ℕ) (is : List ℕ) (s : Impl)
    → At wait_send_invoker s.pending
    → IsReady (i ∷ is) s
    → IsSending s
    → ((t : Impl) → IsReady is t → IsSending t → Drained order t)
    → Drained order s
unfolding ledger is_open
wakes_front order now i is s (earlier, later, e) r h rest =
    let taken : Impl = record s { pending = earlier ++ later } in
    let st = wakes now earlier later e in
    let ready : IsReady (i ∷ is) taken = record {
      opening = r.opening;
      staying = r.staying;
      entries = r.entries;
      valid = r.valid;
    } in
    Drained-next order st (await-Balanced now none taken).balance (
      sends_front order now i is _ _ _
        (earlier ++ later, [], await_started now i is taken r.opening r.entries)
        (IsReady-Kept (i ∷ is) (await_send_entry-Kept now none taken) ready)
        (Step-IsSending order st h) rest)

is_sender : Op → Bool
is_sender (send_to i b d) = true
is_sender wait_send_invoker = true
is_sender _ = false

senders-is_sender :
    (os : List Op) (o : Op) (rest : List Op) → senders os ≡ o ∷ rest → is_sender o ≡ true
unfolding senders is_sender
senders-is_sender [] o rest e = absurd (cc)
senders-is_sender (send_to i b d ∷ os) o rest e = ground arith
senders-is_sender (wait_send_invoker ∷ os) o rest e = ground arith
senders-is_sender (receive_from ∷ os) o rest e = senders-is_sender os o rest e
senders-is_sender (wait_send_deadline ∷ os) o rest e = senders-is_sender os o rest e
senders-is_sender (connect_to a ∷ os) o rest e = senders-is_sender os o rest e

-- The operation of the sender that is pending decides the next step.
by_op :
    (order : ByteOrder) (now : Millis) (i : ℕ) (is : List ℕ) (s : Impl) (o : Op)
    → IsReady (i ∷ is) s
    → IsSending s
    → ((t : Impl) → IsReady is t → IsSending t → Drained order t)
    → is_sender o ≡ true
    → senders s.pending ≡ o ∷ []
    → Suits o s
    → Drained order s
unfolding is_sender
by_op order now i is s (send_to j b d) r h rest sender one suits =
    sends_front order now i is b d s
      (subst (λ k. At (send_to k b d) s.pending) same (senders-At s.pending (send_to j b d) [] one))
      r h rest
  where
    same : j ≡ i
    same = cc (ap front r.entries, suits)
by_op order now i is s wait_send_invoker r h rest sender one suits =
    wakes_front order now i is s (senders-At s.pending wait_send_invoker [] one) r h rest
by_op order now i is s receive_from r h rest sender one suits = absurd (cc)
by_op order now i is s wait_send_deadline r h rest sender one suits = absurd (cc)
by_op order now i is s (connect_to a) r h rest sender one suits = absurd (cc)

drain :
    (order : ByteOrder) (now : Millis) (is : List ℕ) (s : Impl)
    → IsReady is s
    → IsSending s
    → Drained order s
drain order now [] s r h = Drained-here order s r
drain order now (i ∷ is) s r h = elim h.at_most_one [
  | inl idle ↦ absurd (cc (h.busy r.opening idle, r.staying))
  | inr (o, one, suits) ↦
      by_op order now i is s o r h (drain order now is) (senders-is_sender s.pending o [] one) one
        suits
]

-- From every state that an object can come to after its constructor, in which the socket is open, no
-- close has been posted and the counters of the entries are valid, there are steps that empty the
-- queue, with the socket still open: at the end the callbacks called are those called before and then
-- those of the entries that were queued, in order.
pub Reach-Drained :
    (order : ByteOrder) (m : Mode) (heap : ℕ → SendEntry) (address : ℕ) (is : List ℕ) (now : Millis)
    (s : Impl)
    → Reach order (init m heap address is) s
    → is_open s ≡ true
    → has_close s.io_ctx ≡ false
    → ((j : ℕ) → IsValid (s.heap j))
    → (t : Impl) × Reach order s t
      × (t.send_entries ≡ [])
      × (called t.dispatcher ≡ called s.dispatcher ++ waiting s.heap s.send_entries)
      × (is_open t ≡ true)
unfolding ledger
Reach-Drained order m heap address is now s r opening staying valid =
    drain order now s.send_entries s
      (record { opening = opening; staying = staying; entries = refl; valid = valid })
      (Reach-IsSending order m heap address is s r)
