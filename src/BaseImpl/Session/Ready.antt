-- ===== src/BaseImpl/Session/Ready.antt =====
-- base_impl.hpp: the states in which the sender can go on with its queue.
use cpp_local_datagram.Base.{
  ℕ, ◌≡◌, refl, sym, ap, subst, ◌∙◌, inl, inr, true, false, none, List, [], ◌∷◌, ◌++◌, arith,
  Bool-cases, ◌==◌,
}
use cpp_local_datagram.Memcpy.{ByteOrder}
use cpp_local_datagram.SendEntry.{SendEntry, add_bytes_transferred, rest_bytes, transfer_complete}
use cpp_local_datagram.SendEntry.Transfer.{IsValid, add_bytes_transferred-rest}
use cpp_local_datagram.BaseImpl.State.{
  Impl, ErrorCode, Millis, Op, send_to, wait_send_invoker, receive_from, wait_send_deadline,
  connect_to, is_open, modify, update,
}
use cpp_local_datagram.BaseImpl.Send.{
  handle_send, handle_result, finish_send, pop_front_send_entry, pop_front, enqueue_processed,
}
use cpp_local_datagram.BaseImpl.Send.Entries.{Kept, await_send_entry-Kept}
use cpp_local_datagram.BaseImpl.Session.{senders, Reach, here, next}
use cpp_local_datagram.BaseImpl.Session.Sender.{has_close}

pub Reach-trans :
    (order : ByteOrder) {s t u : Impl} → Reach order s t → Reach order t u → Reach order s u
Reach-trans order r here = r
Reach-trans order r (next q st) = next (Reach-trans order r q) st

-- Where an operation of the sender stands among those that are pending.
abbrev pub At : Op → List Op → Type 0
At o os = (earlier : List Op) × (later : List Op) × (os ≡ earlier ++ o ∷ later)

At-cons : (p o : Op) (os : List Op) → At o os → At o (p ∷ os)
At-cons p o os (earlier, later, e) = (p ∷ earlier, later, ap (◌∷◌ p) e)

pub senders-At : (os : List Op) (o : Op) (rest : List Op) → senders os ≡ o ∷ rest → At o os
unfolding senders
senders-At [] o rest e = absurd (cc)
senders-At (send_to i b d ∷ os) o rest e = ([], os, cc)
senders-At (wait_send_invoker ∷ os) o rest e = ([], os, cc)
senders-At (receive_from ∷ os) o rest e = At-cons receive_from o os (senders-At os o rest e)
senders-At (wait_send_deadline ∷ os) o rest e =
    At-cons wait_send_deadline o os (senders-At os o rest e)
senders-At (connect_to a ∷ os) o rest e = At-cons (connect_to a) o os (senders-At os o rest e)

-- The parts of the state that sending goes on from.
pub record IsReady (is : List ℕ) (s : Impl) : Type 0 where
  pub opening : is_open s ≡ true
  pub staying : has_close s.io_ctx ≡ false
  pub entries : s.send_entries ≡ is
  pub valid : (j : ℕ) → IsValid (s.heap j)

sent_whole : SendEntry → SendEntry
sent_whole e = add_bytes_transferred (rest_bytes e) e

sent_heap-IsValid :
    (i : ℕ) (h : ℕ → SendEntry)
    → ((j : ℕ) → IsValid (h j))
    → (j : ℕ) → IsValid (update h i (sent_whole (h i)) j)
unfolding sent_whole
sent_heap-IsValid i h v j = elim (Bool-cases (i == j)) [
  | inl e ↦ rw e ((add_bytes_transferred-rest (rest_bytes (h i)) (h i) (v i) (omega arith)).0)
  | inr e ↦ rw e (v j)
]

pub IsReady-Kept : (is : List ℕ) {s t : Impl} → Kept s t → IsReady is s → IsReady is t
unfolding is_open
IsReady-Kept is {s} {t} k r = record {
  opening = ground (arith, k.socket, k.socket_ready, r.opening);
  staying = ap has_close k.io_ctx ∙ r.staying;
  entries = k.send_entries ∙ r.entries;
  valid = λ j. subst (λ h. IsValid (h j)) (sym k.heap) (r.valid j);
}

pop_front-IsReady :
    (i : ℕ) (is : List ℕ) (s : Impl) → IsReady (i ∷ is) s → IsReady is (pop_front (i ∷ is) s)
unfolding pop_front enqueue_processed is_open
pop_front-IsReady i is s r = record {
  opening = ground (arith, r.opening);
  staying = ap has_close (ground arith) ∙ r.staying;
  entries = refl;
  valid = λ j. subst (λ (h : ℕ → SendEntry). IsValid (h j)) same_heap (r.valid j);
}
  where
    same_heap : s.heap ≡ (pop_front (i ∷ is) s).heap
    same_heap = ground arith

finish_send-IsReady :
    (now : Millis) (i : ℕ) (is : List ℕ) (s : Impl)
    → transfer_complete (s.heap i) ≡ true
    → IsReady (i ∷ is) s
    → IsReady is (finish_send now none i s)
unfolding finish_send pop_front_send_entry
finish_send-IsReady now i is s whole r = rw whole (
    IsReady-Kept is (await_send_entry-Kept now none _)
      (subst (λ js. IsReady is (pop_front js s)) (sym r.entries) (pop_front-IsReady i is s r)))

-- A send of all the rest takes the front entry out of the queue.
pub handle_send-IsReady :
    (now : Millis) (i : ℕ) (is : List ℕ) (s : Impl)
    → IsReady (i ∷ is) s
    → IsReady is (handle_send now ErrorCode.success (rest_bytes (s.heap i)) i s)
unfolding handle_send handle_result is_open modify sent_whole
handle_send-IsReady now i is s r = finish_send-IsReady now i is _ whole (record {
  opening = r.opening;
  staying = r.staying;
  entries = r.entries;
  valid = sent_heap-IsValid i s.heap r.valid;
})
  where
    sent :
        (n : ℕ)
        → (i == n) ≡ true
        → update s.heap i (sent_whole (s.heap i)) n ≡ sent_whole (s.heap i)
    sent n e = rw e

    whole : transfer_complete (update s.heap i (sent_whole (s.heap i)) i) ≡ true
    whole =
        ap transfer_complete (sent i (ground arith))
        ∙ (add_bytes_transferred-rest (rest_bytes (s.heap i)) (s.heap i) (r.valid i)
            (omega arith)).2
