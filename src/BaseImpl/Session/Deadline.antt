-- ===== src/BaseImpl/Session/Deadline.antt =====
-- base_impl.hpp, check_send_deadline: the steps of an object, and the wait for its deadline.
use cpp_local_datagram.Base.{
  ℕ, ◌<◌, ◌≡◌, refl, ap, ◌⊎◌, inl, inr, true, false, List, [], ◌∷◌, ◌++◌, arith, Bool-cases,
}
use cpp_local_datagram.Memcpy.{ByteOrder}
use cpp_local_datagram.SendEntry.{SendEntry}
use cpp_local_datagram.BaseImpl.State.{
  Impl, client, init, Millis, Op, send_to, wait_send_invoker, receive_from, wait_send_deadline,
  connect_to, is_open, at, post,
}
use cpp_local_datagram.BaseImpl.Socket.{async_close}
use cpp_local_datagram.BaseImpl.Send.{check_send_deadline}
use cpp_local_datagram.BaseImpl.Session.{Reach}
use cpp_local_datagram.BaseImpl.Session.Sender.{has_close, has_close-posted}
use cpp_local_datagram.BaseImpl.Session.Watching.{watches}
use cpp_local_datagram.BaseImpl.Session.Watched.{keep-IsWatched, init-IsWatched}

-- Where the wait stands among the operations that are pending.
watch_found :
    (os : List Op)
    → watches os ≡ true
    → (earlier : List Op) × (later : List Op) × (os ≡ earlier ++ wait_send_deadline ∷ later)
unfolding watches
watch_found [] h = absurd (cc)
watch_found (wait_send_deadline ∷ os) h = ([], os, refl)
watch_found (send_to i b d ∷ os) h =
    let (earlier, later, e) = watch_found os h in
    (send_to i b d ∷ earlier, later, ap (◌∷◌ (send_to i b d)) e)
watch_found (wait_send_invoker ∷ os) h =
    let (earlier, later, e) = watch_found os h in
    (wait_send_invoker ∷ earlier, later, ap (◌∷◌ wait_send_invoker) e)
watch_found (receive_from ∷ os) h =
    let (earlier, later, e) = watch_found os h in
    (receive_from ∷ earlier, later, ap (◌∷◌ receive_from) e)
watch_found (connect_to a ∷ os) h =
    let (earlier, later, e) = watch_found os h in
    (connect_to a ∷ earlier, later, ap (◌∷◌ (connect_to a)) e)

overdue_check :
    (now d : Millis) (s : Impl)
    → is_open s ≡ true
    → s.send_deadline ≡ at d
    → d < now
    → has_close (check_send_deadline now s).io_ctx ≡ true
unfolding check_send_deadline async_close post
overdue_check now d s o e late = ground (arith, has_close-posted s.io_ctx)

-- In client mode, in every state that an object can come to after its constructor: if the socket is
-- open and the deadline of a send has passed, then a close has been posted, or the wait for the
-- deadline is pending and its handler, when it runs, posts one.
pub Reach-overdue :
    (order : ByteOrder) (heap : ℕ → SendEntry) (address : ℕ) (is : List ℕ) (d now : Millis)
    (s : Impl)
    → Reach order (init client heap address is) s
    → is_open s ≡ true
    → s.send_deadline ≡ at d
    → d < now
    → (has_close s.io_ctx ≡ true)
      ⊎ ((earlier : List Op) × (later : List Op) × (s.pending
            ≡ earlier ++ wait_send_deadline ∷ later)
          × (has_close (check_send_deadline now (record s { pending = earlier ++ later })).io_ctx
              ≡ true))
unfolding is_open
Reach-overdue order heap address is d now s r o e late = elim (Bool-cases (has_close s.io_ctx)) [
  | inl closing ↦ inl closing
  | inr staying ↦
      let (earlier, later, p) = watch_found s.pending (watched staying) in
      inr
        (earlier, later, p, overdue_check now d (record s { pending = earlier ++ later }) o e late)
]
  where
    watched : has_close s.io_ctx ≡ false → watches s.pending ≡ true
    watched c = ground (arith, (keep-IsWatched order (init-IsWatched heap address is) r).watched o)
