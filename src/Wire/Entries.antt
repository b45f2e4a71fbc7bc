-- ===== src/Wire/Entries.antt =====
-- base_impl.hpp: entries and pending operations that hold whole datagrams.
use cpp_local_datagram.Base.{
  ◌+◌, ℕ, ◌≡◌, refl, sym, ap, subst, ◌∙◌, inl, inr, Bool, true, false, Option, none, some, List, [],
  ◌∷◌, ◌++◌, arith, drop, drop_all, ◌==◌, Bool-cases, if◌then◌else◌,
}
use cpp_local_datagram.SendEntry.{
  SendEntry, make_buffer, add_bytes_transferred, rest_bytes, set_no_buffer_space_error_count,
}
use cpp_local_datagram.SendEntry.Transfer.{make_buffer-drop}
use cpp_local_datagram.BaseImpl.State.{
  Impl, Millis, Op, send_to, wait_send_invoker, receive_from, wait_send_deadline, connect_to,
  is_open, modify, update, start, pos_infin, at,
}
use cpp_local_datagram.BaseImpl.Send.{
  count_no_buffer_space, await_send_entry, await_next, await_front, wait_for_entry, send_front,
}
use cpp_local_datagram.Wire.{IsDatagram, nothing, IsSendable}

module _ (P : List ℕ → Type 0) where
  pub make_buffer-IsDatagram : (e : SendEntry) → IsSendable P e → IsDatagram P (make_buffer e)
  make_buffer-IsDatagram e h = elim h.whole [
    | inl none_sent ↦
        subst (IsDatagram P) (sym (make_buffer-drop e ∙ ap (λ n. drop n e.buffer) none_sent))
          h.bytes
    | inr all_sent ↦
        nothing
          (make_buffer-drop e ∙ drop_all e.bytes_transferred e.buffer (omega (arith, all_sent)))
  ]

  pub add_none : (e : SendEntry) → IsSendable P e → IsSendable P (add_bytes_transferred 0 e)
  unfolding add_bytes_transferred
  add_none e h = record {
    bytes = h.bytes;
    fits = h.fits;
    whole = elim h.whole [
      | inl z ↦ inl (ground (arith, z, h.fits))
      | inr w ↦ inr (ground (arith, w, h.fits))
    ];
  }

  pub add_rest :
      (e : SendEntry) → IsSendable P e → IsSendable P (add_bytes_transferred (rest_bytes e) e)
  unfolding add_bytes_transferred rest_bytes
  add_rest e h = record {
    bytes = h.bytes;
    fits = h.fits;
    whole = elim h.whole [
      | inl z ↦ inr (ground (arith, z, h.fits))
      | inr w ↦ inr (ground (arith, w, h.fits))
    ];
  }

  pub counted : (e : SendEntry) → IsSendable P e → IsSendable P (count_no_buffer_space e)
  unfolding count_no_buffer_space set_no_buffer_space_error_count
  counted e h = record { bytes = h.bytes; fits = h.fits; whole = h.whole }

  -- What a pending operation sends.
  unfoldable pub AreDatagrams : List Op → Type 0
  AreDatagrams [] = Unit {0}
  AreDatagrams (send_to i b d ∷ os) = IsDatagram P b × AreDatagrams os
  AreDatagrams (_ ∷ os) = AreDatagrams os

  pub record IsSound (s : Impl) : Type 0 where
    pub heap : (j : ℕ) → IsSendable P (s.heap j)
    pub pending : AreDatagrams s.pending

  pub same-IsSound : {s t : Impl} → t.heap ≡ s.heap → t.pending ≡ s.pending → IsSound s → IsSound t
  same-IsSound h p sound = record {
    heap = λ j. subst (λ g. IsSendable P (g j)) (sym h) (sound.heap j);
    pending = subst AreDatagrams (sym p) sound.pending;
  }

  pub AreDatagrams-append :
      (os ps : List Op) → AreDatagrams os → AreDatagrams ps → AreDatagrams (os ++ ps)
  unfolding AreDatagrams
  AreDatagrams-append [] ps a b = b
  AreDatagrams-append (send_to i d e ∷ os) ps a b = (a.0, AreDatagrams-append os ps a.1 b)
  AreDatagrams-append (_ ∷ os) ps a b = AreDatagrams-append os ps a b

  -- An operation is taken out.
  pub AreDatagrams-drop :
      (os : List Op) (o : Op) (ps : List Op)
      → AreDatagrams (os ++ o ∷ ps)
      → AreDatagrams (os ++ ps) × AreDatagrams (o ∷ [])
  unfolding AreDatagrams
  AreDatagrams-drop [] (send_to i b d) ps a = (a.1, (a.0, tt))
  AreDatagrams-drop [] wait_send_invoker ps a = (a, tt)
  AreDatagrams-drop [] receive_from ps a = (a, tt)
  AreDatagrams-drop [] wait_send_deadline ps a = (a, tt)
  AreDatagrams-drop [] (connect_to args) ps a = (a, tt)
  AreDatagrams-drop (send_to i b d ∷ os) o ps a =
      let (rest, one) = AreDatagrams-drop os o ps a.1 in ((a.0, rest), one)
  AreDatagrams-drop (_ ∷ os) o ps a = AreDatagrams-drop os o ps a

  pub taken-IsSound :
      (os : List Op) (o : Op) (ps : List Op) (s : Impl)
      → s.pending ≡ os ++ o ∷ ps
      → IsSound s
      → IsSound (record s { pending = os ++ ps }) × AreDatagrams (o ∷ [])
  taken-IsSound os o ps s e sound =
      let (rest, one) = AreDatagrams-drop os o ps (subst AreDatagrams e sound.pending) in
      (record { heap = sound.heap; pending = rest }, one)

  pub started-IsSound :
      (o : Op) (s : Impl) → AreDatagrams (o ∷ []) → IsSound s → IsSound (start o s)
  unfolding start
  started-IsSound o s a sound = record {
    heap = sound.heap;
    pending = AreDatagrams-append s.pending (o ∷ []) sound.pending a;
  }

  pub if-IsSound : {s t : Impl} (b : Bool) → IsSound s → IsSound t → IsSound (if b then s else t)
  if-IsSound true p q = p
  if-IsSound false p q = q

  pub await_front-IsSound :
      (now : Millis) (is : List ℕ) (s : Impl) → IsSound s → IsSound (await_front now is s)
  unfolding await_front wait_for_entry send_front AreDatagrams
  await_front-IsSound now [] s h =
      started-IsSound wait_send_invoker (record s { send_invoker = pos_infin }) tt
        (same-IsSound refl refl h)
  await_front-IsSound now (i ∷ is) s h =
      started-IsSound (send_to i _ _) (record s { send_deadline = at (now + 5000) })
        (make_buffer-IsDatagram (s.heap i) (h.heap i), tt) (same-IsSound refl refl h)

  pub await-IsSound :
      (now : Millis) (delay : Option Millis) (s : Impl)
      → IsSound s
      → IsSound (await_send_entry now delay s)
  unfolding await_send_entry await_next wait_for_entry AreDatagrams
  await-IsSound now none s h = if-IsSound (is_open s) (await_front-IsSound now s.send_entries s h) h
  await-IsSound now (some d) s h =
      if-IsSound (is_open s)
        (started-IsSound wait_send_invoker (record s { send_invoker = at (now + d) }) tt
          (same-IsSound refl refl h))
        h

  pub modify-IsSound :
      (i : ℕ) (f : SendEntry → SendEntry) (s : Impl)
      → IsSendable P (f (s.heap i))
      → IsSound s
      → IsSound (modify i f s)
  unfolding modify
  modify-IsSound i f s own sound = record { heap = after; pending = sound.pending }
    where
      after : (j : ℕ) → IsSendable P (update s.heap i (f (s.heap i)) j)
      after j = elim (Bool-cases (i == j)) [ inl e ↦ rw e own | inr e ↦ rw e (sound.heap j) ]
