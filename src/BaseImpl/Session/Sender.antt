-- ===== src/BaseImpl/Session/Sender.antt =====
-- base_impl.hpp: the operations of the sender, and when they are in order.
use cpp_local_datagram.Base.{
  ℕ, ◌+◌, ◌≡◌, ◌≢◌, refl, sym, ap, ap₂, subst, ◌∙◌, ◌⊎◌, inl, inr, Bool, true, false, Option, none,
  some, List, [], ◌∷◌, ◌++◌, Bool-cases,
}
use cpp_local_datagram.BaseImpl.State.{
  Impl, Millis, Task, close, Op, send_to, wait_send_invoker, TimePoint, pos_infin, at, is_open,
}
use cpp_local_datagram.BaseImpl.Send.{await_send_entry, await_next, await_front, wait_for_entry}
use cpp_local_datagram.BaseImpl.Session.{senders}

abbrev pub front : List ℕ → Option ℕ
front [] = none
front (i ∷ _) = some i

unfoldable pub has_close : List Task → Bool
has_close [] = false
has_close (close ∷ _) = true
has_close (_ ∷ ts) = has_close ts

-- A send is that of the front entry; a wait is for ever only if there is no entry.
abbrev pub Suits : Op → Impl → Type 0
Suits (send_to i _ _) s = front s.send_entries ≡ some i
Suits wait_send_invoker s = s.send_invoker ≡ pos_infin → s.send_entries ≡ []
Suits _ s = Unit {0}

abbrev pub AtMostOne : Impl → Type 0
AtMostOne s = (senders s.pending ≡ []) ⊎ ((o : Op) × (senders s.pending ≡ o ∷ []) × Suits o s)

pub record IsSending (s : Impl) : Type 0 where
  -- There is at most one operation of the sender, and it suits the queue.
  pub at_most_one : AtMostOne s
  -- There is one while the socket is open, unless it is about to be closed.
  pub busy : is_open s ≡ true → senders s.pending ≡ [] → has_close s.io_ctx ≡ true

pub senders-append : (os ps : List Op) → senders (os ++ ps) ≡ senders os ++ senders ps
unfolding senders
senders-append [] ps = refl
senders-append (send_to i b d ∷ os) ps = ap (◌∷◌ (send_to i b d)) (senders-append os ps)
senders-append (wait_send_invoker ∷ os) ps = ap (◌∷◌ wait_send_invoker) (senders-append os ps)
senders-append (_ ∷ os) ps = senders-append os ps

pub has_close-append : (ts us : List Task) → has_close ts ≡ true → has_close (ts ++ us) ≡ true
unfolding has_close
has_close-append [] us h = cc
has_close-append (close ∷ ts) us h = refl
has_close-append (_ ∷ ts) us h = has_close-append ts us h

pub has_close-posted : (ts : List Task) → has_close (ts ++ close ∷ []) ≡ true
unfolding has_close
has_close-posted [] = refl
has_close-posted (close ∷ ts) = refl
has_close-posted (_ ∷ ts) = has_close-posted ts

-- `o` has been started, and no other operation of the sender is pending.
started_alone :
    (os : List Op) (o : Op) → senders os ≡ [] → senders (os ++ o ∷ []) ≡ senders (o ∷ [])
started_alone os o e = senders-append os (o ∷ []) ∙ ap (λ ps. ps ++ senders (o ∷ [])) e

IsSending-of_one : {s : Impl} (o : Op) → senders s.pending ≡ o ∷ [] → Suits o s → IsSending s
IsSending-of_one o one suits = record { at_most_one = inr (o, one, suits); busy = λ _ idle. cc }

wait_for_entry-IsSending :
    (at_time : TimePoint) (s : Impl)
    → (at_time ≡ pos_infin → s.send_entries ≡ [])
    → senders s.pending ≡ []
    → IsSending (wait_for_entry at_time s)
unfolding wait_for_entry senders
wait_for_entry-IsSending t s h alone =
    IsSending-of_one wait_send_invoker (started_alone s.pending wait_send_invoker alone) h

await_front-IsSending :
    (now : Millis) (is : List ℕ) (s : Impl)
    → s.send_entries ≡ is
    → senders s.pending ≡ []
    → IsSending (await_front now is s)
unfolding await_front senders
await_front-IsSending now [] s e alone = wait_for_entry-IsSending pos_infin s (λ _. e) alone
await_front-IsSending now (i ∷ is) s e alone =
    IsSending-of_one (send_to i _ _) (started_alone s.pending (send_to i _ _) alone) (ap front e)

await_next-IsSending :
    (now : Millis) (delay : Option Millis) (s : Impl)
    → senders s.pending ≡ []
    → IsSending (await_next now delay s)
unfolding await_next
await_next-IsSending now none s alone = await_front-IsSending now s.send_entries s refl alone
await_next-IsSending now (some d) s alone =
    wait_for_entry-IsSending (at (now + d)) s (λ e. cc) alone

-- When no operation of the sender is pending, await_send_entry starts the one that suits.
pub await_send_entry-IsSending :
    (now : Millis) (delay : Option Millis) (s : Impl)
    → senders s.pending ≡ []
    → IsSending (await_send_entry now delay s)
unfolding await_send_entry
await_send_entry-IsSending now delay s alone = elim (Bool-cases (is_open s)) [
  | inl o ↦ rw o (await_next-IsSending now delay s alone)
  | inr c ↦ rw c (record { at_most_one = inl alone; busy = λ o _. cc })
]

-- Steps that the sender does not notice.
pub record Quiet (s t : Impl) : Type 0 where
  pub opening : is_open t ≡ true → is_open s ≡ true
  pub entries : t.send_entries ≡ s.send_entries
  pub operations : senders t.pending ≡ senders s.pending
  pub invoker : t.send_invoker ≡ s.send_invoker
  pub closing : is_open t ≡ true → has_close s.io_ctx ≡ true → has_close t.io_ctx ≡ true

pub AtMostOne-map :
    {s t : Impl}
    → ((o : Op) → Suits o s → Suits o t)
    → senders t.pending ≡ senders s.pending
    → AtMostOne s
    → AtMostOne t
AtMostOne-map f p (inl e) = inl (p ∙ e)
AtMostOne-map f p (inr (o, e, suits)) = inr (o, p ∙ e, f o suits)

pub Suits-io_ctx :
    (ts : List Task) (s : Impl) (o : Op) → Suits o s → Suits o (record s { io_ctx = ts })
Suits-io_ctx ts s (send_to i b d) h = h
Suits-io_ctx ts s wait_send_invoker h = h
Suits-io_ctx ts s _ h = tt

pub Suits-Quiet : {s t : Impl} (o : Op) → Quiet s t → Suits o s → Suits o t
Suits-Quiet (send_to i b d) q h = ap front q.entries ∙ h
Suits-Quiet wait_send_invoker q h = λ e. q.entries ∙ h (sym q.invoker ∙ e)
Suits-Quiet _ q h = tt

pub Quiet-IsSending : {s t : Impl} → Quiet s t → IsSending s → IsSending t
Quiet-IsSending q h = record {
  at_most_one = AtMostOne-map (λ o. Suits-Quiet o q) q.operations h.at_most_one;
  busy = λ o e. q.closing o (h.busy (q.opening o) (sym q.operations ∙ e));
}

middle_of_one :
    (os ps : List Op) (o o' : Op) → os ++ o ∷ ps ≡ o' ∷ [] → (os ≡ []) × (o ≡ o') × (ps ≡ [])
middle_of_one [] ps o o' e = (refl, cc, cc)
middle_of_one (a ∷ []) ps o o' e = absurd (cc)
middle_of_one (a ∷ b ∷ os) ps o o' e = absurd (cc)

pub middle_of_none : (os ps : List Op) (o : Op) → os ++ o ∷ ps ≢ []
middle_of_none [] ps o e = cc
middle_of_none (a ∷ os) ps o e = cc

pub senders-middle :
    (os ps : List Op) (o : Op)
    → senders (o ∷ []) ≡ o ∷ []
    → senders (os ++ o ∷ ps) ≡ senders os ++ o ∷ senders ps
senders-middle os ps o e =
    senders-append os (o ∷ ps)
    ∙ ap (◌++◌ (senders os)) (senders-append (o ∷ []) ps ∙ ap (λ qs. qs ++ senders ps) e)

-- Completing an operation of the sender leaves it none.
pub completes_one :
    (os ps : List Op) (o : Op) (s : Impl)
    → senders (o ∷ []) ≡ o ∷ []
    → s.pending ≡ os ++ o ∷ ps
    → IsSending s
    → (senders (os ++ ps) ≡ []) × Suits o s
completes_one os ps o s e p h = elim h.at_most_one [
  | inl idle ↦ absurd (middle_of_none (senders os) (senders ps) o (sym split ∙ idle))
  | inr (o', one, suits) ↦
      let (before, same, after) = middle_of_one (senders os) (senders ps) o o' (sym split ∙ one) in
      (senders-append os ps ∙ ap₂ ◌++◌ before after, subst (λ x. Suits x s) (sym same) suits)
]
  where
    split : senders s.pending ≡ senders os ++ o ∷ senders ps
    split = ap senders p ∙ senders-middle os ps o e

-- Completing another operation is not noticed.
pub completes_other :
    (os ps : List Op) (o : Op) (s : Impl)
    → senders (o ∷ []) ≡ []
    → s.pending ≡ os ++ o ∷ ps
    → senders (os ++ ps) ≡ senders s.pending
completes_other os ps o s e p =
    senders-append os ps
    ∙ ap (◌++◌ (senders os)) (sym (senders-append (o ∷ []) ps ∙ ap (λ qs. qs ++ senders ps) e))
    ∙ sym (ap senders p ∙ senders-append os (o ∷ ps))
