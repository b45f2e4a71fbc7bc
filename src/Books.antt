-- ===== src/Books.antt =====
-- server.hpp, client.hpp: where each callback is, between async_send and the dispatcher.
pub mod Moves
pub mod Tasks
use cpp_local_datagram.Base.{
  ℕ, ◌+◌, ◌≡◌, refl, sym, ap, subst, ◌∙◌, Option, none, some, List, [], ◌∷◌, ◌++◌, arith,
}
use mathlib.Core.List.{append_assoc}
use cpp_local_datagram.SendEntry.{SendEntry}
use cpp_local_datagram.BaseImpl.State.{Impl, update}
use cpp_local_datagram.BaseImpl.Send.{async_send}
use cpp_local_datagram.BaseImpl.Send.Queued.{
  count, count-append, Below, Below-suc, Below-append, pushing, processed_of,
}
use cpp_local_datagram.BaseImpl.Send.Waiting.{callback, called, waiting, waiting-append}
use cpp_local_datagram.BaseImpl.Session.{calls_send}
use cpp_local_datagram.BaseImpl.Session.Accounts.{Step-Settled}
use cpp_local_datagram.BaseImpl.Session.Advances.{Advances, IsAllocated, waiting_fresh, waiting_new}
use cpp_local_datagram.BaseImpl.Session.Balances.{account, Settled}

-- What the closures of a queue hold, by what each of them holds.
module _ {T : Type 0} (held : T → List ℕ) where
  unfoldable pub gather : List T → List ℕ
  gather [] = []
  gather (t ∷ ts) = held t ++ gather ts

  pub gather-append : (ts us : List T) → gather (ts ++ us) ≡ gather ts ++ gather us
  unfolding gather
  gather-append [] us = refl
  gather-append (t ∷ ts) us =
      ap (◌++◌ (held t)) (gather-append ts us) ∙ sym (append_assoc (held t) (gather ts) (gather us))

  -- Taking out a closure that holds nothing.
  pub gather_silent :
      (ts us : List T) (t : T) → held t ≡ [] → gather (ts ++ t ∷ us) ≡ gather (ts ++ us)
  unfolding gather
  gather_silent [] us t e = ap (λ hs. hs ++ gather us) e
  gather_silent (u ∷ ts) us t e = ap (◌++◌ (held u)) (gather_silent ts us t e)

-- The callbacks that have been called by the dispatcher or handed to it by an object that is gone; those
-- that it has been asked to call; the entries whose closures wait; and the object that sends, or what it
-- has left behind.
pub record Books : Type 0 where
  pub reported : List ℕ
  pub calling : List ℕ
  pub sending : List ℕ
  pub impl : Option Impl
  pub heap : ℕ → SendEntry
  pub next_address : ℕ
  pub queue : List ℕ

abbrev pub heap_of : Option Impl → (ℕ → SendEntry) → ℕ → SendEntry
heap_of none h = h
heap_of (some s) h = s.heap

abbrev pub address_of : Option Impl → ℕ → ℕ
address_of none n = n
address_of (some s) n = s.next_address

abbrev queue_of : Option Impl → List ℕ → List ℕ
queue_of none is = is
queue_of (some s) is = s.send_entries

abbrev pushing_of : Option Impl → List ℕ
pushing_of none = []
pushing_of (some s) = pushing s.io_ctx

abbrev holding : ℕ → Option Impl → (ℕ → SendEntry) → List ℕ → ℕ
holding f none h is = count f (waiting h is)
holding f (some s) h is = account f s

-- How often `f` has been called or handed to the dispatcher, or waits with an entry.
unfoldable pub total : ℕ → Books → ℕ
total f b =
    count f b.reported
    + count f b.calling
    + holding f b.impl b.heap b.queue
    + count f (waiting (heap_of b.impl b.heap) b.sending)

-- All entries that wait have been allocated.
pub record IsSound (b : Books) : Type 0 where
  pub queue : Below (address_of b.impl b.next_address) (queue_of b.impl b.queue)
  pub pushed : Below (address_of b.impl b.next_address) (pushing_of b.impl)
  pub sent : Below (address_of b.impl b.next_address) b.sending

-- What a step that is given the callbacks `fs` does.
abbrev pub Fair : List ℕ → Books → Books → Type 0
Fair fs b c = IsSound b → IsSound c × ((f : ℕ) → total f c ≡ total f b + count f fs)

pub Fair-trans : (fs : List ℕ) (b c d : Books) → Fair [] b c → Fair fs c d → Fair fs b d
unfolding count
Fair-trans fs b c d p q sound =
    let (sound_c, e) = p sound in
    let (sound_d, g) = q sound_c in (sound_d, λ f. omega (arith, e f, g f))

pub Fair-of_eq : {b c : Books} → c ≡ b → Fair [] b c
unfolding count
Fair-of_eq {b} {c} e = subst (Fair [] b) (sym e) (λ sound. (sound, λ f. omega arith))

-- A callback is called.
pub called-Fair :
    (g : ℕ) (fs gs : List ℕ) (b : Books)
    → b.calling ≡ fs ++ g ∷ gs
    → Fair [] b (record b { reported = b.reported ++ g ∷ []; calling = fs ++ gs })
unfolding total count
called-Fair g fs gs b e sound = (
  record { queue = sound.queue; pushed = sound.pushed; sent = sound.sent },
  λ f. omega (
    arith,
    count-append f b.reported (g ∷ []),
    ap (count f) e,
    count-append f fs (g ∷ gs),
    count-append f fs gs,
  ),
)

-- The entry of an async_send is allocated, and its closure enqueued.
abbrev pub asked : SendEntry → Option Impl → Books → Books
asked e none b = record b {
  impl = none;
  heap = update b.heap b.next_address e;
  next_address = b.next_address + 1;
  sending = b.sending ++ b.next_address ∷ [];
}
asked e (some s) b = record b {
  impl =
      some (record s { heap = update s.heap s.next_address e; next_address = s.next_address + 1 });
  sending = b.sending ++ s.next_address ∷ [];
}

-- One more entry, at a new address, among those that are sent.
sending_new :
    (f : ℕ) (h : ℕ → SendEntry) (n : ℕ) (e : SendEntry) (is : List ℕ)
    → Below n is
    → count f (waiting (update h n e) (is ++ n ∷ []))
      ≡ count f (waiting h is) + count f (callback e.processed)
unfolding count
sending_new f h n e is b = omega (
  arith,
  ap (count f) (waiting-append (update h n e) is (n ∷ [])),
  count-append f (waiting (update h n e) is) (waiting (update h n e) (n ∷ [])),
  ap (count f) (waiting_fresh h n e is b),
  ap (count f) (waiting_new h n e),
  count-append f (callback e.processed) [],
)

Below-last : (n : ℕ) (is : List ℕ) → Below n is → Below (n + 1) (is ++ n ∷ [])
unfolding Below
Below-last n is b = Below-append (n + 1) is (n ∷ []) (Below-suc n is b) (omega arith, tt)

pub asked-Fair :
    (e : SendEntry) (m : Option Impl) (b : Books)
    → Fair (callback e.processed) (record b { impl = m }) (asked e m b)
unfolding total account
asked-Fair e none b sound = (
  record {
    queue = Below-suc b.next_address b.queue sound.queue;
    pushed = Below-suc b.next_address [] sound.pushed;
    sent = Below-last b.next_address b.sending sound.sent;
  },
  λ f. omega (
    arith,
    ap (count f) (waiting_fresh b.heap b.next_address e b.queue sound.queue),
    sending_new f b.heap b.next_address e b.sending sound.sent,
  ),
)
asked-Fair e (some s) b sound = (
  record {
    queue = Below-suc s.next_address s.send_entries sound.queue;
    pushed = Below-suc s.next_address (pushing s.io_ctx) sound.pushed;
    sent = Below-last s.next_address b.sending sound.sent;
  },
  λ f. omega (
    arith,
    ap (count f) (waiting_fresh s.heap s.next_address e s.send_entries sound.queue),
    ap (count f) (waiting_fresh s.heap s.next_address e (pushing s.io_ctx) sound.pushed),
    sending_new f s.heap s.next_address e b.sending sound.sent,
  ),
)
