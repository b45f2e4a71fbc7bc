-- ===== src/BaseImpl/Session/Advances.antt =====
-- base_impl.hpp: steps that allocate entries of their own.
use cpp_local_datagram.Base.{
  ℕ, ◌+◌, ◌≡◌, refl, sym, ap, ap₂, subst, ◌∙◌, List, [], ◌∷◌, ◌++◌, arith,
}
use cpp_local_datagram.SendEntry.{SendEntry}
use cpp_local_datagram.BaseImpl.State.{Impl, push_entry, update, make_shared, post}
use cpp_local_datagram.BaseImpl.Send.{async_send}
use cpp_local_datagram.BaseImpl.Send.Queued.{
  Below, Below-suc, Below-append, count, count-append, pushing, pushing-append,
}
use cpp_local_datagram.BaseImpl.Send.Callbacks.{Balanced}
use cpp_local_datagram.BaseImpl.Send.Waiting.{waiting, waiting-append, callback}
use cpp_local_datagram.BaseImpl.Session.Balances.{account, Settled, Balanced-Settled}

-- All entries that wait have been allocated.
pub record IsAllocated (s : Impl) : Type 0 where
  pub queue : Below s.next_address s.send_entries
  pub pushed : Below s.next_address (pushing s.io_ctx)

-- What a step does that may allocate entries of its own, which have no callback.
pub record Advances (s t : Impl) : Type 0 where
  pub callbacks : (js : List ℕ) → Below s.next_address js → waiting t.heap js ≡ waiting s.heap js
  pub addresses : (js : List ℕ) → Below s.next_address js → Below t.next_address js
  pub allocated : IsAllocated s → IsAllocated t
  pub accounts : IsAllocated s → (f : ℕ) → account f t ≡ account f s

pub Settled-Advances : {s t : Impl} → Settled [] s t → Advances s t
unfolding waiting count Below
Settled-Advances {s} {t} p = record {
  callbacks = λ js _. p.callbacks js;
  addresses = λ js b. subst (λ n. Below n js) (sym p.address) b;
  allocated = λ h. record {
    queue = subst (λ n. Below n t.send_entries) (sym p.address) (p.queue _ tt h.queue h.pushed);
    pushed = subst (λ n. Below n (pushing t.io_ctx)) (sym p.address) (p.pushed _ tt h.pushed);
  };
  accounts = λ h f. omega (arith, p.accounts f);
}

pub Advances-trans : {s t u : Impl} → Advances s t → Advances t u → Advances s u
Advances-trans p q = record {
  callbacks = λ js b. q.callbacks js (p.addresses js b) ∙ p.callbacks js b;
  addresses = λ js b. q.addresses js (p.addresses js b);
  allocated = λ h. q.allocated (p.allocated h);
  accounts = λ h f. q.accounts (p.allocated h) f ∙ p.accounts h f;
}

pub Balanced-Advances : {s t : Impl} → Balanced s t → Advances s t
Balanced-Advances b = Settled-Advances (Balanced-Settled b)

-- An entry at a new address.
pub waiting_fresh :
    (h : ℕ → SendEntry) (n : ℕ) (e : SendEntry) (is : List ℕ)
    → Below n is
    → waiting (update h n e) is ≡ waiting h is
unfolding waiting Below
waiting_fresh h n e [] b = refl
waiting_fresh h n e (i ∷ is) b =
    ap₂ ◌++◌ (ap (λ (x : SendEntry). callback x.processed) other) (waiting_fresh h n e is b.1)
  where
    other : update h n e i ≡ h i
    other = ground (arith, b.0)

pub waiting_new :
    (h : ℕ → SendEntry) (n : ℕ) (e : SendEntry)
    → waiting (update h n e) (n ∷ []) ≡ callback e.processed ++ []
unfolding waiting
waiting_new h n e = ap (λ (x : SendEntry). callback x.processed ++ []) own
  where
    own : update h n e n ≡ e
    own = ground arith

-- An entry without a callback is allocated and sent.
pub make_shared-Advances :
    (e : SendEntry) (s : Impl)
    → callback e.processed ≡ []
    → let (i, t) = make_shared e s in Advances s (async_send i t)
unfolding make_shared async_send post account Below pushing count waiting
make_shared-Advances e s silent = record {
  callbacks = λ js b. waiting_fresh s.heap s.next_address e js b;
  addresses = λ js b. Below-suc s.next_address js b;
  allocated = λ h. record {
    queue = Below-suc s.next_address s.send_entries h.queue;
    pushed = rw (pushing-append s.io_ctx (push_entry s.next_address ∷ [])) (
        Below-append (s.next_address + 1) (pushing s.io_ctx) (s.next_address ∷ [])
          (Below-suc s.next_address (pushing s.io_ctx) h.pushed) (omega arith, tt));
  };
  accounts = λ h f. omega (
    arith,
    ap (count f) (waiting_fresh s.heap s.next_address e s.send_entries h.queue),
    ap (λ is. count f (waiting fresh is))
        (pushing-append s.io_ctx (push_entry s.next_address ∷ [])),
    ap (count f) (waiting-append fresh (pushing s.io_ctx) (s.next_address ∷ [])),
    count-append f (waiting fresh (pushing s.io_ctx)) (waiting fresh (s.next_address ∷ [])),
    ap (count f) (waiting_fresh s.heap s.next_address e (pushing s.io_ctx) h.pushed),
    ap (count f) (waiting_new s.heap s.next_address e ∙ ap (λ fs. fs ++ []) silent),
  );
}
  where
    fresh : ℕ → SendEntry
    fresh = update s.heap s.next_address e
