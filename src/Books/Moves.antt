-- ===== src/Books/Moves.antt =====
-- server.hpp, client.hpp: the entries that an object is given, works on and leaves behind.
use cpp_local_datagram.Base.{ℕ, ◌+◌, ◌≡◌, sym, ap, subst, none, some, List, [], ◌∷◌, ◌++◌, arith}
use cpp_local_datagram.Memcpy.{ByteOrder}
use cpp_local_datagram.SendEntry.{SendEntry}
use cpp_local_datagram.BaseImpl.State.{Impl}
use cpp_local_datagram.BaseImpl.Send.{async_send}
use cpp_local_datagram.BaseImpl.Send.Queued.{count, count-append, Below, pushing, processed_of}
use cpp_local_datagram.BaseImpl.Send.Waiting.{callback, called, waiting, waiting-append}
use cpp_local_datagram.BaseImpl.Session.{calls_send}
use cpp_local_datagram.BaseImpl.Session.Accounts.{Step-Settled}
use cpp_local_datagram.BaseImpl.Session.Advances.{Advances, IsAllocated}
use cpp_local_datagram.BaseImpl.Session.Balances.{account}
use cpp_local_datagram.Books.{Books, Fair, total}

-- What an object has called or handed to the dispatcher.
abbrev pub handed : Impl → List ℕ
handed s = processed_of s.signals ++ called s.dispatcher

-- An object works.
pub works-Fair :
    (s t : Impl) (b : Books)
    → Advances s t
    → Fair [] (record b { impl = some s }) (record b { impl = some t })
unfolding total count
works-Fair s t b p sound =
    let allocated : IsAllocated s = record { queue = sound.queue; pushed = sound.pushed } in
    let after = p.allocated allocated in
    (
      record {
        queue = after.queue;
        pushed = after.pushed;
        sent = p.addresses b.sending sound.sent;
      },
      λ f. omega (arith, p.accounts allocated f, ap (count f) (p.callbacks b.sending sound.sent)),
    )

-- An object whose thread has been waited for is gone, and its queue is left.
pub ends-Fair :
    (s : Impl) (b : Books)
    → s.io_ctx ≡ []
    → Fair []
        (record b { impl = some s })
        (record b {
          impl = none;
          heap = s.heap;
          next_address = s.next_address;
          queue = s.send_entries;
          reported = b.reported ++ handed s;
        })
unfolding total account count pushing waiting Below
ends-Fair s b joined sound = (
  record { queue = sound.queue; pushed = tt; sent = sound.sent },
  λ f. omega (
    arith,
    count-append f b.reported (handed s),
    count-append f (processed_of s.signals) (called s.dispatcher),
    ap (λ ts. count f (waiting s.heap (pushing ts))) joined,
  ),
)

-- The entry of a closure that is taken out of those that wait.
taken-count :
    (f : ℕ) (h : ℕ → SendEntry) (is js : List ℕ) (i : ℕ)
    → count f (waiting h (is ++ i ∷ js))
      ≡ count f (waiting h (is ++ js)) + count f (callback (h i).processed)
unfolding waiting
taken-count f h is js i = omega (
  arith,
  ap (count f) (waiting-append h is (i ∷ js)),
  ap (count f) (waiting-append h is js),
  count-append f (waiting h is) (waiting h (i ∷ js)),
  count-append f (waiting h is) (waiting h js),
  count-append f (callback (h i).processed) (waiting h js),
)

taken-Below :
    (n : ℕ) (is js : List ℕ) (i : ℕ)
    → Below n (is ++ i ∷ js)
    → Below n (is ++ js) × Below n (i ∷ [])
unfolding Below
taken-Below n [] js i p = (p.1, (p.0, tt))
taken-Below n (k ∷ is) js i p = let (q, r) = taken-Below n is js i p.1 in ((p.0, q), r)

-- The closure of an async_send runs while there is no object: the callback is called at once.
pub unsent-Fair :
    (is js : List ℕ) (i : ℕ) (b : Books)
    → b.sending ≡ is ++ i ∷ js
    → Fair []
        (record b { impl = none })
        (record b {
          impl = none;
          sending = is ++ js;
          calling = b.calling ++ callback (b.heap i).processed;
        })
unfolding total count
unsent-Fair is js i b e sound = (
  record {
    queue = sound.queue;
    pushed = sound.pushed;
    sent = (taken-Below b.next_address is js i (subst (Below b.next_address) e sound.sent)).0;
  },
  λ f. omega (
    arith,
    count-append f b.calling (callback (b.heap i).processed),
    ap (λ ks. count f (waiting b.heap ks)) e,
    taken-count f b.heap is js i,
  ),
)

-- It runs and hands its entry to the object.
pub sent-Fair :
    (order : ByteOrder) (is js : List ℕ) (i : ℕ) (s : Impl) (b : Books)
    → b.sending ≡ is ++ i ∷ js
    → Fair []
        (record b { impl = some s })
        (record b { impl = some (async_send i s); sending = is ++ js })
unfolding total count waiting
sent-Fair order is js i s b e sound =
    let p = Step-Settled order {s = s} (calls_send i) in
    let (rest, one) =
      taken-Below s.next_address is js i (subst (Below s.next_address) e sound.sent) in
    (
      record {
        queue =
            subst (λ n. Below n (async_send i s).send_entries) (sym p.address)
              (p.queue s.next_address one sound.queue sound.pushed);
        pushed =
            subst (λ n. Below n (pushing (async_send i s).io_ctx)) (sym p.address)
              (p.pushed s.next_address one sound.pushed);
        sent = subst (λ n. Below n (is ++ js)) (sym p.address) rest;
      },
      λ f. omega (
        arith,
        p.accounts f,
        count-append f (callback (s.heap i).processed) [],
        ap (count f) (p.callbacks (is ++ js)),
        ap (λ ks. count f (waiting s.heap ks)) e,
        taken-count f s.heap is js i,
      ),
    )

-- A new object takes over the queue.
pub begins-Fair :
    (s : Impl) (b : Books)
    → s.heap ≡ b.heap
    → s.next_address ≡ b.next_address
    → s.send_entries ≡ b.queue
    → pushing s.io_ctx ≡ []
    → handed s ≡ []
    → Fair [] (record b { impl = none }) (record b { impl = some s })
unfolding total account count waiting Below
begins-Fair s b h n q p silent sound = (
  record {
    queue =
        subst (λ m. Below m s.send_entries) (sym n)
          (subst (Below b.next_address) (sym q) sound.queue);
    pushed = subst (Below s.next_address) (sym p) tt;
    sent = subst (λ m. Below m b.sending) (sym n) sound.sent;
  },
  λ f. omega (
    arith,
    count-append f (processed_of s.signals) (called s.dispatcher),
    ap (count f) silent,
    ap (λ (g : ℕ → SendEntry). count f (waiting g s.send_entries)) h,
    ap (λ is. count f (waiting b.heap is)) q,
    ap (λ is. count f (waiting s.heap is)) p,
    ap (λ (g : ℕ → SendEntry). count f (waiting g b.sending)) h,
  ),
)
