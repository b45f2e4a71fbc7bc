-- ===== src/BaseImpl/Send/Queued.antt =====
-- base_impl.hpp: the entries that wait, by their addresses, and the callbacks, by how often they occur.
use cpp_local_datagram.Base.{
  ◌∙◌, suc, sym, ℕ, ◌+◌, ◌<◌, ◌≡◌, refl, ap, List, [], ◌∷◌, ◌++◌, arith, ◌==◌, if◌then◌else◌,
}
use cpp_local_datagram.BaseImpl.State.{Task, push_entry, bind, connect, Signal, processed}

unfoldable pub count : ℕ → List ℕ → ℕ
count f [] = 0
count f (g ∷ gs) = (if f == g then 1 else 0) + count f gs

pub count-append : (f : ℕ) (gs hs : List ℕ) → count f (gs ++ hs) ≡ count f gs + count f hs
unfolding count
count-append f [] hs = omega arith
count-append f (g ∷ gs) hs = omega (arith, count-append f gs hs)

-- One more at the end, and one more between others.
pub count_last :
    (f g : ℕ) (gs : List ℕ) → count f (gs ++ g ∷ []) ≡ count f gs + (if f == g then 1 else 0)
unfolding count
count_last f g gs = omega (arith, count-append f gs (g ∷ []))

-- The entries whose closures wait in `io_ctx_`.
unfoldable pub pushing : List Task → List ℕ
pushing [] = []
pushing (push_entry i ∷ ts) = i ∷ pushing ts
pushing (_ ∷ ts) = pushing ts

pub pushing-append : (ts us : List Task) → pushing (ts ++ us) ≡ pushing ts ++ pushing us
unfolding pushing
pushing-append [] us = refl
pushing-append (push_entry i ∷ ts) us = ap (◌∷◌ i) (pushing-append ts us)
pushing-append (_ ∷ ts) us = pushing-append ts us

-- The closures that an object works on only by itself: those that push an entry, bind or connect.
unfoldable pub lasting : List Task → List Task
lasting [] = []
lasting (push_entry i ∷ ts) = push_entry i ∷ lasting ts
lasting (bind args ∷ ts) = bind args ∷ lasting ts
lasting (connect args ∷ ts) = connect args ∷ lasting ts
lasting (_ ∷ ts) = lasting ts

pub lasting-append : (ts us : List Task) → lasting (ts ++ us) ≡ lasting ts ++ lasting us
unfolding lasting
lasting-append [] us = refl
lasting-append (push_entry i ∷ ts) us = ap (◌∷◌ (push_entry i)) (lasting-append ts us)
lasting-append (bind args ∷ ts) us = ap (◌∷◌ (bind args)) (lasting-append ts us)
lasting-append (connect args ∷ ts) us = ap (◌∷◌ (connect args)) (lasting-append ts us)
lasting-append (_ ∷ ts) us = lasting-append ts us

pushing-lasting : (ts : List Task) → pushing (lasting ts) ≡ pushing ts
unfolding lasting pushing
pushing-lasting [] = refl
pushing-lasting (push_entry i ∷ ts) = ap (◌∷◌ i) (pushing-lasting ts)
pushing-lasting (bind args ∷ ts) = pushing-lasting ts
pushing-lasting (connect args ∷ ts) = pushing-lasting ts
pushing-lasting (_ ∷ ts) = pushing-lasting ts

pub pushing-eq : (ts us : List Task) → lasting ts ≡ lasting us → pushing ts ≡ pushing us
pushing-eq ts us e = sym (pushing-lasting ts) ∙ ap pushing e ∙ pushing-lasting us

-- How many closures are to bind.
unfoldable pub bindings : List Task → ℕ
bindings [] = 0
bindings (bind args ∷ ts) = suc (bindings ts)
bindings (_ ∷ ts) = bindings ts

pub bindings-append : (ts us : List Task) → bindings (ts ++ us) ≡ bindings ts + bindings us
unfolding bindings
bindings-append [] us = omega arith
bindings-append (bind args ∷ ts) us = omega (arith, bindings-append ts us)
bindings-append (_ ∷ ts) us = bindings-append ts us

bindings-lasting : (ts : List Task) → bindings (lasting ts) ≡ bindings ts
unfolding lasting bindings
bindings-lasting [] = refl
bindings-lasting (push_entry i ∷ ts) = bindings-lasting ts
bindings-lasting (bind args ∷ ts) = ap suc (bindings-lasting ts)
bindings-lasting (connect args ∷ ts) = bindings-lasting ts
bindings-lasting (_ ∷ ts) = bindings-lasting ts

pub bindings-eq : (ts us : List Task) → lasting ts ≡ lasting us → bindings ts ≡ bindings us
bindings-eq ts us e = sym (bindings-lasting ts) ∙ ap bindings e ∙ bindings-lasting us

-- The callbacks that the dispatcher has called.
unfoldable pub processed_of : List Signal → List ℕ
processed_of [] = []
processed_of (processed f ∷ xs) = f ∷ processed_of xs
processed_of (_ ∷ xs) = processed_of xs

pub processed_of-append :
    (xs ys : List Signal) → processed_of (xs ++ ys) ≡ processed_of xs ++ processed_of ys
unfolding processed_of
processed_of-append [] ys = refl
processed_of-append (processed f ∷ xs) ys = ap (◌∷◌ f) (processed_of-append xs ys)
processed_of-append (_ ∷ xs) ys = processed_of-append xs ys

-- Entries that have been allocated before the address `n`.
unfoldable pub Below : ℕ → List ℕ → Type 0
Below n [] = Unit {0}
Below n (i ∷ is) = (i < n) × Below n is

pub Below-append : (n : ℕ) (is js : List ℕ) → Below n is → Below n js → Below n (is ++ js)
unfolding Below
Below-append n [] js p q = q
Below-append n (i ∷ is) js p q = (p.0, Below-append n is js p.1 q)

pub Below-suc : (n : ℕ) (is : List ℕ) → Below n is → Below (n + 1) is
unfolding Below
Below-suc n [] p = tt
Below-suc n (i ∷ is) (less, p) = (omega arith, Below-suc n is p)
