-- ===== src/BaseImpl/Send/Waiting.antt =====
-- base_impl.hpp: the callbacks that have been called, and those that wait with their entries.
use mathlib.Core.List.{append_assoc}
use cpp_local_datagram.Base.{ℕ, ◌≡◌, refl, sym, ap, ◌∙◌, none, some, List, [], ◌∷◌, ◌++◌, arith}
use cpp_local_datagram.SendEntry.{SendEntry, Processed}
use cpp_local_datagram.BaseImpl.State.{Impl, Notice, emit, processed, update}

-- The callback of an entry, if it has one.
abbrev pub callback : Processed → List ℕ
callback none = []
callback (some f) = f ∷ []

-- The callbacks of the entries that wait.
unfoldable pub waiting : (ℕ → SendEntry) → List ℕ → List ℕ
waiting h [] = []
waiting h (i ∷ is) = callback (h i).processed ++ waiting h is

-- The callbacks that the dispatcher has been asked to call.
unfoldable pub called : List Notice → List ℕ
called [] = []
called (emit (processed f) ∷ ns) = f ∷ called ns
called (_ ∷ ns) = called ns

-- First those that are called, then those that wait.
unfoldable pub ledger : Impl → List ℕ
ledger s = called s.dispatcher ++ waiting s.heap s.send_entries

pub called-append : (ms ns : List Notice) → called (ms ++ ns) ≡ called ms ++ called ns
unfolding called
called-append [] ns = refl
called-append (emit (processed f) ∷ ms) ns = ap (◌∷◌ f) (called-append ms ns)
called-append (_ ∷ ms) ns = called-append ms ns

pub waiting-append :
    (h : ℕ → SendEntry) (is js : List ℕ) → waiting h (is ++ js) ≡ waiting h is ++ waiting h js
unfolding waiting
waiting-append h [] js = refl
waiting-append h (i ∷ is) js =
    ap (◌++◌ (callback (h i).processed)) (waiting-append h is js)
    ∙ sym (append_assoc (callback (h i).processed) (waiting h is) (waiting h js))

pub waiting-update :
    (h : ℕ → SendEntry) (i : ℕ) (e : SendEntry) (is : List ℕ)
    → e.processed ≡ (h i).processed
    → waiting (update h i e) is ≡ waiting h is
unfolding waiting
waiting-update h i e [] p = refl
waiting-update h i e (j ∷ is) p = ground (arith, waiting-update h i e is p)
