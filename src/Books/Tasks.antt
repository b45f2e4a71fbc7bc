-- ===== src/Books/Tasks.antt =====
-- server.hpp, client.hpp: the closures given to enqueue_to_dispatcher, and what they hold.
use mathlib.Core.List.{append-nil}
use cpp_local_datagram.Base.{
  ℕ, ◌≡◌, sym, ap, ap₂, subst, ◌∙◌, Option, none, some, List, [], ◌∷◌, ◌++◌,
}
use cpp_local_datagram.Memcpy.{ByteOrder}
use cpp_local_datagram.SendEntry.{SendEntry}
use cpp_local_datagram.BaseImpl.State.{Impl}
use cpp_local_datagram.BaseImpl.Send.{async_send}
use cpp_local_datagram.BaseImpl.Send.Waiting.{callback}
use cpp_local_datagram.Books.{
  Books, gather, gather-append, gather_silent, address_of, Fair, Fair-of_eq, called-Fair, asked,
  asked-Fair,
}
use cpp_local_datagram.Books.Moves.{unsent-Fair, sent-Fair}

Fair-to : (fs : List ℕ) {b c d : Books} → d ≡ c → Fair fs b c → Fair fs b d
Fair-to fs {b} e p = subst (Fair fs b) (sym e) p

abbrev held_as : List ℕ → List ℕ → Books → Books
held_as cs is b = record b { calling = cs; sending = is }

-- The callbacks and the entries that a closure of type `T` holds.
module _ {T : Type 0} (callbacks entries : T → List ℕ) where
  -- The books with the closures `ts`.
  abbrev pub with_tasks : List T → Books → Books
  with_tasks ts b = record b { calling = gather callbacks ts; sending = gather entries ts }

  gather_last :
      (held : T → List ℕ) (ts : List T) (t : T)
      → gather held (ts ++ t ∷ []) ≡ gather held ts ++ held t
  unfolding gather
  gather_last held ts t =
      gather-append held ts (t ∷ []) ∙ ap (◌++◌ (gather held ts)) (append-nil (held t))

  gather_more :
      (held : T → List ℕ) (ts us : List T)
      → gather held us ≡ []
      → gather held (ts ++ us) ≡ gather held ts
  gather_more held ts us e =
      gather-append held ts us ∙ ap (◌++◌ (gather held ts)) e ∙ append-nil (gather held ts)

  gather_taken :
      (held : T → List ℕ) (before after : List T) (t : T) (ts : List T)
      → ts ≡ before ++ t ∷ after
      → held t ≡ []
      → gather held (before ++ after) ≡ gather held ts
  gather_taken held before after t ts at e =
      sym (ap (gather held) at ∙ gather_silent held before after t e)

  gather_middle :
      (held : T → List ℕ) (before after : List T) (t : T) (ts : List T) (i : ℕ)
      → ts ≡ before ++ t ∷ after
      → held t ≡ i ∷ []
      → gather held ts ≡ gather held before ++ i ∷ gather held after
  unfolding gather
  gather_middle held before after t ts i at e =
      ap (gather held) at
      ∙ gather-append held before (t ∷ after)
      ∙ ap (λ hs. gather held before ++ (hs ++ gather held after)) e

  -- A closure that neither sends nor calls is added or taken out.
  pub added-Fair :
      (t : T) (ts : List T) (b : Books)
      → callbacks t ≡ []
      → entries t ≡ []
      → Fair [] (with_tasks ts b) (with_tasks (ts ++ t ∷ []) b)
  added-Fair t ts b c e = Fair-of_eq (
      ap₂ (λ cs is. held_as cs is b)
        (gather_last callbacks ts t ∙ ap (◌++◌ (gather callbacks ts)) c ∙ append-nil _)
        (gather_last entries ts t ∙ ap (◌++◌ (gather entries ts)) e ∙ append-nil _))

  pub taken-Fair :
      (before after : List T) (t : T) (ts : List T) (b : Books)
      → ts ≡ before ++ t ∷ after
      → callbacks t ≡ []
      → entries t ≡ []
      → Fair [] (with_tasks ts b) (with_tasks (before ++ after) b)
  taken-Fair before after t ts b at c e = Fair-of_eq (
      ap₂ (λ cs is. held_as cs is b) (gather_taken callbacks before after t ts at c)
        (gather_taken entries before after t ts at e))

  -- A callback is called.
  pub processed-Fair :
      (f : ℕ) (before after : List T) (t : T) (ts : List T) (b : Books)
      → ts ≡ before ++ t ∷ after
      → callbacks t ≡ f ∷ []
      → entries t ≡ []
      → Fair []
          (with_tasks ts b)
          (with_tasks (before ++ after) (record b { reported = b.reported ++ f ∷ [] }))
  processed-Fair f before after t ts b at c e =
      Fair-to []
        (ap₂ (λ cs is. held_as cs is (record b { reported = b.reported ++ f ∷ [] }))
          (gather-append callbacks before after) (gather_taken entries before after t ts at e))
        (called-Fair f (gather callbacks before) (gather callbacks after) (with_tasks ts b)
          (gather_middle callbacks before after t ts f at c))

  -- An async_send: `t` sends the entry that is allocated.
  pub sends-Fair :
      (e : SendEntry) (m : Option Impl) (t : T) (ts : List T) (b : Books)
      → callbacks t ≡ []
      → entries t ≡ address_of m b.next_address ∷ []
      → Fair
          (callback e.processed)
          (with_tasks ts (record b { impl = m }))
          (with_tasks (ts ++ t ∷ []) (asked e m b))
  sends-Fair e none t ts b c i =
      Fair-to (callback e.processed)
        (ap₂ (λ cs is. held_as cs is (asked e none b))
          (gather_last callbacks ts t ∙ ap (◌++◌ (gather callbacks ts)) c ∙ append-nil _)
          (gather_last entries ts t ∙ ap (◌++◌ (gather entries ts)) i))
        (asked-Fair e none (with_tasks ts b))
  sends-Fair e (some s) t ts b c i =
      Fair-to (callback e.processed)
        (ap₂ (λ cs is. held_as cs is (asked e (some s) b))
          (gather_last callbacks ts t ∙ ap (◌++◌ (gather callbacks ts)) c ∙ append-nil _)
          (gather_last entries ts t ∙ ap (◌++◌ (gather entries ts)) i))
        (asked-Fair e (some s) (with_tasks ts b))

  -- The closure of an async_send runs, with an object that sends.
  pub runs_send-Fair :
      (order : ByteOrder) (before after : List T) (t : T) (ts : List T) (i : ℕ) (s : Impl)
      (b : Books)
      → ts ≡ before ++ t ∷ after
      → callbacks t ≡ []
      → entries t ≡ i ∷ []
      → Fair []
          (with_tasks ts (record b { impl = some s }))
          (with_tasks (before ++ after) (record b { impl = some (async_send i s) }))
  runs_send-Fair order before after t ts i s b at c e =
      Fair-to []
        (ap₂ (λ cs is. held_as cs is (record b { impl = some (async_send i s) }))
          (gather_taken callbacks before after t ts at c) (gather-append entries before after))
        (sent-Fair order (gather entries before) (gather entries after) i s (with_tasks ts b)
          (gather_middle entries before after t ts i at e))

  -- And with none: the closures `us` call the callback.
  pub calls_back-Fair :
      (before after : List T) (t : T) (ts us : List T) (i : ℕ) (b : Books)
      → ts ≡ before ++ t ∷ after
      → callbacks t ≡ []
      → entries t ≡ i ∷ []
      → gather callbacks us ≡ callback (b.heap i).processed
      → gather entries us ≡ []
      → Fair []
          (with_tasks ts (record b { impl = none }))
          (with_tasks ((before ++ after) ++ us) (record b { impl = none }))
  calls_back-Fair before after t ts us i b at c e called silent =
      Fair-to []
        (ap₂ (λ cs is. held_as cs is (record b { impl = none }))
          (gather-append callbacks (before ++ after) us
            ∙ ap₂ ◌++◌ (gather_taken callbacks before after t ts at c) called)
          (gather_more entries (before ++ after) us silent ∙ gather-append entries before after))
        (unsent-Fair (gather entries before) (gather entries after) i (with_tasks ts b)
          (gather_middle entries before after t ts i at e))
