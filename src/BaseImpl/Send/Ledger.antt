-- ===== src/BaseImpl/Send/Ledger.antt =====
-- base_impl.hpp: the `processed` callbacks over a run of the sender.
use mathlib.Core.List.{append_assoc, append-nil}
use cpp_local_datagram.Base.{ℕ, ◌≡◌, sym, ap, ap₂, ◌∙◌, none, List, [], ◌∷◌, ◌++◌}
use cpp_local_datagram.BaseImpl.State.{Impl, ErrorCode, Millis}
use cpp_local_datagram.BaseImpl.Send.{run_push_entry, await_send_entry, handle_send}
use cpp_local_datagram.BaseImpl.Send.Callbacks.{Balanced, await-Balanced, handle_send-Balanced}
use cpp_local_datagram.BaseImpl.Send.Waiting.{waiting, called, ledger, waiting-append}

-- What happens to the sender, in any order: an entry is queued, a send ends, a wait ends.
pub data SenderEvent : Type 0 where
  pushed : Millis → ℕ → SenderEvent
  sent : Millis → ErrorCode → ℕ → ℕ → SenderEvent
  woken : Millis → SenderEvent

pub run_sender : List SenderEvent → Impl → Impl
run_sender [] s = s
run_sender (pushed now i ∷ es) s = run_sender es (run_push_entry now i s)
run_sender (sent now c n i ∷ es) s = run_sender es (handle_send now c n i s)
run_sender (woken now ∷ es) s = run_sender es (await_send_entry now none s)

-- The entries that are queued on the way.
unfoldable pub pushed_entries : List SenderEvent → List ℕ
pushed_entries [] = []
pushed_entries (pushed now i ∷ es) = i ∷ pushed_entries es
pushed_entries (_ ∷ es) = pushed_entries es

run_push_entry-ledger :
    (now : Millis) (i : ℕ) (s : Impl)
    → ledger (run_push_entry now i s) ≡ ledger s ++ waiting s.heap (i ∷ [])
unfolding ledger run_push_entry
run_push_entry-ledger now i s =
    ap (◌++◌ (called s.dispatcher)) (waiting-append s.heap s.send_entries (i ∷ []))
    ∙ sym (append_assoc (called s.dispatcher) _ _)

after-Balanced :
    {s t : Impl} (u : Impl) (is : List ℕ)
    → Balanced s t
    → ledger u ≡ ledger t ++ waiting t.heap is
    → ledger u ≡ ledger s ++ waiting s.heap is
after-Balanced u is b e = e ∙ ap₂ ◌++◌ b.balance (b.callbacks is)

-- Over any run of the sender, whatever the results of the sends: the callbacks called and those of
-- the entries still queued are, in this order, those called and queued before, followed by those of
-- the entries queued on the way. So none is lost, called twice or called out of turn.
pub run_sender-ledger :
    (es : List SenderEvent) (s : Impl)
    → ledger (run_sender es s) ≡ ledger s ++ waiting s.heap (pushed_entries es)
unfolding run_sender pushed_entries waiting run_push_entry
run_sender-ledger [] s = sym (append-nil (ledger s))
run_sender-ledger (pushed now i ∷ es) s =
    run_sender-ledger es (run_push_entry now i s)
    ∙ ap (λ l. l ++ waiting s.heap (pushed_entries es)) (run_push_entry-ledger now i s)
    ∙ append_assoc (ledger s) (waiting s.heap (i ∷ [])) (waiting s.heap (pushed_entries es))
    ∙ ap (◌++◌ (ledger s)) (sym (waiting-append s.heap (i ∷ []) (pushed_entries es)))
run_sender-ledger (sent now c n i ∷ es) s =
    after-Balanced _ (pushed_entries es) (handle_send-Balanced now c n i s)
      (run_sender-ledger es (handle_send now c n i s))
run_sender-ledger (woken now ∷ es) s =
    after-Balanced _ (pushed_entries es) (await-Balanced now none s)
      (run_sender-ledger es (await_send_entry now none s))
