-- ===== src/BaseImpl/Send/Callbacks.antt =====
-- base_impl.hpp, handle_send: the `processed` callbacks that have been called and that wait.
use mathlib.Core.List.{append_assoc, append-nil}
use cpp_local_datagram.Base.{
  ℕ, ◌≡◌, refl, sym, ap, ap₂, subst, ◌∙◌, Bool, true, false, Option, none, some, List, [], ◌∷◌,
  ◌++◌, ltb, ◌==◌, ◌||◌, if◌then◌else◌,
}
use cpp_local_datagram.SendEntry.{
  SendEntry, Processed, add_bytes_transferred, transfer_complete, set_no_buffer_space_error_count,
}
use cpp_local_datagram.BaseImpl.State.{
  Impl, Mode, server, client, ErrorCode, success, no_buffer_space, message_size, other, Millis,
  Notice, emit, error_occurred, processed, modify, enqueue_to_dispatcher, Task, post,
}
use cpp_local_datagram.BaseImpl.Send.Queued.{Below, lasting, lasting-append, processed_of}
use cpp_local_datagram.BaseImpl.Socket.{async_close}
use cpp_local_datagram.BaseImpl.Send.{
  await_send_entry, pop_front, enqueue_processed, pop_front_send_entry, drop_entry,
  count_no_buffer_space, limit_retries, retry_entry, finish_send, other_error, handle_result,
  handle_send,
}
use cpp_local_datagram.BaseImpl.Send.Entries.{await_send_entry-Kept}
use cpp_local_datagram.BaseImpl.Send.Waiting.{
  callback, waiting, called, ledger, called-append, waiting-update,
}

-- A step that keeps the callbacks of the entries and the ledger, and allocates, queues and asks for nothing.
pub record Balanced (s t : Impl) : Type 0 where
  pub callbacks : (is : List ℕ) → waiting t.heap is ≡ waiting s.heap is
  pub balance : ledger t ≡ ledger s
  pub address : t.next_address ≡ s.next_address
  pub queue : (n : ℕ) → Below n s.send_entries → Below n t.send_entries
  pub posted : lasting t.io_ctx ≡ lasting s.io_ctx
  pub signalled : processed_of t.signals ≡ processed_of s.signals

pub Balanced-trans : {s t u : Impl} → Balanced s t → Balanced t u → Balanced s u
Balanced-trans p q = record {
  callbacks = λ is. q.callbacks is ∙ p.callbacks is;
  balance = q.balance ∙ p.balance;
  address = q.address ∙ p.address;
  queue = λ n b. q.queue n (p.queue n b);
  posted = q.posted ∙ p.posted;
  signalled = q.signalled ∙ p.signalled;
}

-- Steps that leave the heap and the queue alone, and call nothing.
pub Balanced-of_eq :
    {s t : Impl}
    → t.heap ≡ s.heap
    → t.send_entries ≡ s.send_entries
    → called t.dispatcher ≡ called s.dispatcher
    → t.next_address ≡ s.next_address
    → lasting t.io_ctx ≡ lasting s.io_ctx
    → processed_of t.signals ≡ processed_of s.signals
    → Balanced s t
unfolding ledger
Balanced-of_eq h e d a p x = record {
  callbacks = λ is. ap (λ g. waiting g is) h;
  balance = ap₂ ◌++◌ d (ap₂ waiting h e);
  address = a;
  queue = λ n b. subst (Below n) (sym e) b;
  posted = p;
  signalled = x;
}

pub Balanced-refl : (s : Impl) → Balanced s s
Balanced-refl s = Balanced-of_eq refl refl refl refl refl refl

-- One more closure that asks for nothing.
pub post-Balanced : (t : Task) (s : Impl) → lasting (t ∷ []) ≡ [] → Balanced s (post t s)
unfolding post
post-Balanced t s e =
    Balanced-of_eq refl refl refl refl
      (lasting-append s.io_ctx (t ∷ []) ∙ ap (◌++◌ (lasting s.io_ctx)) e ∙ append-nil _) refl

pub if-Balanced :
    {s t u : Impl} (b : Bool) → Balanced s t → Balanced s u → Balanced s (if b then t else u)
if-Balanced true p q = p
if-Balanced false p q = q

modify-Balanced :
    (i : ℕ) (f : SendEntry → SendEntry) (s : Impl)
    → (f (s.heap i)).processed ≡ (s.heap i).processed
    → Balanced s (modify i f s)
unfolding modify ledger
modify-Balanced i f s p = record {
  callbacks = λ is. waiting-update s.heap i (f (s.heap i)) is p;
  balance =
      ap (◌++◌ (called s.dispatcher)) (waiting-update s.heap i (f (s.heap i)) s.send_entries p);
  address = refl;
  queue = λ n b. b;
  posted = refl;
  signalled = refl;
}

-- One more notice that calls nothing.
pub tell-Balanced :
    (n : Notice) (s : Impl) → called (n ∷ []) ≡ [] → Balanced s (enqueue_to_dispatcher n s)
unfolding enqueue_to_dispatcher
tell-Balanced n s e =
    Balanced-of_eq refl refl
      (called-append s.dispatcher (n ∷ []) ∙ ap (◌++◌ (called s.dispatcher)) e ∙ append-nil _) refl
      refl refl

error-Balanced :
    (c : ErrorCode) (s : Impl) → Balanced s (enqueue_to_dispatcher (emit (error_occurred c)) s)
unfolding called
error-Balanced c s = tell-Balanced (emit (error_occurred c)) s refl

drop_entry-Balanced : (i : ℕ) (s : Impl) → Balanced s (drop_entry i s)
unfolding drop_entry add_bytes_transferred
drop_entry-Balanced i s = modify-Balanced i _ s refl

limit_retries-Balanced : (i : ℕ) (s : Impl) → Balanced s (limit_retries i s)
unfolding limit_retries
limit_retries-Balanced i s =
    if-Balanced (ltb 10 (s.heap i).no_buffer_space_error_count)
      (if-Balanced
        ((s.heap i).bytes_transferred == 0 || ltb 100 (s.heap i).no_buffer_space_error_count)
        (Balanced-trans (drop_entry-Balanced i s) (error-Balanced no_buffer_space _)) same)
      same
  where
    same : Balanced s s
    same = Balanced-refl s

retry_entry-Balanced : (i : ℕ) (s : Impl) → Balanced s (retry_entry i s)
unfolding retry_entry count_no_buffer_space set_no_buffer_space_error_count
retry_entry-Balanced i s =
    Balanced-trans (modify-Balanced i count_no_buffer_space s refl) (limit_retries-Balanced i _)

enqueue_processed-called :
    (p : Processed) (s : Impl)
    → called (enqueue_processed p s).dispatcher ≡ called s.dispatcher ++ callback p
unfolding enqueue_processed called
enqueue_processed-called none s = sym (append-nil (called s.dispatcher))
enqueue_processed-called (some f) s = called-append s.dispatcher (emit (processed f) ∷ [])

enqueue_processed-heap : (p : Processed) (s : Impl) → (enqueue_processed p s).heap ≡ s.heap
unfolding enqueue_processed
enqueue_processed-heap none s = refl
enqueue_processed-heap (some f) s = refl

enqueue_processed-address :
    (p : Processed) (s : Impl) → (enqueue_processed p s).next_address ≡ s.next_address
unfolding enqueue_processed
enqueue_processed-address none s = refl
enqueue_processed-address (some f) s = refl

enqueue_processed-io_ctx : (p : Processed) (s : Impl) → (enqueue_processed p s).io_ctx ≡ s.io_ctx
unfolding enqueue_processed
enqueue_processed-io_ctx none s = refl
enqueue_processed-io_ctx (some f) s = refl

enqueue_processed-signals : (p : Processed) (s : Impl) → (enqueue_processed p s).signals ≡ s.signals
unfolding enqueue_processed
enqueue_processed-signals none s = refl
enqueue_processed-signals (some f) s = refl

pop_front-Balanced : (is : List ℕ) (s : Impl) → s.send_entries ≡ is → Balanced s (pop_front is s)
unfolding pop_front ledger waiting Below
pop_front-Balanced [] s e = Balanced-refl s
pop_front-Balanced (i ∷ is) s e = record {
  callbacks = λ js. ap (λ h. waiting h js) (enqueue_processed-heap (s.heap i).processed s);
  balance =
      ap₂ ◌++◌ (enqueue_processed-called (s.heap i).processed s)
        (ap (λ h. waiting h is) (enqueue_processed-heap (s.heap i).processed s))
      ∙ append_assoc (called s.dispatcher) (callback (s.heap i).processed) (waiting s.heap is)
      ∙ ap (λ js. called s.dispatcher ++ waiting s.heap js) (sym e);
  address = enqueue_processed-address (s.heap i).processed s;
  queue = λ n b. (subst (Below n) e b).1;
  posted = ap lasting (enqueue_processed-io_ctx (s.heap i).processed s);
  signalled = ap processed_of (enqueue_processed-signals (s.heap i).processed s);
}

pub await-Balanced :
    (now : Millis) (delay : Option Millis) (s : Impl) → Balanced s (await_send_entry now delay s)
await-Balanced now delay s =
    let kept = await_send_entry-Kept now delay s in
    Balanced-of_eq kept.heap kept.send_entries (ap called kept.dispatcher) kept.next_address
      (ap lasting kept.io_ctx) (ap processed_of kept.signals)

finish_send-Balanced :
    (now : Millis) (delay : Option Millis) (i : ℕ) (s : Impl)
    → Balanced s (finish_send now delay i s)
unfolding finish_send pop_front_send_entry
finish_send-Balanced now delay i s =
    Balanced-trans
      (if-Balanced (transfer_complete (s.heap i)) (pop_front-Balanced s.send_entries s refl)
        (Balanced-refl s))
      (await-Balanced now delay _)

other_error-Balanced :
    (now : Millis) (c : ErrorCode) (i : ℕ) (m : Mode) (s : Impl)
    → Balanced s (other_error now c i m s)
unfolding other_error async_close lasting
other_error-Balanced now c i server s =
    Balanced-trans (drop_entry-Balanced i s) (finish_send-Balanced now none i _)
other_error-Balanced now c i client s =
    Balanced-trans (error-Balanced c s) (post-Balanced Task.close _ refl)

handle_result-Balanced :
    (now : Millis) (c : ErrorCode) (i : ℕ) (s : Impl) → Balanced s (handle_result now c i s)
unfolding handle_result
handle_result-Balanced now success i s = finish_send-Balanced now none i s
handle_result-Balanced now no_buffer_space i s =
    Balanced-trans (retry_entry-Balanced i s) (finish_send-Balanced now (some 100) i _)
handle_result-Balanced now message_size i s =
    Balanced-trans (drop_entry-Balanced i s)
      (Balanced-trans (error-Balanced message_size _) (finish_send-Balanced now none i _))
handle_result-Balanced now (other n) i s = other_error-Balanced now (other n) i s.mode s

pub handle_send-Balanced :
    (now : Millis) (c : ErrorCode) (n i : ℕ) (s : Impl) → Balanced s (handle_send now c n i s)
unfolding handle_send add_bytes_transferred
handle_send-Balanced now c n i s = Balanced-trans (modify-Balanced i _ s refl) (
    Balanced-trans (Balanced-of_eq refl refl refl refl refl refl)
      (handle_result-Balanced now c i _))
