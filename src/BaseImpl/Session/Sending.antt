-- ===== src/BaseImpl/Session/Sending.antt =====
-- base_impl.hpp: handle_send, for a sender with no other operation.
use cpp_local_datagram.Base.{
  ℕ, ◌≡◌, refl, ap, ◌∙◌, inl, inr, Option, none, some, List, [], ◌∷◌, arith, Bool-cases,
}
use cpp_local_datagram.BaseImpl.State.{
  Impl, ErrorCode, success, no_buffer_space, message_size, other, Mode, server, client, Millis,
  post, modify, enqueue_to_dispatcher,
}
use cpp_local_datagram.SendEntry.{transfer_complete}
use cpp_local_datagram.BaseImpl.Socket.{async_close}
use cpp_local_datagram.BaseImpl.Send.{
  pop_front, enqueue_processed, pop_front_send_entry, drop_entry, limit_retries, retry_entry,
  finish_send, other_error, handle_result, handle_send,
}
use cpp_local_datagram.BaseImpl.Session.{senders}
use cpp_local_datagram.BaseImpl.Session.Sender.{
  IsSending, has_close-posted, await_send_entry-IsSending,
}

-- The parts of handle_send up to the next await change no operation of the sender.
drop_entry-pending : (i : ℕ) (s : Impl) → (drop_entry i s).pending ≡ s.pending
unfolding drop_entry modify
drop_entry-pending i s = refl

retry_entry-pending : (i : ℕ) (s : Impl) → (retry_entry i s).pending ≡ s.pending
unfolding retry_entry limit_retries modify enqueue_to_dispatcher drop_entry
retry_entry-pending i s = ground arith

pop_front-pending : (is : List ℕ) (s : Impl) → (pop_front is s).pending ≡ s.pending
unfolding pop_front enqueue_processed enqueue_to_dispatcher
pop_front-pending [] s = refl
pop_front-pending (i ∷ is) s = ground arith

finish_send-IsSending :
    (now : Millis) (delay : Option Millis) (i : ℕ) (s : Impl)
    → senders s.pending ≡ []
    → IsSending (finish_send now delay i s)
unfolding finish_send pop_front_send_entry
finish_send-IsSending now delay i s alone = elim (Bool-cases (transfer_complete (s.heap i))) [
  | inl e ↦ rw e (
      await_send_entry-IsSending now delay _
        (ap senders (pop_front-pending s.send_entries s) ∙ alone))
  | inr e ↦ rw e (await_send_entry-IsSending now delay s alone)
]

-- A connection error in client mode starts nothing, but the close is posted.
other_error-IsSending :
    (now : Millis) (c : ErrorCode) (i : ℕ) (m : Mode) (s : Impl)
    → senders s.pending ≡ []
    → IsSending (other_error now c i m s)
unfolding other_error async_close post enqueue_to_dispatcher
other_error-IsSending now c i server s alone =
    finish_send-IsSending now none i _ (ap senders (drop_entry-pending i s) ∙ alone)
other_error-IsSending now c i client s alone = record {
  at_most_one = inl alone;
  busy = λ _ _. has_close-posted s.io_ctx;
}

handle_result-IsSending :
    (now : Millis) (c : ErrorCode) (i : ℕ) (s : Impl)
    → senders s.pending ≡ []
    → IsSending (handle_result now c i s)
unfolding handle_result enqueue_to_dispatcher
handle_result-IsSending now success i s alone = finish_send-IsSending now none i s alone
handle_result-IsSending now no_buffer_space i s alone =
    finish_send-IsSending now (some 100) i _ (ap senders (retry_entry-pending i s) ∙ alone)
handle_result-IsSending now message_size i s alone =
    finish_send-IsSending now none i _ (ap senders (drop_entry-pending i s) ∙ alone)
handle_result-IsSending now (other n) i s alone =
    other_error-IsSending now (other n) i s.mode s alone

pub handle_send-IsSending :
    (now : Millis) (c : ErrorCode) (n i : ℕ) (s : Impl)
    → senders s.pending ≡ []
    → IsSending (handle_send now c n i s)
unfolding handle_send modify
handle_send-IsSending now c n i s alone = handle_result-IsSending now c i _ alone
