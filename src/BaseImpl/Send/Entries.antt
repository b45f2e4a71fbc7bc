-- ===== src/BaseImpl/Send/Entries.antt =====
-- base_impl.hpp, handle_send: what the result of a send makes of its entry.
use cpp_local_datagram.Base.{
  ℕ, ◌≡◌, refl, ap, ◌∙◌, inl, inr, Bool, Option, none, some, List, [], ◌∷◌, arith, ltb, ◌==◌, ◌&&◌,
  ◌||◌, Bool-cases, if◌then◌else◌,
}
use cpp_local_datagram.SendEntry.{SendEntry, add_bytes_transferred, rest_bytes, transfer_complete}
use cpp_local_datagram.BaseImpl.State.{
  Impl, Mode, server, client, ErrorCode, success, no_buffer_space, message_size, other, Millis,
  update, modify, start, enqueue_to_dispatcher,
}
use cpp_local_datagram.BaseImpl.Socket.{async_close}
use cpp_local_datagram.BaseImpl.Send.{
  await_send_entry, await_next, await_front, wait_for_entry, send_front, pop_front,
  enqueue_processed, pop_front_send_entry, drop_entry, count_no_buffer_space, limit_retries,
  retry_entry, finish_send, other_error, handle_result, handle_send,
}

-- An entry that is given up counts as transferred.
give_up : SendEntry → SendEntry
give_up e = add_bytes_transferred (rest_bytes e) e

-- How often and how long an entry without buffer space is kept: ten times in any case, a hundred times
-- once a part of it has gone.
is_exhausted : SendEntry → Bool
is_exhausted e =
    ltb 10 e.no_buffer_space_error_count
    && (e.bytes_transferred == 0 || ltb 100 e.no_buffer_space_error_count)

-- The entry after a result, by the mode and the error code.
unfoldable pub sent_entry : Mode → ErrorCode → ℕ → SendEntry → SendEntry
unfolding give_up is_exhausted
sent_entry _ success n e = add_bytes_transferred n e
sent_entry _ no_buffer_space n e =
    let counted = count_no_buffer_space (add_bytes_transferred n e) in
    if is_exhausted counted then give_up counted else counted
sent_entry _ message_size n e = give_up (add_bytes_transferred n e)
sent_entry server (other _) n e = give_up (add_bytes_transferred n e)
sent_entry client (other _) n e = add_bytes_transferred n e

-- Starting the next operation changes nothing but the operations and the two timers.
pub record Kept (s t : Impl) : Type 0 where
  pub heap : t.heap ≡ s.heap
  pub send_entries : t.send_entries ≡ s.send_entries
  pub dispatcher : t.dispatcher ≡ s.dispatcher
  pub mode : t.mode ≡ s.mode
  pub io_ctx : t.io_ctx ≡ s.io_ctx
  pub next_address : t.next_address ≡ s.next_address
  pub signals : t.signals ≡ s.signals
  pub socket : t.socket ≡ s.socket
  pub socket_ready : t.socket_ready ≡ s.socket_ready
  pub bound_path : t.bound_path ≡ s.bound_path
  pub files : t.files ≡ s.files

await_front-Kept : (now : Millis) (is : List ℕ) (s : Impl) → Kept s (await_front now is s)
unfolding await_front wait_for_entry send_front start
await_front-Kept now [] s = ground arith
await_front-Kept now (i ∷ is) s = ground arith

pub await_send_entry-Kept :
    (now : Millis) (delay : Option Millis) (s : Impl) → Kept s (await_send_entry now delay s)
unfolding await_send_entry await_next wait_for_entry start
await_send_entry-Kept now none s = ground (arith, await_front-Kept now s.send_entries s)
await_send_entry-Kept now (some d) s = ground arith

pop_front-heap : (is : List ℕ) (s : Impl) → (pop_front is s).heap ≡ s.heap
unfolding pop_front enqueue_processed
pop_front-heap [] s = refl
pop_front-heap (i ∷ is) s = ground arith

finish_send-heap :
    (now : Millis) (delay : Option Millis) (i : ℕ) (s : Impl)
    → (finish_send now delay i s).heap ≡ s.heap
unfolding finish_send pop_front_send_entry
finish_send-heap now delay i s = elim (Bool-cases (transfer_complete (s.heap i))) [
  | inl e ↦ rw e ((await_send_entry-Kept now delay _).heap ∙ pop_front-heap s.send_entries s)
  | inr e ↦ rw e ((await_send_entry-Kept now delay s).heap)
]

update_self : (h : ℕ → SendEntry) (i : ℕ) (e : SendEntry) → update h i e i ≡ e
update_self h i e = ground arith

drop_entry-heap : (i : ℕ) (s : Impl) → (drop_entry i s).heap i ≡ give_up (s.heap i)
unfolding drop_entry give_up modify
drop_entry-heap i s = update_self s.heap i _

modify-heap : (i : ℕ) (f : SendEntry → SendEntry) (s : Impl) → (modify i f s).heap i ≡ f (s.heap i)
unfolding modify
modify-heap i f s = update_self s.heap i (f (s.heap i))

limit_retries-heap :
    (i : ℕ) (s : Impl)
    → (limit_retries i s).heap i
      ≡ (if is_exhausted (s.heap i) then give_up (s.heap i) else s.heap i)
unfolding limit_retries is_exhausted enqueue_to_dispatcher
limit_retries-heap i s = ground (arith, drop_entry-heap i s)

retry_entry-heap :
    (i : ℕ) (s : Impl)
    → (retry_entry i s).heap i ≡ (
        if is_exhausted (count_no_buffer_space (s.heap i))
        then give_up (count_no_buffer_space (s.heap i))
        else count_no_buffer_space (s.heap i))
unfolding retry_entry
retry_entry-heap i s =
    limit_retries-heap i (modify i count_no_buffer_space s)
    ∙ ap (λ e. if is_exhausted e then give_up e else e) (modify-heap i count_no_buffer_space s)

other_error-heap :
    (now : Millis) (c : ErrorCode) (i : ℕ) (m : Mode) (s : Impl) (k n : ℕ) (e : SendEntry)
    → s.heap i ≡ add_bytes_transferred n e
    → (other_error now c i m s).heap i ≡ sent_entry m (other k) n e
unfolding other_error sent_entry async_close enqueue_to_dispatcher
other_error-heap now c i server s k n e h =
    ap (λ g. g i) (finish_send-heap now none i _) ∙ drop_entry-heap i s ∙ ap give_up h
other_error-heap now c i client s k n e h = h

handle_result-heap :
    (now : Millis) (c : ErrorCode) (i : ℕ) (s : Impl) (n : ℕ) (e : SendEntry)
    → s.heap i ≡ add_bytes_transferred n e
    → (handle_result now c i s).heap i ≡ sent_entry s.mode c n e
unfolding handle_result sent_entry enqueue_to_dispatcher
handle_result-heap now success i s n e h = ap (λ g. g i) (finish_send-heap now none i s) ∙ h
handle_result-heap now no_buffer_space i s n e h =
    ap (λ g. g i) (finish_send-heap now (some 100) i _)
    ∙ retry_entry-heap i s
    ∙ ap
        (λ x.
          let counted = count_no_buffer_space x in
          if is_exhausted counted then give_up counted else counted)
        h
handle_result-heap now message_size i s n e h =
    ap (λ g. g i) (finish_send-heap now none i _) ∙ drop_entry-heap i s ∙ ap give_up h
handle_result-heap now (other k) i s n e h = other_error-heap now (other k) i s.mode s k n e h

-- In every case, what handle_send makes of its entry is `sent_entry`.
pub handle_send-sent_entry :
    (now : Millis) (c : ErrorCode) (n i : ℕ) (s : Impl)
    → (handle_send now c n i s).heap i ≡ sent_entry s.mode c n (s.heap i)
unfolding handle_send modify
handle_send-sent_entry now c n i s =
    handle_result-heap now c i _ n (s.heap i) (modify-heap i (add_bytes_transferred n) s)
