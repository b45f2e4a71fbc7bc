-- ===== src/BaseImpl/Session/Shut.antt =====
-- base_impl.hpp: what the sender of a closed object still does in the thread of `io_ctx_`.
use cpp_local_datagram.Base.{
  ℕ, ◌≡◌, refl, ap, ◌∙◌, inl, inr, ◌⊎◌, Bool, true, false, Option, none, some, List, [], ◌∷◌, ◌++◌,
  arith, if◌then◌else◌, subst,
}
use cpp_local_datagram.BaseImpl.State.{
  Impl, Mode, ErrorCode, Millis, close, Notice, success, no_buffer_space, message_size, other,
  server, client, is_open, post, modify, enqueue_to_dispatcher,
}
use cpp_local_datagram.BaseImpl.Socket.{async_close}
use cpp_local_datagram.SendEntry.{SendEntry}
use cpp_local_datagram.BaseImpl.Send.{
  await_send_entry, handle_send, handle_result, finish_send, other_error, drop_entry, retry_entry,
  limit_retries, pop_front_send_entry, pop_front, enqueue_processed, check_send_deadline,
}

-- What the thread has to do is the same.
pub record Calm (s t : Impl) : Type 0 where
  pub opening : is_open t ≡ is_open s
  pub socket : t.socket ≡ s.socket
  pub pending : t.pending ≡ s.pending
  pub cancelled : t.cancelled ≡ s.cancelled
  pub work_guard : t.work_guard ≡ s.work_guard
  pub io_ctx : t.io_ctx ≡ s.io_ctx

pub Calm-refl : (s : Impl) → Calm s s
Calm-refl s = record {
  opening = refl;
  socket = refl;
  pending = refl;
  cancelled = refl;
  work_guard = refl;
  io_ctx = refl;
}

pub Calm-trans : {s t u : Impl} → Calm s t → Calm t u → Calm s u
Calm-trans p q = record {
  opening = q.opening ∙ p.opening;
  socket = q.socket ∙ p.socket;
  pending = q.pending ∙ p.pending;
  cancelled = q.cancelled ∙ p.cancelled;
  work_guard = q.work_guard ∙ p.work_guard;
  io_ctx = q.io_ctx ∙ p.io_ctx;
}

pub if-Calm : {s t u : Impl} (b : Bool) → Calm s t → Calm s u → Calm s (if b then t else u)
if-Calm true p q = p
if-Calm false p q = q

modify-Calm : (i : ℕ) (f : SendEntry → SendEntry) (s : Impl) → Calm s (modify i f s)
unfolding modify is_open
modify-Calm i f s = record {
  opening = refl;
  socket = refl;
  pending = refl;
  cancelled = refl;
  work_guard = refl;
  io_ctx = refl;
}

pub told-Calm : (n : Notice) (s : Impl) → Calm s (enqueue_to_dispatcher n s)
unfolding enqueue_to_dispatcher is_open
told-Calm n s = record {
  opening = refl;
  socket = refl;
  pending = refl;
  cancelled = refl;
  work_guard = refl;
  io_ctx = refl;
}

pop_front-Calm : (is : List ℕ) (s : Impl) → Calm s (pop_front is s)
unfolding pop_front enqueue_processed enqueue_to_dispatcher is_open
pop_front-Calm [] s = Calm-refl s
pop_front-Calm (i ∷ is) s = ground arith

limit_retries-Calm : (i : ℕ) (s : Impl) → Calm s (limit_retries i s)
unfolding limit_retries drop_entry
limit_retries-Calm i s =
    if-Calm _ (if-Calm _ (Calm-trans (modify-Calm i _ s) (told-Calm _ _)) (Calm-refl s))
      (Calm-refl s)

-- What a step of a closed object leaves: at most a close is posted.
pub record Winds (s t : Impl) : Type 0 where
  pub shut : is_open t ≡ false
  pub socket : t.socket ≡ s.socket
  pub pending : t.pending ≡ s.pending
  pub cancelled : t.cancelled ≡ s.cancelled
  pub work_guard : t.work_guard ≡ s.work_guard
  pub io_ctx : (t.io_ctx ≡ s.io_ctx) ⊎ (t.io_ctx ≡ s.io_ctx ++ close ∷ [])

pub Calm-Winds : {s t : Impl} → is_open s ≡ false → Calm s t → Winds s t
Calm-Winds shut c = record {
  shut = c.opening ∙ shut;
  socket = c.socket;
  pending = c.pending;
  cancelled = c.cancelled;
  work_guard = c.work_guard;
  io_ctx = inl c.io_ctx;
}

pub await_send_entry-Winds :
    (now : Millis) (delay : Option Millis) (s : Impl)
    → is_open s ≡ false
    → Winds s (await_send_entry now delay s)
unfolding await_send_entry
await_send_entry-Winds now delay s shut = rw shut (Calm-Winds shut (Calm-refl s))

-- What comes before the next operation is calm.
then_await :
    {s t : Impl} (now : Millis) (delay : Option Millis)
    → is_open s ≡ false
    → Calm s t
    → Winds s (await_send_entry now delay t)
then_await {s} {t} now delay shut c =
    let w = await_send_entry-Winds now delay t (c.opening ∙ shut) in
    record {
      shut = w.shut;
      socket = w.socket ∙ c.socket;
      pending = w.pending ∙ c.pending;
      cancelled = w.cancelled ∙ c.cancelled;
      work_guard = w.work_guard ∙ c.work_guard;
      io_ctx = subst (λ ts. (u.io_ctx ≡ ts) ⊎ (u.io_ctx ≡ ts ++ close ∷ [])) c.io_ctx w.io_ctx;
    }
  where
    u : Impl
    u = await_send_entry now delay t

finish_send-Winds :
    {s t : Impl} (now : Millis) (delay : Option Millis) (i : ℕ)
    → is_open s ≡ false
    → Calm s t
    → Winds s (finish_send now delay i t)
unfolding finish_send pop_front_send_entry
finish_send-Winds {s} {t} now delay i shut c =
    then_await now delay shut
      (Calm-trans c (if-Calm _ (pop_front-Calm t.send_entries t) (Calm-refl t)))

other_error-Winds :
    {s t : Impl} (now : Millis) (c : ErrorCode) (i : ℕ) (m : Mode)
    → is_open s ≡ false
    → Calm s t
    → Winds s (other_error now c i m t)
unfolding other_error async_close post drop_entry enqueue_to_dispatcher is_open
other_error-Winds {s} {t} now c i server shut q =
    finish_send-Winds now none i shut (Calm-trans q (modify-Calm i _ t))
other_error-Winds {s} {t} now c i client shut q = record {
  shut = q.opening ∙ shut;
  socket = q.socket;
  pending = q.pending;
  cancelled = q.cancelled;
  work_guard = q.work_guard;
  io_ctx = inr (ap (λ ts. ts ++ close ∷ []) q.io_ctx);
}

handle_result-Winds :
    {s t : Impl} (now : Millis) (c : ErrorCode) (i : ℕ)
    → is_open s ≡ false
    → Calm s t
    → Winds s (handle_result now c i t)
unfolding handle_result retry_entry drop_entry
handle_result-Winds {s} {t} now success i shut q = finish_send-Winds now none i shut q
handle_result-Winds {s} {t} now no_buffer_space i shut q =
    finish_send-Winds now (some 100) i shut
      (Calm-trans q (Calm-trans (modify-Calm i _ t) (limit_retries-Calm i _)))
handle_result-Winds {s} {t} now message_size i shut q =
    finish_send-Winds now none i shut
      (Calm-trans q (Calm-trans (modify-Calm i _ t) (told-Calm _ _)))
handle_result-Winds {s} {t} now (other n) i shut q = other_error-Winds now (other n) i t.mode shut q

pub handle_send-Winds :
    (now : Millis) (c : ErrorCode) (n i : ℕ) (s : Impl)
    → is_open s ≡ false
    → Winds s (handle_send now c n i s)
unfolding handle_send is_open modify
handle_send-Winds now c n i s shut = handle_result-Winds now c i shut (record {
  opening = refl;
  socket = refl;
  pending = refl;
  cancelled = refl;
  work_guard = refl;
  io_ctx = refl;
})

pub check_send_deadline-Winds :
    (now : Millis) (s : Impl) → is_open s ≡ false → Winds s (check_send_deadline now s)
unfolding check_send_deadline
check_send_deadline-Winds now s shut = rw shut (Calm-Winds shut (Calm-refl s))
