-- ===== src/BaseImpl/Session/Watching.antt =====
-- base_impl.hpp, check_send_deadline: the wait for the deadline of a client's sends.
use cpp_local_datagram.Base.{
  ◌+◌, ℕ, ◌≡◌, refl, sym, ap, ◌∙◌, Bool, true, false, ◌||◌, Option, none, some, List, [], ◌∷◌, ◌++◌,
  arith, if◌then◌else◌,
}
use cpp_local_datagram.SendEntry.{transfer_complete}
use cpp_local_datagram.BaseImpl.State.{
  Impl, Mode, server, client, ErrorCode, success, no_buffer_space, message_size, other, Millis, Op,
  send_to, wait_send_invoker, receive_from, wait_send_deadline, connect_to, is_open, Task, post,
  start, modify, enqueue_to_dispatcher, pos_infin, at,
}
use cpp_local_datagram.BaseImpl.Socket.{async_close}
use cpp_local_datagram.BaseImpl.Receive.{async_receive}
use cpp_local_datagram.BaseImpl.Send.{
  handle_send, handle_result, finish_send, other_error, drop_entry, retry_entry, limit_retries,
  pop_front_send_entry, pop_front, enqueue_processed, await_send_entry, await_next, await_front,
  wait_for_entry,
}
use cpp_local_datagram.BaseImpl.Session.Sender.{has_close, has_close-append}

unfoldable pub watches : List Op → Bool
watches [] = false
watches (wait_send_deadline ∷ _) = true
watches (_ ∷ os) = watches os

-- The open socket of a client is watched: the wait is pending, or a close has been posted.
pub record IsWatched (s : Impl) : Type 0 where
  pub is_client : s.mode ≡ client
  pub watched : is_open s ≡ true → (watches s.pending || has_close s.io_ctx) ≡ true

watches-append : (os ps : List Op) → watches os ≡ true → watches (os ++ ps) ≡ true
unfolding watches
watches-append [] ps h = cc
watches-append (wait_send_deadline ∷ os) ps h = refl
watches-append (_ ∷ os) ps h = watches-append os ps h

pub watches_last : (os : List Op) → watches (os ++ wait_send_deadline ∷ []) ≡ true
unfolding watches
watches_last [] = refl
watches_last (wait_send_deadline ∷ os) = refl
watches_last (_ ∷ os) = watches_last os

pub watches_taken :
    (os ps : List Op) (o : Op)
    → watches (o ∷ []) ≡ false
    → watches (os ++ o ∷ ps) ≡ true
    → watches (os ++ ps) ≡ true
unfolding watches
watches_taken [] ps wait_send_deadline e h = cc
watches_taken [] ps (send_to i b d) e h = h
watches_taken [] ps wait_send_invoker e h = h
watches_taken [] ps receive_from e h = h
watches_taken [] ps (connect_to a) e h = h
watches_taken (wait_send_deadline ∷ os) ps o e h = refl
watches_taken (send_to i b d ∷ os) ps o e h = watches_taken os ps o e h
watches_taken (wait_send_invoker ∷ os) ps o e h = watches_taken os ps o e h
watches_taken (receive_from ∷ os) ps o e h = watches_taken os ps o e h
watches_taken (connect_to a ∷ os) ps o e h = watches_taken os ps o e h

-- A part of a step that takes no watch away.
pub record Keeps (s t : Impl) : Type 0 where
  pub mode : t.mode ≡ s.mode
  pub opening : is_open t ≡ true → is_open s ≡ true
  pub watching : watches s.pending ≡ true → watches t.pending ≡ true
  pub closing : has_close s.io_ctx ≡ true → has_close t.io_ctx ≡ true

pub Keeps-IsWatched : {s t : Impl} → Keeps s t → IsWatched s → IsWatched t
Keeps-IsWatched k h = record {
  is_client = k.mode ∙ h.is_client;
  watched = λ o. ground (arith, h.watched (k.opening o), k.watching, k.closing);
}

pub Keeps-trans : {s t u : Impl} → Keeps s t → Keeps t u → Keeps s u
Keeps-trans p q = record {
  mode = q.mode ∙ p.mode;
  opening = λ h. p.opening (q.opening h);
  watching = λ h. q.watching (p.watching h);
  closing = λ h. q.closing (p.closing h);
}

if-Keeps : {s t u : Impl} (b : Bool) → Keeps s t → Keeps s u → Keeps s (if b then t else u)
if-Keeps true p q = p
if-Keeps false p q = q

pub same-Keeps :
    {s t : Impl}
    → t.mode ≡ s.mode
    → is_open t ≡ is_open s
    → t.pending ≡ s.pending
    → t.io_ctx ≡ s.io_ctx
    → Keeps s t
same-Keeps m o p c = record {
  mode = m;
  opening = λ h. sym o ∙ h;
  watching = λ h. ap watches p ∙ h;
  closing = λ h. ap has_close c ∙ h;
}

refl-Keeps : (s : Impl) → Keeps s s
refl-Keeps s = same-Keeps refl refl refl refl

start-Keeps : (o : Op) (s : Impl) → Keeps s (start o s)
unfolding start is_open
start-Keeps o s = record {
  mode = refl;
  opening = λ h. h;
  watching = watches-append s.pending (o ∷ []);
  closing = λ h. h;
}

pub post-Keeps : (t : Task) (s : Impl) → Keeps s (post t s)
unfolding post is_open
post-Keeps t s = record {
  mode = refl;
  opening = λ h. h;
  watching = λ h. h;
  closing = has_close-append s.io_ctx (t ∷ []);
}

await_front-Keeps : (now : Millis) (is : List ℕ) (s : Impl) → Keeps s (await_front now is s)
unfolding await_front is_open
await_front-Keeps now [] s =
    Keeps-trans (same-Keeps {t = record s { send_invoker = pos_infin }} refl refl refl refl)
      (start-Keeps _ _)
await_front-Keeps now (i ∷ is) s =
    Keeps-trans (same-Keeps {t = record s { send_deadline = at (now + 5000) }} refl refl refl refl)
      (start-Keeps _ _)

await_next-Keeps : (now : Millis) (d : Option Millis) (s : Impl) → Keeps s (await_next now d s)
unfolding await_next wait_for_entry is_open
await_next-Keeps now none s = await_front-Keeps now s.send_entries s
await_next-Keeps now (some d) s =
    Keeps-trans (same-Keeps {t = record s { send_invoker = at (now + d) }} refl refl refl refl)
      (start-Keeps _ _)

pub await-Keeps : (now : Millis) (d : Option Millis) (s : Impl) → Keeps s (await_send_entry now d s)
unfolding await_send_entry
await-Keeps now d s = if-Keeps (is_open s) (await_next-Keeps now d s) (refl-Keeps s)

pub async_receive-Keeps : (s : Impl) → Keeps s (async_receive s)
unfolding async_receive
async_receive-Keeps s = if-Keeps (is_open s) (start-Keeps _ s) (refl-Keeps s)

pop_front-Keeps : (is : List ℕ) (s : Impl) → Keeps s (pop_front is s)
unfolding pop_front enqueue_processed is_open enqueue_to_dispatcher
pop_front-Keeps [] s = refl-Keeps s
pop_front-Keeps (i ∷ is) s = same-Keeps (ground arith) (ground arith) (ground arith) (ground arith)

finish_send-Keeps :
    (now : Millis) (d : Option Millis) (i : ℕ) (s : Impl) → Keeps s (finish_send now d i s)
unfolding finish_send pop_front_send_entry
finish_send-Keeps now d i s =
    Keeps-trans
      (if-Keeps (transfer_complete (s.heap i)) (pop_front-Keeps s.send_entries s) (refl-Keeps s))
      (await-Keeps now d _)

retry_entry-Keeps : (i : ℕ) (s : Impl) → Keeps s (retry_entry i s)
unfolding retry_entry limit_retries modify enqueue_to_dispatcher drop_entry is_open
retry_entry-Keeps i s = same-Keeps (ground arith) (ground arith) (ground arith) (ground arith)

other_error-Keeps :
    (now : Millis) (c : ErrorCode) (i : ℕ) (m : Mode) (s : Impl) → Keeps s (other_error now c i m s)
unfolding other_error async_close enqueue_to_dispatcher drop_entry modify is_open
other_error-Keeps now c i server s =
    Keeps-trans (same-Keeps refl refl refl refl) (finish_send-Keeps now none i _)
other_error-Keeps now c i client s =
    Keeps-trans (same-Keeps refl refl refl refl) (post-Keeps Task.close _)

handle_result-Keeps :
    (now : Millis) (c : ErrorCode) (i : ℕ) (s : Impl) → Keeps s (handle_result now c i s)
unfolding handle_result enqueue_to_dispatcher drop_entry modify is_open
handle_result-Keeps now success i s = finish_send-Keeps now none i s
handle_result-Keeps now no_buffer_space i s =
    Keeps-trans (retry_entry-Keeps i s) (finish_send-Keeps now (some 100) i _)
handle_result-Keeps now message_size i s =
    Keeps-trans (same-Keeps refl refl refl refl) (finish_send-Keeps now none i _)
handle_result-Keeps now (other n) i s = other_error-Keeps now (other n) i s.mode s

pub handle_send-Keeps :
    (now : Millis) (c : ErrorCode) (n i : ℕ) (s : Impl) → Keeps s (handle_send now c n i s)
unfolding handle_send modify is_open
handle_send-Keeps now c n i s =
    Keeps-trans (same-Keeps refl refl refl refl) (handle_result-Keeps now c i _)
