-- ===== src/BaseImpl/Session/Ending.antt =====
-- base_impl.hpp: what a closed object still does: its receiver, its close and its actors.
use cpp_local_datagram.Base.{
  ℕ, ◌≡◌, refl, ◌∙◌, Bool, true, false, Option, none, List, [], ◌∷◌, arith, if◌then◌else◌, leb,
  take, ◌-◌, ◌==◌,
}
use cpp_local_datagram.Memcpy.{ByteOrder, load_uint32}
use cpp_local_datagram.BaseImpl.State.{
  Impl, Mode, ErrorCode, Millis, received, server, client, is_open, pos_infin, emit,
  enqueue_to_dispatcher,
}
use cpp_local_datagram.BaseImpl.Socket.{run_close}
use cpp_local_datagram.Endpoint.{Endpoint}
use cpp_local_datagram.BaseImpl.Receive.{
  async_receive, fill_receive_buffer, accept_heartbeat, receive_heartbeat, receive_user_data,
  receive_datagram, handle_receive, complete_receive,
}
use cpp_local_datagram.BaseImpl.Send.{
  run_push_entry, await_send_entry, check_send_deadline, check_deadline_of, start_actors,
}
use cpp_local_datagram.BaseImpl.Session.Shut.{
  Calm, Calm-refl, Calm-trans, if-Calm, told-Calm, Winds, Calm-Winds,
}

accept_heartbeat-Calm : (d : ℕ) (s : Impl) → Calm s (accept_heartbeat d s)
unfolding accept_heartbeat enqueue_to_dispatcher is_open
accept_heartbeat-Calm d s = ground arith

receive_heartbeat-Calm :
    (order : ByteOrder) (n : ℕ) (body : List ℕ) (s : Impl)
    → Calm s (receive_heartbeat order n body s)
unfolding receive_heartbeat
receive_heartbeat-Calm order n body s =
    if-Calm (leb 4 (n - 1)) (accept_heartbeat-Calm (load_uint32 order body) s) (Calm-refl s)

receive_datagram-Calm :
    (order : ByteOrder) (n : ℕ) (body : List ℕ) (s : Impl)
    → Calm s (receive_datagram order n body s)
unfolding receive_datagram receive_user_data
receive_datagram-Calm order n [] s = Calm-refl s
receive_datagram-Calm order n (t ∷ body) s =
    if-Calm (t == 0) (receive_heartbeat-Calm order n body s) (
      if-Calm (t == 1) (told-Calm (emit (received (take (n - 1) body) s.receive_sender_endpoint)) s)
        (Calm-refl s))

async_receive-Calm : (s : Impl) → is_open s ≡ false → Calm s (async_receive s)
unfolding async_receive
async_receive-Calm s shut = rw shut (Calm-refl s)

if_received :
    {s t : Impl} (b : Bool)
    → is_open s ≡ false
    → Calm s t
    → Winds s (if b then async_receive t else t)
if_received {s} {t} true shut c =
    Calm-Winds shut (Calm-trans c (async_receive-Calm t (c.opening ∙ shut)))
if_received false shut c = Calm-Winds shut c

pub handle_receive-Winds :
    (order : ByteOrder) (c : ErrorCode) (n : ℕ) (s : Impl)
    → is_open s ≡ false
    → Winds s (handle_receive order c n s)
unfolding handle_receive
handle_receive-Winds order c n s shut = if_received _ shut (
    if-Calm _ (Calm-refl s)
      (if-Calm _ (receive_datagram-Calm order n s.receive_buffer s) (Calm-refl s)))

pub complete_receive-Winds :
    (order : ByteOrder) (datagram : List ℕ) (sender : Endpoint) (s : Impl)
    → is_open s ≡ false
    → Winds s (complete_receive order datagram sender s)
unfolding complete_receive fill_receive_buffer is_open
complete_receive-Winds order datagram sender s shut =
    let filled = fill_receive_buffer datagram sender s in
    let w = handle_receive-Winds order ErrorCode.success _ filled shut in
    record {
      shut = w.shut;
      socket = w.socket;
      pending = w.pending;
      cancelled = w.cancelled;
      work_guard = w.work_guard;
      io_ctx = w.io_ctx;
    }

pub run_close-Calm : (s : Impl) → s.socket ≡ none → Calm s (run_close s)
unfolding run_close is_open
run_close-Calm s gone = record {
  opening = ground arith;
  socket = ground arith;
  pending = ground arith;
  cancelled = ground arith;
  work_guard = ground arith;
  io_ctx = ground arith;
}

pub run_push_entry-Calm : (now : Millis) (i : ℕ) (s : Impl) → Calm s (run_push_entry now i s)
unfolding run_push_entry is_open
run_push_entry-Calm now i s = record {
  opening = refl;
  socket = refl;
  pending = refl;
  cancelled = refl;
  work_guard = refl;
  io_ctx = refl;
}

check_deadline_of-Calm :
    (m : Mode) (now : Millis) (s : Impl) → is_open s ≡ false → Calm s (check_deadline_of m now s)
unfolding check_deadline_of check_send_deadline
check_deadline_of-Calm server now s shut = Calm-refl s
check_deadline_of-Calm client now s shut = rw shut (Calm-refl s)

await_send_entry-Calm :
    (now : Millis) (delay : Option Millis) (s : Impl)
    → is_open s ≡ false
    → Calm s (await_send_entry now delay s)
unfolding await_send_entry
await_send_entry-Calm now delay s shut = rw shut (Calm-refl s)

no_deadline-Calm : (s : Impl) → Calm s (record s { send_deadline = pos_infin })
unfolding is_open
no_deadline-Calm s = record {
  opening = refl;
  socket = refl;
  pending = refl;
  cancelled = refl;
  work_guard = refl;
  io_ctx = refl;
}

-- Actors that are started on a socket that is closed do nothing.
pub start_actors-Calm : (now : Millis) (s : Impl) → is_open s ≡ false → Calm s (start_actors now s)
unfolding start_actors
start_actors-Calm now s shut =
    let p = Calm-trans (await_send_entry-Calm now none s shut) (no_deadline-Calm _) in
    let q = Calm-trans p (check_deadline_of-Calm s.mode now _ (p.opening ∙ shut)) in
    Calm-trans q (async_receive-Calm _ (q.opening ∙ shut))
