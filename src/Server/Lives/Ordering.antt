-- ===== src/Server/Lives/Ordering.antt =====
-- server.hpp: the senders of the server_impls over all steps of a server.
use cpp_local_datagram.Base.{ℕ, ◌+◌, ◌≡◌, refl, sym, ◌∙◌, subst, Option, none, some, ◌++◌, arith}
use cpp_local_datagram.Endpoint.{FilePath}
use cpp_local_datagram.Memcpy.{ByteOrder}
use cpp_local_datagram.SendEntry.{SendEntry, Processed, of_vector, of_pointer, user_data}
use cpp_local_datagram.BaseImpl.State.{Impl, Millis, Signal, push_entry, is_open, update}
use cpp_local_datagram.BaseImpl.Session.Sender.{IsSending}
use cpp_local_datagram.BaseImpl.Send.Queued.{bindings}
use cpp_local_datagram.BaseImpl.Session.Tasks.{same-Quiet}
use cpp_local_datagram.ServerImpl.{ServerImpl, on_base}
use cpp_local_datagram.ServerImpl.Ordering.{
  InOrder, InOrder-IsSending, Quiet-InOrder, post-InOrder, ImplStep-InOrder, async_bind-InOrder,
}
use cpp_local_datagram.Server.{
  Server, make_server, set_server_check_interval, set_reconnect_interval, async_start, async_stop,
  async_send_vector, async_send_pointer, run_bind, run_close, run_stop, run_send, run_start_timer,
  start_reconnect_timer, stop_timer_if_unset, reconnect_timer_ticks, on_signal, on_bind_failed,
  on_closed, enqueue_send, call_back,
}
use cpp_local_datagram.Server.Lives.{
  Life, new_life, LifeStep, sets_check_interval, sets_reconnect_interval, starts, stops, sends,
  sends_pointer, runs_bind, runs_stop, runs_start_timer, runs_send, runs_processed, runs_emit,
  ticks, works, passes_on, bind_fails, closes, Lives, here, next, taken,
}

-- The server_impl, if there is one, is in order.
abbrev IsOrdered : Option ServerImpl → Type 0
IsOrdered none = Unit {0}
IsOrdered (some k) = InOrder k.base

-- The entry is put into the heap.
allocated-InOrder :
    (heap : ℕ → SendEntry) (address : ℕ) (s : Impl)
    → InOrder s
    → InOrder (record s { heap = heap; next_address = address })
unfolding is_open
allocated-InOrder heap address s h =
    Quiet-InOrder {t = record s { heap = heap; next_address = address }}
      (same-Quiet refl refl refl refl refl) refl h

enqueue_send-IsOrdered :
    (e : SendEntry) (m : Option ServerImpl) (s : Server)
    → IsOrdered m
    → IsOrdered (enqueue_send e (record s { server_impl = m })).server_impl
unfolding enqueue_send on_base is_open
enqueue_send-IsOrdered e none s h = tt
enqueue_send-IsOrdered e (some k) s h =
    allocated-InOrder (update k.base.heap k.base.next_address e) (k.base.next_address + 1) k.base h

run_bind-IsOrdered :
    (m : Option ServerImpl) (s : Server)
    → IsOrdered m
    → IsOrdered (run_bind (record s { server_impl = m })).server_impl
unfolding run_bind
run_bind-IsOrdered none s h = async_bind-InOrder _ s.heap s.next_address s.server_send_entries
run_bind-IsOrdered (some k) s h = h

run_close_removes :
    (m : Option ServerImpl) (s : Server)
    → (run_close (record s { server_impl = m })).server_impl ≡ none
unfolding run_close
run_close_removes none s = refl
run_close_removes (some k) s = refl

start_reconnect_timer-server_impl :
    (now : Millis) (s : Server) → (start_reconnect_timer now s).server_impl ≡ s.server_impl
unfolding start_reconnect_timer
start_reconnect_timer-server_impl now s = ground arith

stop_timer_if_unset-server_impl : (s : Server) → (stop_timer_if_unset s).server_impl ≡ s.server_impl
unfolding stop_timer_if_unset
stop_timer_if_unset-server_impl s = ground arith

run_start_timer-server_impl :
    (s t : Server) → run_start_timer s ≡ some t → t.server_impl ≡ s.server_impl
unfolding run_start_timer
run_start_timer-server_impl s t e = ground arith

call_back-server_impl : (p : Processed) (s : Server) → (call_back p s).server_impl ≡ s.server_impl
unfolding call_back
call_back-server_impl none s = refl
call_back-server_impl (some f) s = refl

run_send-IsOrdered :
    (i : ℕ) (m : Option ServerImpl) (s : Server)
    → IsOrdered m
    → IsOrdered (run_send i (record s { server_impl = m })).server_impl
unfolding run_send bindings
run_send-IsOrdered i none s h =
    subst IsOrdered
      (sym (call_back-server_impl (s.heap i).processed (record s { server_impl = none }))) tt
run_send-IsOrdered i (some k) s h = post-InOrder (push_entry i) k.base refl h

-- The end of a server_impl.
ended-IsOrdered :
    (now : Millis) (s : Server) → IsOrdered (start_reconnect_timer now (run_close s)).server_impl
ended-IsOrdered now s =
    subst IsOrdered
      (sym
        (start_reconnect_timer-server_impl now (run_close s) ∙ run_close_removes s.server_impl s))
      tt

LifeStep-IsOrdered :
    (order : ByteOrder) {l m : Life}
    → LifeStep order l m
    → IsOrdered l.server.server_impl
    → IsOrdered m.server.server_impl
unfolding set_server_check_interval set_reconnect_interval async_start async_stop async_send_vector
    async_send_pointer run_stop reconnect_timer_ticks on_signal on_bind_failed on_closed
LifeStep-IsOrdered order (sets_check_interval value) h = h
LifeStep-IsOrdered order (sets_reconnect_interval value) h = h
LifeStep-IsOrdered order starts h = h
LifeStep-IsOrdered order stops h = h
LifeStep-IsOrdered order {l} (sends v destination p) h =
    enqueue_send-IsOrdered (of_vector user_data v (some destination) p) l.server.server_impl
      l.server h
LifeStep-IsOrdered order {l} (sends_pointer v len destination p) h =
    enqueue_send-IsOrdered (of_pointer user_data v len (some destination) p) l.server.server_impl
      l.server h
LifeStep-IsOrdered order {l} (runs_bind before after e) h =
    run_bind-IsOrdered l.server.server_impl (taken (before ++ after) l.server) h
LifeStep-IsOrdered order {l} (runs_stop before after e joined) h =
    subst IsOrdered
      (sym (
        run_close_removes l.server.server_impl
          (taken (before ++ after) (record l.server { reconnect_interval = none }))))
      tt
LifeStep-IsOrdered order (runs_start_timer t time before after e g) h =
    subst IsOrdered (sym (run_start_timer-server_impl _ t g)) h
LifeStep-IsOrdered order {l} (runs_send i before after e) h =
    run_send-IsOrdered i l.server.server_impl (taken (before ++ after) l.server) h
LifeStep-IsOrdered order (runs_processed f before after e) h = h
LifeStep-IsOrdered order (runs_emit x before after e) h = h
LifeStep-IsOrdered order {l} (ticks interval e) h =
    let s = stop_timer_if_unset l.server in
    run_bind-IsOrdered s.server_impl s
      (subst IsOrdered (sym (stop_timer_if_unset-server_impl l.server)) h)
LifeStep-IsOrdered order (works k m e st) h = ImplStep-InOrder order st (subst IsOrdered e h)
LifeStep-IsOrdered order (passes_on x) h = h
LifeStep-IsOrdered order {l} (bind_fails now c joined) h =
    ended-IsOrdered now (on_signal (Signal.bind_failed c) l.server)
LifeStep-IsOrdered order {l} (closes now joined) h =
    ended-IsOrdered now (on_signal Signal.closed l.server)

Lives-IsOrdered :
    (order : ByteOrder) {l m : Life}
    → Lives order l m
    → IsOrdered l.server.server_impl
    → IsOrdered m.server.server_impl
Lives-IsOrdered order here h = h
Lives-IsOrdered order (next r st) h = LifeStep-IsOrdered order st (Lives-IsOrdered order r h)

-- Over the whole life of a server, through any order of setting its intervals, binding, sending,
-- failing, closing, binding again when the reconnect timer ticks and stopping, the sender of its server_impl is in order: at most one operation of the sender is
-- pending, a pending send is that of the front entry of the queue, the wait for the next entry is
-- without end only while the queue is empty, and while the socket is open one operation is pending,
-- unless a close has been posted.
pub Lives-IsSending :
    (order : ByteOrder) (path : FilePath) (buffer_size : ℕ) (l : Life) (k : ServerImpl)
    → Lives order (new_life path buffer_size) l
    → l.server.server_impl ≡ some k
    → IsSending k.base
unfolding make_server
Lives-IsSending order path buffer_size l k r e =
    InOrder-IsSending k.base (subst IsOrdered e (Lives-IsOrdered order r tt))
