-- ===== src/Server/Lives/Conservation.antt =====
-- server.hpp: the accounts of the callbacks over all steps.
use cpp_local_datagram.Base.{ℕ, ◌+◌, ◌≡◌, refl, sym, ap, subst, Option, none, some, [], ◌++◌, arith}
use cpp_local_datagram.Endpoint.{FilePath}
use cpp_local_datagram.Memcpy.{ByteOrder}
use cpp_local_datagram.SendEntry.{of_vector, of_pointer, user_data}
use cpp_local_datagram.BaseImpl.State.{Millis, Signal}
use cpp_local_datagram.BaseImpl.Send.Queued.{count, count-append, Below}
use cpp_local_datagram.BaseImpl.Send.Waiting.{waiting}
use cpp_local_datagram.BaseImpl.Session.Advances.{Settled-Advances}
use cpp_local_datagram.ServerImpl.Session.{ImplStep-Settled}
use cpp_local_datagram.Books.{gather, total, IsSound, Fair, Fair-trans, Fair-of_eq}
use cpp_local_datagram.Books.Tasks
use cpp_local_datagram.Books.Moves.{works-Fair}
use cpp_local_datagram.Server.{
  Server, bind, stop, start_timer, call_processed, emit, make_server, set_server_check_interval,
  set_reconnect_interval, async_start, async_stop, async_send_vector, async_send_pointer, run_close,
  run_stop, run_start_timer, start_reconnect_timer, stop_timer_if_unset, reconnect_timer_ticks,
  on_signal, on_bind_failed, on_closed,
}
use cpp_local_datagram.Server.Lives.{
  Life, new_life, taken, IsJoined, ending, LifeStep, sets_check_interval, sets_reconnect_interval,
  starts, stops, sends, sends_pointer, runs_bind, runs_stop, runs_start_timer, runs_send,
  runs_processed, runs_emit, ticks, works, passes_on, bind_fails, closes, Lives, here, next, asked,
  all_asked, callback_of, entry_of, books,
}
use cpp_local_datagram.Server.Lives.Accounts.{
  on_server, with_impl, added-Fair, taken-Fair, sends-Fair, runs_send-Fair, bound-Fair, ended-Fair,
}

start_reconnect_timer-Fair :
    (now : Millis) (interval : Option Millis) (l : Life)
    → let s = record l.server { reconnect_interval = interval } in
      Fair [] (books l) (books (record l { server = start_reconnect_timer now s }))
unfolding start_reconnect_timer
start_reconnect_timer-Fair now none l = Fair-of_eq refl
start_reconnect_timer-Fair now (some i) l =
    added-Fair (start_timer (now + i)) (on_server (λ s. record s { reconnect_interval = some i }) l)
      refl refl

stop_timer_if_unset-books :
    (interval : Option Millis) (l : Life)
    → let s = record l.server { reconnect_interval = interval } in
      books (record l { server = stop_timer_if_unset s }) ≡ books l
unfolding stop_timer_if_unset
stop_timer_if_unset-books none l = refl
stop_timer_if_unset-books (some i) l = refl

run_start_timer-books :
    (interval : Option Millis) (t : Server) (l : Life)
    → run_start_timer (record l.server { reconnect_interval = interval }) ≡ some t
    → books (record l { server = t }) ≡ books l
unfolding run_start_timer
run_start_timer-books none t l e = absurd (cc)
run_start_timer-books (some i) t l e =
    ap (λ o. books (record l { server = elim o as (λ _. Server) [ none ↦ l.server | some u ↦ u ] }))
      (sym e)

-- A signal is passed on, the server_impl ends, and the timer is to start.
restarts-Fair :
    (now : Millis) (x : Signal) (l : Life)
    → IsJoined l.server.server_impl
    → Fair []
        (books l)
        (books (ending (λ s. start_reconnect_timer now (run_close (on_signal x s))) l))
unfolding on_signal
restarts-Fair now x l joined =
    let told = on_server (on_signal x) l in
    let ended = ending run_close told in
    Fair-trans [] (books l) (books told) _ (added-Fair (emit x) l refl refl) (
      Fair-trans [] (books told) (books ended) _ (ended-Fair l.server.server_impl told joined)
        (start_reconnect_timer-Fair now ended.server.reconnect_interval ended))

LifeStep-Fair :
    (order : ByteOrder) {l m : Life} (st : LifeStep order l m) → Fair (asked st) (books l) (books m)
unfolding set_server_check_interval set_reconnect_interval async_start async_stop async_send_vector
    async_send_pointer run_stop reconnect_timer_ticks on_signal on_bind_failed on_closed
LifeStep-Fair order {l} (sets_check_interval value) = Fair-of_eq refl
LifeStep-Fair order {l} (sets_reconnect_interval value) = Fair-of_eq refl
LifeStep-Fair order {l} starts = added-Fair bind l refl refl
LifeStep-Fair order {l} stops = added-Fair stop l refl refl
LifeStep-Fair order {l} (sends v destination p) =
    sends-Fair (of_vector user_data v (some destination) p) l.server.server_impl l
LifeStep-Fair order {l} (sends_pointer v len destination p) =
    sends-Fair (of_pointer user_data v len (some destination) p) l.server.server_impl l
LifeStep-Fair order {l} (runs_bind before after e) =
    let rest = on_server (taken (before ++ after)) l in
    Fair-trans [] (books l) (books rest) _ (taken-Fair before after bind l e refl refl)
      (bound-Fair l.server.server_impl rest)
LifeStep-Fair order {l} (runs_stop before after e joined) =
    let rest = on_server (λ s. record s { tasks = before ++ after; reconnect_interval = none }) l in
    Fair-trans [] (books l) (books rest) _ (taken-Fair before after stop l e refl refl)
      (ended-Fair l.server.server_impl rest joined)
LifeStep-Fair order {l} (runs_start_timer t time before after e g) =
    let rest = on_server (taken (before ++ after)) l in
    Fair-trans [] (books l) (books rest) _
      (taken-Fair before after (start_timer time) l e refl refl)
      (Fair-of_eq (run_start_timer-books rest.server.reconnect_interval t rest g))
LifeStep-Fair order {l} (runs_send i before after e) =
    runs_send-Fair order i before after l.server.server_impl l e
LifeStep-Fair order {l} (runs_processed f before after e) =
    Tasks.processed-Fair callback_of entry_of f before after (call_processed f) l.server.tasks
      (books l) e refl refl
LifeStep-Fair order {l} (runs_emit x before after e) =
    taken-Fair before after (emit x) l e refl refl
LifeStep-Fair order {l} (ticks interval e) =
    let stopped = on_server stop_timer_if_unset l in
    Fair-trans [] (books l) (books stopped) _
      (Fair-of_eq (stop_timer_if_unset-books l.server.reconnect_interval l))
      (bound-Fair stopped.server.server_impl stopped)
LifeStep-Fair order {l} (works k m e st) =
    subst (λ i. Fair [] (books (with_impl i l)) (books (with_impl (some m) l))) (sym e)
      (works-Fair k.base m.base (books (with_impl (some k) l))
        (Settled-Advances (ImplStep-Settled order st)))
LifeStep-Fair order {l} (passes_on x) = added-Fair (emit x) l refl refl
LifeStep-Fair order {l} (bind_fails now c joined) =
    restarts-Fair now (Signal.bind_failed c) l joined
LifeStep-Fair order {l} (closes now joined) = restarts-Fair now Signal.closed l joined

Lives-Fair :
    (order : ByteOrder) {l m : Life} (r : Lives order l m) → Fair (all_asked r) (books l) (books m)
unfolding all_asked count
Lives-Fair order here sound = (sound, λ f. omega arith)
Lives-Fair order (next r st) sound =
    let (middle, e) = Lives-Fair order r sound in
    let (end, g) = LifeStep-Fair order st middle in
    (end, λ f. omega (arith, e f, g f, count-append f (all_asked r) (asked st)))

new_life-IsSound : (path : FilePath) (buffer_size : ℕ) → IsSound (books (new_life path buffer_size))
unfolding make_server Below gather
new_life-IsSound path buffer_size = record { queue = tt; pushed = tt; sent = tt }

-- Over the whole life of a server, through any order of setting its intervals, binding, sending, failing, closing, binding
-- again when the reconnect timer ticks and stopping: each callback has, as often as it was given to async_send, been called or handed
-- to the dispatcher, or it waits with its entry, in the queue that one server_impl leaves to the next
-- or in a closure that has yet to run. So none is lost before it reaches the dispatcher, and none
-- reaches it twice.
pub Lives-total :
    (order : ByteOrder) (path : FilePath) (buffer_size f : ℕ) (l : Life)
    (r : Lives order (new_life path buffer_size) l)
    → total f (books l) ≡ count f (all_asked r)
unfolding total make_server gather waiting count
Lives-total order path buffer_size f l r =
    omega (arith, (Lives-Fair order r (new_life-IsSound path buffer_size)).1 f)
