-- ===== src/Client/Lives/Conservation.antt =====
-- client.hpp: the accounts of the callbacks over all steps.
use cpp_local_datagram.Base.{ℕ, ◌+◌, ◌≡◌, refl, sym, ap, subst, Option, none, some, [], ◌++◌, arith}
use cpp_local_datagram.Endpoint.{FilePath}
use cpp_local_datagram.Memcpy.{ByteOrder}
use cpp_local_datagram.SendEntry.{of_vector, of_pointer, user_data}
use cpp_local_datagram.BaseImpl.State.{Millis, Signal, init}
use cpp_local_datagram.BaseImpl.Send.Queued.{count, count-append, Below, processed_of, pushing}
use cpp_local_datagram.BaseImpl.Send.Waiting.{waiting, called}
use cpp_local_datagram.BaseImpl.Session.Balances.{account}
use cpp_local_datagram.ClientImpl.{make_client_impl}
use cpp_local_datagram.ClientImpl.Session.{ImplStep-Advances}
use cpp_local_datagram.Books.Tasks
use cpp_local_datagram.Books.{gather, total, IsSound, Fair, Fair-trans, Fair-of_eq}
use cpp_local_datagram.Books.Moves.{works-Fair}
use cpp_local_datagram.Client.{
  Client, connect, stop, start_timer, call_processed, emit, make_client, set_server_check_interval,
  set_next_heartbeat_deadline, set_client_socket_check_interval, set_reconnect_interval,
  set_server_socket_file_path_resolver, async_start, async_stop, async_send_vector,
  async_send_pointer, run_start_timer, start_reconnect_timer, stop_timer_if_unset, close_impl,
  reconnect_timer_ticks, on_signal, on_connect_failed, on_closed,
}
use cpp_local_datagram.Client.Lives.{
  Life, new_life, taken, on_client, LifeStep, sets_check_interval, sets_heartbeat_deadline,
  sets_socket_check_interval, sets_reconnect_interval, sets_resolver, starts, stops, sends,
  sends_pointer, runs_connect, runs_stop, runs_start_timer, runs_send, runs_processed, runs_emit,
  ticks, works, passes_on, connect_fails, closes, Lives, here, next, asked, all_asked, callback_of,
  entry_of, books,
}
use cpp_local_datagram.Client.Lives.Accounts.{
  with_impl, added-Fair, taken-Fair, sends-Fair, runs_send-Fair, connected-Fair, closed-Fair,
  stopped-Fair,
}

start_reconnect_timer-Fair :
    (now : Millis) (interval : Option Millis) (l : Life)
    → let c = record l.client { reconnect_interval = interval } in
      Fair [] (books l) (books (record l { client = start_reconnect_timer now c }))
unfolding start_reconnect_timer
start_reconnect_timer-Fair now none l = Fair-of_eq refl
start_reconnect_timer-Fair now (some i) l =
    added-Fair (start_timer (now + i)) (on_client (λ c. record c { reconnect_interval = some i }) l)
      refl refl

stop_timer_if_unset-books :
    (interval : Option Millis) (l : Life)
    → let c = record l.client { reconnect_interval = interval } in
      books (record l { client = stop_timer_if_unset c }) ≡ books l
unfolding stop_timer_if_unset
stop_timer_if_unset-books none l = refl
stop_timer_if_unset-books (some i) l = refl

run_start_timer-books :
    (interval : Option Millis) (d : Client) (l : Life)
    → run_start_timer (record l.client { reconnect_interval = interval }) ≡ some d
    → books (record l { client = d }) ≡ books l
unfolding run_start_timer
run_start_timer-books none d l e = absurd (cc)
run_start_timer-books (some i) d l e =
    ap (λ o. books (record l { client = elim o as (λ _. Client) [ none ↦ l.client | some u ↦ u ] }))
      (sym e)

LifeStep-Fair :
    (order : ByteOrder) {l m : Life} (st : LifeStep order l m) → Fair (asked st) (books l) (books m)
unfolding set_server_check_interval set_next_heartbeat_deadline set_client_socket_check_interval
    set_reconnect_interval set_server_socket_file_path_resolver async_start async_stop
    async_send_vector async_send_pointer reconnect_timer_ticks on_signal on_connect_failed on_closed
LifeStep-Fair order {l} (sets_check_interval value) = Fair-of_eq refl
LifeStep-Fair order {l} (sets_heartbeat_deadline value) = Fair-of_eq refl
LifeStep-Fair order {l} (sets_socket_check_interval value) = Fair-of_eq refl
LifeStep-Fair order {l} (sets_reconnect_interval value) = Fair-of_eq refl
LifeStep-Fair order {l} (sets_resolver value) = Fair-of_eq refl
LifeStep-Fair order {l} starts = added-Fair connect l refl refl
LifeStep-Fair order {l} stops = added-Fair stop l refl refl
LifeStep-Fair order {l} (sends v p) =
    sends-Fair (of_vector user_data v none p) l.client.client_impl l
LifeStep-Fair order {l} (sends_pointer v len p) =
    sends-Fair (of_pointer user_data v len none p) l.client.client_impl l
LifeStep-Fair order {l} (runs_connect before after e) =
    let rest = on_client (taken (before ++ after)) l in
    Fair-trans [] (books l) (books rest) _ (taken-Fair before after connect l e refl refl)
      (connected-Fair l.client.client_impl rest)
LifeStep-Fair order {l} (runs_stop before after e joined) =
    let rest = on_client (taken (before ++ after)) l in
    Fair-trans [] (books l) (books rest) _ (taken-Fair before after stop l e refl refl)
      (stopped-Fair l.client.client_impl rest joined)
LifeStep-Fair order {l} (runs_start_timer d time before after e g) =
    let rest = on_client (taken (before ++ after)) l in
    Fair-trans [] (books l) (books rest) _
      (taken-Fair before after (start_timer time) l e refl refl)
      (Fair-of_eq (run_start_timer-books rest.client.reconnect_interval d rest g))
LifeStep-Fair order {l} (runs_send i before after e) =
    runs_send-Fair order i before after l.client.client_impl l e
LifeStep-Fair order {l} (runs_processed f before after e) =
    Tasks.processed-Fair callback_of entry_of f before after (call_processed f) l.client.tasks
      (books l) e refl refl
LifeStep-Fair order {l} (runs_emit x before after e) =
    taken-Fair before after (emit x) l e refl refl
LifeStep-Fair order {l} (ticks interval e) =
    let stopped = on_client stop_timer_if_unset l in
    Fair-trans [] (books l) (books stopped) _
      (Fair-of_eq (stop_timer_if_unset-books l.client.reconnect_interval l))
      (connected-Fair stopped.client.client_impl stopped)
LifeStep-Fair order {l} (works k m e st) =
    subst (λ i. Fair [] (books (with_impl i l)) (books (with_impl (some m) l))) (sym e)
      (works-Fair k.base m.base (books (with_impl (some k) l)) (ImplStep-Advances order st))
LifeStep-Fair order {l} (passes_on x) = added-Fair (emit x) l refl refl
LifeStep-Fair order {l} (connect_fails now c) =
    let told = on_client (on_signal (Signal.connect_failed c)) l in
    let shut = on_client close_impl told in
    Fair-trans [] (books l) (books told) _ (added-Fair (emit (Signal.connect_failed c)) l refl refl)
      (Fair-trans [] (books told) (books shut) _ (closed-Fair told.client.client_impl told)
        (start_reconnect_timer-Fair now shut.client.reconnect_interval shut))
LifeStep-Fair order {l} (closes now) =
    let told = on_client (on_signal Signal.closed) l in
    Fair-trans [] (books l) (books told) _ (added-Fair (emit Signal.closed) l refl refl)
      (start_reconnect_timer-Fair now told.client.reconnect_interval told)

Lives-Fair :
    (order : ByteOrder) {l m : Life} (r : Lives order l m) → Fair (all_asked r) (books l) (books m)
unfolding all_asked count
Lives-Fair order here sound = (sound, λ f. omega arith)
Lives-Fair order (next r st) sound =
    let (middle, e) = Lives-Fair order r sound in
    let (end, g) = LifeStep-Fair order st middle in
    (end, λ f. omega (arith, e f, g f, count-append f (all_asked r) (asked st)))

new_life-IsSound :
    (server_path : FilePath) (client_path : Option FilePath) (buffer_size : ℕ)
    → IsSound (books (new_life server_path client_path buffer_size))
unfolding make_client Below gather make_client_impl init pushing
new_life-IsSound server_path client_path buffer_size = record { queue = tt; pushed = tt; sent = tt }

-- Over the whole life of a client, through any order of setting its intervals, connecting, sending, failing, closing,
-- connecting again and stopping, heartbeats included: each callback has, as often as it was given to
-- async_send, been called or handed to the dispatcher, or it waits with its entry, in the queue of the
-- client or in a closure that has yet to run. So none is lost before it reaches the dispatcher, and none
-- reaches it twice.
pub total-books :
    (order : ByteOrder) (server_path : FilePath) (client_path : Option FilePath) (buffer_size f : ℕ)
    (l : Life) (r : Lives order (new_life server_path client_path buffer_size) l)
    → total f (books l) ≡ count f (all_asked r)
unfolding total make_client gather waiting count make_client_impl init account pushing processed_of
    called
total-books order server_path client_path buffer_size f l r =
    omega (arith, (Lives-Fair order r (new_life-IsSound server_path client_path buffer_size)).1 f)
