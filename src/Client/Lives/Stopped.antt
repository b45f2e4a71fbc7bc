-- ===== src/Client/Lives/Stopped.antt =====
-- client.hpp: what can still happen once a client has stopped.
use cpp_local_datagram.Base.{ℕ, ◌≡◌, none, some, ◌++◌, arith}
use cpp_local_datagram.Memcpy.{ByteOrder}
use cpp_local_datagram.SendEntry.{SendEntry, of_vector, of_pointer, user_data}
use cpp_local_datagram.BaseImpl.State.{Millis, ErrorCode}
use cpp_local_datagram.Client.{
  Client, set_server_check_interval, set_next_heartbeat_deadline, set_client_socket_check_interval,
  set_reconnect_interval, set_server_socket_file_path_resolver, async_start, async_stop,
  async_send_vector, async_send_pointer, enqueue_send, run_send, run_connect, run_close, run_stop,
  run_start_timer, start_reconnect_timer, stop_timer_if_unset, close_impl, reconnect_timer_ticks,
  on_signal, on_connect_failed, on_closed,
}
use cpp_local_datagram.Client.Lives.{
  Life, taken, on_client, left_by, LifeStep, sets_check_interval, sets_heartbeat_deadline,
  sets_socket_check_interval, sets_reconnect_interval, sets_resolver, starts, stops, sends,
  sends_pointer, runs_connect, runs_stop, runs_start_timer, runs_send, runs_processed, runs_emit,
  ticks, works, passes_on, connect_fails, closes, Lives, here, next,
}

-- There is no client_impl.
abbrev IsStopped : Life → Type 0
IsStopped l = l.client.client_impl ≡ none

-- Each operation of the client keeps the lack of a client_impl.
enqueue_send_stopped :
    (e : SendEntry) (c : Client) → c.client_impl ≡ none → (enqueue_send e c).client_impl ≡ none
unfolding enqueue_send
enqueue_send_stopped e c h = ground arith

run_send_stopped : (i : ℕ) (c : Client) → c.client_impl ≡ none → (run_send i c).client_impl ≡ none
unfolding run_send
run_send_stopped i c h = ground arith

run_connect_stopped : (c : Client) → c.client_impl ≡ none → (run_connect c).client_impl ≡ none
unfolding run_connect
run_connect_stopped c h = ground arith

run_start_timer_stopped :
    (c d : Client) → run_start_timer c ≡ some d → c.client_impl ≡ none → d.client_impl ≡ none
unfolding run_start_timer
run_start_timer_stopped c d e h = ground arith

ticks_stopped : (c : Client) → c.client_impl ≡ none → (reconnect_timer_ticks c).client_impl ≡ none
unfolding reconnect_timer_ticks stop_timer_if_unset run_connect
ticks_stopped c h = ground arith

on_connect_failed_stopped :
    (now : Millis) (x : ErrorCode) (c : Client)
    → c.client_impl ≡ none
    → (on_connect_failed now x c).client_impl ≡ none
unfolding on_connect_failed on_signal close_impl start_reconnect_timer
on_connect_failed_stopped now x c h = ground arith

on_closed_stopped :
    (now : Millis) (c : Client) → c.client_impl ≡ none → (on_closed now c).client_impl ≡ none
unfolding on_closed on_signal start_reconnect_timer
on_closed_stopped now c h = ground arith

-- A stop destroys the client_impl, if there is one.
run_stop-IsStopped : (c : Client) → (run_stop c).client_impl ≡ none
unfolding run_stop run_close
run_stop-IsStopped c = ground arith

LifeStep-IsStopped :
    (order : ByteOrder) {l m : Life} → LifeStep order l m → IsStopped l → IsStopped m
unfolding set_server_check_interval set_next_heartbeat_deadline set_client_socket_check_interval
    set_reconnect_interval set_server_socket_file_path_resolver async_start async_stop
    async_send_vector async_send_pointer on_signal
LifeStep-IsStopped order (sets_check_interval value) h = h
LifeStep-IsStopped order (sets_heartbeat_deadline value) h = h
LifeStep-IsStopped order (sets_socket_check_interval value) h = h
LifeStep-IsStopped order (sets_reconnect_interval value) h = h
LifeStep-IsStopped order (sets_resolver value) h = h
LifeStep-IsStopped order starts h = h
LifeStep-IsStopped order stops h = h
LifeStep-IsStopped order {l} (sends v p) h =
    enqueue_send_stopped (of_vector user_data v none p) l.client h
LifeStep-IsStopped order {l} (sends_pointer v len p) h =
    enqueue_send_stopped (of_pointer user_data v len none p) l.client h
LifeStep-IsStopped order {l} (runs_connect before after e) h =
    run_connect_stopped (taken (before ++ after) l.client) h
LifeStep-IsStopped order {l} (runs_stop before after e joined) h =
    run_stop-IsStopped (left_by l.client.client_impl (on_client (taken (before ++ after)) l)).client
LifeStep-IsStopped order {l} (runs_start_timer d time before after e g) h =
    run_start_timer_stopped (taken (before ++ after) l.client) d g h
LifeStep-IsStopped order {l} (runs_send i before after e) h =
    run_send_stopped i (taken (before ++ after) l.client) h
LifeStep-IsStopped order (runs_processed f before after e) h = h
LifeStep-IsStopped order (runs_emit x before after e) h = h
LifeStep-IsStopped order {l} (ticks interval e) h = ticks_stopped l.client h
LifeStep-IsStopped order (works k m e st) h = absurd (cc (e, h))
LifeStep-IsStopped order (passes_on x) h = h
LifeStep-IsStopped order {l} (connect_fails now c) h = on_connect_failed_stopped now c l.client h
LifeStep-IsStopped order {l} (closes now) h = on_closed_stopped now l.client h

Lives-IsStopped : (order : ByteOrder) (l m : Life) → Lives order l m → IsStopped l → IsStopped m
Lives-IsStopped order l m here h = h
Lives-IsStopped order l m (next r st) h =
    LifeStep-IsStopped order st (Lives-IsStopped order l _ r h)

-- When a client has run its stop, whatever it was before, it never has a client_impl again: whatever
-- starts, stops, settings, sends, ticks of the timer, signals and closures follow, none connects.
pub Lives-stopped :
    (order : ByteOrder) (l m : Life)
    → Lives order (on_client run_stop (left_by l.client.client_impl l)) m
    → m.client.client_impl ≡ none
Lives-stopped order l m r =
    Lives-IsStopped order (on_client run_stop (left_by l.client.client_impl l)) m r
      (run_stop-IsStopped (left_by l.client.client_impl l).client)
