-- ===== src/Client/Stopping.antt =====
-- client.hpp: failing, connecting again and stopping.
use mathlib.Core.List.{append_assoc}
use cpp_local_datagram.Base.{ℕ, ◌+◌, ◌≡◌, refl, Option, none, some, List, [], ◌∷◌, ◌++◌, arith}
use mathlib.Core.Option
use cpp_local_datagram.SendEntry.{Processed}
use cpp_local_datagram.BaseImpl.State.{ErrorCode, Millis, Signal, close, connect}
use cpp_local_datagram.ClientImpl.{ClientImpl}
use cpp_local_datagram.Client.{
  Client, start_timer, emit, connect_args, run_connect, run_stop, run_start_timer,
  reconnect_timer_ticks, on_signal, on_connect_failed, on_closed, async_send_vector, run_send,
}

-- What may happen to a client in the dispatcher thread.
pub data ClientEvent : Type 0 where
  connects stops starts_timer ticks : ClientEvent
  signals : Signal → ClientEvent
  fails : Millis → ErrorCode → ClientEvent
  closes : Millis → ClientEvent
  calls_send : List ℕ → Processed → ClientEvent
  sends : ℕ → ClientEvent

step : ClientEvent → Client → Option Client
step connects c = some (run_connect c)
step stops c = some (run_stop c)
step starts_timer c = run_start_timer c
step ticks c = some (reconnect_timer_ticks c)
step (signals x) c = some (on_signal x c)
step (fails now e) c = some (on_connect_failed now e c)
step (closes now) c = some (on_closed now c)
step (calls_send v p) c = some (async_send_vector v p c)
step (sends i) c = some (run_send i c)

step_or_stay : Option Client → (Client → Option Client) → Option Client
step_or_stay none f = none
step_or_stay (some c) f = f c

-- A run ends with `none` where the code reads an empty optional.
unfoldable pub run_events : List ClientEvent → Client → Option Client
unfolding step step_or_stay
run_events [] c = some c
run_events (e ∷ es) c = step_or_stay (step e c) (run_events es)

step-none :
    (e : ClientEvent) (c d : Client)
    → c.client_impl ≡ none
    → step e c ≡ some d
    → d.client_impl ≡ none
unfolding step run_connect run_stop run_start_timer reconnect_timer_ticks on_signal
    on_connect_failed on_closed async_send_vector run_send
step-none connects c d h e = ground arith
step-none stops c d h e = ground arith
step-none starts_timer c d h e = ground arith
step-none ticks c d h e = ground arith
step-none (signals x) c d h e = ground arith
step-none (fails now x) c d h e = ground arith
step-none (closes now) c d h e = ground arith
step-none (calls_send v p) c d h e = ground arith
step-none (sends i) c d h e = ground arith

run_events-none :
    (es : List ClientEvent) (c d : Client)
    → c.client_impl ≡ none
    → run_events es c ≡ some d
    → d.client_impl ≡ none
unfolding run_events
run_events-none [] c d h e = ground arith
run_events-none (x ∷ es) c d h e = after (step x c) refl e (λ b. run_events-none es b d)
  where
    after :
        (r : Option Client)
        → step x c ≡ r
        → step_or_stay r (run_events es) ≡ some d
        → ((b : Client) → b.client_impl ≡ none → run_events es b ≡ some d → d.client_impl ≡ none)
        → d.client_impl ≡ none
    after none p q rec = cc
    after (some b) p q rec = rec b (step-none x c b h p) q

-- A client that has been stopped never has a client_impl again, whatever starts, stops, ticks of the
-- timer, signals, failures, closes and sends follow.
run_stop-stays :
    (es : List ClientEvent) (c d : Client)
    → run_events es (run_stop c) ≡ some d
    → d.client_impl ≡ none
unfolding run_stop
run_stop-stays es c d e = run_events-none es (run_stop c) d (ground arith) e

-- When a client with a reconnect interval fails to connect, its socket is to be closed, the timer is to
-- start once the interval has passed, and the timer makes the same client_impl connect again, after
-- the close. The same client without an interval stops the timer and does not start it.
pub on_connect_failed_reconnects :
    (now : Millis) (e : ErrorCode) (interval : Millis) (k : ClientImpl) (c : Client)
    → c.client_impl ≡ some k
    → c.reconnect_interval ≡ some interval
    → let t = on_connect_failed now e c in
      let u = reconnect_timer_ticks (record t { reconnect_timer = some interval }) in
      (t.tasks ≡ c.tasks ++ emit (Signal.connect_failed e) ∷ start_timer (now + interval) ∷ [])
      × (run_start_timer t ≡ some (record t { reconnect_timer = some interval }))
      × (Option.map (λ m. m.base.io_ctx) u.client_impl
          ≡ some (k.base.io_ctx ++ close ∷ connect (connect_args c) ∷ []))
      × ((on_connect_failed now e (record c { reconnect_interval = none })).reconnect_timer ≡ none)
      × ((on_connect_failed now e (record c { reconnect_interval = none })).tasks
          ≡ c.tasks ++ emit (Signal.connect_failed e) ∷ [])
unfolding on_connect_failed run_start_timer reconnect_timer_ticks
on_connect_failed_reconnects now e interval k c h r = ground (
  arith,
  append_assoc c.tasks (emit (Signal.connect_failed e) ∷ []) (start_timer (now + interval) ∷ []),
  append_assoc k.base.io_ctx (close ∷ []) (connect (connect_args c) ∷ []),
)

-- A closure that waits to start the timer reads the interval that stopping has reset.
pub run_stop-run_start_timer : (c : Client) → run_start_timer (run_stop c) ≡ none
unfolding run_stop run_start_timer
run_stop-run_start_timer c = ground arith
