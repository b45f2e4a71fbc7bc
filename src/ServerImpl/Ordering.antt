-- ===== src/ServerImpl/Ordering.antt =====
-- server_impl.hpp: the sender of a server_impl, which binds once.
use cpp_local_datagram.Base.{
  ℕ, ◌≡◌, refl, sym, ap, subst, ◌∙◌, inl, inr, ◌⊎◌, false, ◌||◌, List, [], ◌∷◌, arith, Bool-cases,
}
use cpp_local_datagram.Memcpy.{ByteOrder}
use cpp_local_datagram.SendEntry.{SendEntry}
use cpp_local_datagram.BaseImpl.State.{
  Impl, ErrorCode, is_error, Millis, Task, bind, close, check_socket, reset_check_client,
  reset_work_guard, BindArgs, is_open, init, post,
}
use cpp_local_datagram.BaseImpl.Socket.{terminate, async_close}
use cpp_local_datagram.BaseImpl.Send.Queued.{bindings, bindings-append, bindings-eq}
use cpp_local_datagram.BaseImpl.Session.{senders, Step}
use cpp_local_datagram.BaseImpl.Session.Sender.{IsSending, Quiet, Quiet-IsSending, has_close}
use cpp_local_datagram.BaseImpl.Session.Tasks.{post-Quiet}
use cpp_local_datagram.BaseImpl.Session.Steps.{Step-IsSending, taken_task-IsSending}
use cpp_local_datagram.BaseImpl.Session.Idle.{
  Idle, Quiet-Idle, Step-Idle, Step-bindings, is_opening,
}
use cpp_local_datagram.ServerImpl.{
  ServerImpl, make_server_impl, async_bind, on_base, run_bind, on_check_connected,
  on_check_connect_failed, run_reset_check_client, server_check_ticks,
}
use cpp_local_datagram.ServerImpl.Binding.{
  no_error, run_bind_failed, run_bind_failed-pending, run_bind-IsSending,
}
use cpp_local_datagram.ServerImpl.Session.{
  ImplStep, steps, binds, check_ticks, checks, check_connects, check_fails, resets_check,
  terminates, taken, run_bind-Balanced, check_server-base,
}

-- Either the closure of async_bind has run and the sender is in order, or it waits and nothing is sent.
abbrev pub InOrder : Impl → Type 0
InOrder s = (bindings s.io_ctx ≡ 0 × IsSending s) ⊎ (bindings s.io_ctx ≡ 1 × Idle s)

shut-IsSending : (s : Impl) → is_open s ≡ false → senders s.pending ≡ [] → IsSending s
shut-IsSending s c alone = record { at_most_one = inl alone; busy = λ o _. absurd (cc (o, c)) }

pub InOrder-IsSending : (s : Impl) → InOrder s → IsSending s
InOrder-IsSending s (inl (_, h)) = h
InOrder-IsSending s (inr (_, h)) = shut-IsSending s h.shut h.alone

pub Quiet-InOrder :
    {s t : Impl} → Quiet s t → bindings t.io_ctx ≡ bindings s.io_ctx → InOrder s → InOrder t
Quiet-InOrder q e (inl (n, h)) = inl (e ∙ n, Quiet-IsSending q h)
Quiet-InOrder q e (inr (n, h)) = inr (e ∙ n, Quiet-Idle q h)

pub post-InOrder : (t : Task) (s : Impl) → bindings (t ∷ []) ≡ 0 → InOrder s → InOrder (post t s)
unfolding post
post-InOrder t s none_bound h =
    Quiet-InOrder (post-Quiet t s) (omega (arith, bindings-append s.io_ctx (t ∷ []), none_bound)) h

taken-InOrder :
    (t : Task) (ts : List Task) (s : Impl)
    → bindings (t ∷ ts) ≡ bindings ts
    → has_close (t ∷ ts) ≡ has_close ts
    → s.io_ctx ≡ t ∷ ts
    → InOrder s
    → InOrder (record s { io_ctx = ts })
unfolding is_open
taken-InOrder t ts s same open_same e (inl (n, h)) =
    inl (sym same ∙ sym (ap bindings e) ∙ n, taken_task-IsSending t ts s open_same e h)
taken-InOrder t ts s same open_same e (inr (n, h)) =
    inr (sym same ∙ sym (ap bindings e) ∙ n, record { shut = h.shut; alone = h.alone })

Step-InOrder :
    (order : ByteOrder) {s t : Impl} (st : Step order s t)
    → is_opening st ≡ false
    → InOrder s
    → InOrder t
Step-InOrder order st e (inl (n, h)) = inl (Step-bindings order st ∙ n, Step-IsSending order st h)
Step-InOrder order st e (inr (n, h)) = inr (Step-bindings order st ∙ n, Step-Idle order st e h)

-- An attempt to bind, made while nothing is sent.
bound-IsSending :
    (now : Millis) (oe be : ErrorCode) (args : BindArgs) (k : ServerImpl)
    → senders k.base.pending ≡ []
    → IsSending (run_bind now oe be args k).base
bound-IsSending now oe be args k alone = elim (Bool-cases (is_error oe || is_error be)) [
  | inl failed ↦
      shut-IsSending _ (run_bind_failed now oe be args k failed).1
        (ap senders (run_bind_failed-pending now oe be args k failed) ∙ alone)
  | inr works ↦ let (h, g) = no_error oe be works in run_bind-IsSending now oe be args k h g alone
]

binds-InOrder :
    (now : Millis) (oe be : ErrorCode) (args : BindArgs) (ts : List Task) (k : ServerImpl)
    → k.base.io_ctx ≡ bind args ∷ ts
    → InOrder k.base
    → InOrder (run_bind now oe be args (taken ts k)).base
unfolding bindings
binds-InOrder now oe be args ts k e (inl (n, h)) = absurd (omega (arith, ap bindings e))
binds-InOrder now oe be args ts k e (inr (n, h)) =
    let m = run_bind now oe be args (taken ts k) in
    let kept =
      bindings-eq m.base.io_ctx ts (run_bind-Balanced now oe be args (taken ts k)).posted in
    inl (omega (arith, kept, ap bindings e), bound-IsSending now oe be args (taken ts k) h.alone)

-- Whatever happens to a server_impl, it stays in order.
pub ImplStep-InOrder :
    (order : ByteOrder) {k m : ServerImpl} → ImplStep order k m → InOrder k.base → InOrder m.base
unfolding server_check_ticks on_check_connected on_check_connect_failed run_reset_check_client
    on_base terminate async_close bindings has_close
ImplStep-InOrder order (steps st not_opening none_given) h = Step-InOrder order st not_opening h
ImplStep-InOrder order {k} (binds now oe be args ts e) h = binds-InOrder now oe be args ts k e h
ImplStep-InOrder order {k} (check_ticks t e) h =
    post-InOrder (check_socket t.captured) k.base refl h
ImplStep-InOrder order {k} (checks path ts e) h =
    subst InOrder (sym (check_server-base path (taken ts k)))
      (taken-InOrder (check_socket path) ts k.base refl refl e h)
ImplStep-InOrder order {k} check_connects h = post-InOrder reset_check_client k.base refl h
ImplStep-InOrder order {k} check_fails h = post-InOrder close k.base refl h
ImplStep-InOrder order {k} (resets_check ts e) h =
    taken-InOrder reset_check_client ts k.base refl refl e h
ImplStep-InOrder order {k} terminates h =
    post-InOrder reset_work_guard (post close k.base) refl (post-InOrder close k.base refl h)

-- A server_impl that has just been asked to bind has one bind waiting.
pub async_bind-InOrder :
    (args : BindArgs) (heap : ℕ → SendEntry) (address : ℕ) (is : List ℕ)
    → InOrder (async_bind args (make_server_impl heap address is)).base
unfolding async_bind make_server_impl init bindings senders is_open
async_bind-InOrder args heap address is = inr (refl, record { shut = refl; alone = refl })
