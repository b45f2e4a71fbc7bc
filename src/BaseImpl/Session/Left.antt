-- ===== src/BaseImpl/Session/Left.antt =====
-- base_impl.hpp: what is left for the thread of `io_ctx_` once an object is closed.
use cpp_local_datagram.Base.{
  ℕ, ◌+◌, ◌*◌, ◌≡◌, refl, ◌⊎◌, Bool, true, false, ◌&&◌, none, List, [], ◌∷◌, ◌++◌, length,
}
use cpp_local_datagram.BaseImpl.State.{
  Impl, Mode, server, client, Task, bind, connect, send_heartbeat, close, reset_work_guard, Op,
  connect_to, is_open, Cancelled, wait_send_invoker, wait_send_deadline,
}

abbrev pub is_client : Mode → Bool
is_client server = false
is_client client = true

-- Closures that open no socket, those of the mode.
unfoldable pub ends : Mode → List Task → Bool
ends m [] = true
ends m (bind args ∷ ts) = false
ends m (connect args ∷ ts) = false
ends m (send_heartbeat deadline ∷ ts) = is_client m && ends m ts
ends m (_ ∷ ts) = ends m ts

unfoldable pub has_reset : List Task → Bool
has_reset [] = false
has_reset (reset_work_guard ∷ ts) = true
has_reset (_ ∷ ts) = has_reset ts

-- Operations of the mode: a server makes no connection.
unfoldable pub serves : Mode → List Op → Bool
serves m [] = true
serves m (connect_to args ∷ os) = is_client m && serves m os
serves m (_ ∷ os) = serves m os

-- How much the thread has to do at most: the handler of an operation may post a close.
unfoldable pub work : Impl → ℕ
work s = 2 * length s.pending + length s.io_ctx

-- Whether asio has been told to abort the operations: those on the socket by its close, the waits by the
-- cancel of their timers.
abbrev pub is_aborted : Cancelled → Op → Bool
is_aborted c wait_send_invoker = c.of_send_invoker
is_aborted c wait_send_deadline = c.of_send_deadline
is_aborted c _ = c.of_socket

pub &&-left : (a b : Bool) → a && b ≡ true → a ≡ true
&&-left true b h = refl
&&-left false b h = absurd (cc)

pub &&-right : (a b : Bool) → a && b ≡ true → b ≡ true
&&-right true b h = h
&&-right false b h = absurd (cc)

unfoldable pub all_aborted : Cancelled → List Op → Bool
all_aborted c [] = true
all_aborted c (o ∷ os) = is_aborted c o && all_aborted c os

pub all_aborted_taken :
    (c : Cancelled) (os ps : List Op) (o : Op)
    → all_aborted c (os ++ o ∷ ps) ≡ true
    → all_aborted c (os ++ ps) ≡ true
unfolding all_aborted
all_aborted_taken c [] ps o h = &&-right (is_aborted c o) _ h
all_aborted_taken c (p ∷ os) ps o h =
    rw (&&-left (is_aborted c p) _ h) (all_aborted_taken c os ps o (&&-right (is_aborted c p) _ h))

-- Once the socket and both timers have been cancelled, nothing that is pending is left to wait for.
pub cancelled_all_aborted :
    (c : Cancelled) (os : List Op)
    → c.of_socket ≡ true
    → c.of_send_invoker ≡ true
    → c.of_send_deadline ≡ true
    → all_aborted c os ≡ true
unfolding all_aborted
cancelled_all_aborted c [] p q r = refl
cancelled_all_aborted c (wait_send_invoker ∷ os) p q r = rw q (cancelled_all_aborted c os p q r)
cancelled_all_aborted c (wait_send_deadline ∷ os) p q r = rw r (cancelled_all_aborted c os p q r)
cancelled_all_aborted c (_ ∷ os) p q r = rw p (cancelled_all_aborted c os p q r)

-- The socket is closed for good, what is pending has been aborted, and the work guard is gone or will be.
pub record Closing (m : Mode) (s : Impl) : Type 0 where
  pub gone : s.socket ≡ none
  pub shut : is_open s ≡ false
  pub tasks : ends m s.io_ctx ≡ true
  pub operations : serves m s.pending ≡ true
  pub aborted : all_aborted s.cancelled s.pending ≡ true
  pub guard : (s.work_guard ≡ false) ⊎ (has_reset s.io_ctx ≡ true)

pub ends_tail : (m : Mode) (t : Task) (ts : List Task) → ends m (t ∷ ts) ≡ true → ends m ts ≡ true
unfolding ends
ends_tail m (bind args) ts e = absurd (cc)
ends_tail m (connect args) ts e = absurd (cc)
ends_tail server (send_heartbeat d) ts e = absurd (cc)
ends_tail client (send_heartbeat d) ts e = e
ends_tail m _ ts e = e

pub ends_posted : (m : Mode) (ts : List Task) → ends m ts ≡ true → ends m (ts ++ close ∷ []) ≡ true
unfolding ends
ends_posted m [] e = refl
ends_posted m (bind args ∷ ts) e = absurd (cc)
ends_posted m (connect args ∷ ts) e = absurd (cc)
ends_posted server (send_heartbeat d ∷ ts) e = absurd (cc)
ends_posted client (send_heartbeat d ∷ ts) e = ends_posted client ts e
ends_posted m (_ ∷ ts) e = ends_posted m ts e

pub has_reset_posted : (ts : List Task) → has_reset ts ≡ true → has_reset (ts ++ close ∷ []) ≡ true
unfolding has_reset
has_reset_posted [] e = absurd (cc)
has_reset_posted (reset_work_guard ∷ ts) e = refl
has_reset_posted (_ ∷ ts) e = has_reset_posted ts e

pub serves_taken :
    (m : Mode) (os ps : List Op) (o : Op)
    → serves m (os ++ o ∷ ps) ≡ true
    → serves m (os ++ ps) ≡ true
unfolding serves
serves_taken server [] ps (connect_to args) e = absurd (cc)
serves_taken client [] ps (connect_to args) e = e
serves_taken m [] ps _ e = e
serves_taken server (connect_to args ∷ os) ps o e = absurd (cc)
serves_taken client (connect_to args ∷ os) ps o e = serves_taken client os ps o e
serves_taken m (_ ∷ os) ps o e = serves_taken m os ps o e
