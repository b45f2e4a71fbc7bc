-- ===== src/Client/Lives/Accounts.antt =====
-- client.hpp: where each callback is, over the closures and the client_impl of a client.
use mathlib.Core.List.{append-nil}
use cpp_local_datagram.Base.{
  ℕ, ◌≡◌, refl, sym, ap, subst, ◌∙◌, Option, none, some, List, [], ◌∷◌, ◌++◌,
}
use cpp_local_datagram.Memcpy.{ByteOrder}
use cpp_local_datagram.SendEntry.{SendEntry, Processed}
use cpp_local_datagram.BaseImpl.State.{Impl, post, close}
use cpp_local_datagram.BaseImpl.State.{Task}
use cpp_local_datagram.BaseImpl.Socket.{async_close}
use cpp_local_datagram.BaseImpl.Send.Queued.{lasting, pushing, pushing-append}
use cpp_local_datagram.BaseImpl.Send.Callbacks.{post-Balanced}
use cpp_local_datagram.BaseImpl.Send.Waiting.{callback}
use cpp_local_datagram.BaseImpl.Session.Advances.{Advances, Settled-Advances, Balanced-Advances}
use cpp_local_datagram.BaseImpl.Session.Balances.{tasks-Settled}
use cpp_local_datagram.ClientImpl.{ClientImpl, on_base, async_connect}
use cpp_local_datagram.Books.Tasks
use cpp_local_datagram.Books.{gather, Fair, Fair-of_eq}
use cpp_local_datagram.Books.Moves.{works-Fair, ends-Fair}
use cpp_local_datagram.Client.{
  Client, ClientTask, send, call_processed, call_back, run_send, enqueue, enqueue_send, run_connect,
  run_close, run_stop, close_impl,
}
use cpp_local_datagram.Client.Lives.{
  Life, IsJoined, taken, on_client, left_by, callback_of, entry_of, books,
}

abbrev pub with_impl : Option ClientImpl → Life → Life
with_impl m l = on_client (λ c. record c { client_impl = m }) l

-- A closure that neither sends nor calls is added or taken out.
pub added-Fair :
    (t : ClientTask) (l : Life)
    → callback_of t ≡ []
    → entry_of t ≡ []
    → Fair [] (books l) (books (on_client (enqueue t) l))
unfolding enqueue
added-Fair t l c e = Tasks.added-Fair callback_of entry_of t l.client.tasks (books l) c e

pub taken-Fair :
    (before after : List ClientTask) (t : ClientTask) (l : Life)
    → l.client.tasks ≡ before ++ t ∷ after
    → callback_of t ≡ []
    → entry_of t ≡ []
    → Fair [] (books l) (books (on_client (taken (before ++ after)) l))
taken-Fair before after t l at c e =
    Tasks.taken-Fair callback_of entry_of before after t l.client.tasks (books l) at c e

-- An async_send.
pub sends-Fair :
    (e : SendEntry) (m : Option ClientImpl) (l : Life)
    → Fair
        (callback e.processed)
        (books (with_impl m l))
        (books (on_client (enqueue_send e) (with_impl m l)))
unfolding enqueue_send enqueue on_base
sends-Fair e none l =
    Tasks.sends-Fair callback_of entry_of e none (send l.client.next_address) l.client.tasks
      (books l) refl refl
sends-Fair e (some k) l =
    Tasks.sends-Fair callback_of entry_of e (some k.base) (send k.base.next_address) l.client.tasks
      (books l) refl refl

-- The closure of an async_send.
abbrev replies : Processed → List ClientTask
replies none = []
replies (some f) = call_processed f ∷ []

call_back-tasks :
    (p : Processed) (c : Client) → call_back p c ≡ record c { tasks = c.tasks ++ replies p }
unfolding call_back enqueue
call_back-tasks none c = ap (λ ts. record c { tasks = ts }) (sym (append-nil c.tasks))
call_back-tasks (some f) c = refl

replies-calling : (p : Processed) → gather callback_of (replies p) ≡ callback p
unfolding gather
replies-calling none = refl
replies-calling (some f) = refl

replies-sending : (p : Processed) → gather entry_of (replies p) ≡ []
unfolding gather
replies-sending none = refl
replies-sending (some f) = refl

pub runs_send-Fair :
    (order : ByteOrder) (i : ℕ) (before after : List ClientTask) (m : Option ClientImpl) (l : Life)
    → l.client.tasks ≡ before ++ send i ∷ after
    → Fair []
        (books (with_impl m l))
        (books (on_client (λ c. run_send i (taken (before ++ after) c)) (with_impl m l)))
unfolding run_send on_base
runs_send-Fair order i before after none l e =
    let p = (l.client.heap i).processed in
    subst (λ c. Fair [] (books (with_impl none l)) (books (record l { client = c })))
      (sym (call_back-tasks p (taken (before ++ after) (with_impl none l).client)))
      (Tasks.calls_back-Fair callback_of entry_of before after (send i) l.client.tasks (replies p) i
        (books l) e refl refl (replies-calling p) (replies-sending p))
runs_send-Fair order i before after (some k) l e =
    Tasks.runs_send-Fair callback_of entry_of order before after (send i) l.client.tasks i k.base
      (books l) e refl refl

-- The client_impl, if there is one, is asked to connect or to close.
async_connect-Advances : (args : _) (s : Impl) → Advances s (async_connect args s)
unfolding async_connect post pushing
async_connect-Advances args s = Settled-Advances (
    tasks-Settled (s.io_ctx ++ Task.connect args ∷ []) s
      (pushing-append s.io_ctx (Task.connect args ∷ []) ∙ append-nil _))

pub connected-Fair :
    (m : Option ClientImpl) (l : Life)
    → Fair [] (books (with_impl m l)) (books (on_client run_connect (with_impl m l)))
unfolding run_connect on_base
connected-Fair none l = Fair-of_eq refl
connected-Fair (some k) l =
    works-Fair k.base _ (books (with_impl (some k) l)) (async_connect-Advances _ k.base)

pub closed-Fair :
    (m : Option ClientImpl) (l : Life)
    → Fair [] (books (with_impl m l)) (books (on_client close_impl (with_impl m l)))
unfolding close_impl on_base async_close lasting
closed-Fair none l = Fair-of_eq refl
closed-Fair (some k) l =
    works-Fair k.base _ (books (with_impl (some k) l))
      (Balanced-Advances (post-Balanced close k.base refl))

-- The client_impl is destroyed.
pub stopped-Fair :
    (m : Option ClientImpl) (l : Life)
    → IsJoined m
    → Fair [] (books (with_impl m l)) (books (on_client run_stop (left_by m (with_impl m l))))
unfolding run_stop run_close
stopped-Fair none l joined = Fair-of_eq refl
stopped-Fair (some k) l joined = ends-Fair k.base (books (with_impl (some k) l)) joined
