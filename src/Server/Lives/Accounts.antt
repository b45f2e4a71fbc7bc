-- ===== src/Server/Lives/Accounts.antt =====
-- server.hpp: where each callback is, over the closures and the server_impl of a server.
use mathlib.Core.List.{append-nil}
use cpp_local_datagram.Base.{ℕ, ◌≡◌, refl, sym, ap, subst, Option, none, some, List, [], ◌∷◌, ◌++◌}
use cpp_local_datagram.Memcpy.{ByteOrder}
use cpp_local_datagram.SendEntry.{SendEntry, Processed}
use cpp_local_datagram.BaseImpl.State.{init}
use cpp_local_datagram.BaseImpl.Send.Queued.{pushing, processed_of}
use cpp_local_datagram.BaseImpl.Send.Waiting.{callback, called}
use cpp_local_datagram.ServerImpl.{ServerImpl, make_server_impl, async_bind, on_base}
use cpp_local_datagram.Books.Tasks
use cpp_local_datagram.Books.{gather, Fair, Fair-of_eq}
use cpp_local_datagram.Books.Moves.{begins-Fair, ends-Fair}
use cpp_local_datagram.Server.{
  Server, ServerTask, send, call_processed, call_back, run_send, enqueue, enqueue_send, run_bind,
  run_close,
}
use cpp_local_datagram.Server.Lives.{Life, IsJoined, taken, ending, callback_of, entry_of, books}

abbrev pub on_server : (Server → Server) → Life → Life
on_server g l = record l { server = g l.server }

abbrev pub with_impl : Option ServerImpl → Life → Life
with_impl m l = on_server (λ c. record c { server_impl = m }) l

-- A closure that neither sends nor calls is added or taken out.
pub added-Fair :
    (t : ServerTask) (l : Life)
    → callback_of t ≡ []
    → entry_of t ≡ []
    → Fair [] (books l) (books (on_server (enqueue t) l))
unfolding enqueue
added-Fair t l c e = Tasks.added-Fair callback_of entry_of t l.server.tasks (books l) c e

pub taken-Fair :
    (before after : List ServerTask) (t : ServerTask) (l : Life)
    → l.server.tasks ≡ before ++ t ∷ after
    → callback_of t ≡ []
    → entry_of t ≡ []
    → Fair [] (books l) (books (on_server (taken (before ++ after)) l))
taken-Fair before after t l at c e =
    Tasks.taken-Fair callback_of entry_of before after t l.server.tasks (books l) at c e

-- An async_send.
pub sends-Fair :
    (e : SendEntry) (m : Option ServerImpl) (l : Life)
    → Fair
        (callback e.processed)
        (books (with_impl m l))
        (books (on_server (enqueue_send e) (with_impl m l)))
unfolding enqueue_send enqueue on_base
sends-Fair e none l =
    Tasks.sends-Fair callback_of entry_of e none (send l.server.next_address) l.server.tasks
      (books l) refl refl
sends-Fair e (some k) l =
    Tasks.sends-Fair callback_of entry_of e (some k.base) (send k.base.next_address) l.server.tasks
      (books l) refl refl

-- The closure of an async_send.
abbrev replies : Processed → List ServerTask
replies none = []
replies (some f) = call_processed f ∷ []

call_back-tasks :
    (p : Processed) (c : Server) → call_back p c ≡ record c { tasks = c.tasks ++ replies p }
unfolding call_back enqueue
call_back-tasks none c = ap (λ ts. record c { tasks = ts }) (sym (append-nil c.tasks))
call_back-tasks (some f) c = refl

replies-calling : (p : Processed) → gather callback_of (replies p) ≡ callback p
unfolding gather
replies-calling none = refl
replies-calling (some f) = refl

replies-sending : (p : Processed) → gather entry_of (replies p) ≡ []
unfolding gather
replies-sending none = refl
replies-sending (some f) = refl

pub runs_send-Fair :
    (order : ByteOrder) (i : ℕ) (before after : List ServerTask) (m : Option ServerImpl) (l : Life)
    → l.server.tasks ≡ before ++ send i ∷ after
    → Fair []
        (books (with_impl m l))
        (books (on_server (λ c. run_send i (taken (before ++ after) c)) (with_impl m l)))
unfolding run_send on_base
runs_send-Fair order i before after none l e =
    let p = (l.server.heap i).processed in
    subst (λ c. Fair [] (books (with_impl none l)) (books (record l { server = c })))
      (sym (call_back-tasks p (taken (before ++ after) (with_impl none l).server)))
      (Tasks.calls_back-Fair callback_of entry_of before after (send i) l.server.tasks (replies p) i
        (books l) e refl refl (replies-calling p) (replies-sending p))
runs_send-Fair order i before after (some k) l e =
    Tasks.runs_send-Fair callback_of entry_of order before after (send i) l.server.tasks i k.base
      (books l) e refl refl

-- A server_impl is made, if there is none.
pub bound-Fair :
    (m : Option ServerImpl) (l : Life)
    → Fair [] (books (with_impl m l)) (books (on_server run_bind (with_impl m l)))
unfolding run_bind async_bind make_server_impl init pushing called processed_of
bound-Fair none l = begins-Fair _ (books l) refl refl refl refl refl
bound-Fair (some k) l = Fair-of_eq refl

-- The server_impl is destroyed.
pub ended-Fair :
    (m : Option ServerImpl) (l : Life)
    → IsJoined m
    → Fair [] (books (with_impl m l)) (books (ending run_close (with_impl m l)))
unfolding run_close
ended-Fair none l joined =
    Fair-of_eq
      (ap (λ fs. record (books (with_impl none l)) { reported = fs }) (append-nil l.reported))
ended-Fair (some k) l joined = ends-Fair k.base (books l) joined
