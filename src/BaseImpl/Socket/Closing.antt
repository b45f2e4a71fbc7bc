-- ===== src/BaseImpl/Socket/Closing.antt =====
-- base_impl.hpp, async_close and set_socket_options: what closing does.
use mathlib.Core.List.{append-nil}
use cpp_local_datagram.Base.{
  ℕ, zero, suc, ◌≡◌, ◌≢◌, refl, ap, true, false, none, List, [], ◌∷◌, ◌++◌, arith, length,
}
use cpp_local_datagram.Endpoint.{FilePath}
use cpp_local_datagram.BaseImpl.State.{
  Impl, FileCall, removes, clear_timers, is_open, next_generation,
}
use cpp_local_datagram.BaseImpl.Socket.{resize, run_close}

pub length-resize : (n : ℕ) (xs : List ℕ) → length (resize n xs) ≡ n
unfolding resize
length-resize zero xs = refl
length-resize (suc n) [] = ap suc (length-resize n [])
length-resize (suc n) (x ∷ xs) = ap suc (length-resize n xs)

next_generation-ne : (g : ℕ) → next_generation g ≢ g
unfolding next_generation
next_generation-ne g e = omega arith

-- The socket files that closing removes: the bound path, unless it is empty.
abbrev pub bound_files : FilePath → List FileCall
bound_files [] = []
bound_files (c ∷ cs) = removes (c ∷ cs) ∷ []

-- Closing an open socket: it is gone and not ready, whatever is pending is aborted, the generation of
-- the timers is a new one, the bound file is removed and forgotten, one closure that reports `closed` is
-- enqueued, and closing again changes nothing.
pub run_close_open :
    (s : Impl)
    → is_open s ≡ true
    → let t = run_close s in
      (t.socket ≡ none)
      × (t.socket_ready ≡ false)
      × (t.cancelled ≡ record { of_socket = true; of_send_invoker = true; of_send_deadline = true })
      × (t.next_heartbeat_deadline_timers_generation
          ≡ next_generation s.next_heartbeat_deadline_timers_generation)
      × (t.next_heartbeat_deadline_timers_generation ≢ s.next_heartbeat_deadline_timers_generation)
      × (t.files ≡ s.files ++ bound_files s.bound_path)
      × (t.bound_path ≡ [])
      × (t.dispatcher ≡ s.dispatcher ++ clear_timers ∷ [])
      × (run_close t ≡ t)
unfolding run_close is_open
run_close_open s o =
    ground
      (arith, next_generation-ne s.next_heartbeat_deadline_timers_generation, append-nil s.files)
