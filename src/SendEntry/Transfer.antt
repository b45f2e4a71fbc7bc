-- ===== src/SendEntry/Transfer.antt =====
-- send_entry.hpp: the bytes of an entry over its life, from construction to the last transfer.
use mathlib.Core.List.{append_assoc}
use cpp_local_datagram.Base.{
  ℕ, ◌+◌, ◌-◌, ◌%◌, ◌≤◌, ◌<◌, ◌≡◌, refl, sym, ap, ◌∙◌, ◌↔◌, inl, inr, true, List, [], ◌∷◌, ◌++◌,
  arith, leb, Bool-cases, length, take, drop, length-drop, drop-drop, take-append-drop, drop_all,
}
use cpp_local_datagram.SendEntry.{
  SendEntry, size_mod, make_buffer, add_bytes_transferred, rest_bytes, transfer_complete,
}

-- The counters of an entry do not exceed what `size_t` and its buffer allow.
pub record IsValid (e : SendEntry) : Type 0 where
  pub buffer_fits : length e.buffer < size_mod
  pub within : e.bytes_transferred ≤ length e.buffer

-- The buffer is what is left after the bytes transferred, on both branches.
pub make_buffer-drop : (e : SendEntry) → make_buffer e ≡ drop e.bytes_transferred e.buffer
unfolding make_buffer
make_buffer-drop e = elim (Bool-cases (leb (length e.buffer) e.bytes_transferred)) [
  | inl h ↦ rw h (sym (drop_all e.bytes_transferred e.buffer (ground arith)))
  | inr h ↦ rw h
]

-- The three views of what is left of an entry agree, for every entry: `make_buffer` has `rest_bytes`
-- bytes, and the transfer is complete exactly when that is 0.
rest_bytes-views :
    (e : SendEntry)
    → (length (make_buffer e) ≡ rest_bytes e) × ((transfer_complete e ≡ true) ↔ (rest_bytes e ≡ 0))
unfolding rest_bytes transfer_complete
rest_bytes-views e = (
  rw (make_buffer-drop e, length-drop e.bytes_transferred e.buffer) (ground arith),
  (ground arith, ground arith),
)

-- A transfer of at most the rest keeps the entry valid and takes as many bytes off the rest; one of
-- the whole rest, as when an entry is dropped, completes it. The addition does not wrap.
pub add_bytes_transferred-rest :
    (n : ℕ) (e : SendEntry)
    → IsValid e
    → n ≤ rest_bytes e
    → IsValid (add_bytes_transferred n e)
      × (rest_bytes (add_bytes_transferred n e) ≡ rest_bytes e - n)
      × (transfer_complete (add_bytes_transferred (rest_bytes e) e) ≡ true)
unfolding add_bytes_transferred rest_bytes transfer_complete
add_bytes_transferred-rest n e v h = (ground arith, ground arith, ground arith)

-- Transfers of the given sizes, one after the other: the chunks handed over, and the entry at the end.
pub transfer : List ℕ → SendEntry → List ℕ × SendEntry
transfer [] e = ([], e)
transfer (n ∷ ns) e =
    let (sent, last) = transfer ns (add_bytes_transferred n e) in
    (take n (make_buffer e) ++ sent, last)

-- Each transfer takes at most the rest at its time.
abbrev pub Fits : List ℕ → SendEntry → Type 0
Fits [] e = Unit {0}
Fits (n ∷ ns) e = (n ≤ rest_bytes e) × Fits ns (add_bytes_transferred n e)

bytes_transferred_small :
    (n : ℕ) (e : SendEntry)
    → IsValid e
    → n ≤ rest_bytes e
    → (e.bytes_transferred + n) % size_mod ≡ e.bytes_transferred + n
unfolding rest_bytes
bytes_transferred_small n e v h = ground arith

make_buffer-add :
    (n : ℕ) (e : SendEntry)
    → IsValid e
    → n ≤ rest_bytes e
    → make_buffer (add_bytes_transferred n e) ≡ drop n (make_buffer e)
unfolding add_bytes_transferred
make_buffer-add n e v h =
    make_buffer-drop (add_bytes_transferred n e)
    ∙ ap (λ k. drop k e.buffer) wraps_not
    ∙ sym (drop-drop n e.bytes_transferred e.buffer)
    ∙ ap (drop n) (sym (make_buffer-drop e))
  where
    wraps_not : (e.bytes_transferred + n) % size_mod ≡ e.bytes_transferred + n
    wraps_not = bytes_transferred_small n e v h

-- Whatever the sizes of the partial transfers, the chunks and the final rest make up the buffer as it
-- was: no byte is lost, repeated or moved.
pub transfer-make_buffer :
    (ns : List ℕ) (e : SendEntry)
    → IsValid e
    → Fits ns e
    → (transfer ns e).0 ++ make_buffer (transfer ns e).1 ≡ make_buffer e
unfolding transfer
transfer-make_buffer [] e v f = refl
transfer-make_buffer (n ∷ ns) e v f =
    append_assoc (take n (make_buffer e)) _ _
    ∙ ap (◌++◌ (take n (make_buffer e))) (
        transfer-make_buffer ns (add_bytes_transferred n e) (add_bytes_transferred-rest n e v f.0).0
          f.1
        ∙ make_buffer-add n e v f.0)
    ∙ take-append-drop n (make_buffer e)
