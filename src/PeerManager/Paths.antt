-- ===== src/PeerManager/Paths.antt =====
-- A `std::unordered_map` from paths, as an association list with distinct keys.
use cpp_local_datagram.Base.{
  ◌≡◌, refl, Option, none, some, List, [], ◌∷◌, arith, if◌then◌else◌, bytes_eq, bytes_eq_iff,
}
use cpp_local_datagram.Endpoint.{FilePath}

abbrev pub PathMap {ℓ} : Type ℓ → Type ℓ
PathMap V = List (FilePath × V)

module _ {ℓ} {V : Type ℓ} where
  unfoldable pub lookup : FilePath → PathMap V → Option V
  lookup p [] = none
  lookup p ((q, v) ∷ m) = if bytes_eq q p then some v else lookup p m

  unfoldable pub insert : FilePath → V → PathMap V → PathMap V
  insert p v [] = (p, v) ∷ []
  insert p v ((q, w) ∷ m) = if bytes_eq q p then (p, v) ∷ m else (q, w) ∷ insert p v m

  unfoldable pub erase : FilePath → PathMap V → PathMap V
  erase p [] = []
  erase p ((q, v) ∷ m) = let rest = erase p m in if bytes_eq q p then rest else (q, v) ∷ rest

  pub lookup-insert :
      (p q : FilePath) (v : V) (m : PathMap V)
      → lookup q (insert p v m) ≡ (if bytes_eq p q then some v else lookup q m)
  unfolding lookup insert
  lookup-insert p q v [] = refl
  lookup-insert p q v ((r, w) ∷ m) =
      ground (arith, bytes_eq_iff p q, bytes_eq_iff r p, bytes_eq_iff r q, lookup-insert p q v m)

  pub lookup-erase :
      (p q : FilePath) (m : PathMap V)
      → lookup q (erase p m) ≡ (if bytes_eq p q then none else lookup q m)
  unfolding lookup erase
  lookup-erase p q [] = ground arith
  lookup-erase p q ((r, w) ∷ m) =
      ground (arith, bytes_eq_iff p q, bytes_eq_iff r p, bytes_eq_iff r q, lookup-erase p q m)
