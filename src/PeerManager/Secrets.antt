-- ===== src/PeerManager/Secrets.antt =====
-- peer_manager.hpp: the shared secrets, and their comparison in constant time.
use Prim.Native.Nat.{max, differ, bit_or, bit_xor, digits, bit_or-bitwise, bit_xor-bitwise}
use native.Mathlib.Nat.{pow-suc}
use cpp_local_datagram.Base.{
  ℕ, zero, suc, ◌/◌, ◌%◌, ◌^◌, ◌≤◌, ◌<◌, ◌≡◌, ◌↔◌, refl, sym, ap, ap₂, subst, ◌∙◌, true, false,
  Option, none, some, List, [], ◌∷◌, arith, ◌==◌, if◌then◌else◌, length, bytes_eq,
}
use cpp_local_datagram.Endpoint.{FilePath}
use cpp_local_datagram.BaseImpl.State.{ErrorCode}
use cpp_local_datagram.PeerManager.{
  PeerManager, difference, constant_time_equal, insert_shared_secret, find_shared_secret,
  verify_shared_secret, on_peer_closed, on_peer_connect_failed, run_async_send, on_peer_connected,
}
use cpp_local_datagram.PeerManager.Paths.{lookup-insert, lookup-erase}

-- An exclusive or is 0 for equal numbers only; an or is 0 for zeros only. By recursion on the digits.
xor_digits-eq : (n a b : ℕ) → a ≤ n → digits (λ b. b) differ n a b ≡ 0 → a ≡ b
xor_digits-eq zero zero b h e = sym e
xor_digits-eq zero (suc a) b h e = absurd (omega arith)
xor_digits-eq (suc n) zero b h e = sym e
xor_digits-eq (suc n) (suc a) b h e = ground (arith, xor_digits-eq n (suc a / 2) (b / 2))

differ_self : (x : ℕ) → differ x x ≡ 0
differ_self zero = refl
differ_self (suc x) = differ_self x

xor_digits_self : (n a : ℕ) → a ≤ n → digits (λ b. b) differ n a a ≡ 0
xor_digits_self zero zero h = refl
xor_digits_self zero (suc a) h = absurd (omega arith)
xor_digits_self (suc n) zero h = refl
xor_digits_self (suc n) (suc a) h =
    ground (arith, xor_digits_self n (suc a / 2), differ_self (suc a % 2))

or_digits-zero : (n a b : ℕ) → a ≤ n → digits (λ b. b) max n a b ≡ 0 → (a ≡ 0) × (b ≡ 0)
or_digits-zero zero zero b h e = (refl, e)
or_digits-zero zero (suc a) b h e = absurd (omega arith)
or_digits-zero (suc n) zero b h e = (refl, e)
or_digits-zero (suc n) (suc a) b h e = ground (arith, or_digits-zero n (suc a / 2) (b / 2))

bit_xor-eq : (a b : ℕ) → bit_xor a b ≡ 0 → a ≡ b
bit_xor-eq a b e = xor_digits-eq a a b (omega arith) (sym (bit_xor-bitwise a b) ∙ e)

bit_xor_self : (a : ℕ) → bit_xor a a ≡ 0
bit_xor_self a = bit_xor-bitwise a a ∙ xor_digits_self a a (omega arith)

bit_or-zero : (a b : ℕ) → bit_or a b ≡ 0 → (a ≡ 0) × (b ≡ 0)
bit_or-zero a b e = or_digits-zero a a b (omega arith) (sym (bit_or-bitwise a b) ∙ e)

differ-lt : (x y : ℕ) → x < 2 → y < 2 → differ x y < 2
differ-lt zero y h k = k
differ-lt (suc zero) zero h k = omega arith
differ-lt (suc zero) (suc y) h k = omega arith
differ-lt (suc (suc x)) y h k = absurd (omega arith)

xor_digits-lt : (k n a b : ℕ) → a < 2 ^ k → b < 2 ^ k → digits (λ b. b) differ n a b < 2 ^ k
xor_digits-lt k zero a b h g = g
xor_digits-lt k (suc n) zero b h g = g
xor_digits-lt zero (suc n) (suc a) b h g = absurd (omega arith)
xor_digits-lt (suc k) (suc n) (suc a) b h g = omega (
  arith,
  pow-suc 2 k,
  xor_digits-lt k n (suc a / 2) (b / 2) (omega (arith, pow-suc 2 k)) (omega (arith, pow-suc 2 k)),
  differ-lt (suc a % 2) (b % 2) (omega arith) (omega arith),
)

-- Bytes.
abbrev pub AreBytes : List ℕ → Type 0
AreBytes [] = Unit {0}
AreBytes (x ∷ xs) = (x < 256) × AreBytes xs

byte_xor-eq : (x y : ℕ) → x < 256 → y < 256 → bit_xor x y % 256 ≡ 0 → x ≡ y
byte_xor-eq x y h g e =
    bit_xor-eq x y
      (omega (arith, ap (λ (n : ℕ). n) (bit_xor-bitwise x y), xor_digits-lt 8 x x y h g))

difference-zero :
    (diff : ℕ) (xs ys : List ℕ)
    → AreBytes xs
    → AreBytes ys
    → length xs ≡ length ys
    → difference diff xs ys ≡ 0
    → (diff ≡ 0) × (xs ≡ ys)
unfolding difference
difference-zero diff [] [] bx by l e = (e, refl)
difference-zero diff [] (y ∷ ys) bx by l e = absurd (omega arith)
difference-zero diff (x ∷ xs) [] bx by l e = absurd (omega arith)
difference-zero diff (x ∷ xs) (y ∷ ys) bx by l e =
    let (d, same) =
      difference-zero (bit_or diff (bit_xor x y % 256)) xs ys bx.1 by.1 (omega arith) e in
    let (d0, x0) = bit_or-zero diff (bit_xor x y % 256) d in
    (d0, ap₂ ◌∷◌ (byte_xor-eq x y bx.0 by.0 x0) same)

difference_self : (xs : List ℕ) → difference 0 xs xs ≡ 0
unfolding difference
difference_self [] = refl
difference_self (x ∷ xs) =
    ap (λ n. difference (bit_or 0 (n % 256)) xs xs) (bit_xor_self x) ∙ difference_self xs

-- For vectors of bytes, the comparison in constant time answers true exactly if they are equal.
pub constant_time_equal_iff :
    (a b : List ℕ) → AreBytes a → AreBytes b → (constant_time_equal a b ≡ true) ↔ (a ≡ b)
unfolding constant_time_equal
constant_time_equal_iff a b ba bb = (
  λ h.
      let same_length : length a ≡ length b = ground arith in
      let zero_difference : difference 0 a b ≡ 0 = ground arith in
      (difference-zero 0 a b ba bb same_length zero_difference).1,
  λ e.
      subst (λ c. (if length a == length c then difference 0 a c == 0 else false) ≡ true) e
        (ground (arith, difference_self a)),
)

-- What becomes of the secrets.
pub data SecretEvent : Type 0 where
  insert_event : FilePath → List ℕ → SecretEvent
  closed_event : FilePath → SecretEvent
  connect_failed_event : FilePath → ErrorCode → SecretEvent
  send_event : FilePath → List ℕ → SecretEvent
  connected_event : FilePath → Option ℕ → SecretEvent

run_secret : SecretEvent → PeerManager → PeerManager
run_secret (insert_event p s) m = insert_shared_secret p s m
run_secret (closed_event p) m = on_peer_closed p m
run_secret (connect_failed_event p e) m = on_peer_connect_failed p e m
run_secret (send_event p v) m = run_async_send p v m
run_secret (connected_event p pid) m = on_peer_connected p pid m

-- The secret of a path after some events, read off their list: what the last event on the path left.
pub secret_after : FilePath → Option (List ℕ) → List SecretEvent → Option (List ℕ)
secret_after q s [] = s
secret_after q s (insert_event p t ∷ es) = secret_after q (if bytes_eq p q then some t else s) es
secret_after q s (closed_event p ∷ es) = secret_after q (if bytes_eq p q then none else s) es
secret_after q s (connect_failed_event p e ∷ es) =
    secret_after q (if bytes_eq p q then none else s) es
secret_after q s (send_event p v ∷ es) = secret_after q s es
secret_after q s (connected_event p pid ∷ es) = secret_after q s es

pub run_secrets : List SecretEvent → PeerManager → PeerManager
run_secrets [] m = m
run_secrets (e ∷ es) m = run_secrets es (run_secret e m)

pub run_async_send-find :
    (q p : FilePath) (v : List ℕ) (m : PeerManager)
    → find_shared_secret q (run_async_send p v m) ≡ find_shared_secret q m
unfolding find_shared_secret run_async_send
run_async_send-find q p v m = ground arith

pub on_peer_connected-find :
    (q p : FilePath) (pid : Option ℕ) (m : PeerManager)
    → find_shared_secret q (on_peer_connected p pid m) ≡ find_shared_secret q m
unfolding find_shared_secret on_peer_connected
on_peer_connected-find q p pid m = ground arith

-- After any events, the secret found for a path is the one that the last event on it has left: that of
-- an insertion, or none after a closed or a failed connection; sending and connecting leave it.
pub run_secrets-find :
    (q : FilePath) (es : List SecretEvent) (m : PeerManager)
    → find_shared_secret q (run_secrets es m) ≡ secret_after q (find_shared_secret q m) es
unfolding run_secrets run_secret secret_after find_shared_secret insert_shared_secret on_peer_closed
    on_peer_connect_failed run_async_send on_peer_connected
run_secrets-find q [] m = refl
run_secrets-find q (insert_event p t ∷ es) m =
    run_secrets-find q es (insert_shared_secret p t m)
    ∙ ap (λ s. secret_after q s es) (lookup-insert p q t m.shared_secrets)
run_secrets-find q (closed_event p ∷ es) m =
    run_secrets-find q es (on_peer_closed p m)
    ∙ ap (λ s. secret_after q s es) (lookup-erase p q m.shared_secrets)
run_secrets-find q (connect_failed_event p e ∷ es) m =
    run_secrets-find q es (on_peer_connect_failed p e m)
    ∙ ap (λ s. secret_after q s es) (lookup-erase p q m.shared_secrets)
run_secrets-find q (send_event p v ∷ es) m =
    run_secrets-find q es (run_async_send p v m)
    ∙ ap (λ s. secret_after q s es) (run_async_send-find q p v m)
run_secrets-find q (connected_event p pid ∷ es) m =
    run_secrets-find q es (on_peer_connected p pid m)
    ∙ ap (λ s. secret_after q s es) (on_peer_connected-find q p pid m)

-- For a path with a stored secret, the verification of a secret answers true exactly if it is the
-- stored one, both being bytes.
verify_shared_secret_iff :
    (path : FilePath) (secret stored : List ℕ) (m : PeerManager)
    → find_shared_secret path m ≡ some stored
    → AreBytes stored
    → AreBytes secret
    → (verify_shared_secret path secret m ≡ true) ↔ (stored ≡ secret)
unfolding verify_shared_secret find_shared_secret
verify_shared_secret_iff path secret stored m e bs bt =
    ground (arith, constant_time_equal_iff stored secret bs bt)
