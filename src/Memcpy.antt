-- ===== src/Memcpy.antt =====
-- The `std::memcpy` between a `uint32_t` and four bytes, in client_impl.hpp (check_server) and in
-- base_impl.hpp (async_receive). The byte order of the host is a parameter.
use cpp_local_datagram.Base.{
  ℕ, ◌+◌, ◌*◌, ◌/◌, ◌%◌, ◌^◌, ◌<◌, ◌≡◌, List, [], ◌∷◌, arith, length, ◌++◌,
}

pub data ByteOrder : Type 0 where
  little_endian big_endian : ByteOrder

abbrev pub uint32_mod : ℕ
uint32_mod = 2 ^ 32

-- memcpy(v.data(), &value, sizeof(value)).
unfoldable pub store_uint32 : ByteOrder → ℕ → List ℕ
store_uint32 little_endian n = n % 256 ∷ n / 2 ^ 8 % 256 ∷ n / 2 ^ 16 % 256 ∷ n / 2 ^ 24 % 256 ∷ []
store_uint32 big_endian n = n / 2 ^ 24 % 256 ∷ n / 2 ^ 16 % 256 ∷ n / 2 ^ 8 % 256 ∷ n % 256 ∷ []

-- memcpy(&value, p, sizeof(value)); the callers check that there are four bytes.
unfoldable pub load_uint32 : ByteOrder → List ℕ → ℕ
load_uint32 little_endian (a ∷ b ∷ c ∷ d ∷ _) = a + b * 2 ^ 8 + c * 2 ^ 16 + d * 2 ^ 24
load_uint32 big_endian (a ∷ b ∷ c ∷ d ∷ _) = a * 2 ^ 24 + b * 2 ^ 16 + c * 2 ^ 8 + d
load_uint32 _ _ = 0

pub load-store_uint32 :
    (order : ByteOrder) (n : ℕ) (rest : List ℕ)
    → n < uint32_mod
    → load_uint32 order (store_uint32 order n ++ rest) ≡ n
unfolding load_uint32 store_uint32
load-store_uint32 little_endian n rest h = omega arith
load-store_uint32 big_endian n rest h = omega arith

pub length-store_uint32 : (order : ByteOrder) (n : ℕ) → length (store_uint32 order n) ≡ 4
unfolding store_uint32
length-store_uint32 little_endian n = omega arith
length-store_uint32 big_endian n = omega arith
