-- ===== src/Endpoint.antt =====
-- include/pqrs/local_datagram/helper.hpp: which endpoint paths name a socket file.
use cpp_local_datagram.Base.{ℕ, Bool, true, false, List, [], ◌∷◌, ◌==◌, if◌then◌else◌}

-- The bytes of a `std::filesystem::path`, without a final NUL.
abbrev pub FilePath : Type 0
FilePath = List ℕ

-- An `asio::local::datagram_protocol::endpoint` is known by its `path()`.
abbrev pub Endpoint : Type 0
Endpoint = FilePath

unfoldable pub non_empty_filesystem_endpoint_path : FilePath → Bool
non_empty_filesystem_endpoint_path [] = false
non_empty_filesystem_endpoint_path (c ∷ _) = if c == 0 then false else true
