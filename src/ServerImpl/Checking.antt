-- ===== src/ServerImpl/Checking.antt =====
-- server_impl.hpp, check_server: the connection of a server to its own socket file.
use mathlib.Core.Option
use cpp_local_datagram.ServerImpl.{ServerImpl}
