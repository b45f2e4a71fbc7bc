-- ===== src/BaseImpl.antt =====
-- include/pqrs/local_datagram/impl/base_impl.hpp.
pub mod State
pub mod Socket
pub mod Heartbeat
pub mod Receive
pub mod Send
pub mod Session
