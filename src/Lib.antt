-- ===== src/Lib.antt =====
-- pqrs::local_datagram: messages over UNIX domain datagram sockets.
--
-- A client or a server (client.hpp, server.hpp) works in the thread of a dispatcher and owns a client_impl
-- or a server_impl, both derived from base_impl, which work in the thread of an `io_context`. The two sides
-- share the queue of entries to send, and the impl reports through signals. peer_manager.hpp keeps a client
-- for each peer, and the secrets shared with the peers. Two programs in example/ use them. Where nothing
-- else is said, the paths are under include/pqrs/local_datagram.
--
--   Endpoint                  helper.hpp: non_empty_filesystem_endpoint_path
--   Memcpy                    the std::memcpy of a uint32_t, in either byte order
--   SendEntry                 impl/send_entry.hpp: the constructors and methods of send_entry
--   BaseImpl/State            impl/base_impl.hpp: the members of base_impl, and its queues
--   BaseImpl/Socket           set_socket_options, async_close, terminate_base_impl
--   BaseImpl/Heartbeat        impl/next_heartbeat_deadline_timer.hpp, and the closures for the dispatcher
--   BaseImpl/Receive          async_receive
--   BaseImpl/Send             async_send, await_send_entry, handle_send, check_send_deadline, start_actors
--   BaseImpl/Session          the steps of an object in any order; the order of its sender (Steps), the
--                             wait for a deadline (Deadline), the end of the queue (Draining), where each
--                             callback is (Accounts), what is left once it is closed (Left, Joining)
--   ClientImpl, ServerImpl    impl/client_impl.hpp, impl/server_impl.hpp; the steps of each over its
--                             life (Session), and the wait of its destructor (Joining)
--   RoundTrip                 from the sender of one side to the receiver of the other
--   Wire                      a sender and its datagrams under way, over all its steps
--   Server, Client            server.hpp, client.hpp
--   Server/Lives              the steps of a server and its server_impls (ServerImpl/Session) in any order
--   Client/Lives              the steps of a client and its client_impl (ClientImpl/Session) in any order
--   Books                     where each callback is, from async_send to the dispatcher
--   PeerManager               extra/peer_manager.hpp
--   Handshake                 example/extra_peer_manager_example.hpp: server and client with a secret
--   Echo                      example/main.cpp: a server that sends back what it receives
--   Base, Examples            shared names and lemmas; concrete cases
--
-- A state is a record, with the trailing underscores of the members left off. A function of the source is
-- a function of that name; the closure that it posts or enqueues is the function whose name begins with
-- `run_`, a slot or a handler begins with `on_` or `handle_`. The closures that have been posted, the
-- operations that asio works on and the closures of the dispatcher are lists of the state; the signals
-- that have been emitted and the calls that remove a socket file or bind to it are lists too, oldest first.
-- An entry is known by its address in a heap, since the queue and a pending send share it.
--
-- What the code asks of asio, of the file system and of the clock is an argument: the error codes of
-- open, bind, connect, send and receive, the bytes transferred, the pid of the peer and the time. The
-- contract of async_receive_from, that the datagram is put at the front of the buffer and cut off at its
-- end, is `complete_receive`. Operations that close or cancel have aborted stay pending until their
-- handlers run; that they have been aborted is noted in `cancelled`, by socket and timer, until an operation
-- of the kind is started anew. Only a closure or an aborted operation is certain to come
-- (BaseImpl/Session/Joining); any other operation may stay pending for ever. The steps of a base_impl on its own (BaseImpl/Session) open a socket only when the
-- operations of the sender on the last one have ended; those of a server_impl open it in the closure of
-- async_bind, those of a client_impl in the handler of the connect operation, without that condition. A
-- read of an empty `std::optional`, which is undefined behaviour, gives `none`.
--
-- Numbers are natural numbers; sums of size_t, uint64_t and the conversion to uint32_t wrap. A
-- non-negative delay is assumed of every `std::chrono::milliseconds`; time points do not overflow. No
-- definition needs fuel.
--
-- The JSON library of the examples is the interface record Handshake.Json; of a lawful one an object that
-- has been dumped is read back. The bytes of arc4random_buf are an argument.
--
-- Not modelled: impl/asio_helper.hpp (the clock), the tests and the vendored libraries, the locks of
-- peer_manager (one operation runs at a time), the destructor of the client of a server or
-- socket check, whose wait for its thread is an instantaneous reset here, and of the examples SIGINT, the waits of the main thread
-- and the order of destruction at its end.
mod Base
mod Examples
pub mod Endpoint
pub mod Memcpy
pub mod SendEntry
pub mod BaseImpl
pub mod ClientImpl
pub mod ServerImpl
pub mod RoundTrip
pub mod Books
pub mod Server
pub mod Client
pub mod Wire
pub mod PeerManager
pub mod Handshake
pub mod Echo
