-- ===== src/Lib.antt =====
-- KVMemo, an in-memory key-value store with a TCP server, as functions on states.
--
-- A client sends lines. `Buffer` collects the bytes, `Framing` cuts them at CR LF, `Parser` splits
-- a line into a `Request`, `Dispatcher` calls `KVEngine`, and `Serializer` writes the `Response`.
-- The engine keeps a `ShardManager`, which sends each key to one `Shard` by its hash, a `TTLIndex`
-- of its own, and an `EvictionManager`. A shard keeps a store of entries, an `LRUCache` of the
-- order of use, and a `TTLIndex`.
--
-- Files, and the code that they model:
--   Base        strings, maps, 64-bit words and exceptions, shared by all parts
--   Common      src/common/status.h (Status), src/common/config.h (Config), src/common/logger.h
--               (Logger), src/common/time.h (Time)
--   Core        src/core/entry.h (Entry), src/core/lru_cache.h (Lru), src/core/ttl_index.h (Ttl),
--               src/core/shard.h (Shard), src/core/shard_manager.h (Manager),
--               src/core/kv_engine.h (Engine)
--   Eviction    src/eviction/memory_tracker.h (Memory), src/eviction/eviction_manager.h
--               (Policy, Manager)
--   Protocol    src/protocol/buffer.h (Buffer), framing.h (Framing), request.h (Request), parser.h
--               (Parser), response.h (Response), serializer.h (Serializer); Decimal is what the
--               C++ library reads and prints of numbers
--   Server      src/server/dispatcher.h (Dispatcher), src/server/command_registry.h (Registry),
--               src/server/server_app.h (App), src/server/thread_pool.h (ThreadPool),
--               src/server/request_context.h (RequestContext), src/main.cpp (Main)
--   Metrics     src/metrics/latency_tracker.h (Latency), src/metrics/metrics_registry.h (Registry),
--               src/metrics/metrics_snapshot.h (Snapshot)
--   Net         src/net/connection_manager.h (Connections), src/net/connection.h (Connection),
--               src/net/tcp_server.h (TcpServer); Sockets is the system calls that they make
--   Client      src/client/kv_client.h, src/client/kv_cli.cpp (Cli, Main)
--   Tests       runs on concrete data
-- A file under a part is named for what it proves about the part.
--
-- Each method is a function from the state to a result and the new state, under the name of the
-- method in lower case; `Outcome` is a return or the class of an exception. A mutex makes a method
-- one step. The clock is an argument, one for each reading that a call makes. The hash of the keys
-- and the eviction policy are parameters. A `std::unordered_map` is an association list; the nodes
-- of the LRU list have identities, which the map of iterators holds. Words of 64 bits wrap round
-- where the code can make them do so.
--
-- System calls are a record of functions on a state of the system, any type `W`; what the theorems
-- need of them is the record `SocketLaws`: a call of `write` takes a prefix of the bytes, and
-- `read` gives no more than it is asked for. A `write` to a closed peer raises SIGPIPE, which
-- nothing handles or ignores: the test `ended` on the state of the system says that it has ended
-- the process. `run` and `main` stop there; what the definitions below them compute from such a
-- state, within a round, the process has not come to, so what is said of a single call is said of
-- a process that SIGPIPE has not ended. What a read beyond an array does, which C++ does not
-- define, is the parameter `overread`, which returns or throws and touches only the input buffer;
-- a crash there is not modelled. Descriptors are taken to be below FD_SETSIZE, since `FD_SET` of
-- others is not defined. A port is the 32-bit word of its `int`. The server is one thread, so a
-- call of it is one step. Where several threads can meet, their turns are interleaved by a step
-- relation: the workers of the thread pool, threads that record latencies
-- (Metrics.Latency.Threads), and threads that call the engine (Core.Engine.Threads), where a turn
-- is one call of a shard, of the index or of the eviction manager, and `GetAllKeys` takes one turn
-- for each shard. The last two have no lock for all that they do, and a turn of theirs is taken to
-- be indivisible. That several clients do not mix is `ApartLaws`: a call for one descriptor writes
-- nothing to another one.
--
-- Fuel: the loop of `CollectEvictionCandidates` takes one unit for each victim, and more units than
-- keys are enough; taking the frames of a buffer takes one unit for each frame, and the length of
-- the bytes is enough; answering the frames of a connection takes one unit for each frame and one
-- more, and more units than bytes are enough; printing a number takes one unit for each digit, and
-- the number plus one is enough. `Run` has no end in the code: the model makes a given number of
-- its rounds, each with its own fuel.
--
-- Not modelled: what src/main.cpp writes to the console; `std::stoi`, which is a parameter; the
-- readings of the system's clocks, which are arguments; and src/eviction/ttl_manager.h, whose
-- methods have no definition.
pub mod Base
pub mod Common
pub mod Core
pub mod Eviction
pub mod Protocol
pub mod Server
pub mod Metrics
pub mod Net
pub mod Client
mod Tests
