-- ===== src/Tests.antt =====
-- Runs of the model on concrete data, by part.
mod Engines
mod Shards
mod Indexes
mod Commands
mod Sockets
mod Threads
mod Pools
mod Sessions
mod Rounds
mod Peers
mod Clients
