-- ===== src/Server.antt =====
-- src/server and src/main.cpp: the commands, the server and its main function.
pub mod Dispatcher
pub mod Registry
pub mod ThreadPool
pub mod App
pub mod RequestContext
pub mod Main
