-- ===== src/Net.antt =====
-- src/net: the sockets, the connections and the listening server.
pub mod Sockets
pub mod Connection
pub mod Connections
pub mod TcpServer
