-- ===== src/Redis/Uri.antt =====
-- src/redis/uri: connection options from URIs over TCP, of sockets and of sentinels. The options
-- are objects of Objects.
pub mod Common
pub mod Tcp
pub mod Interfaces
pub mod Types
pub mod Socket
pub mod Sentinel
