-- ===== src/Memcached.antt =====
-- src/memcached: the memcached client.
pub mod Cursor
pub mod Header
pub mod Response
pub mod Command
pub mod Connection
pub mod Client
