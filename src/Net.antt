-- ===== src/Net.antt =====
-- The directory net: sockets, and the connections that read and write through them.
pub mod Socket
pub mod Accepter
pub mod Connection
pub mod Poll
pub mod Uring
