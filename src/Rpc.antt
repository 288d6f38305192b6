-- ===== src/Rpc.antt =====
-- The directories server and client: messages on a connection, and the two ends.
pub mod Codec
pub mod Stream
pub mod Server
pub mod Client
pub mod Sending
pub mod Exchange
