-- ===== src/Util.antt =====
-- The directory util: buffers, streams over them, and the RPC controller.
pub mod Block
pub mod Input
pub mod Output
pub mod Controller
pub mod Queue
