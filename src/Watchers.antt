-- ===== src/Watchers.antt =====
-- momoka-node/src/watchers: the loops of the program, a round at a time.
pub mod Pages
pub mod Verifier
pub mod Progress
pub mod Startup
pub mod CatchUp
pub mod Failed
pub mod Indexer
pub mod Streaming
