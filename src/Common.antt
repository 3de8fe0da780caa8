-- ===== src/Common.antt =====
-- momoka-node/src/common and momoka-node/src/utils.
mod Environments
mod Helpers
mod Arrays
pub mod Retry
pub mod Chunks
unfoldable pub use Environments.*
unfoldable pub use Helpers.*
unfoldable pub use Arrays.*
