-- ===== src/Models.antt =====
-- The data models of momoka-node/src/data-availability-models: results, validator errors, and the
-- publications that a submission carries.
pub mod Errors
mod Results
pub mod Chain
mod Values
mod Events
mod TypedData
mod Publications
pub use Errors.{MomokaValidatorError}
unfoldable pub use Results.*
unfoldable pub use Values.*
pub use Events.*
pub use TypedData.*
pub use Publications.*
