-- ===== src/Proofs/Publications.antt =====
-- momoka-node/src/proofs/publications: the verifier of each kind of publication.
pub mod Checks
pub mod Base
pub mod Post
pub mod Comment
pub mod Mirror
pub mod Quote
pub mod Verifier
pub mod Events
pub mod Signers
pub mod Pointers
pub mod Comparison
pub mod Simulation
pub mod PostAccepted
pub mod Accepted
