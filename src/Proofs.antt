-- ===== src/Proofs.antt =====
-- momoka-node/src/proofs: the checks of a submission.
pub mod ClosestBlock
pub mod Utils
pub mod Publications
pub mod Checker
pub mod Gateways
pub mod Caching
pub mod Verifiers
pub mod Submissions
pub mod Batch
pub mod Clients
