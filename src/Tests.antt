-- ===== src/Tests.antt =====
-- Runs of the program on concrete data: every property's hypotheses hold somewhere.
pub mod Samples
mod Helpers
mod Publications
mod Checker
mod Pools
mod Databases
mod Networks
mod Batches
mod Nodes
mod Indexers
