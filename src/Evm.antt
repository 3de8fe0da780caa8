-- ===== src/Evm.antt =====
-- momoka-node/src/evm: what the proofs ask of an Ethereum node, and how it is answered.
mod Types
mod Interfaces
pub mod JsonRpc
pub mod Node
pub mod Gateways
pub mod Anvil
pub mod Resolves
pub use Types.*
pub use Interfaces.*
