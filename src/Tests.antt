-- ===== src/Tests.antt =====
-- The theorems at concrete inputs, and runs of the models.
mod Handler
mod Names
mod Cache
mod Gateway
mod Peers
mod Rules
pub mod Chains
mod Routes
mod Relays
pub mod Config
mod Updates
mod Nft
