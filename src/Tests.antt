-- ===== src/Tests.antt =====
-- Runs of the model on concrete data: each theorem with hypotheses is applied where they hold.
pub mod Data
pub mod Accounts
pub mod Buffers
pub mod Sharing
pub mod Sessions
pub mod Requests
pub mod Output
pub mod Clients
pub mod Peers
pub mod Runs
