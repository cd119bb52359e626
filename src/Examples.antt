-- ===== src/Examples.antt =====
-- Tests on concrete events, and the theorems applied to them.
pub mod Data
pub mod Folding
mod Quarantining
mod Challenges
mod Polling
mod Recovering
mod Backoff
mod Requests
mod Streaming
mod Looping
mod Querying
mod Lending
