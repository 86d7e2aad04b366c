-- ===== src/Tests.antt =====
-- Runs of the model at inputs that the repository's own tests use, and the witnesses.
pub mod Sample
mod Classification
mod Witnesses
mod Governance
mod Workers
mod Spooling
mod Credentials
mod Contexts
mod Batches
mod Prunes
mod Parsers
mod Outcomes
