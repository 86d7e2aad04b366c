-- ===== src/Spool.antt =====
-- cmd/mutation_audit.go: the records of mutations, and the directory that keeps the outcomes which the
-- audit log did not take.
pub mod Records
pub mod Outcomes
pub mod Names
pub mod Queue
pub mod Replay
pub mod Transactions
