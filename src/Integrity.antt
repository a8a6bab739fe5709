-- ===== src/Integrity.antt =====
-- What every request keeps true of the tables: the rules on reviewers, the audit log, and the
-- history of merged pull requests.
pub mod Invariant
pub mod Rows
pub mod Batches
pub mod Writes
pub mod Reads
pub mod Storage
pub mod PullRequests
pub mod Candidates
pub mod Checks
pub mod Service
pub mod Assignment
pub mod Deactivation
pub mod Requests
