-- ===== src/Store.antt =====
-- store.py: the durable store of projects, questions, artifacts, activities and events.
pub mod Models
pub mod Events
pub mod Questions
pub mod Leases
pub mod Evidence
pub mod Activities
pub mod Keeps
pub mod Chain
pub mod Runs
pub mod Cited
pub mod CitedRuns
pub mod Rows
pub mod Exclusive
pub mod Transitions
pub mod Claims
pub mod Texts
pub mod Samples
pub mod ClaimSamples
