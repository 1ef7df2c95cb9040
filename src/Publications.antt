-- ===== src/Publications.antt =====
-- The publications of data sets (apps/publications): their life cycle, and what their operational state
-- says.
pub mod Models
pub mod Registry
pub mod Store
pub mod Authority
pub mod Source
pub mod Artifacts
pub mod Queue
pub mod Requests
pub mod Bulk
pub mod Claim
pub mod Build
pub mod Finalize
pub mod Restore
pub mod Review
pub mod Retention
pub mod Changes
pub mod Leads
pub mod Invariant
pub mod System
pub mod State
mod Tests
