-- ===== src/Tablets.antt =====
-- Tablets: registration, adoption, check-in and the asset life cycle
-- (apps/tablets/services.py, apps/tablets/models.py, apps/tablets/versions.py).
pub mod Models
pub mod Versions
pub mod Store
pub mod Reads
pub mod Access
pub mod Guards
pub mod Registration
pub mod Lifecycle
pub mod Rows
pub mod Challenge
pub mod Adoption
pub mod CheckIn
pub mod Invariant
pub mod System
pub mod Tests
