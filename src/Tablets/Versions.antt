-- ===== src/Tablets/Versions.antt =====
-- Application versions and builds as text (apps/tablets/versions.py), and Python's decimal
-- numerals, which they and the asset numbers are written in.
pub mod Decimal
pub mod Parse
