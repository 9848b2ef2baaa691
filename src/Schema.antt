-- ===== src/Schema.antt =====
-- The package schema.
pub mod Cache
pub mod Comments
pub mod Features
pub mod Oneof
pub mod Validation
