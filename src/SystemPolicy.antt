-- ===== src/SystemPolicy.antt =====
-- internal/systempolicy/catalog.go: the templates of system policies, their validation, and the
-- catalog that is loaded from the embedded files.
pub mod Template
pub mod Sound
pub mod Catalog
pub mod Loaded
