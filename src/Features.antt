-- ===== src/Features.antt =====
-- backend/src/features: the context of a bar, the store of feature sets, and the builder.
pub mod Config
pub mod Context
pub mod Store
pub mod Builder
pub mod Stored
