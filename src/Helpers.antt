-- ===== src/Helpers.antt =====
-- The small helpers of api/src/lib: pages, slugs, UUIDs.
pub mod Decimal
pub mod Pagination
pub mod Slug
pub mod Uuid
