-- ===== src/Rest.antt =====
-- The REST client, src/rest.
pub mod Pagination
mod Tests
