-- ===== src/Utils.antt =====
-- src/utils: the check of URLs before they are fetched, and their escapes.
pub mod UrlValidator
pub mod UrlEncoding
