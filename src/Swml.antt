-- ===== src/Swml.antt =====
-- SWML: documents, in include/signalwire/swml, and the service, in src/swml.
pub mod Document
pub mod Service
