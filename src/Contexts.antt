-- ===== src/Contexts.antt =====
-- Conversation contexts and steps: src/contexts/contexts.cpp and
-- include/signalwire/contexts/contexts.hpp.
pub mod Step
pub mod Context
pub mod Builder
pub mod Rendering
mod Tests
