-- ===== src/Swaig.antt =====
-- The tools that a model may call: src/swaig and src/datamap.
pub mod FunctionResult
pub mod ToolDefinition
pub mod DataMap
mod Tests
