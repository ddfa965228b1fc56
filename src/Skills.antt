-- ===== src/Skills.antt =====
-- The skills of src/skills: the manager, and the evaluator of the math skill.
pub mod Math
pub mod Manager
mod Tests
