-- ===== src/Steps.antt =====
-- engine/internal/steps: the step types and what they run on.
pub mod Js
pub mod Registry
