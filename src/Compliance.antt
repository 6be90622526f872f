-- ===== src/Compliance.antt =====
-- compliance: rules as data, their findings, and the evaluator that turns published observations into
-- findings.
pub mod Value
pub mod Document
pub mod Finding
pub mod Assess
pub mod Evaluator
pub mod Total
pub mod Kleene
pub mod Grounds
pub mod Runs
mod Tests
