-- ===== src/Dsl.antt =====
-- meta/dsl: the documents that describe a generated template.
pub mod Expression
pub mod Tests
pub mod Fraction
pub mod Evaluation
pub mod Guard
