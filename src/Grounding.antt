-- ===== src/Grounding.antt =====
-- backend/app/pipeline/grounding.py: which phrases of a template's parameters stand in the source text.
-- The canonical keys of tokens are only compared, so they are numbers.
pub mod Phrases
pub mod Explored
pub mod Maximum
pub mod Steps
pub mod Tests
