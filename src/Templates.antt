-- ===== src/Templates.antt =====
-- backend/app/templates: the parameters of the static templates, their guards and their answers.
pub mod Chain
pub mod NumberLine
pub mod ArrayGrid
pub mod Tests
