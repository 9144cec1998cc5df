-- ===== src/Storyboard.antt =====
-- routes.py, session.py (the scenes of `Session`) and models/scene.py: the scenes that a teacher
-- reviews. Ids, templates, parameters, answers and paths are only compared, so they are numbers. The
-- dictionary `session.scenes` is a list of scenes, each under its own id; a raised HTTPException is its
-- status code. What the templates' parameter classes do is the record `Templates`.
pub mod Scenes
pub mod Review
pub mod Render
pub mod Chain
pub mod Requests
pub mod Build
pub mod Retry
pub mod Claims
pub mod Tests
