-- ===== src/SessionStore.antt =====
-- backend/app/session.py: the per-process store of sessions, clips and thumbnails.
pub mod Registry
pub mod Sweeps
pub mod Disk
pub mod Operations
pub mod Bytes
pub mod Shrink
pub mod Caps
pub mod Reach
pub mod Files
pub mod Safety
pub mod Budget
pub mod Tests
