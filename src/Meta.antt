-- ===== src/Meta.antt =====
-- backend/app/meta: the template workshop's database, its job queue and its review actions.
pub mod Models
pub mod Jobs
pub mod ReviewActions
pub mod Approval
pub mod Promotion
pub mod Observations
pub mod Tests
pub mod FixtureMutation
pub mod Revalidation
