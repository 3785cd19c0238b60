-- ===== src/Documents.antt =====
-- The document intake (apps/backend/src/biaice/modules/documents).
pub mod Model
pub mod Intake
pub mod Scanner
pub mod Store
pub mod Upload
pub mod Completion
pub mod Review
pub mod Links
pub mod Parse
pub mod Jobs
pub mod Parts
pub mod Sizes
pub mod Sessions
pub mod Finishing
pub mod Attempts
pub mod JobSteps
pub mod LinkFrames
pub mod Checks
pub mod Slices
pub mod Roundtrip
pub mod Runs
pub mod Guarantees
pub mod Tests
pub mod Uploads
pub mod Released
pub mod Reviewed
