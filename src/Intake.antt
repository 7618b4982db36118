-- ===== src/Intake.antt =====
-- How uploaded bytes become assets: the publication of a staged file, the ingestion of its row, and
-- the resumable uploads that call both.
pub mod Publish
pub mod Ingestion
pub mod Uploads
