-- ===== src/Careers.antt =====
-- The careers module: job postings, applications and their status pipeline.
pub mod Status
pub mod State
pub mod Posting
pub mod CustomFields
pub mod ApplicantToken
pub mod Application
pub mod Pipeline
mod Tests
