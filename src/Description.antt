-- ===== src/Description.antt =====
-- src/description/mod.rs: reading media sections and writing session descriptions.
pub mod Read
pub mod Write
pub mod Answers
pub mod Fingerprint
