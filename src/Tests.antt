-- ===== src/Tests.antt =====
-- Runs at fixed inputs, and the theorems at inputs where their hypotheses hold.
pub mod Canon
pub mod Jmap
pub mod Messages
pub mod Updates
pub mod Folders
pub mod Listing
pub mod Spam
pub mod Scores
pub mod Writer
