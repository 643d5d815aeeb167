-- ===== src/Dkim.antt =====
-- src/dkimverifier.cpp and src/dkimverifier.h: DKIM and ARC verification.
pub mod Tags
pub mod Canon
pub mod Fields
pub mod Results
pub mod Platform
pub mod Align
pub mod Keys
pub mod Prepare
pub mod Arc
pub mod Verify
