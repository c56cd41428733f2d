-- ===== src/CoreRelease.antt =====
-- scripts/verify-public-core-release.py: the evidence directory of the public core release.
pub mod Constants
pub mod Inputs
pub mod Checksums
pub mod Scans
pub mod Candidate
pub mod Record
pub mod Scanned
pub mod Listed
pub mod Soundness
pub mod Accepted
pub mod Verified
