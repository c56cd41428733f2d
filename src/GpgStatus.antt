-- ===== src/GpgStatus.antt =====
-- scripts/verify-gpg-status.py: validation of GnuPG's detached-signature status output.
pub mod Text
pub mod Status
pub mod Soundness
