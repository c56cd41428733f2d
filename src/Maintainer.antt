-- ===== src/Maintainer.antt =====
-- scripts/verify-maintainer-release.py: the request of a single maintainer to publish version 1.
pub mod Constants
pub mod Inputs
pub mod Lock
pub mod Output
pub mod Intent
pub mod Request
pub mod Numbers
pub mod Locked
pub mod Searches
pub mod Soundness
pub mod Outputs
