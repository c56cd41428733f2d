-- ===== src/Central.antt =====
-- scripts/central-deployment-record.py: the upload intent, the deployment record and its status for
-- Maven Central.
pub mod Paths
pub mod Inputs
pub mod Archives
pub mod Intents
pub mod Records
pub mod Statuses
pub mod Listing
pub mod Commands
pub mod Selection
pub mod Complete
pub mod Adoption
