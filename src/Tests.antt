-- ===== src/Tests.antt =====
-- Runs of the models at concrete data, and the theorems at inputs that meet their hypotheses.
mod Promotion
mod Reconcile
mod Local
mod Script
mod Token
mod GpgStatus
mod Central
mod Attestation
mod Osv
mod Gateway
mod Maintainer
mod CoreRelease
