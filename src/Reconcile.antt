-- ===== src/Reconcile.antt =====
-- scripts/reconcile-github-release.py: create or resume an immutable GitHub release without
-- overwriting assets. The `Client` protocol is a parameter; its calls are recorded in a trace.
pub mod Client
pub mod Release
pub mod Accepted
pub mod Steps
pub mod Safe
pub mod Binding
pub mod Triple
pub mod Calls
pub mod Verification
pub mod Phases
pub mod Safety
pub mod Assets
pub mod TagProof
pub mod Patterns
pub mod GitHub
pub mod Main
pub mod Settled
pub mod Sorted
pub mod Local
pub mod Script
pub mod ReadBack
pub mod Token
pub mod TokenFree
