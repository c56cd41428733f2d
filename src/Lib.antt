-- ===== src/Lib.antt =====
-- The release tooling of the Latchway Android SDK: the Python scripts under scripts/ that decide
-- whether a version may be published, and that record how it was.
--
-- The parts and how they work together. A promotion report of the Latchway core names the commits,
-- versions and evidence on which the SDKs may be released; scripts/verify-release-promotion.py
-- holds a publication against it. scripts/verify-gpg-status.py decides whether a detached
-- signature is the maintainer's. scripts/central-deployment-record.py keeps the upload intent, the
-- deployment record and the deployment status of a Maven Central publication, each bound to the
-- hash of the one before. scripts/reconcile-github-release.py creates or resumes the GitHub
-- release of the tag, and scripts/verify-github-release-attestation.py holds the attestation that
-- GitHub gives for that release against the tag. scripts/verify-osv-report.py enforces the severity
-- policy on a vulnerability report, and scripts/verify-gateway-deployment.py accepts the signed
-- statement about a gateway on which evidence from devices is collected.
-- scripts/verify-maintainer-release.py accepts the request of a single maintainer and writes its
-- intent, and scripts/verify-public-core-release.py accepts the evidence directory of the core
-- release on which that request rests.
--
-- Files and parts:
--   * Promotion: scripts/verify-release-promotion.py. `verify`, `main` and the checks on the
--     worktree and the repositories are in Promotion, the reads in Promotion/Files, the
--     coordinates, the contract and the window in Promotion/Report, `validate_domains` in
--     Promotion/Report/Domains, `validate_checks` in Promotion/Report/Checks. A set's order of
--     iteration is the argument `order`, for any order of the members.
--   * Reconcile: scripts/reconcile-github-release.py. `Client` is the class's protocol as a record
--     of calls on a remote state that may change in any way; each call is recorded as an `Event`.
--     Reconcile/Release holds `validate_release`, Reconcile/Steps the loops and `reconcile`,
--     Reconcile/Assets `inspect_assets`, Reconcile/TagProof the proof of the tag's binding,
--     Reconcile/Patterns and Reconcile/GitHub `GitHubClient` over a process `gh` that may change
--     its state in any way, Reconcile/Main the tests of the arguments and `main`. Reconcile/Safe,
--     Accepted, Binding, Triple, Calls, Verification, Phases, Safety, Settled, Sorted, Local,
--     Script, ReadBack, Token and TokenFree are proofs.
--   * GpgStatus: scripts/verify-gpg-status.py. GpgStatus/Text holds the `str` methods, GpgStatus/Status
--     `_bounded_text` and `validate`, with one helper for each part of the body.
--   * Central: scripts/central-deployment-record.py. Central/Paths holds the coordinates and paths,
--     Central/Inputs the patterns and the reads, Central/Archives `repository_manifest` and
--     `validate_archive`, Central/Intents the upload intent, Central/Records the deployment record,
--     Central/Statuses the deployment status, Central/Listing `select_deployment`, and
--     Central/Commands `write_no_clobber` and `main`.
--   * Attestation: scripts/verify-github-release-attestation.py.
--   * Osv: scripts/verify-osv-report.py. Osv/Evidence holds the counts and the evidence
--     file, with each call of the system that writes it as a step that may fail.
--   * Gateway: scripts/verify-gateway-deployment.py. Gateway/Inputs holds the reads and the JSON hooks,
--     Gateway/Origin `canonical_origin`, Gateway/Clients `validate_client`, Gateway/Statement
--     `validate_statement`, Gateway/Signature `verify_signature`, and Gateway `main`.
--   * Maintainer: scripts/verify-maintainer-release.py. Maintainer/Lock holds `contract_lock` and the
--     searches in source and changelog, Maintainer/Output the files that are written,
--     Maintainer/Intent the document, Maintainer/Request `verify` and `main`.
--   * CoreRelease: scripts/verify-public-core-release.py. CoreRelease/Checksums, Scans, Candidate and
--     Record hold the functions of these names, Record `verify`.
--   * Base, Regex, Json, Clock and Disk: exceptions as values, `fullmatch` by derivatives,
--     the values of `json.loads` with Python's tests on them, `strptime` and differences of times,
--     and what `lstat` and a read find at a path.
--   * Tests: each model run at concrete inputs.
--
-- Parameters: hashing, UTF-8 and ASCII decoding, JSON decoding and printing, base 64, `git`, `gh`,
-- the `zipfile` module and the remote repository. They are arbitrary functions; what a theorem
-- assumes of one of them is a hypothesis of that theorem. A file has the same contents whenever
-- one run reads it. An exception is an `Error`; where a handler does not name a class the error
-- passes through it. Numbers are natural numbers without a bound, as in Python. Every loop is
-- structural recursion on a list; `decimal` alone takes fuel, five digits for a port, which
-- `urlsplit` holds below 65536.
--
-- Not modelled: argparse, the texts of messages beyond what tells the rejections apart, what the
-- programs `gh` and `git` do, the other Python scripts under scripts/ (device-evidence.py,
-- build_docs_bundle.py, require-gh-version.py, run-offline-release-tests.py and the tests), the
-- shell scripts, and the Kotlin modules latchway-core, latchway-okhttp, latchway-play-integrity
-- and latchway-firebase-auth with their samples.
pub mod Base
pub mod Regex
pub mod Json
pub mod Clock
pub mod Disk
pub mod Promotion
pub mod Reconcile
pub mod GpgStatus
pub mod Central
pub mod Attestation
pub mod Osv
pub mod Gateway
pub mod Maintainer
pub mod CoreRelease
mod Tests
