-- ===== src/CoreRelease/Verified.antt =====
-- The theorem on `verify`.
use latchway_android.Base.{String, ◌<>◌, ◌≡◌, inl, inr, true, false, ok, Result-cases, arith}
use latchway_android.Json.{str, Fields, get}
use latchway_android.Json.Laws.{eq_str_iff}
use latchway_android.CoreRelease.Constants.{core_repository, evidence_assets}
use latchway_android.CoreRelease.Inputs.{Runtime, equals, read_json}
use latchway_android.CoreRelease.Checksums.{Directory, verify_checksums}
use latchway_android.CoreRelease.Candidate.{Candidate, verify_candidate}
use latchway_android.CoreRelease.Record.{
  Summary, record_differs, expected_image, expected_claims, expected_release, release_body,
  tag_message, check_run, check_evidence, verify,
}
use latchway_android.CoreRelease.Soundness.{
  IsClosed, AreListed, verify_checksums-IsClosed, check_evidence-AreListed,
}
use latchway_android.CoreRelease.Accepted.{IsCandidate, verify_candidate-IsCandidate}

-- The record names the candidate, its image and its release, and makes none of the claims.
pub record IsRecord (host : Runtime) (directory : Directory) (c : Candidate) (coordinate : String)
    : Type 0 where
  pub document : Fields
  pub read : read_json host (directory.file "latchway-single-maintainer-v1.json") ≡ ok document
  pub commit : get "candidate_commit" document ≡ str c.commit
  pub image : equals (get "image" document) (expected_image c coordinate) ≡ true
  pub claims : equals (get "claims" document) expected_claims ≡ true
  pub release : equals (get "github_release" document) (expected_release c.commit coordinate) ≡ true
  pub assets : AreListed host directory.file (get "assets" document) evidence_assets

-- What an accepted directory establishes for the texts that are given.
pub record IsCoreRelease (host : Runtime) (directory : Directory) (locked_commit : String)
    (s : Summary) : Type 0 where
  pub closed : IsClosed host directory
  pub candidate : Candidate
  pub accepted : IsCandidate host directory.file candidate
  pub recorded : IsRecord host directory candidate s.image
  pub commit : s.candidate_commit ≡ candidate.commit
  pub locked : s.locked_commit ≡ locked_commit
  pub image : s.image ≡ core_repository <> "@" <> candidate.index_digest
  pub body : s.body ≡ release_body candidate.commit s.image
  pub message : s.tag_message ≡ tag_message candidate.commit s.image

record_commit :
    (fs : Fields) (c : Candidate) (coordinate : String)
    → record_differs fs c coordinate ≡ false
    → (get "candidate_commit" fs ≡ str c.commit)
      × (equals (get "image" fs) (expected_image c coordinate) ≡ true)
      × (equals (get "claims" fs) expected_claims ≡ true)
      × (equals (get "github_release" fs) (expected_release c.commit coordinate) ≡ true)
unfolding record_differs
record_commit fs c coordinate h = (
  (eq_str_iff (get "candidate_commit" fs) c.commit).0 (ground arith),
  ground arith,
  ground arith,
  ground arith,
)

module _ (host : Runtime) (directory : Directory) (locked_commit : String) (s : Summary) where
  -- A release directory that is accepted holds exactly the expected plain files with the digests of
  -- SHA256SUMS, a candidate whose artifacts, scans and software lists are in order, and a record of
  -- that candidate that lists every file of the evidence with the digest of its bytes; the texts
  -- that are given name the commit and the image of that candidate.
  pub verify-IsCoreRelease :
      verify host directory locked_commit ≡ ok s → IsCoreRelease host directory locked_commit s
  unfolding verify
  verify-IsCoreRelease h = elim (Result-cases (verify_checksums host directory)) [
    | inr (raised, failed) ↦ absurd (ground arith)
    | inl (done, sums) ↦ elim (Result-cases (verify_candidate host directory.file)) [
      | inr (raised, failed) ↦ absurd (ground arith)
      | inl (c, candidate) ↦
          elim (Result-cases
            (read_json host (directory.file "latchway-single-maintainer-v1.json"))) [
              | inr (raised, failed) ↦ absurd (ground arith)
              | inl (fs, read) ↦ elim (Result-cases (check_run (get "candidate_run" fs))) [
                | inr (raised, failed) ↦ absurd (ground arith)
                | inl (done', run) ↦
                    elim (Result-cases (check_evidence host directory (get "assets" fs))) [
                      | inr (raised, failed) ↦ absurd (ground arith)
                      | inl (done'', assets) ↦
                          let image : s.image ≡ core_repository <> "@" <> c.index_digest =
                            ground arith in
                          let (has_commit, has_image, claims, release) =
                            record_commit fs c (core_repository <> "@" <> c.index_digest)
                              (ground arith) in
                          record {
                            closed = verify_checksums-IsClosed host directory sums;
                            candidate = c;
                            accepted = verify_candidate-IsCandidate host directory.file c candidate;
                            recorded = rw image (record {
                              document = fs;
                              read = read;
                              commit = has_commit;
                              image = has_image;
                              claims = claims;
                              release = release;
                              assets =
                                  check_evidence-AreListed host directory (get "assets" fs) assets;
                            });
                            commit = ground arith;
                            locked = ground arith;
                            image = image;
                            body = ground arith;
                            message = ground arith;
                          }
                    ]
              ]
            ]
    ]
  ]
