-- ===== src/Promotion/Soundness.antt =====
-- What a successful `verify` establishes.
use latchway_android.Base.{
  ℕ, ◌+◌, ◌≤◌, ◌<◌, ◌<>◌, String, ◌≡◌, inl, inr, true, false, List, [], ◌∷◌, arith, member,
  same_set, ok, Result-cases,
}
use latchway_android.Json.{arr, Items, items, Fields, get}
use latchway_android.Promotion.Constants.{promotion_domains, repository_ids, maximum_age}
use latchway_android.Promotion.Report.{validate_contract, validate_window}
use latchway_android.Promotion.Report.Window.{
  IsContract, IsWindow, IsTime, validate_contract_iff, validate_window_iff,
}
use latchway_android.Promotion.Report.Domains.Collected.{Holds}
use latchway_android.Promotion.Report.Domains.Evidence.{IsEvidence, validate_domains_sound}
use latchway_android.Promotion.Report.Checks.Coverage.{IsChecked, validate_checks_sound}
use latchway_android.Promotion.Files.{Runtime, sha256_file, load_json, local_version, git}
use latchway_android.Promotion.{
  Request, Environment, Output, check_report, check_worktree, dispatch_invalid, expected_url,
  verify,
}
use latchway_android.Promotion.Bound.{IsBound, repositories_sound}

-- What the published coordinates are bound to.
pub record IsPromoted (host : Runtime) (env : Environment) (q : Request) (o : Output) : Type 0 where
  pub output : o ≡ record {
    release_commit = q.repository_commit;
    release_tag = q.repository_tag;
    release_version = q.repository_version;
    core_tag = q.core_tag;
    oci_image_digest = q.oci_image_digest;
    report_sha256 = q.report_sha256;
  }
  pub same_commit : q.workflow_commit ≡ q.repository_commit
  pub tagged : q.repository_tag ≡ "v" <> q.repository_version
  pub published_at : q.report_url ≡ expected_url q.core_tag
  pub report_bytes : sha256_file host env.report ≡ ok q.report_sha256
  pub head : git env.run_git ("rev-parse" ∷ "--verify" ∷ "HEAD" ∷ []) ≡ ok q.repository_commit
  pub clean : git env.run_git ("status" ∷ "--porcelain=v1" ∷ "--untracked-files=all" ∷ []) ≡ ok ""
  pub sources : local_version host env.tree q.repository_id ≡ ok q.repository_version
  pub report : Fields
  pub read : load_json host env.report ≡ ok report
  pub released_at : ℕ
  pub contract : IsContract (get "contract" report) q.core_tag q.oci_image_digest q.now released_at
  pub bound : IsBound (get "repositories" report) q
  pub started : ℕ
  pub finished : ℕ
  pub window : IsWindow (get "evidence_window" report) released_at q.now started finished
  pub evidence : IsEvidence (get "evidence_domains" report) started finished q.oci_image_digest
  pub checked : IsChecked (get "checks" report)

record ReportSound (order : List String) (report : Fields) (q : Request) : Type 0 where
  released_at : ℕ
  contract : IsContract (get "contract" report) q.core_tag q.oci_image_digest q.now released_at
  bound : IsBound (get "repositories" report) q
  started : ℕ
  finished : ℕ
  window : IsWindow (get "evidence_window" report) released_at q.now started finished
  evidence : IsEvidence (get "evidence_domains" report) started finished q.oci_image_digest
  checked : IsChecked (get "checks" report)

report_sound :
    (order : List String) (report : Fields) (q : Request)
    → same_set order promotion_domains ≡ true
    → member q.repository_id repository_ids ≡ true
    → check_report order report q ≡ ok tt
    → ReportSound order report q
unfolding check_report
report_sound order report q ordered known h =
    elim (Result-cases
      (validate_contract (get "contract" report) q.core_tag q.oci_image_digest q.now)) [
        | inl ((released_at, fs), contracted) ↦
            elim (Result-cases (validate_window (get "evidence_window" report) released_at q.now)) [
              | inl ((started, finished), windowed) ↦ record {
                released_at = released_at;
                contract =
                    (validate_contract_iff q.core_tag q.oci_image_digest q.now
                        (get "contract" report) released_at).0
                      (fs, contracted);
                bound = repositories_sound (get "repositories" report) q (ground arith) known;
                started = started;
                finished = finished;
                window =
                    (validate_window_iff (get "evidence_window" report) released_at q.now started
                        finished).0
                      windowed;
                evidence =
                    validate_domains_sound order started finished q.oci_image_digest
                      (get "evidence_domains" report) ordered (ground arith);
                checked = validate_checks_sound (get "checks" report) (ground arith);
              }
              | inr (e, failed) ↦ absurd (ground arith)
            ]
        | inr (e, failed) ↦ absurd (ground arith)
      ]

worktree_sound :
    (host : Runtime) (env : Environment) (q : Request)
    → check_worktree host env q ≡ ok tt
    → (git env.run_git ("rev-parse" ∷ "--verify" ∷ "HEAD" ∷ []) ≡ ok q.repository_commit)
      × (git env.run_git ("status" ∷ "--porcelain=v1" ∷ "--untracked-files=all" ∷ []) ≡ ok "")
      × (local_version host env.tree q.repository_id ≡ ok q.repository_version)
unfolding check_worktree
worktree_sound host env q h = ground arith

-- The identifiers that `verify` admits are among those of the report.
published_ids :
    (k : String)
    → member k ("javascript" ∷ "ios" ∷ "android" ∷ "react_native" ∷ []) ≡ true
    → member k repository_ids ≡ true
unfolding member
published_ids k h = ground arith

IsPromoted-at :
    (host : Runtime) (env : Environment) (q : Request) (o : Output) (report : Fields)
    (digest : String)
    → same_set env.order promotion_domains ≡ true
    → sha256_file host env.report ≡ ok digest
    → load_json host env.report ≡ ok report
    → check_worktree host env q ≡ ok tt
    → check_report env.order report q ≡ ok tt
    → verify host env q ≡ ok o
    → IsPromoted host env q o
unfolding verify
IsPromoted-at host env q o report digest ordered hashed read worktree reported h =
    let known : member q.repository_id repository_ids ≡ true =
      published_ids q.repository_id (ground arith) in
    let valid : dispatch_invalid q ≡ false = ground arith in
    let r = report_sound env.order report q ordered known reported in
    let (head, clean, sources) = worktree_sound host env q worktree in
    record {
      output = ground arith;
      same_commit = unfold dispatch_invalid in ground arith;
      tagged = unfold dispatch_invalid in ground arith;
      published_at = ground arith;
      report_bytes = ground arith;
      head = head;
      clean = clean;
      sources = sources;
      report = report;
      read = read;
      released_at = r.released_at;
      contract = r.contract;
      bound = r.bound;
      started = r.started;
      finished = r.finished;
      window = r.window;
      evidence = r.evidence;
      checked = r.checked;
    }

-- A publication that `verify` lets pass is the checked-out, clean commit of the dispatch, and the
-- report whose digest was given binds it, with the contract, the evidence window, every evidence
-- domain and the checks accepted.
pub verify_sound :
    (host : Runtime) (env : Environment) (q : Request) (o : Output)
    → same_set env.order promotion_domains ≡ true
    → verify host env q ≡ ok o
    → IsPromoted host env q o
unfolding verify
verify_sound host env q o ordered h = elim (Result-cases (sha256_file host env.report)) [
  | inl (digest, hashed) ↦ elim (Result-cases (load_json host env.report)) [
    | inl (report, read) ↦
        IsPromoted-at host env q o report digest ordered hashed read (ground arith) (ground arith) h
    | inr (e, failed) ↦ absurd (ground arith)
  ]
  | inr (e, failed) ↦ absurd (ground arith)
]

-- When `verify` lets a publication pass, the list of evidence domains of the report holds each
-- promotion domain, with evidence that began within the seven days before the run and ended,
-- later than it began, no later than the run.
pub verify_recent :
    (host : Runtime) (env : Environment) (q : Request) (o : Output) (k : String)
    → same_set env.order promotion_domains ≡ true
    → verify host env q ≡ ok o
    → member k promotion_domains ≡ true
    → (report : Fields) × (xs : Items) × (fs : Fields) × (s : ℕ) × (f : ℕ) × (load_json host
          env.report
        ≡ ok report)
      × (get "evidence_domains" report ≡ arr xs)
      × Holds k (items xs) fs
      × IsTime (get "started_at" fs) s
      × IsTime (get "finished_at" fs) f
      × (q.now ≤ s + maximum_age)
      × (s < f)
      × (f ≤ q.now)
verify_recent host env q o k ordered h m =
    let p = verify_sound host env q o ordered h in
    let (fs, s, f, holds, passed) = p.evidence.passed k m in
    let c = p.contract in
    let w = p.window in
    (
      p.report,
      p.evidence.list,
      fs,
      s,
      f,
      p.read,
      p.evidence.is_list,
      holds,
      passed.starts,
      passed.finishes,
      omega arith,
      omega arith,
      omega arith,
    )
