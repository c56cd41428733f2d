-- ===== src/Maintainer/Soundness.antt =====
-- What a successful run shows.
use latchway_android.Base.{
  ℕ, ◌≤◌, String, ◌<>◌, ◌≡◌, refl, inl, inr, true, some, List, [], ◌∷◌, strip, ok, Result-cases,
  Option-cases, Option, false, ◌<>◌, arith,
}
use latchway_android.Regex.{fullmatch}
use latchway_android.Json.{Json, obj}
use latchway_android.Maintainer.Constants.{
  profile, repository, version, release_tag, confirmation, commit_id, maximum_json_safe_integer,
}
use latchway_android.Maintainer.Inputs.{Runtime, git}
use latchway_android.Maintainer.Lock.{Contract, contract_lock, verify_android_release_metadata}
use latchway_android.Maintainer.Output.{Place, write_intent}
use latchway_android.Maintainer.Intent.{release_intent}
use latchway_android.Maintainer.Request.{
  Arguments, Checkout, Verified, dispatch_differs, check_worktree, positive_run_number, verify,
}
use latchway_android.Maintainer.Numbers.{positive_run_number-le}
use latchway_android.Maintainer.Searches.{IsDeclared, metadata-IsDeclared}
use latchway_android.Maintainer.Locked.{IsLockFile, contract_lock-IsLockFile}

-- The dispatch is the one request that the script takes.
pub record IsDispatch (root_name : String) (a : Arguments) : Type 0 where
  pub root : root_name ≡ "latchway-android"
  pub same_repository : a.repository_name ≡ repository
  pub same_profile : a.profile ≡ profile
  pub same_version : a.release_version ≡ version
  pub same_commit : a.release_commit ≡ a.workflow_commit
  pub commit_shape : fullmatch commit_id a.release_commit ≡ true
  pub from_main : a.workflow_ref ≡ "refs/heads/main"
  pub confirmed : a.confirmation ≡ confirmation

-- Git shows the commit at the head of a worktree with no change.
pub record IsCheckedOut (run_git : List String → Option String) (commit : String) : Type 0 where
  pub head : String
  pub has_head : run_git ("rev-parse" ∷ "--verify" ∷ "HEAD" ∷ []) ≡ some head
  pub is_commit : strip head ≡ commit
  pub status : String
  pub has_status :
      run_git ("status" ∷ "--porcelain=v1" ∷ "--untracked-files=all" ∷ []) ≡ some status
  pub clean : strip status ≡ ""

git-some :
    (run : List String → Option String) (line : List String) (text : String)
    → git run line ≡ ok text
    → (stdout : String) × (run line ≡ some stdout) × (strip stdout ≡ text)
unfolding git
git-some run line text h = elim (Option-cases (run line)) [
  | inl absent ↦ absurd (ground arith)
  | inr (stdout, found) ↦ (stdout, found, ground arith)
]

dispatch_differs-IsDispatch :
    (root_name : String) (a : Arguments)
    → dispatch_differs root_name a ≡ false
    → IsDispatch root_name a
unfolding dispatch_differs
dispatch_differs-IsDispatch root_name a h = record {
  root = ground arith;
  same_repository = ground arith;
  same_profile = ground arith;
  same_version = ground arith;
  same_commit = ground arith;
  commit_shape = ground arith;
  from_main = ground arith;
  confirmed = ground arith;
}

module _ (host : Runtime) (checkout : Checkout) where
  check_worktree-IsCheckedOut :
      (commit : String)
      → check_worktree host checkout commit ≡ ok tt
      → IsCheckedOut checkout.run_git commit
  unfolding check_worktree
  check_worktree-IsCheckedOut commit h =
      elim (Result-cases (git checkout.run_git ("rev-parse" ∷ "--verify" ∷ "HEAD" ∷ []))) [
        | inr (e, failed) ↦ absurd (ground arith)
        | inl (head, first) ↦
            elim (Result-cases
              (git checkout.run_git ("status" ∷ "--porcelain=v1" ∷ "--untracked-files=all" ∷ []))) [
                | inr (e, failed) ↦ absurd (ground arith)
                | inl (status, second) ↦
                    let (head_text, has_head, is_head) = git-some checkout.run_git _ head first in
                    let (status_text, has_status, is_status) =
                      git-some checkout.run_git _ status second in
                    record {
                      head = head_text;
                      has_head = has_head;
                      is_commit = ground arith;
                      status = status_text;
                      has_status = has_status;
                      clean = ground arith;
                    }
              ]
      ]

-- The intent that stands at the path, and the outputs, name the same request.
pub record IsRequested (host : Runtime) (checkout : Checkout) (a : Arguments) (place : Place)
    (v : Verified) : Type 0 where
  pub dispatch : IsDispatch checkout.root_name a
  pub checked_out : IsCheckedOut checkout.run_git a.release_commit
  pub contract : Contract
  pub lock : IsLockFile host (checkout.files "contract.lock") contract
  pub declared : IsDeclared host checkout.files
  pub run_id : ℕ
  pub same_run : positive_run_number a.run_id ≡ ok run_id
  pub run_bounds : (1 ≤ run_id) × (run_id ≤ maximum_json_safe_integer)
  pub run_attempt : ℕ
  pub same_attempt : positive_run_number a.run_attempt ≡ ok run_attempt
  pub attempt_bounds : (1 ≤ run_attempt) × (run_attempt ≤ maximum_json_safe_integer)
  pub payload : List ℕ
  pub is_payload :
      payload
      ≡ host.encode (
          host.dumps
            (obj (release_intent a.release_commit a.workflow_ref contract run_id run_attempt))
          <> "\n")
  pub written : v.place.bytes ≡ some payload
  pub plain : v.place.symlink ≡ false
  pub outputs :
      v.outputs
      ≡ ("commit", a.release_commit)
        ∷ ("core_commit", contract.core_commit)
        ∷ ("core_tag", release_tag)
        ∷ ("intent_sha256", host.sha256 payload)
        ∷ ("tag", release_tag)
        ∷ ("version", version)
        ∷ []

-- What `write_intent` leaves where it does not fail.
write_intent-ok :
    (host : Runtime) (place after : Place) (value : Json) (digest : String)
    → write_intent host place value ≡ ok (digest, after)
    → (after.bytes ≡ some (host.encode (host.dumps value <> "\n")))
      × (after.symlink ≡ false)
      × (digest ≡ host.sha256 (host.encode (host.dumps value <> "\n")))
unfolding write_intent
write_intent-ok host place after value digest h = ground arith

-- A request that is accepted is the one dispatch that the script takes, for the commit at the head
-- of an unchanged worktree, with a well-formed contract.lock, both version constants in the source
-- and a heading in the changelog; the intent that is left at the path is the document of exactly this
-- request, and the outputs name the same commit, core commit and digest of those bytes.
pub verify-IsRequested :
    (host : Runtime) (checkout : Checkout) (a : Arguments) (place : Place) (v : Verified)
    → verify host checkout a place ≡ ok v
    → IsRequested host checkout a place v
unfolding verify
verify-IsRequested host checkout a place v h =
    elim (Result-cases (check_worktree host checkout a.release_commit)) [
      | inr (e, failed) ↦ absurd (ground arith)
      | inl (done, clean) ↦
          elim (Result-cases (contract_lock host (checkout.files "contract.lock"))) [
            | inr (e, failed) ↦ absurd (ground arith)
            | inl (contract, lock) ↦
                elim (Result-cases (verify_android_release_metadata host checkout.files contract)) [
                  | inr (e, failed) ↦ absurd (ground arith)
                  | inl (declared, metadata) ↦ elim (Result-cases (positive_run_number a.run_id)) [
                    | inr (e, failed) ↦ absurd (ground arith)
                    | inl (run_id, run) ↦ elim (Result-cases (positive_run_number a.run_attempt)) [
                      | inr (e, failed) ↦ absurd (ground arith)
                      | inl (run_attempt, attempt) ↦
                          elim (Result-cases (
                            write_intent host place (
                              obj (
                                release_intent a.release_commit a.workflow_ref contract run_id
                                  run_attempt)))) [
                                    | inr (e, failed) ↦ absurd (ground arith)
                                    | inl ((digest, after), wrote) ↦
                                        let lock_file =
                                          contract_lock-IsLockFile host
                                            (checkout.files "contract.lock") contract lock in
                                        let (bytes, plain, is_digest) =
                                          write_intent-ok host place after _ digest wrote in
                                        record {
                                          dispatch =
                                              dispatch_differs-IsDispatch checkout.root_name a
                                                (ground arith);
                                          checked_out =
                                              check_worktree-IsCheckedOut host checkout
                                                a.release_commit clean;
                                          contract = contract;
                                          lock = lock_file;
                                          declared =
                                              metadata-IsDeclared host checkout.files contract
                                                metadata;
                                          run_id = run_id;
                                          same_run = run;
                                          run_bounds = positive_run_number-le a.run_id run_id run;
                                          run_attempt = run_attempt;
                                          same_attempt = attempt;
                                          attempt_bounds =
                                              positive_run_number-le a.run_attempt run_attempt
                                                attempt;
                                          payload = _;
                                          is_payload = refl;
                                          written = ground arith;
                                          plain = ground arith;
                                          outputs = ground (arith, lock_file.lock.release_is);
                                        }
                                  ]
                    ]
                  ]
                ]
          ]
    ]
