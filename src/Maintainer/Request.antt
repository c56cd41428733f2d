-- ===== src/Maintainer/Request.antt =====
-- `positive_run_number`, `verify` and `main`.
use latchway_android.Base.{
  ℕ, String, Bool, not, Option, none, some, List, [], ◌∷◌, ◌||◌, ltb, ◌==◌, digits_value, Result,
  ok, err, reject_if, ◌>>=◌, ◌>>◌,
}
use latchway_android.Disk.{FilePath}
use latchway_android.Regex.{fullmatch}
use latchway_android.Json.{obj}
use latchway_android.Maintainer.Constants.{
  profile, repository, version, release_tag, confirmation, commit_id, run_number,
  maximum_json_safe_integer,
}
use latchway_android.Maintainer.Inputs.{Runtime, git}
use latchway_android.Maintainer.Lock.{contract_lock, verify_android_release_metadata}
use latchway_android.Maintainer.Output.{Place, write_intent, append_outputs}
use latchway_android.Maintainer.Intent.{release_intent}

unfoldable pub positive_run_number : String → Result ℕ
positive_run_number value = do
  reject_if (not (fullmatch run_number value)) "maintainer_release_run_identity_invalid"
  let number = digits_value 0 value
  reject_if (ltb maximum_json_safe_integer number) "maintainer_release_run_identity_invalid"
  ok number

-- The command line.
pub record Arguments : Type 0 where
  pub repository_name : String
  pub profile : String
  pub release_commit : String
  pub release_version : String
  pub workflow_commit : String
  pub workflow_ref : String
  pub run_id : String
  pub run_attempt : String
  pub confirmation : String

-- What the script finds: the name of the repository's directory, its files, and `git`.
pub record Checkout : Type 0 where
  pub root_name : String
  pub files : String → FilePath
  pub run_git : List String → Option String

-- Does the dispatch differ from the one request that the script takes?
unfoldable pub dispatch_differs : String → Arguments → Bool
dispatch_differs root_name a =
    not (root_name == "latchway-android")
    || not (a.repository_name == repository)
    || not (a.profile == profile)
    || not (a.release_version == version)
    || not (a.release_commit == a.workflow_commit)
    || not (fullmatch commit_id a.release_commit)
    || not (a.workflow_ref == "refs/heads/main")
    || not (a.confirmation == confirmation)

-- The outputs of a run, and the path of the intent after it.
pub record Verified : Type 0 where
  pub outputs : List (String × String)
  pub place : Place

module _ (host : Runtime) (checkout : Checkout) where
  unfoldable pub check_worktree : String → Result (Unit {0})
  check_worktree release_commit = do
    head ← git checkout.run_git ("rev-parse" ∷ "--verify" ∷ "HEAD" ∷ [])
    reject_if (not (head == release_commit)) "maintainer_release_commit_mismatch"
    status ← git checkout.run_git ("status" ∷ "--porcelain=v1" ∷ "--untracked-files=all" ∷ [])
    reject_if (not (status == "")) "maintainer_release_worktree_dirty"

  unfoldable pub verify : Arguments → Place → Result Verified
  verify a place = do
    reject_if (dispatch_differs checkout.root_name a) "maintainer_release_dispatch_invalid"
    check_worktree a.release_commit
    contract ← contract_lock host (checkout.files "contract.lock")
    verify_android_release_metadata host checkout.files contract
    run_id ← positive_run_number a.run_id
    run_attempt ← positive_run_number a.run_attempt
    (digest, after) ←
        write_intent host place
          (obj (release_intent a.release_commit a.workflow_ref contract run_id run_attempt))
    ok (record {
      outputs =
          ("commit", a.release_commit)
          ∷ ("core_commit", contract.core_commit)
          ∷ ("core_tag", contract.core_release)
          ∷ ("intent_sha256", digest)
          ∷ ("tag", release_tag)
          ∷ ("version", version)
          ∷ [];
      place = after;
    })

  -- The file of the outputs, if its path is given; `none` inside is one that cannot be opened.
  abbrev append_given : Option (Option String) → Verified → Result Verified × Option (Option String)
  append_given none v = (ok v, none)
  append_given (some file) v =
      let (r, after) = append_outputs file v.outputs in ((do r; ok v), some after)

  abbrev finish :
      Option (Option String) → Result Verified → Result Verified × Option (Option String)
  finish file (err e) = (err e, file)
  finish file (ok v) = append_given file v

  -- Up to the line that is printed.
  unfoldable pub run_script :
      Arguments → Place → Option (Option String) → Result Verified × Option (Option String)
  run_script a place github_output = finish github_output (verify a place)
