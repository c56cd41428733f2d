-- ===== src/Reconcile/Script.antt =====
-- The whole script: what a final run that succeeds has checked, done and left.
use latchway_android.Base.{
  ℕ, String, ◌<>◌, ◌≡◌, refl, ◌∙◌, inl, inr, ◌⊎◌, Bool, true, false, Option, some, List, [], ◌∷◌,
  ok, Result-cases, Option-cases, Bool-cases, arith, ◌||◌, ◌&&◌, ◌==◌, ==_iff, not, any, map, codes,
  length, ltb, member, distinct, has_char,
}
use latchway_android.Disk.{FilePath}
use latchway_android.Json.{obj}
use latchway_android.Gateway.Inputs.{same_bytes}
use latchway_android.Regex.{fullmatch}
use latchway_android.Reconcile.Client.{TagBinding, Client, State}
use latchway_android.Reconcile.Steps.{Request, reconcile, asset_names, expected_names}
use latchway_android.Reconcile.Assets.{unsafe_name, inspect_assets}
use latchway_android.Reconcile.TagProof.{
  Runtime, Output, load_tag_message, tag_binding_payload, write_tag_binding,
}
use latchway_android.Reconcile.Patterns.{commit_id}
use latchway_android.Reconcile.Main.{
  Arguments, Outcome, is_given, repository_pattern, release_tag_pattern, finish, check_arguments,
  earlier_object, prepare_request, write_proof, run_script,
}
use latchway_android.Reconcile.Safe.{IsSafe, IsExpected}
use latchway_android.Reconcile.Phases.{IsPublished}
use latchway_android.Reconcile.Safety.{reconcile-IsSafe, reconcile-IsPublished}
use latchway_android.Reconcile.Local.{AreSafe, inspect_assets-AreSafe}

-- The bytes of the durable proof of a binding.
abbrev pub proof_bytes : Runtime → TagBinding → List ℕ
proof_bytes host b = host.encode (host.dumps (obj (tag_binding_payload host b)) <> "\n")

same_bytes-eq : (bs cs : List ℕ) → same_bytes bs cs ≡ true → bs ≡ cs
unfolding same_bytes
same_bytes-eq [] [] h = refl
same_bytes-eq [] (c ∷ cs) h = cc
same_bytes-eq (b ∷ bs) [] h = cc
same_bytes-eq (b ∷ bs) (c ∷ cs) h = ground (arith, same_bytes-eq bs cs)

empty_or : (names : List String) → (names ≡ []) ⊎ (is_given names ≡ true)
empty_or [] = inl refl
empty_or (name ∷ names) = inr refl

write_tag_binding-bytes :
    (host : Runtime) (output after : Output) (b : TagBinding)
    → write_tag_binding host output b ≡ ok after
    → after.bytes ≡ some (proof_bytes host b)
unfolding write_tag_binding
write_tag_binding-bytes host output after b h = elim (Bool-cases output.exists) [
  | inr fresh ↦ ground arith
  | inl there ↦ elim (Option-cases output.bytes) [
    | inl unreadable ↦ absurd (ground arith)
    | inr (bytes, found) ↦
        let same : bytes ≡ proof_bytes host b =
          same_bytes-eq bytes (proof_bytes host b) (ground arith) in
        let kept : after ≡ output = ground arith in rw kept (rw same at found)
  ]
]

-- The arguments are those of a release: the repository, the tag and the commit in their forms, a
-- title of one line, allowed names and a guard only in a run for drafts, where the names are safe
-- and different and the guard is one of the local files.
pub record IsWellFormed (a : Arguments) : Type 0 where
  pub repository : fullmatch repository_pattern a.repository ≡ true
  pub tag : fullmatch release_tag_pattern a.tag ≡ true
  pub commit : fullmatch commit_id a.expected_commit ≡ true
  pub some_title : (a.title == "") ≡ false
  pub no_line_feed : has_char 10 a.title ≡ false
  pub no_carriage_return : has_char 13 a.title ≡ false
  pub safe_names :
      any (λ name. unsafe_name name || ltb 255 (length (codes name))) a.allowed_asset_names ≡ false
  pub names_differ : distinct a.allowed_asset_names ≡ true
  pub names_in_draft : (a.draft_only ≡ true) ⊎ (a.allowed_asset_names ≡ [])
  pub guard_in_draft : (a.draft_only ≡ true) ⊎ (a.guard_asset ≡ "")
  pub guard_is_local :
      (a.guard_asset ≡ "") ⊎ (member a.guard_asset (map (λ path. path.name) a.assets) ≡ true)

-- The request that the arguments and the local files describe.
pub record IsPrepared (host : Runtime) (a : Arguments) (q : Request) : Type 0 where
  pub same_tag : q.tag ≡ a.tag
  pub same_commit : q.expected_commit ≡ a.expected_commit
  pub same_title : q.title ≡ a.title
  pub same_prerelease : q.prerelease ≡ a.prerelease
  pub well_formed : IsWellFormed a
  pub message : load_tag_message host a.tag_message ≡ ok q.expected_tag_message
  pub object : earlier_object host a q.expected_tag_message ≡ ok q.expected_tag_object_sha
  pub local : inspect_assets host.sha256 a.assets ≡ ok q.assets
  pub safe : AreSafe host.sha256 a.assets q.assets
  pub same_mode : q.draft_only ≡ a.draft_only
  pub whole : a.draft_only ≡ false → expected_names q ≡ asset_names q.assets

no_guard :
    (a : Arguments)
    → (not (a.guard_asset == "") && not a.draft_only) ≡ false
    → (a.draft_only ≡ true) ⊎ (a.guard_asset ≡ "")
no_guard a h = elim (Bool-cases (a.guard_asset == "")) [
  | inl none_given ↦ inr ((==_iff a.guard_asset "").0 none_given)
  | inr given ↦ inl (ground arith)
]

local_guard :
    (a : Arguments)
    → (not (a.guard_asset == "") && not (member a.guard_asset (map (λ path. path.name) a.assets)))
      ≡ false
    → (a.guard_asset ≡ "") ⊎ (member a.guard_asset (map (λ path. path.name) a.assets) ≡ true)
local_guard a h = elim (Bool-cases (a.guard_asset == "")) [
  | inl none_given ↦ inl ((==_iff a.guard_asset "").0 none_given)
  | inr given ↦ inr (ground arith)
]

check_arguments-IsWellFormed : (a : Arguments) → check_arguments a ≡ ok tt → IsWellFormed a
unfolding check_arguments
check_arguments-IsWellFormed a h = record {
  repository = ground arith;
  tag = ground arith;
  commit = ground arith;
  some_title = ground arith;
  no_line_feed = ground arith;
  no_carriage_return = ground arith;
  safe_names = ground arith;
  names_differ = ground arith;
  names_in_draft = elim (empty_or a.allowed_asset_names) [
    | inl none_given ↦ inr none_given
    | inr given ↦ inl (ground arith)
  ];
  guard_in_draft = no_guard a (ground arith);
  guard_is_local = local_guard a (ground arith);
}

no_allowed : (a : Arguments) → IsWellFormed a → a.draft_only ≡ false → a.allowed_asset_names ≡ []
no_allowed a wf final = elim (wf.names_in_draft) [
  | inl draft ↦ absurd (ground arith)
  | inr none_given ↦ none_given
]

prepare_request-IsPrepared :
    (host : Runtime) (gh_ready : Bool) (a : Arguments) (q : Request)
    → prepare_request host gh_ready a ≡ ok q
    → IsPrepared host a q
unfolding prepare_request
prepare_request-IsPrepared host gh_ready a q h = elim (Result-cases (check_arguments a)) [
  | inr (e, failed) ↦ absurd (ground arith)
  | inl (done, checked) ↦ elim (Result-cases (load_tag_message host a.tag_message)) [
    | inr (e, failed) ↦ absurd (ground arith)
    | inl (message, read) ↦ elim (Result-cases (earlier_object host a message)) [
      | inr (e, failed) ↦ absurd (ground arith)
      | inl (object, earlier) ↦ elim (Result-cases (inspect_assets host.sha256 a.assets)) [
        | inr (e, failed) ↦ absurd (ground arith)
        | inl (assets, inspected) ↦
            let same_assets : q.assets ≡ assets = ground arith in
            let same_message : q.expected_tag_message ≡ message = ground arith in
            let same_object : q.expected_tag_object_sha ≡ object = ground arith in
            let allowed : q.allowed_asset_names ≡ a.allowed_asset_names = ground arith in
            let well_formed = check_arguments-IsWellFormed a checked in
            record {
              same_tag = ground arith;
              same_commit = ground arith;
              same_title = ground arith;
              same_prerelease = ground arith;
              well_formed = well_formed;
              message = rw same_message read;
              object = rw (same_message, same_object) earlier;
              local = rw same_assets inspected;
              safe = rw same_assets (inspect_assets-AreSafe host.sha256 a.assets assets inspected);
              same_mode = ground arith;
              whole = λ final.
                  let nothing : q.allowed_asset_names ≡ [] =
                    ground (arith, no_allowed a well_formed final) in
                  rw nothing refl;
            }
      ]
    ]
  ]
]

write_proof-bytes :
    (host : Runtime) (a : Arguments) (b : TagBinding) (proof : Option Output)
    → write_proof host a b ≡ ok proof
    → (output : Output) (file : FilePath) → a.binding_output ≡ some (output, file)
    → (after : Output) × (proof ≡ some after) × (after.bytes ≡ some (proof_bytes host b))
unfolding write_proof
write_proof-bytes host a b proof h output file given =
    elim (Result-cases (write_tag_binding host output b)) [
      | inr (e, failed) ↦ absurd (ground arith)
      | inl (after, wrote) ↦
          (after, ground arith, write_tag_binding-bytes host output after b wrote)
    ]

-- A finished final run: the checked request, the published release, and the proof of the tag.
pub record IsReleased {W : Type 0} (host : Runtime) (a : Arguments) (outcome : Outcome)
    (after : State W) : Type 0 where
  pub request : Request
  pub prepared : IsPrepared host a request
  pub exact : expected_names request ≡ asset_names request.assets
  pub binding : TagBinding
  pub expected : IsExpected request binding
  pub published : IsPublished host.sha256 request after.trace
  pub safe : IsSafe host.sha256 request after.trace
  pub proven :
      (output : Output) (file : FilePath)
      → a.binding_output ≡ some (output, file)
      → (proof : Output) × (outcome.proof ≡ some proof)
        × (proof.bytes ≡ some (proof_bytes host binding))

module _ {W : Type 0} (client : Client W) (host : Runtime) (a : Arguments) (w : W) where
  abbrev start : State W
  start = record { world = w; trace = [] }

  released :
      (q : Request) (outcome : Outcome) (result : List String × TagBinding)
      → prepare_request host true a ≡ ok q
      → a.draft_only ≡ false
      → (reconcile client host.sha256 q start).0 ≡ ok result
      → finish host a (ok result) ≡ ok outcome
      → IsReleased host a outcome (reconcile client host.sha256 q start).1
  released q outcome (uploaded, binding) prepared final done finished =
      let p = prepare_request-IsPrepared host true a q prepared in
      let mode : q.draft_only ≡ false = p.same_mode ∙ final in
      let (expected, published) =
        reconcile-IsPublished client host.sha256 q start (uploaded, binding) tt mode done in
      elim (Result-cases (write_proof host a binding)) [
        | inr (e, failed) ↦ absurd (ground arith)
        | inl (proof, wrote) ↦
            let same : outcome.proof ≡ proof = ground arith in
            record {
              request = q;
              prepared = p;
              exact = p.whole final;
              binding = binding;
              expected = expected;
              published = published;
              safe = reconcile-IsSafe client host.sha256 q start tt;
              proven = rw same (write_proof-bytes host a binding proof wrote);
            }
      ]

  -- A final run of the script that succeeds, on any behaviour of the remote side, had arguments that
  -- pass every test (repository, tag, commit and title, no allowed names and no guard) and safe
  -- local assets as read from their files; the release that it read last is public, immutable and
  -- holds exactly those assets, each downloaded since with its size and SHA-256; every change was
  -- permitted when it was made; and the proof of the tag's binding, if its path is given, has the
  -- bytes for the expected binding.
  pub run_script-IsReleased :
      (outcome : Outcome)
      → a.draft_only ≡ false
      → (run_script client host true a start).0 ≡ ok outcome
      → IsReleased host a outcome (run_script client host true a start).1
  unfolding run_script
  run_script-IsReleased outcome final h = elim (Result-cases (prepare_request host true a)) [
    | inr (e, failed) ↦ absurd (ground arith)
    | inl (q, prepared) ↦ elim (Result-cases ((reconcile client host.sha256 q start).0)) [
      | inr (e, failed) ↦ absurd (ground arith)
      | inl (result, done) ↦
          rw prepared (released q outcome result prepared final done (ground arith))
    ]
  ]
