-- ===== src/Reconcile/ReadBack.antt =====
-- A proof of a tag's binding that the script writes is one that it accepts.
use latchway_android.Base.{
  ◌*◌, ◌≤◌, String, ◌≡◌, refl, ◌∙◌, true, false, some, [], ◌∷◌, ok, universal_newlines, member,
  subset, same_set, String-discrete, arith,
}
use latchway_android.Disk.{File}
use latchway_android.Regex.{fullmatch}
use latchway_android.Json.{str, obj, Fields, end, field, get_last, keys_are}
use latchway_android.Json.Laws.{IsReadBack, eq_str_iff}
use latchway_android.Reconcile.Client.{TagBinding}
use latchway_android.Reconcile.TagProof.{
  Runtime, git_object_id, read_small, payload_fields, check_payload, tag_binding_payload,
  load_tag_binding,
}
use latchway_android.Reconcile.Script.{proof_bytes}

-- The file holds the proof, in bounds, and the decoders read what was printed.
pub record HoldsProof (host : Runtime) (b : TagBinding) (file : File) : Type 0 where
  pub regular : file.regular ≡ true
  pub no_link : file.symlink ≡ false
  pub some_byte : 1 ≤ file.size
  pub bounded : file.size ≤ 64 * 1024
  pub content : file.bytes ≡ some (proof_bytes host b)
  pub text : String
  pub decoded : host.utf8 (proof_bytes host b) ≡ some text
  pub value : Fields
  pub loaded : host.loads (universal_newlines text) ≡ some (obj value)
  pub same : IsReadBack (tag_binding_payload host b) value

check_one_more :
    (k s : String) (more fs : Fields)
    → get_last k fs ≡ str s
    → check_payload more fs ≡ ok tt
    → check_payload (field k (str s) more) fs ≡ ok tt
unfolding check_payload
check_one_more k s more fs e h = ground (arith, (eq_str_iff (get_last k fs) s).1 e)

check_none : (fs : Fields) → check_payload end fs ≡ ok tt
unfolding check_payload
check_none fs = refl

module _ (host : Runtime) (b : TagBinding) where
  payload_keys :
      keys_are
        (tag_binding_payload host b)
        ("schema" ∷ "tag" ∷ "commit" ∷ "message_sha256" ∷ "tag_object_sha" ∷ [])
      ≡ true
  unfolding tag_binding_payload payload_fields keys_are same_set subset member String-discrete
  payload_keys = refl

  payload_object : get_last "tag_object_sha" (tag_binding_payload host b) ≡ str b.tag_object_sha
  unfolding tag_binding_payload payload_fields get_last member String-discrete
  payload_object = refl

  payload_accepted :
      (fs : Fields)
      → ((k : String) → get_last k fs ≡ get_last k (tag_binding_payload host b))
      → check_payload (payload_fields host b.tag b.commit b.message end) fs ≡ ok tt
  unfolding tag_binding_payload payload_fields get_last member String-discrete
  payload_accepted fs same = check_one_more _ _ _ fs (same "schema") (
      check_one_more _ _ _ fs (same "tag") (
        check_one_more _ _ _ fs (same "commit")
          (check_one_more _ _ _ fs (same "message_sha256") (check_none fs))))

-- The proof that a run writes for a binding is accepted by a later run for the same tag, commit and
-- message, which gets back the identifier of the tag object that the first run saw.
pub load_tag_binding-proof_bytes :
    (host : Runtime) (b : TagBinding) (file : File)
    → HoldsProof host b file
    → fullmatch git_object_id b.tag_object_sha ≡ true
    → load_tag_binding host (some file) b.tag b.commit b.message ≡ ok b.tag_object_sha
unfolding load_tag_binding read_small
load_tag_binding-proof_bytes host b file p shape =
    let keys =
      p.same.same_keys ("schema" ∷ "tag" ∷ "commit" ∷ "message_sha256" ∷ "tag_object_sha" ∷ [])
      ∙ payload_keys host b in
    let object = p.same.same_field "tag_object_sha" ∙ payload_object host b in
    let accepted = payload_accepted host b p.value p.same.same_field in
    ground (arith, p.regular, p.no_link, p.some_byte, p.bounded, p.content, p.decoded, p.loaded)
