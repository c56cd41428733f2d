-- ===== src/Gateway/Inputs.antt =====
-- The runtime of the deployment verifier and its reads: `canonical_json`, `load_canonical_json`
-- with its hooks, and `read_regular_file`.
use latchway_android.Base.{
  ℕ, ◌+◌, String, ◌<>◌, Bool, true, false, not, Option, none, some, List, [], ◌∷◌, ◌++◌, ◌&&◌, ◌||◌,
  ltb, eqb, length, Result, ok, err, rejected, reject_if, ◌>>=◌, ◌>>◌,
}
use latchway_android.Json.{
  Json, float, nan, infinite, arr, obj, Items, nil, cons, Fields, end, field, has_duplicate,
}

-- What `urllib.parse.urlsplit` gives for a text, with its properties.
pub record Url : Type 0 where
  pub scheme : String
  pub netloc : String
  pub path : String
  pub query : String
  pub fragment : String
  pub hostname : Option String
  pub port : Option ℕ
  pub username : Option String
  pub password : Option String

-- A time in microseconds, and whether its time zone is UTC.
pub record Timestamp : Type 0 where
  pub instant : ℕ
  pub utc : Bool

-- The exit code and the output of a process.
pub record Process : Type 0 where
  pub returncode : ℕ
  pub stdout : List ℕ

-- The two commands that are run on a key, a signature and a statement; `none` where the run raises
-- `OSError` or `SubprocessError`.
pub record Openssl : Type 0 where
  pub convert : List ℕ → Option Process
  pub verify : List ℕ → List ℕ → List ℕ → Option Process

-- Hashing, the decoders of UTF-8 and of JSON (an object holds its pairs as they stand in the text,
-- and only a constant of the text is `nan`), `json.dumps(…).encode("utf-8")` with `none` where it
-- raises, `str(value)` of a value that is no text, `urlsplit` with its properties, `none` where one
-- of them raises `ValueError`, `datetime.fromisoformat`, and the program, if it is found.
pub record Runtime : Type 0 where
  pub sha256 : List ℕ → String
  pub utf8 : List ℕ → Option String
  pub loads : String → Option Json
  pub dumps : Json → Option (List ℕ)
  pub text_of : Json → String
  pub urlsplit : String → Option Url
  pub fromisoformat : String → Option Timestamp
  pub openssl : Option Openssl

abbrev pub or_reject {ℓ} : {A : Type ℓ} → Option A → String → Result A
or_reject none code = err (rejected code)
or_reject (some a) code = ok a

unfoldable pub same_bytes : List ℕ → List ℕ → Bool
same_bytes [] [] = true
same_bytes (b ∷ bs) (c ∷ cs) = eqb b c && same_bytes bs cs
same_bytes _ _ = false

-- `reject_nonfinite` and `reject_duplicate_keys`, in the order in which the decoder calls them: a
-- value before the values after it, an object after its own values. A text that is no JSON is
-- refused with the decoder's error, also where a hook would refuse a part of it before.
unfoldable mutual
  pub run_hooks : Json → Result (Unit {0})
  run_hooks (float nan) = err (rejected "json_nonfinite_number")
  run_hooks (float (infinite b)) = err (rejected "json_nonfinite_number")
  run_hooks (arr vs) = hooks_items vs
  run_hooks (obj fs) = do hooks_fields fs; reject_if (has_duplicate fs) "json_duplicate_key"
  run_hooks _ = ok tt

  pub hooks_items : Items → Result (Unit {0})
  hooks_items nil = ok tt
  hooks_items (cons v vs) = do run_hooks v; hooks_items vs

  pub hooks_fields : Fields → Result (Unit {0})
  hooks_fields end = ok tt
  hooks_fields (field k v fs) = do run_hooks v; hooks_fields fs

-- What `lstat` or `fstat` tells.
pub record Stat : Type 0 where
  pub regular : Bool
  pub link : Bool
  pub device : ℕ
  pub inode : ℕ
  pub size : ℕ

-- A path that is read: `os.lstat`, `os.open`, `os.fstat` and each `os.read` in turn, with `none`
-- where it raises `OSError`. The reads end where the file ends.
pub record Opening : Type 0 where
  pub initial : Option Stat
  pub opens : Bool
  pub info : Option Stat
  pub reads : List (Option (List ℕ))

-- `while True: chunk = os.read(…)`
unfoldable pub read_chunks : ℕ → ℕ → String → List (Option (List ℕ)) → Result (List ℕ)
read_chunks maximum total label [] = ok []
read_chunks maximum total label (none ∷ more) = err (rejected (label <> "_file_unreadable"))
read_chunks maximum total label (some [] ∷ more) = ok []
read_chunks maximum total label (some (b ∷ bs) ∷ more) = do
  reject_if (ltb maximum (total + length (b ∷ bs))) (label <> "_file_oversize")
  rest ← read_chunks maximum (total + length (b ∷ bs)) label more
  ok ((b ∷ bs) ++ rest)

abbrev pub same_file : Stat → Stat → Bool
same_file s t = eqb s.device t.device && eqb s.inode t.inode

unfoldable pub read_regular_file : Opening → ℕ → String → Result (List ℕ)
read_regular_file path maximum label = do
  initial ← or_reject path.initial (label <> "_file_unsafe")
  reject_if (initial.link || not initial.regular) (label <> "_file_unsafe")
  reject_if (not path.opens) (label <> "_file_unsafe")
  info ← or_reject path.info (label <> "_file_unreadable")
  reject_if
      (not info.regular || not (same_file info initial) || ltb info.size 1 || ltb maximum info.size)
      (label <> "_file_unsafe")
  read_chunks maximum 0 label path.reads

module _ (host : Runtime) where
  unfoldable pub canonical_json : Json → Result (List ℕ)
  canonical_json value = or_reject (host.dumps value) "json_not_canonicalizable"

  unfoldable pub load_canonical_json : List ℕ → String → Result Json
  load_canonical_json bytes label = do
    text ← or_reject (host.utf8 bytes) (label <> "_json_invalid")
    value ← or_reject (host.loads text) (label <> "_json_invalid")
    run_hooks value
    canonical ← canonical_json value
    reject_if (not (same_bytes canonical bytes)) (label <> "_not_canonical")
    ok value
