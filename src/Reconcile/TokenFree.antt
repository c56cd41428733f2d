-- ===== src/Reconcile/TokenFree.antt =====
-- The calls of `gh` give the administration token to the one call that needs it.
use latchway_android.Base.{
  ℕ, String, ◌<>◌, ◌≡◌, refl, inl, inr, none, some, List, ◌==◌, ==_iff, Result, ok, err, Bool-cases,
}
use latchway_android.Reconcile.Client.{State}
use latchway_android.Reconcile.Steps.{Request, reconcile}
use latchway_android.Reconcile.GitHub.{
  Session, Runtime, api, immutability_enabled, lookup_tag, read_tag_object, lookup_release,
  run_command, download_asset, github_client,
}
use latchway_android.Reconcile.Token.{Carries, reconcile-Leads}

-- The call that reads the settings of immutable releases.
abbrev pub settings_line : String → List String
settings_line repository = api ("repos/" <> repository <> "/immutable-releases")

module _ {W : Type 0} (host : Runtime W) (repository tag secret : String) (P : W → Type 0)
    (kept : (line : List String) (w : W) → P w → P (host.run "" none line w).1)
    (asked : (w : W) → P w → P (host.run "" (some secret) (settings_line repository) w).1) where
  -- The environment has the token at most, and the remote state has `P`.
  abbrev Armed : Session W → Type 0
  Armed s = (s.token ≡ secret) × P s.world

  -- The remote state has `P`, and the token has left the environment.
  abbrev Spent : Session W → Type 0
  Spent s = (s.token ≡ "") × P s.world

  spend : (s : Session W) → Armed s → Spent (immutability_enabled host repository tag s).1
  unfolding immutability_enabled
  spend s (own, p) = elim (Bool-cases (s.token == "")) [
    | inl empty ↦ rw empty ((==_iff s.token "").0 empty, p)
    | inr given ↦ rw given (refl, rw own (asked s.world p))
  ]

  run-Spent :
      (line : List String) (s : Session W)
      → Spent s
      → Spent (record s { world = (host.run s.token none line s.world).1 })
  run-Spent line s (gone, p) = (gone, rw gone (kept line s.world p))

  read-Spent :
      (r : Result String) (s : Session W)
      → Spent s
      → Spent (read_tag_object host repository tag r s).1
  read-Spent (err e) s i = i
  read-Spent (ok sha) s i = run-Spent _ s i

  github_client-Carries : Carries (github_client host repository tag) Armed Spent
  unfolding github_client lookup_tag lookup_release run_command download_asset
  github_client-Carries = record {
    immutability = spend;
    tag = λ s i. read-Spent _ _ (run-Spent _ s i);
    release = λ s i. run-Spent _ s i;
    create = λ title prerelease s i. run-Spent _ s i;
    download = λ id s i. run-Spent _ s i;
    upload = λ path s i. run-Spent _ s i;
    finalize = λ prerelease s i. run-Spent _ s i;
  }

  -- Take what holds of the remote state and is kept by every process that is started with the
  -- administration token neither in the environment that it inherits nor as GH_TOKEN, and by the one
  -- call for the settings of immutable releases with the token as GH_TOKEN alone. A run through `gh`
  -- from an environment with the token keeps it, failed or not, so that it starts no other process;
  -- and at the end the environment no longer has the token.
  pub reconcile-Spent :
      (sha256 : List ℕ → String) (q : Request) (s : State (Session W))
      → s.world.token ≡ secret
      → P s.world.world
      → ((reconcile (github_client host repository tag) sha256 q s).1.world.token ≡ "")
        × P (reconcile (github_client host repository tag) sha256 q s).1.world.world
  reconcile-Spent sha256 q s own p =
      reconcile-Leads (github_client host repository tag) sha256 Armed Spent github_client-Carries q
        s (own, p)
