-- ===== src/Promotion/Bound.antt =====
-- What an accepted list of repositories shows.
use latchway_android.Base.{
  String, ◌≡◌, refl, sym, inl, inr, true, false, List, [], ◌∷◌, arith, member, same_set,
  same_set-member, ok, Result-cases, String-discrete, ◌==◌,
}
use mathlib.Core.Logic.{if_pos, if_neg}
use latchway_android.Json.{Json, arr, Items, items}
use latchway_android.Promotion.Constants.{repository_ids}
use latchway_android.Promotion.Report.{Coordinate, validate_coordinate}
use latchway_android.Promotion.Report.Checks.Coverage.{Occurs}
use latchway_android.Promotion.{
  Request, collect_coordinates, coordinate_ids, by_id, binding_differs, check_repositories,
}

-- The list names this coordinate.
abbrev pub Names : Coordinate → List Json → Type 0
Names c xs = (v : Json) × Occurs v xs × (validate_coordinate v ≡ ok c)

Names-later : (c : Coordinate) (x : Json) (xs : List Json) → Names c xs → Names c (x ∷ xs)
Names-later c x xs (v, m, e) = (v, inr m, e)

-- A round of the loop over the repositories that does not fail.
record Round (x : Json) (xs : List Json) (seen : List String) (cs : List Coordinate) : Type 0 where
  first : Coordinate
  more : List Coordinate
  read : validate_coordinate x ≡ ok first
  rest : collect_coordinates xs (first.id ∷ seen) ≡ ok more
  together : cs ≡ first ∷ more

round :
    (x : Json) (xs : List Json) (seen : List String) (cs : List Coordinate)
    → collect_coordinates (x ∷ xs) seen ≡ ok cs
    → Round x xs seen cs
unfolding collect_coordinates
round x xs seen cs h = elim (Result-cases (validate_coordinate x)) [
  | inl (c, read) ↦ elim (Result-cases (collect_coordinates xs (c.id ∷ seen))) [
    | inl (more, rest) ↦ record {
      first = c;
      more = more;
      read = read;
      rest = rest;
      together = ground arith;
    }
    | inr (e, failed) ↦ absurd (ground arith)
  ]
  | inr (e, failed) ↦ absurd (ground arith)
]

collected-Names :
    (xs : List Json) (seen : List String) (cs : List Coordinate) (k : String)
    → collect_coordinates xs seen ≡ ok cs
    → member k (coordinate_ids cs) ≡ true
    → Names (by_id k cs) xs × ((by_id k cs).id ≡ k)
unfolding coordinate_ids by_id member
collected-Names [] seen cs k h m =
    let none_left : [] ≡ cs = unfold collect_coordinates in cc in absurd (ground arith)
collected-Names (x ∷ xs) seen cs k h m =
    let r = round x xs seen cs h in
    let m' : member k (coordinate_ids (r.first ∷ r.more)) ≡ true = rw r.together at m in
    rw r.together (elim (String-discrete k r.first.id) [
      | yes here ↦ rw (if_pos _ here) ((x, inl refl, r.read), sym here)
      | no differ ↦
          let (found, named) =
            collected-Names xs (r.first.id ∷ seen) r.more k r.rest (ground arith) in
          rw (if_neg _ differ) (Names-later (by_id k r.more) x xs found, named)
    ])

own_coordinate :
    (c : Coordinate) (q : Request)
    → binding_differs c q ≡ false
    → c ≡ record {
      id = q.repository_id;
      commit = q.repository_commit;
      version = q.repository_version;
      intended_tag = q.repository_tag;
    }
unfolding binding_differs
own_coordinate c q h = ground arith

repositories_at :
    (xs : Items) (cs : List Coordinate) (q : Request)
    → collect_coordinates (items xs) [] ≡ ok cs
    → check_repositories (arr xs) q ≡ ok tt
    → member q.repository_id repository_ids ≡ true
    → Names
        (record {
          id = q.repository_id;
          commit = q.repository_commit;
          version = q.repository_version;
          intended_tag = q.repository_tag;
        })
        (items xs)
      × (core : Coordinate) × Names core (items xs)
      × (core.id ≡ "core")
      × (core.intended_tag ≡ q.core_tag)
repositories_at xs cs q collected h known =
    let complete : same_set (coordinate_ids cs) repository_ids ≡ true =
      unfold check_repositories in ground arith in
    let ids : (k : String) → member k (coordinate_ids cs) ≡ member k repository_ids =
      same_set-member (coordinate_ids cs) repository_ids complete in
    let own : binding_differs (by_id q.repository_id cs) q ≡ false =
      unfold check_repositories in ground arith in
    let tagged : ((by_id "core" cs).intended_tag == q.core_tag) ≡ true =
      unfold check_repositories in ground arith in
    let (named, _) = collected-Names (items xs) [] cs q.repository_id collected (rw ids known) in
    let (core, is_core) =
      collected-Names (items xs) [] cs "core" collected
        (rw ids (unfold member String-discrete in refl)) in
    (
      rw (sym (own_coordinate (by_id q.repository_id cs) q own)) named,
      by_id "core" cs,
      core,
      is_core,
      ground arith,
    )

-- The list of repositories names the one that is published, with its coordinates, and the core
-- release.
pub record IsBound (value : Json) (q : Request) : Type 0 where
  pub list : Items
  pub is_list : value ≡ arr list
  pub own :
      Names
        (record {
          id = q.repository_id;
          commit = q.repository_commit;
          version = q.repository_version;
          intended_tag = q.repository_tag;
        })
        (items list)
  pub core : Coordinate
  pub has_core : Names core (items list)
  pub is_core : core.id ≡ "core"
  pub core_tagged : core.intended_tag ≡ q.core_tag

pub repositories_sound :
    (value : Json) (q : Request)
    → check_repositories value q ≡ ok tt
    → member q.repository_id repository_ids ≡ true
    → IsBound value q
repositories_sound (arr xs) q h known = elim (Result-cases (collect_coordinates (items xs) [])) [
  | inl (cs, collected) ↦
      let (own, core, has_core, is_core, tagged) = repositories_at xs cs q collected h known in
      record {
        list = xs;
        is_list = refl;
        own = own;
        core = core;
        has_core = has_core;
        is_core = is_core;
        core_tagged = tagged;
      }
  | inr (e, failed) ↦ unfold check_repositories in absurd (ground arith)
]
repositories_sound _ q h known = unfold check_repositories in cc
