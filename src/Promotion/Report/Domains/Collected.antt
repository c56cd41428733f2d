-- ===== src/Promotion/Report/Domains/Collected.antt =====
-- The domains that the first loop collects are those of the list.
use latchway_android.Base.{
  String, ◌≡◌, ◌⊎◌, inl, inr, true, false, List, [], ◌∷◌, arith, member, ok, Result-cases,
  String-discrete,
}
use mathlib.Core.Logic.{if_neg}
use latchway_android.Json.{Json, str, obj, Fields, get, keys_are}
use latchway_android.Json.Laws.{as_str_cases}
use latchway_android.Promotion.Constants.{domain_fields, all_domains}
use latchway_android.Promotion.Report.Domains.{Domains, names, find, collect, invalid}

-- The list holds the domain `fs` under the identifier, with the keys of a domain.
abbrev pub Holds : String → List Json → Fields → Type 0
Holds k [] fs = ⊥
Holds k (v ∷ vs) fs =
    ((v ≡ obj fs) × (get "id" fs ≡ str k) × (keys_are fs domain_fields ≡ true)) ⊎ Holds k vs fs

-- The first round of a successful run of the loop that collects the domains.
record Round (fs : Fields) (xs : List Json) (seen : List String) (ds : Domains) : Type 0 where
  id : String
  more : Domains
  named : get "id" fs ≡ str id
  exact_keys : keys_are fs domain_fields ≡ true
  fresh : member id seen ≡ false
  known : member id all_domains ≡ true
  rest : collect xs (id ∷ seen) ≡ ok more
  all_domains : ds ≡ (id, fs) ∷ more

Round-at :
    (fs : Fields) (xs : List Json) (seen : List String) (ds more : Domains) (id : String)
    → get "id" fs ≡ str id
    → collect xs (id ∷ seen) ≡ ok more
    → collect (obj fs ∷ xs) seen ≡ ok ds
    → Round fs xs seen ds
unfolding collect
Round-at fs xs seen ds more id named rest h = record {
  id = id;
  more = more;
  named = named;
  exact_keys = ground arith;
  fresh = ground arith;
  known = ground arith;
  rest = rest;
  all_domains = ground arith;
}

round :
    (fs : Fields) (xs : List Json) (seen : List String) (ds : Domains)
    → collect (obj fs ∷ xs) seen ≡ ok ds
    → Round fs xs seen ds
unfolding collect
round fs xs seen ds h = elim (as_str_cases (get "id" fs) invalid) [
  | inl (id, named) ↦ elim (Result-cases (collect xs (id ∷ seen))) [
    | inl (more, rest) ↦ Round-at fs xs seen ds more id named rest h
    | inr (e, failed) ↦ absurd (ground arith)
  ]
  | inr refused ↦ absurd (ground arith)
]

pub collect_holds :
    (xs : List Json) (seen : List String) (ds : Domains) (k : String)
    → collect xs seen ≡ ok ds
    → member k (names ds) ≡ true
    → Holds k xs (find k ds)
unfolding names find member
collect_holds [] seen ds k h m = let none_left : [] ≡ ds = unfold collect in cc in ground arith
collect_holds (obj fs ∷ xs) seen ds k h m =
    let r = round fs xs seen ds h in
    rw r.all_domains (elim (String-discrete k r.id) [
      | yes same ↦ inl (ground arith)
      | no differ ↦
          let m' : member k (names ((r.id, fs) ∷ r.more)) ≡ true = rw r.all_domains at m in
          inr (rw (if_neg _ differ) (collect_holds xs (r.id ∷ seen) r.more k r.rest (ground arith)))
    ])
collect_holds (_ ∷ xs) seen ds k h m = unfold collect in cc
