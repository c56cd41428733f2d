-- ===== src/Reconcile/Sorted.antt =====
-- The order in which `inspect_assets` leaves the assets.
use latchway_android.Base.{
  ℕ, suc, String, ◌≡◌, refl, inl, inr, true, false, not, List, [], ◌∷◌, ◌||◌, ◌&&◌, ◌==◌, All,
  codes, length, member, distinct, Bool-cases, arith,
}
use latchway_android.Central.Paths.{codes_leb}
use latchway_android.Reconcile.Client.{Asset}
use latchway_android.Reconcile.Steps.{asset_names}
use latchway_android.Reconcile.Assets.{insert_asset, sort_assets}

-- The names stand in the order of their code points.
abbrev pub IsBelow : Asset → List Asset → Type 0
IsBelow a [] = Unit {0}
IsBelow a (b ∷ more) = codes_leb (codes a.name) (codes b.name) ≡ true

abbrev pub InOrder : List Asset → Type 0
InOrder [] = Unit {0}
InOrder (a ∷ more) = IsBelow a more × InOrder more

total : (cs ds : List ℕ) → codes_leb cs ds ≡ false → codes_leb ds cs ≡ true
unfolding codes_leb
total [] ds h = cc
total (c ∷ cs) [] h = refl
total (c ∷ cs) (d ∷ ds) h = ground (arith, total cs ds)

insert-IsBelow :
    (b a : Asset) (more : List Asset)
    → codes_leb (codes b.name) (codes a.name) ≡ true
    → IsBelow b more
    → IsBelow b (insert_asset a more)
unfolding insert_asset
insert-IsBelow b a [] h below = h
insert-IsBelow b a (c ∷ more) h below =
    elim (Bool-cases (codes_leb (codes a.name) (codes c.name))) [
      | inl low ↦ rw low h
      | inr high ↦ rw high below
    ]

insert-InOrder :
    (a : Asset) (assets : List Asset) → InOrder assets → InOrder (insert_asset a assets)
unfolding insert_asset
insert-InOrder a [] h = (tt, tt)
insert-InOrder a (b ∷ more) (below, h) =
    elim (Bool-cases (codes_leb (codes a.name) (codes b.name))) [
      | inl low ↦ rw low (low, (below, h))
      | inr high ↦ rw high (
        insert-IsBelow b a more (total (codes a.name) (codes b.name) high) below,
        insert-InOrder a more h,
      )
    ]

pub sort-InOrder : (assets : List Asset) → InOrder (sort_assets assets)
unfolding sort_assets
sort-InOrder [] = tt
sort-InOrder (a ∷ more) = insert-InOrder a (sort_assets more) (sort-InOrder more)

insert-All :
    (P : Asset → Type 0) (a : Asset) (assets : List Asset)
    → P a
    → All P assets
    → All P (insert_asset a assets)
unfolding insert_asset
insert-All P a [] p ps = (p, tt)
insert-All P a (b ∷ more) p (q, ps) = elim (Bool-cases (codes_leb (codes a.name) (codes b.name))) [
  | inl below ↦ rw below (p, (q, ps))
  | inr above ↦ rw above (q, insert-All P a more p ps)
]

pub sort-All :
    (P : Asset → Type 0) (assets : List Asset) → All P assets → All P (sort_assets assets)
unfolding sort_assets
sort-All P [] ps = tt
sort-All P (a ∷ more) (p, ps) = insert-All P a (sort_assets more) p (sort-All P more ps)

member-insert :
    (n : String) (a : Asset) (assets : List Asset)
    → member n (asset_names (insert_asset a assets))
      ≡ (n == a.name || member n (asset_names assets))
unfolding insert_asset member
member-insert n a [] = refl
member-insert n a (b ∷ more) = elim (Bool-cases (codes_leb (codes a.name) (codes b.name))) [
  | inl below ↦ rw below refl
  | inr above ↦ rw above (ground (arith, member-insert n a more))
]

pub member-sort :
    (n : String) (assets : List Asset)
    → member n (asset_names (sort_assets assets)) ≡ member n (asset_names assets)
unfolding sort_assets member
member-sort n [] = refl
member-sort n (a ∷ more) = ground (arith, member-insert n a (sort_assets more), member-sort n more)

insert-distinct :
    (a : Asset) (assets : List Asset)
    → distinct (asset_names (insert_asset a assets))
      ≡ (not (member a.name (asset_names assets)) && distinct (asset_names assets))
unfolding insert_asset distinct member
insert-distinct a [] = refl
insert-distinct a (b ∷ more) = elim (Bool-cases (codes_leb (codes a.name) (codes b.name))) [
  | inl below ↦ rw below refl
  | inr above ↦ rw above (ground (arith, member-insert b.name a more, insert-distinct a more))
]

pub sort-distinct :
    (assets : List Asset)
    → distinct (asset_names (sort_assets assets)) ≡ distinct (asset_names assets)
unfolding sort_assets distinct
sort-distinct [] = refl
sort-distinct (a ∷ more) =
    ground
      (arith, insert-distinct a (sort_assets more), member-sort a.name more, sort-distinct more)

length-insert :
    (a : Asset) (assets : List Asset) → length (insert_asset a assets) ≡ suc (length assets)
unfolding insert_asset
length-insert a [] = refl
length-insert a (b ∷ more) = ground (arith, length-insert a more)

pub length-sort : (assets : List Asset) → length (sort_assets assets) ≡ length assets
unfolding sort_assets
length-sort [] = refl
length-sort (a ∷ more) = ground (arith, length-insert a (sort_assets more), length-sort more)
