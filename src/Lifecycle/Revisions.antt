-- ===== src/Lifecycle/Revisions.antt =====
-- The locked revisions of a file against the assets table.
use drivebound_storage.Base.{
  ℕ, ◌≤◌, ◌≡◌, refl, Bool, true, false, some, List, [], ◌∷◌, arith, scalar, scalar_sound, All,
  All-mono, All-zip, All-every, All-scalar, All-scalars, scalars-All, All-order_by, order_by-All,
  count, zero_count, ==_refl, Row, Row-scalar, scalar_only, scalar_unique,
}
use drivebound_storage.Catalog.{Asset, Db, asset_is, revision_of}
use drivebound_storage.Lifecycle.{revisions_of}
use drivebound_storage.Lifecycle.Invariant.{IsSound}

module _ (user logical : ℕ) (db : Db) where
  pub revisions_of-All :
      (P : Asset → Type 0)
      → All (λ x. revision_of user logical x ≡ true → P x) db.assets
      → All P (revisions_of user logical db)
  unfolding revisions_of
  revisions_of-All P h =
      All-order_by (λ a. a.id) P _ (All-scalars P (revision_of user logical) db.assets h)

  pub All-revisions_of :
      (P : Asset → Type 0)
      → All P (revisions_of user logical db)
      → All (λ x. revision_of user logical x ≡ true → P x) db.assets
  unfolding revisions_of
  All-revisions_of P h =
      scalars-All P (revision_of user logical) db.assets (order_by-All (λ a. a.id) P _ h)

  pub found_revision :
      (p : Asset → Bool) (a : Asset)
      → scalar p (revisions_of user logical db) ≡ some a
      → revision_of user logical a ≡ true
  found_revision p a e =
      All-scalar (λ x. revision_of user logical x ≡ true) p (revisions_of user logical db) a
        (revisions_of-All _ (All-every _ db.assets (λ x h. h))) e

-- With distinct ids, a row is determined by its id.
distinct_rows :
    (xs : List Asset)
    → ((i : ℕ) → count (asset_is i) xs ≤ 1)
    → All (λ x. All (λ y. asset_is x.id y ≡ true → y ≡ x) xs) xs
unfolding count
distinct_rows [] h = tt
distinct_rows (x ∷ xs) h =
    let none_later : All (λ y. asset_is x.id y ≡ false) xs =
      zero_count (asset_is x.id) xs (ground (arith, h x.id, ==_refl x.id)) in
    let ih = distinct_rows xs (λ i. ground (arith, h i)) in
    (
      (λ _. refl, All-mono _ _ xs (λ y n e. cc) none_later),
      All-mono _ _ xs
          (λ y (k : (asset_is x.id y ≡ false) × All (λ z. asset_is y.id z ≡ true → z ≡ y) xs).
            (λ e. absurd (ground (arith, k.0)), k.1))
          (All-zip _ _ xs none_later ih),
    )

pub found_unique :
    (user logical : ℕ) (p : Asset → Bool) (a : Asset) (db : Db)
    → IsSound db.assets
    → scalar p (revisions_of user logical db) ≡ some a
    → All (λ y. asset_is a.id y ≡ true → y ≡ a) db.assets
found_unique user logical p a db s e =
    All-scalar (λ x. All (λ y. asset_is x.id y ≡ true → y ≡ x) db.assets) p
      (revisions_of user logical db) a
      (revisions_of-All user logical db _
        (All-mono _ _ db.assets (λ x h _. h) (distinct_rows db.assets s.ids)))
      e

pub Row-revisions_of :
    (user logical : ℕ) (db : Db) (a : Asset)
    → Row a db.assets
    → revision_of user logical a ≡ true
    → Row a (revisions_of user logical db)
Row-revisions_of user logical db a r here P h =
    r (λ x. revision_of user logical x ≡ true → P x) (All-revisions_of user logical db P h) here

-- A row of the table with a given id is what the locked query for that id finds.
pub scalar-revisions_of :
    (user logical i : ℕ) (db : Db) (a : Asset)
    → count (asset_is i) db.assets ≤ 1
    → scalar (asset_is i) db.assets ≡ some a
    → revision_of user logical a ≡ true
    → scalar (asset_is i) (revisions_of user logical db) ≡ some a
scalar-revisions_of user logical i db a c found here =
    scalar_only (asset_is i) (revisions_of user logical db) a
      (Row-revisions_of user logical db a (Row-scalar (asset_is i) db.assets a found) here)
      (scalar_sound (asset_is i) db.assets a found)
      (revisions_of-All user logical db _
        (All-mono _ _ db.assets (λ x h _. h) (scalar_unique (asset_is i) db.assets a c found)))
