-- ===== src/Lifecycle/Purge/Spares.antt =====
-- What the removals of a purge leave alone: every file that a row of the catalog names which does
-- not belong to the purged revision.
use drivebound_storage.Base.{
  ℕ, ◌≡◌, ◌⊎◌, inl, inr, ap, ◌∙◌, true, false, Option, none, some, List, Text, ◌==◌, All, Row,
}
use mathlib.Core.Path.{subst}
use mathlib.Core.Option.{some-injective}
use drivebound_storage.Host.{Host}
use drivebound_storage.Catalog.{Asset, Replica, Upload, Db, is_external, asset_is}
use drivebound_storage.Catalog.References.{Excluding, is_placeholder, kept}
use drivebound_storage.Catalog.Unlink.Safety.{
  Untouched, ColumnUntouched, AssetUntouched, ReplicaUntouched, CatalogUntouched,
}

-- The value stands in some column of the row.
abbrev pub InAsset : Asset → Text → Type 0
InAsset b v = (b.original_path ≡ v) ⊎ (b.thumbnail_path ≡ some v) ⊎ (b.preview_path ≡ some v)

abbrev pub InReplica : Replica → Text → Type 0
InReplica r v = (r.path ≡ v) ⊎ (r.metadata_path ≡ some v)

-- The path is named by an asset other than `a`, by an external original, by a replica that is none
-- of `own`, or by an upload.
abbrev pub Named : Asset → List Replica → Db → Text → Type 1
Named a own db v =
    ((b : Asset) × Row b db.assets × (asset_is a.id b ≡ false) × InAsset b v)
    ⊎ ((b : Asset) × Row b db.assets
        × (is_external b.storage_source ≡ true)
        × (b.original_path ≡ v))
    ⊎ ((r : Replica) × Row r db.replicas × All (λ x. r.id == x.id ≡ false) own × InReplica r v)
    ⊎ ((u : Upload) × Row u db.uploads × (u.staging_path ≡ v))

-- A step keeps the named files, and the rows that name them.
abbrev pub Spares : Host → Asset → List Replica → Db → Db → Type 1
Spares w a own before after =
    (v : Text)
    → is_placeholder v ≡ false
    → Named a own before v
    → Untouched w before after v × Named a own after v

pub Spares-trans :
    (w : Host) (a : Asset) (own : List Replica) (x y z : Db)
    → Spares w a own x y
    → Spares w a own y z
    → Spares w a own x z
Spares-trans w a own x y z f g v real n =
    let (e, m) = f v real n in let (d, k) = g v real m in (d ∙ e, k)

-- A step that keeps the three tables and the files of the rows that `ex` does not exclude.
module _ (w : Host) (a : Asset) (own : List Replica) (before after : Db)
    (assets : after.assets ≡ before.assets) (replicas : after.replicas ≡ before.replicas)
    (uploads : after.uploads ≡ before.uploads) where
  pub Named-same : (v : Text) → Named a own before v → Named a own after v
  Named-same v (inl (b, r, n, c)) = inl (b, rw assets r, n, c)
  Named-same v (inr (inl (b, r, e, c))) = inr (inl (b, rw assets r, e, c))
  Named-same v (inr (inr (inl (r, s, n, c)))) = inr (inr (inl (r, rw replicas s, n, c)))
  Named-same v (inr (inr (inr (u, s, c)))) = inr (inr (inr (u, rw uploads s, c)))

module _ (w : Host) (before after : Db) where
  pub at_column :
      (c : Option Text) (v : Text)
      → is_placeholder v ≡ false
      → ColumnUntouched w before after c
      → c ≡ some v
      → Untouched w before after v
  at_column none v real h e = cc
  at_column (some x) v real h e =
      let same = some-injective x v e in
      subst (Untouched w before after) same (h (ap is_placeholder same ∙ real))

  pub in_asset :
      (excluded : Option ℕ) (b : Asset) (v : Text)
      → is_placeholder v ≡ false
      → AssetUntouched w before after excluded b
      → kept excluded b.id ≡ true
      → InAsset b v
      → Untouched w before after v
  in_asset excluded b v real h k (inl e) =
      at_column (some b.original_path) v real (h.1 k).0 (ap some e)
  in_asset excluded b v real h k (inr (inl e)) = at_column b.thumbnail_path v real (h.1 k).1 e
  in_asset excluded b v real h k (inr (inr e)) = at_column b.preview_path v real (h.1 k).2 e

  pub in_replica :
      (excluded : Option ℕ) (r : Replica) (v : Text)
      → is_placeholder v ≡ false
      → ReplicaUntouched w before after excluded r
      → kept excluded r.id ≡ true
      → InReplica r v
      → Untouched w before after v
  in_replica excluded r v real h k (inl e) = at_column (some r.path) v real (h k).0 (ap some e)
  in_replica excluded r v real h k (inr e) = at_column r.metadata_path v real (h k).1 e

-- What a removal may exclude: a replica of the revision, or the revision itself.
abbrev pub Excludes : Asset → List Replica → Excluding → Type 0
Excludes a own ex =
    ((b : Asset) → asset_is a.id b ≡ false → kept ex.asset b.id ≡ true)
    × ((r : Replica) → All (λ x. r.id == x.id ≡ false) own → kept ex.replica r.id ≡ true)
    × ((u : Upload) → kept ex.upload u.id ≡ true)

pub spares_files :
    (w : Host) (a : Asset) (own : List Replica) (ex : Excluding) (before after : Db)
    → Excludes a own ex
    → CatalogUntouched w ex before after
    → (v : Text) → is_placeholder v ≡ false
    → Named a own before v
    → Untouched w before after v
spares_files w a own ex before after x (assets, replicas, uploads) v real (inl (b, r, n, c)) =
    in_asset w before after ex.asset b v real (r _ assets) (x.0 b n) c
spares_files w a own ex before after x (assets, replicas, uploads) v real (inr (inl (b, r, e, c))) =
    subst (Untouched w before after) c ((r _ assets).0 e)
spares_files w a own ex before after x (assets, replicas, uploads) v real
      (inr (inr (inl (r, s, n, c)))) =
    in_replica w before after ex.replica r v real (s _ replicas) (x.1 r n) c
spares_files w a own ex before after x (assets, replicas, uploads) v real
      (inr (inr (inr (u, s, c)))) =
    at_column w before after (some u.staging_path) v real (s _ uploads (x.2 u)) (ap some c)
