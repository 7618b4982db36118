-- ===== src/Catalog/Unlink/Safety.antt =====
-- `safely_unlink_catalog_path` against the rest of the catalog.
use drivebound_storage.Base.{
  ℕ, ◌≡◌, ◌⊎◌, inl, inr, refl, ap, Bool, true, false, Option, none, some, List, [], ◌∷◌, Text,
  same_text_sound, arith, All, All-every, any_row, ◌&&◌,
}
use drivebound_storage.Base.Fault.{Result, ok, err}
use drivebound_storage.Host.{Host}
use drivebound_storage.Catalog.{Asset, Replica, Upload, Db, is_external}
use drivebound_storage.Catalog.References.{
  Excluding, canonical_storage_path, kept, is_placeholder, same_file, aliased, aliases,
  asset_aliases, replica_aliases, external_aliases, physical_path_has_other_reference,
}
use drivebound_storage.Catalog.Unlink.{
  Area, replica_drives, under, validated, unlink, remove_file, unlink_resolved,
  safely_unlink_catalog_path,
}

validated-eq_resolve :
    (w : Host) (area : Area) (path r : Text) → validated w area path ≡ ok r → r ≡ w.resolve path
unfolding validated
validated-eq_resolve w replica_drives path r h = ground arith
validated-eq_resolve w (under root) path r h = ground arith

-- A call leaves everything as it was, or removes the one file of a canonical, unreferenced path.
abbrev pub Outcome : Host → Text → Excluding → Db → Result Bool × Db → Type 0
Outcome w path ex db (r, db') =
    (db' ≡ db)
    ⊎ ((r ≡ ok true)
        × (physical_path_has_other_reference w path ex db ≡ false)
        × (canonical_storage_path w (w.resolve path) ≡ path)
        × (db' ≡ unlink (canonical_storage_path w (w.resolve path)) db))

remove_file-Outcome :
    (w : Host) (path : Text) (ex : Excluding) (db : Db)
    → physical_path_has_other_reference w path ex db ≡ false
    → canonical_storage_path w (w.resolve path) ≡ path
    → Outcome w path ex db (remove_file w (w.resolve path) db)
unfolding remove_file
remove_file-Outcome w path ex db free canonical = ground arith

unlink_resolved-Outcome :
    (w : Host) (path : Text) (ex : Excluding) (db : Db)
    → Outcome w path ex db (unlink_resolved w path ex (w.resolve path) db)
unfolding unlink_resolved
unlink_resolved-Outcome w path ex db = ground (
  arith,
  same_text_sound (canonical_storage_path w (w.resolve path)) path,
  remove_file-Outcome w path ex db,
)

-- A call either changes nothing, or returns True and removes exactly the file of its path, which is
-- then canonical and which no row outside the exclusions names.
pub safely_unlink-Outcome :
    (w : Host) (path : Text) (area : Area) (ex : Excluding) (db : Db)
    → Outcome w path ex db (safely_unlink_catalog_path w path area ex db)
unfolding safely_unlink_catalog_path
safely_unlink-Outcome w path area ex db = go (validated w area path) refl
  where
    go :
        (v : Result Text)
        → validated w area path ≡ v
        → Outcome w path ex db
            (elim v [ err f ↦ (err f, db) | ok resolved ↦ unlink_resolved w path ex resolved db ])
    go (err f) e = inl refl
    go (ok r) e = rw (validated-eq_resolve w area path r e) (unlink_resolved-Outcome w path ex db)

-- The file that a catalog value names is as it was.
abbrev pub Untouched : Host → Db → Db → Text → Type 0
Untouched w before after value =
    after.files (canonical_storage_path w value) ≡ before.files (canonical_storage_path w value)

abbrev pub ColumnUntouched : Host → Db → Db → Option Text → Type 0
ColumnUntouched w before after none = Unit
ColumnUntouched w before after (some value) =
    is_placeholder value ≡ false → Untouched w before after value

abbrev pub AssetUntouched : Host → Db → Db → Option ℕ → Asset → Type 0
AssetUntouched w before after excluded a =
    (is_external a.storage_source ≡ true → Untouched w before after a.original_path)
    × (kept excluded a.id ≡ true
        → ColumnUntouched w before after (some a.original_path)
          × ColumnUntouched w before after a.thumbnail_path
          × ColumnUntouched w before after a.preview_path)

abbrev pub ReplicaUntouched : Host → Db → Db → Option ℕ → Replica → Type 0
ReplicaUntouched w before after excluded r =
    kept excluded r.id ≡ true
    → ColumnUntouched w before after (some r.path) × ColumnUntouched w before after r.metadata_path

abbrev pub UploadUntouched : Host → Db → Db → Option ℕ → Upload → Type 0
UploadUntouched w before after excluded u =
    kept excluded u.id ≡ true → ColumnUntouched w before after (some u.staging_path)

module _ (w : Host) (target : Text) (db : Db) where
  file-unlink :
      (value : Text) → same_file w target value ≡ false → Untouched w db (unlink target db) value
  file-unlink value h = rw h

  column-unlink :
      (column : Option Text)
      → aliased w target column ≡ false
      → ColumnUntouched w db (unlink target db) column
  column-unlink none h = tt
  column-unlink (some value) h = λ real. file-unlink value (ground arith)

  asset-unlink :
      (excluded : Option ℕ) (a : Asset)
      → is_external a.storage_source && same_file w target a.original_path ≡ false
      → kept excluded a.id && aliased w target (some a.original_path) ≡ false
      → kept excluded a.id && aliased w target a.thumbnail_path ≡ false
      → kept excluded a.id && aliased w target a.preview_path ≡ false
      → AssetUntouched w db (unlink target db) excluded a
  asset-unlink excluded a e o t p = (
    λ x. file-unlink a.original_path (ground arith),
    λ k. (
      column-unlink (some a.original_path) (ground arith),
      column-unlink a.thumbnail_path (ground arith),
      column-unlink a.preview_path (ground arith),
    ),
  )

  assets-unlink :
      (excluded : Option ℕ) (xs : List Asset)
      → external_aliases w target xs ≡ false
      → asset_aliases w target excluded xs ≡ false
      → All (AssetUntouched w db (unlink target db) excluded) xs
  unfolding any_row
  assets-unlink excluded [] e o = tt
  assets-unlink excluded (a ∷ xs) e o = (
    asset-unlink excluded a (ground arith) (ground arith) (ground arith) (ground arith),
    assets-unlink excluded xs (ground arith) (ground arith),
  )

  replicas-unlink :
      (excluded : Option ℕ) (xs : List Replica)
      → replica_aliases w target excluded xs ≡ false
      → All (ReplicaUntouched w db (unlink target db) excluded) xs
  unfolding any_row
  replicas-unlink excluded [] h = tt
  replicas-unlink excluded (r ∷ xs) h = (
    λ k. (column-unlink (some r.path) (ground arith), column-unlink r.metadata_path (ground arith)),
    replicas-unlink excluded xs (ground arith),
  )

  uploads-unlink :
      (excluded : Option ℕ) (xs : List Upload)
      → aliases w target (λ u. kept excluded u.id) (λ u. some u.staging_path) xs ≡ false
      → All (UploadUntouched w db (unlink target db) excluded) xs
  unfolding any_row
  uploads-unlink excluded [] h = tt
  uploads-unlink excluded (u ∷ xs) h = (
    λ k. column-unlink (some u.staging_path) (ground arith),
    uploads-unlink excluded xs (ground arith),
  )

-- Every row's files are as they were.
abbrev pub CatalogUntouched : Host → Excluding → Db → Db → Type 0
CatalogUntouched w ex before after =
    All (AssetUntouched w before after ex.asset) before.assets
    × All (ReplicaUntouched w before after ex.replica) before.replicas
    × All (UploadUntouched w before after ex.upload) before.uploads

CatalogUntouched-unlink :
    (w : Host) (path : Text) (ex : Excluding) (db : Db)
    → physical_path_has_other_reference w path ex db ≡ false
    → CatalogUntouched w ex db (unlink (canonical_storage_path w path) db)
unfolding physical_path_has_other_reference
CatalogUntouched-unlink w path ex db free =
    let target = canonical_storage_path w path in
    (
      assets-unlink w target db ex.asset db.assets (ground arith) (ground arith),
      replicas-unlink w target db ex.replica db.replicas (ground arith),
      uploads-unlink w target db ex.upload db.uploads (ground arith),
    )

ColumnUntouched-refl : (w : Host) (db : Db) (c : Option Text) → ColumnUntouched w db db c
ColumnUntouched-refl w db none = tt
ColumnUntouched-refl w db (some v) = λ _. refl

CatalogUntouched-refl : (w : Host) (ex : Excluding) (db : Db) → CatalogUntouched w ex db db
CatalogUntouched-refl w ex db = (
  All-every _ db.assets
      λ a. (λ _. refl, λ _. (λ _. refl, ColumnUntouched-refl w db _, ColumnUntouched-refl w db _)),
  All-every _ db.replicas λ r _. (λ _. refl, ColumnUntouched-refl w db _),
  All-every _ db.uploads λ u _ _. refl,
)

canonical_storage_path-resolve :
    (w : Host) (path : Text)
    → w.resolve (w.resolve path) ≡ w.resolve path
    → canonical_storage_path w (w.resolve path) ≡ canonical_storage_path w path
unfolding canonical_storage_path
canonical_storage_path-resolve w path h = ap w.normcase h

-- Whatever the call returns, no file changes that another catalog row names, under any alias: the
-- original, thumbnail and preview of every asset, the copy and sidecar of every replica and the
-- staged bytes of every upload that the caller does not exclude, and every external original.
-- Placeholders for a path are no names.
-- `Path.resolve` must be idempotent, as it is documented to be.
pub safely_unlink_safe :
    (w : Host) (path : Text) (area : Area) (ex : Excluding) (db : Db)
    → ((p : Text) → w.resolve (w.resolve p) ≡ w.resolve p)
    → let after = (safely_unlink_catalog_path w path area ex db).1 in CatalogUntouched w ex db after
safely_unlink_safe w path area ex db idem = elim (safely_unlink-Outcome w path area ex db) [
  | inl same ↦ rw same (CatalogUntouched-refl w ex db)
  | inr (_, free, _, removed) ↦
      rw (removed, canonical_storage_path-resolve w path (idem path))
        (CatalogUntouched-unlink w path ex db free)
]
