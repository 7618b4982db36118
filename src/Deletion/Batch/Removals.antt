-- ===== src/Deletion/Batch/Removals.antt =====
-- Which rows the calls that remove files leave, on every branch.
use drivebound_storage.Base.{
  Text, ℕ, ◌≡◌, ◌∙◌, refl, inl, inr, sym, Bool, true, List, [], ◌∷◌, update, delete_rows,
  Bool-cases,
}
use drivebound_storage.Base.Fault.{Result, ok, err, ◌>>=◌}
use drivebound_storage.Host.{Host}
use drivebound_storage.Catalog.{Asset, Upload, Db, asset_is}
use drivebound_storage.Catalog.References.{is_placeholder}
use drivebound_storage.Catalog.Unlink.{safely_unlink_catalog_path, under}
use drivebound_storage.Lifecycle.Purge.{Purged, purging_row, safely_purge_asset}
use drivebound_storage.Lifecycle.Purge.Safety.{unlink_tables}
use drivebound_storage.Lifecycle.Purge.Deletes.{
  safely_purge_asset-deletes, safely_purge_asset-uploads,
}
use drivebound_storage.Deletion.Sweep.{no_exclusion}
use drivebound_storage.Deletion.Batch.{
  Turn, Tools, unlink_upload, excluding_upload, remove_staged, owned_staging_paths_for_asset,
  purge_with_staged,
}

pub unlink_upload-tables :
    (w : Host) (u : Upload) (db : Db)
    → ((unlink_upload w u db).1.assets ≡ db.assets)
      × ((unlink_upload w u db).1.uploads ≡ db.uploads)
unfolding unlink_upload
unlink_upload-tables w u db = elim (Bool-cases (is_placeholder u.staging_path)) [
  | inl y ↦ rw y (refl, refl)
  | inr n ↦
      let same = unlink_tables w u.staging_path (under w.staging_path) (excluding_upload u.id) db in
      rw n (same.0, same.2)
]

-- What a purge that went through has done to the two tables.
abbrev pub Deletes : Asset → Db → Result Purged × Db → Type 0
Deletes a db x =
    (p : Purged)
    → x.0 ≡ ok p
    → p.purged ≡ true
    → (x.1.assets ≡ delete_rows (asset_is a.id) (update (asset_is a.id) purging_row db.assets))
      × (x.1.uploads ≡ db.uploads)

safely_purge_asset-Deletes :
    (w : Host) (now : ℕ) (a : Asset) (db : Db) → Deletes a db (safely_purge_asset w now true a db)
safely_purge_asset-Deletes w now a db p e done = (
  safely_purge_asset-deletes w now true a db p e done,
  safely_purge_asset-uploads w now true a db,
)

module _ (w : Host) where
  remove_staged-rest :
      (ps : List Text) (db : Db) (x : Result Bool × Db)
      → (x.1.assets ≡ db.assets) × (x.1.uploads ≡ db.uploads)
      → ((d : Db)
          → ((remove_staged w ps d).1.assets ≡ d.assets)
            × ((remove_staged w ps d).1.uploads ≡ d.uploads))
      → let y = ((λ _. x) >>= λ _. remove_staged w ps) db in
        (y.1.assets ≡ db.assets) × (y.1.uploads ≡ db.uploads)
  remove_staged-rest ps db (err f, d) h rest = h
  remove_staged-rest ps db (ok b, d) h rest = ((rest d).0 ∙ h.0, (rest d).1 ∙ h.1)

  remove_staged-tables :
      (ps : List Text) (db : Db)
      → ((remove_staged w ps db).1.assets ≡ db.assets)
        × ((remove_staged w ps db).1.uploads ≡ db.uploads)
  unfolding remove_staged
  remove_staged-tables [] db = (refl, refl)
  remove_staged-tables (p ∷ ps) db =
      let same = unlink_tables w p (under w.staging_path) no_exclusion db in
      remove_staged-rest ps db
        (safely_unlink_catalog_path w p (under w.staging_path) no_exclusion db) (same.0, same.2)
        (remove_staged-tables ps)

  staged-Deletes :
      (now : ℕ) (a : Asset) (db : Db) (x : Result Bool × Db)
      → (x.1.assets ≡ db.assets) × (x.1.uploads ≡ db.uploads)
      → Deletes a db (((λ _. x) >>= λ _. safely_purge_asset w now true a) db)
  staged-Deletes now a db (err f, d) h p e done = cc
  staged-Deletes now a db (ok b, d) h p e done =
      let (assets, uploads) = safely_purge_asset-Deletes w now a d p e done in
      (rw (sym h.0) assets, uploads ∙ h.1)

pub purge_with_staged-Deletes :
    (t : Tools) (turn : Turn) (a : Asset) (db : Db) → Deletes a db (purge_with_staged t turn a db)
unfolding purge_with_staged
purge_with_staged-Deletes t turn a db =
    let paths = owned_staging_paths_for_asset t.host t.walk a db in
    staged-Deletes t.host turn.now a db (remove_staged t.host paths db)
      (remove_staged-tables t.host paths db)
