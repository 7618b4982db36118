-- ===== src/Lifecycle/Purge/Safety.antt =====
-- The removals of a purge, one after the other, against the files that other rows name.
use drivebound_storage.Base.{
  ℕ, ◌≡◌, inl, inr, refl, ◌∙◌, Bool, false, List, Text, ◌==◌, arith, Row, Row-update,
  Row-delete_rows, Bool-cases, scalars,
}
use drivebound_storage.Base.Fault.{Result, ok, err}
use drivebound_storage.Host.{Host, require_storage}
use drivebound_storage.Catalog.{Asset, Replica, PathKind, Db, asset_is}
use drivebound_storage.Catalog.References.{Excluding, is_placeholder}
use drivebound_storage.Catalog.Unlink.{Area, safely_unlink_catalog_path}
use drivebound_storage.Catalog.Unlink.Safety.{Untouched, safely_unlink-Outcome, safely_unlink_safe}
use drivebound_storage.Lifecycle.{audit, set_assets}
use drivebound_storage.Lifecycle.Purge.{
  Attempt, goes_on, stops, settle, remove_path, delete_replica, remove_bytes, purging_row,
  finish_purge, purge_checked, safely_purge_asset, is_due, purge_roles,
}
use drivebound_storage.Lifecycle.Purge.Steps.{remove_bytes_rule}
use drivebound_storage.Lifecycle.Purge.Spares.{
  Spares, Spares-trans, Excludes, Named, Named-same, spares_files,
}

-- What an unlink leaves alone: the tables.
pub unlink_tables :
    (w : Host) (path : Text) (area : Area) (ex : Excluding) (db : Db)
    → let after = (safely_unlink_catalog_path w path area ex db).1 in
      (after.assets ≡ db.assets) × (after.replicas ≡ db.replicas) × (after.uploads ≡ db.uploads)
unlink_tables w path area ex db = elim (safely_unlink-Outcome w path area ex db) [
  | inl same ↦ rw same (refl, refl, refl)
  | inr (_, _, _, removed) ↦ rw removed (refl, refl, refl)
]

pub settle_tables :
    (a : Asset) (kind : PathKind) (collect : Bool) (r : Result Bool) (db : Db)
    → let after = (settle a kind collect r db).1 in
      (after.assets ≡ db.assets)
      × (after.replicas ≡ db.replicas)
      × (after.uploads ≡ db.uploads)
      × (after.files ≡ db.files)
unfolding settle audit
settle_tables a kind collect (ok _) db = (refl, refl, refl, refl)
settle_tables a kind collect (err f) db = ground arith

module _ (w : Host) (a : Asset) (own : List Replica)
    (idem : (p : Text) → w.resolve (w.resolve p) ≡ w.resolve p) where
  remove_path-Spares :
      (kind : PathKind) (collect : Bool) (path : Text) (area : Area) (ex : Excluding) (db : Db)
      → Excludes a own ex
      → Spares w a own db (remove_path w a kind collect path area ex db).1
  unfolding remove_path
  remove_path-Spares kind collect path area ex db x v real n =
      let (r, mid) = safely_unlink_catalog_path w path area ex db in
      let (assets, replicas, uploads) = unlink_tables w path area ex db in
      let (assets', replicas', uploads', files') = settle_tables a kind collect r mid in
      (
        rw files'
            (spares_files w a own ex db mid x (safely_unlink_safe w path area ex db idem) v real n),
        Named-same w a own db (settle a kind collect r mid).1 (assets' ∙ assets)
            (replicas' ∙ replicas) (uploads' ∙ uploads) v n,
      )

  delete_replica-Spares :
      (r : Replica) (db : Db) → Row r own → Spares w a own db (delete_replica r.id db)
  delete_replica-Spares r db here v real n = (refl, keep n)
    where
      keep : Named a own db v → Named a own (delete_replica r.id db) v
      keep (inl x) = inl x
      keep (inr (inl x)) = inr (inl x)
      keep (inr (inr (inl (x, row, apart, c)))) =
          let other = here (λ (y : Replica). x.id == y.id ≡ false) apart in
          inr (inr (inl (x, Row-delete_rows (λ y. y.id == r.id) db.replicas x other row, apart, c)))
      keep (inr (inr (inr x))) = inr (inr (inr x))

  remove_bytes-Spares :
      (collect : Bool) (db : Db)
      → ((r : Replica) → Row r (scalars (λ r. r.asset_id == a.id) db.replicas) → Row r own)
      → Spares w a own db (remove_bytes w a collect db).1
  remove_bytes-Spares =
      remove_bytes_rule w a own (Spares w a own) (λ x v real n. (refl, n)) (Spares-trans w a own)
        remove_path-Spares delete_replica-Spares

  set_purging-Named :
      (db : Db) (v : Text)
      → Named a own db v
      → Named a own (set_assets (asset_is a.id) purging_row db) v
  unfolding purging_row
  set_purging-Named db v (inl (b, row, n, c)) =
      inl (b, (rw n at (Row-update (asset_is a.id) purging_row db.assets b row)), n, c)
  set_purging-Named db v (inr (inl (b, row, e, c))) = elim (Bool-cases (asset_is a.id b)) [
    | inl y ↦ inr (
        inl
          (purging_row b, (rw y at (Row-update (asset_is a.id) purging_row db.assets b row)), e, c))
    | inr n ↦
        inr (inl (b, (rw n at (Row-update (asset_is a.id) purging_row db.assets b row)), e, c))
  ]
  set_purging-Named db v (inr (inr n)) = inr (inr n)

  finish_purge-files : (x : Attempt × Db) → (finish_purge a x).1.files ≡ x.1.files
  unfolding finish_purge audit
  finish_purge-files (goes_on, db) = refl
  finish_purge-files (stops kinds, db) = refl

  purge_checked-spares :
      (collect : Bool) (r : Result (Unit {0})) (db : Db)
      → own ≡ scalars (λ r. r.asset_id == a.id) db.replicas
      → (v : Text) → is_placeholder v ≡ false
      → Named a own db v
      → Untouched w db (purge_checked w collect a r db).1 v
  unfolding purge_checked
  purge_checked-spares collect (err f) db same v real n = refl
  purge_checked-spares collect (ok _) db same v real n =
      let marked = set_assets (asset_is a.id) purging_row db in
      rw (finish_purge-files (remove_bytes w a collect marked))
        (remove_bytes-Spares collect marked (λ r row. rw same row) v real
          (set_purging-Named db v n)).0

-- Purging a revision changes no file that another row names: an original, thumbnail or preview of
-- another asset, an external original (its own included), a copy or sidecar of a replica that is
-- none of the revision's, or the staged bytes of an upload. `Path.resolve` must be idempotent.
pub safely_purge_asset_spares :
    (w : Host) (now : ℕ) (collect : Bool) (a : Asset) (db : Db)
    → ((p : Text) → w.resolve (w.resolve p) ≡ w.resolve p)
    → (v : Text) → is_placeholder v ≡ false
    → Named a (scalars (λ r. r.asset_id == a.id) db.replicas) db v
    → Untouched w db (safely_purge_asset w now collect a db).1 v
unfolding safely_purge_asset
safely_purge_asset_spares w now collect a db idem v real n = elim (Bool-cases (is_due now a)) [
  | inl y ↦
      rw y
        (purge_checked-spares w a _ idem collect (require_storage w purge_roles) db refl v real n)
  | inr no_purge ↦ rw no_purge refl
]
