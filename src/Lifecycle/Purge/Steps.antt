-- ===== src/Lifecycle/Purge/Steps.antt =====
-- The removals of a purge, one after the other: a relation between the states before and after holds
-- of all of them if it holds of each unlink and of each deleted replica row.
use drivebound_storage.Base.{
  ◌≡◌, refl, Bool, false, Option, none, some, List, [], ◌∷◌, Text, ◌==◌, arith, Row, scalars,
}
use drivebound_storage.Host.{Host}
use drivebound_storage.Catalog.{
  StorageSource, managed, external, Asset, Replica, PathKind, replica_copy, replica_metadata,
  managed_original, derivative, Db,
}
use drivebound_storage.Catalog.References.{Excluding}
use drivebound_storage.Catalog.Unlink.{Area, replica_drives, under}
use drivebound_storage.Lifecycle.Purge.{
  Attempt, goes_on, stops, remove_path, then_do, excluding_replica, excluding_asset,
  remove_metadata, delete_replica, remove_replica, remove_replicas, remove_original,
  remove_derivatives, derivative_paths, remove_bytes,
}
use drivebound_storage.Lifecycle.Purge.Spares.{Excludes}

module _ (a : Asset) (own : List Replica) where
  Excludes-asset : Excludes a own (excluding_asset a)
  Excludes-asset = (λ b n. ground arith, λ r n. refl, λ u. refl)

  Excludes-replica : (r : Replica) → Row r own → Excludes a own (excluding_replica r)
  Excludes-replica r here =
      (λ b n. refl, λ x apart. ground (arith, here (λ y. x.id == y.id ≡ false) apart), λ u. refl)

module _ (w : Host) (a : Asset) (own : List Replica) (R : Db → Db → Type 1)
    (R-refl : (x : Db) → R x x) (R-trans : (x y z : Db) → R x y → R y z → R x z)
    (R-path : (kind : PathKind) (collect : Bool) (path : Text) (area : Area) (ex : Excluding)
        (db : Db)
      → Excludes a own ex
      → R db (remove_path w a kind collect path area ex db).1)
    (R-delete : (r : Replica) (db : Db) → Row r own → R db (delete_replica r.id db)) where
  then_do_rule :
      (db : Db) (first : Attempt × Db) (k : Db → Attempt × Db)
      → R db first.1
      → ((mid : Db) → R mid (k mid).1)
      → R db (then_do first k).1
  then_do_rule db (goes_on, mid) k h g = R-trans db mid (k mid).1 h (g mid)
  then_do_rule db (stops kinds, mid) k h g = h

  remove_metadata_rule :
      (collect : Bool) (r : Replica) (m : Option Text) (db : Db)
      → Row r own
      → R db (remove_metadata w a collect r m db).1
  unfolding remove_metadata
  remove_metadata_rule collect r none db here = R-refl db
  remove_metadata_rule collect r (some []) db here = R-refl db
  remove_metadata_rule collect r (some (c ∷ s)) db here =
      R-path replica_metadata collect (c ∷ s) replica_drives (excluding_replica r) db
        (Excludes-replica a own r here)

  remove_replica_rule :
      (collect : Bool) (r : Replica) (db : Db)
      → Row r own
      → R db (remove_replica w a collect r db).1
  unfolding remove_replica
  remove_replica_rule collect r db here =
      let copy =
        remove_path w a replica_copy collect r.path replica_drives (excluding_replica r) db in
      then_do_rule db (then_do copy (remove_metadata w a collect r r.metadata_path))
        (λ d. (goes_on, delete_replica r.id d))
        (then_do_rule db copy (remove_metadata w a collect r r.metadata_path)
          (R-path replica_copy collect r.path replica_drives (excluding_replica r) db
            (Excludes-replica a own r here))
          (λ mid. remove_metadata_rule collect r r.metadata_path mid here))
        (λ mid. R-delete r mid here)

  remove_replicas_rule :
      (collect : Bool) (rs : List Replica) (db : Db)
      → ((r : Replica) → Row r rs → Row r own)
      → R db (remove_replicas w a collect rs db).1
  unfolding remove_replicas
  remove_replicas_rule collect [] db within = R-refl db
  remove_replicas_rule collect (r ∷ rs) db within =
      then_do_rule db (remove_replica w a collect r db) (remove_replicas w a collect rs)
        (remove_replica_rule collect r db (within r (λ P h. h.0)))
        (λ mid. remove_replicas_rule collect rs mid (λ x row. within x (λ P h. row P h.1)))

  remove_original_rule :
      (collect : Bool) (s : StorageSource) (db : Db) → R db (remove_original w a collect s db).1
  unfolding remove_original
  remove_original_rule collect external db = R-refl db
  remove_original_rule collect managed db =
      R-path managed_original collect a.original_path (under w.originals_path) (excluding_asset a)
        db (Excludes-asset a own)

  remove_derivatives_rule :
      (collect : Bool) (ps : List Text) (db : Db) → R db (remove_derivatives w a collect ps db).1
  unfolding remove_derivatives
  remove_derivatives_rule collect [] db = R-refl db
  remove_derivatives_rule collect (p ∷ ps) db =
      then_do_rule db _ (remove_derivatives w a collect ps)
        (R-path derivative collect p (under w.derivatives_path) (excluding_asset a) db
          (Excludes-asset a own))
        (λ mid. remove_derivatives_rule collect ps mid)

  -- The rule for all the removals of one purge.
  pub remove_bytes_rule :
      (collect : Bool) (db : Db)
      → ((r : Replica) → Row r (scalars (λ r. r.asset_id == a.id) db.replicas) → Row r own)
      → R db (remove_bytes w a collect db).1
  unfolding remove_bytes
  remove_bytes_rule collect db within =
      let rows = remove_replicas w a collect (scalars (λ r. r.asset_id == a.id) db.replicas) db in
      let ps = derivative_paths a.thumbnail_path a.preview_path in
      then_do_rule db (then_do rows (remove_original w a collect a.storage_source))
        (remove_derivatives w a collect ps)
        (then_do_rule db rows (remove_original w a collect a.storage_source)
          (remove_replicas_rule collect _ db within)
          (λ mid. remove_original_rule collect a.storage_source mid))
        (λ mid. remove_derivatives_rule collect ps mid)
