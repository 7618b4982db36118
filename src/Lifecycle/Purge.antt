-- ===== src/Lifecycle/Purge.antt =====
-- `safely_purge_asset` and `purge_due_assets` of backend/app/services/lifecycle.py.
pub mod Spares
pub mod Steps
pub mod Safety
pub mod Tombstone
pub mod Deletes
use drivebound_storage.Base.{
  ℕ, zero, suc, ◌+◌, Bool, true, false, ◌&&◌, ◌||◌, not, Option, none, some, List, [], ◌∷◌, map,
  Text, ◌==◌, leb, if◌then◌else◌, scalar, scalars, update, delete_rows, order_by, take, same_text,
  opt_is,
}
use drivebound_storage.Base.Fault.{Fault, Result, ok, err, Exec, noncanonical_catalog_path}
use drivebound_storage.Host.{
  Host, Role, originals, derivatives, staging, replicas, backups, require_storage,
}
use drivebound_storage.Catalog.{
  LifecycleState, active, superseded, trashed, purging, StorageSource, managed, external, Asset,
  Replica, PathKind, replica_copy, replica_metadata, managed_original, derivative, Item,
  asset_path_retained, asset_purge_deferred, asset_purged, Db, asset_is,
}
use drivebound_storage.Catalog.References.{Excluding}
use drivebound_storage.Catalog.Unlink.{Area, replica_drives, under, safely_unlink_catalog_path}
use drivebound_storage.Lifecycle.{audit, set_assets}

abbrev is_noncanonical : Fault → Bool
is_noncanonical noncanonical_catalog_path = true
is_noncanonical _ = false

-- How one removal went: it may go on, or the purge returns False having retained these kinds.
pub data Attempt : Type 0 where
  goes_on : Attempt
  stops : List PathKind → Attempt

-- One `try`/`except` block around an unlink. `collect` is `retained_noncanonical is not None`.
pub settle : Asset → PathKind → Bool → Result Bool → Db → Attempt × Db
unfolding audit
settle a kind collect (ok _) db = (goes_on, db)
settle a kind collect (err f) db =
    if collect && is_noncanonical f
    then (stops (kind ∷ []), audit a.user_id (asset_path_retained a.id kind) db)
    else (stops [], audit a.user_id (asset_purge_deferred a.id f kind) db)

pub remove_path : Host → Asset → PathKind → Bool → Text → Area → Excluding → Db → Attempt × Db
unfolding settle
remove_path w a kind collect path area ex db =
    let (r, db') = safely_unlink_catalog_path w path area ex db in settle a kind collect r db'

-- The next block runs unless an earlier one has returned.
abbrev pub then_do : Attempt × Db → (Db → Attempt × Db) → Attempt × Db
then_do (goes_on, db) k = k db
then_do (stops kinds, db) k = (stops kinds, db)

abbrev pub excluding_replica : Replica → Excluding
excluding_replica r = record { asset = none; replica = some r.id; upload = none }

abbrev pub excluding_asset : Asset → Excluding
excluding_asset a = record { asset = some a.id; replica = none; upload = none }

-- `if replica.metadata_path:`; an empty text is false
remove_metadata : Host → Asset → Bool → Replica → Option Text → Db → Attempt × Db
unfolding remove_path
remove_metadata w a collect r none db = (goes_on, db)
remove_metadata w a collect r (some []) db = (goes_on, db)
remove_metadata w a collect r (some (c ∷ s)) db =
    remove_path w a replica_metadata collect (c ∷ s) replica_drives (excluding_replica r) db

abbrev pub delete_replica : ℕ → Db → Db
delete_replica i db = record db { replicas = delete_rows (λ r. r.id == i) db.replicas }

remove_replica : Host → Asset → Bool → Replica → Db → Attempt × Db
unfolding remove_path remove_metadata
remove_replica w a collect r db =
    then_do
      (then_do (remove_path w a replica_copy collect r.path replica_drives (excluding_replica r) db)
        (remove_metadata w a collect r r.metadata_path))
      λ db'. (goes_on, delete_replica r.id db')

remove_replicas : Host → Asset → Bool → List Replica → Db → Attempt × Db
unfolding remove_replica
remove_replicas w a collect [] db = (goes_on, db)
remove_replicas w a collect (r ∷ rs) db =
    then_do (remove_replica w a collect r db) (remove_replicas w a collect rs)

remove_original : Host → Asset → Bool → StorageSource → Db → Attempt × Db
unfolding remove_path
remove_original w a collect external db = (goes_on, db)
remove_original w a collect managed db =
    remove_path w a managed_original collect a.original_path (under w.originals_path)
      (excluding_asset a) db

-- the elements of `{asset.thumbnail_path, asset.preview_path} - {None}`
abbrev pub derivative_paths : Option Text → Option Text → List Text
derivative_paths none none = []
derivative_paths none (some p) = p ∷ []
derivative_paths (some t) none = t ∷ []
derivative_paths (some t) (some p) = if same_text t p then t ∷ [] else t ∷ p ∷ []

remove_derivatives : Host → Asset → Bool → List Text → Db → Attempt × Db
unfolding remove_path
remove_derivatives w a collect [] db = (goes_on, db)
remove_derivatives w a collect (p ∷ ps) db =
    then_do (remove_path w a derivative collect p (under w.derivatives_path) (excluding_asset a) db)
      (remove_derivatives w a collect ps)

-- Every removal of the purge, in the order of the source.
pub remove_bytes : Host → Asset → Bool → Db → Attempt × Db
unfolding remove_replicas remove_original remove_derivatives
remove_bytes w a collect db =
    then_do
      (then_do (remove_replicas w a collect (scalars (λ r. r.asset_id == a.id) db.replicas) db)
        (remove_original w a collect a.storage_source))
      (remove_derivatives w a collect (derivative_paths a.thumbnail_path a.preview_path))

-- `ON DELETE SET NULL` of `sync_items.asset_id`
abbrev forget_asset : ℕ → Item → Item
forget_asset i item = record item { asset_id = none }

abbrev pub delete_asset : Asset → Db → Db
delete_asset a db = record db {
  assets = delete_rows (asset_is a.id) db.assets;
  items = update (λ item. opt_is item.asset_id a.id) (forget_asset a.id) db.items;
}

-- The answer of the purge, and the kinds appended to `retained_noncanonical`.
pub record Purged : Type 0 where
  pub purged : Bool
  pub retained : List PathKind

finish_purge : Asset → Attempt × Db → Purged × Db
unfolding audit
finish_purge a (stops kinds, db) = (record { purged = false; retained = kinds }, db)
finish_purge a (goes_on, db) = (
  record { purged = true; retained = [] },
  delete_asset a (audit a.user_id (asset_purged a.id a.logical_id a.checksum) db),
)

abbrev pub purgeable : LifecycleState → Bool
purgeable trashed = true
purgeable purging = true
purgeable _ = false

abbrev due : Option ℕ → ℕ → Bool
due none now = false
due (some t) now = leb t now

abbrev pub is_due : ℕ → Asset → Bool
is_due now a = purgeable a.lifecycle_state && due a.purge_after now

pub purging_row : Asset → Asset
purging_row a = record a { lifecycle_state = purging }

abbrev not_purged : Purged
not_purged = record { purged = false; retained = [] }

-- the roles that a purge may write to
abbrev pub purge_roles : List Role
purge_roles = originals ∷ derivatives ∷ staging ∷ replicas ∷ backups ∷ []

purge_checked : Host → Bool → Asset → Result (Unit {0}) → Exec Db Purged
unfolding purging_row
purge_checked w collect a (err f) db = (err f, db)
purge_checked w collect a (ok _) db =
    let (r, db') =
      finish_purge a (remove_bytes w a collect (set_assets (asset_is a.id) purging_row db)) in
    (ok r, db')

unfoldable pub safely_purge_asset : Host → ℕ → Bool → Asset → Exec Db Purged
unfolding purge_checked finish_purge remove_bytes
safely_purge_asset w now collect a db =
    if is_due now a
    then purge_checked w collect a (require_storage w purge_roles) db
    else (ok not_purged, db)

abbrev purge_time : Asset → ℕ
purge_time a = elim a.purge_after [ none ↦ 0 | some t ↦ t ]

abbrev chosen : Option ℕ → Asset → Bool
chosen none a = true
chosen (some i) a = a.id == i

-- the ids that one pass takes up
unfoldable pub due_ids : ℕ → ℕ → Option ℕ → Db → List ℕ
due_ids now limit asset_id db =
    map (λ a. a.id)
      (take limit
        (order_by purge_time (scalars (λ a. is_due now a && chosen asset_id a) db.assets)))

purge_one : Host → ℕ → Option Asset → Exec Db Bool
purge_one w now none db = (ok false, db)
purge_one w now (some a) db =
    let (r, db') = safely_purge_asset w now false a db in
    (elim r [ err f ↦ err f | ok p ↦ ok p.purged ], db')

abbrev counted : Bool → ℕ → ℕ
counted true n = suc n
counted false n = n

-- The loop; each round commits, and a fault of `require_storage` ends it.
purge_each : Host → ℕ → List ℕ → ℕ → Exec Db ℕ
unfolding purge_one
purge_each w now [] purged db = (ok purged, db)
purge_each w now (i ∷ is) purged db =
    let (r, db') = purge_one w now (scalar (λ a. asset_is i a && is_due now a) db.assets) db in
    elim r [ err f ↦ (err f, db') | ok b ↦ purge_each w now is (counted b purged) db' ]

unfoldable pub purge_due_assets : Host → ℕ → ℕ → Option ℕ → Exec Db ℕ
unfolding due_ids purge_each
purge_due_assets w now limit asset_id db = purge_each w now (due_ids now limit asset_id db) 0 db
