-- ===== src/Sync/Items.antt =====
-- `clone_asset_revision`, `operation_payload`, `next_revision` and `_apply_item_operation` of
-- backend/app/services/sync.py. The item operation returns the payload that the source stores in
-- the operation; its item is the row of the root and the file, and its asset the row of its id.
pub mod Upsert
pub mod Placing
pub mod Keeps
pub mod Versions
pub mod Frame
pub mod Revision
use drivebound_storage.Base.{
  ℕ, suc, ◌+◌, ◌/◌, ◌^◌, Bool, true, false, ◌&&◌, ◌||◌, not, Option, none, some, List, [], ◌∷◌,
  ◌++◌, Text, codes, decimal, hex_from, ◌==◌, opt_is, if◌then◌else◌, is_some, scalar, scalars,
  update, any_row, leb,
}
use drivebound_storage.Base.Fault.{
  Fault, Result, ok, err, Exec, clone_of_deleting, upsert_incomplete, uploaded_asset_unavailable,
  move_incomplete, synchronized_asset_deleted,
}
use drivebound_storage.Host.{Host}
use drivebound_storage.Catalog.{
  LifecycleState, active, superseded, trashed, purging, unprotected, not_requested, Asset, Root,
  Item, Kind, upsert, move, delete, AssetInfo, Payload, content, tombstone, Operation, Db,
  is_active, asset_is, revision_of, active_of,
}
use drivebound_storage.Lifecycle.{supersede_row, trash_asset, set_assets}

-- `SyncOperationInput`
pub record Input : Type 0 where
  pub operation_id : ℕ
  pub client_sequence : ℕ
  pub kind : Kind
  pub logical_id : ℕ
  pub base_revision : Option Text
  pub relative_path : Option Text
  pub asset_id : Option ℕ

-- `f"r{cursor}-{operation_id.hex[:12]}"`: the first 12 of the 32 hexadecimal digits
unfoldable pub next_revision : ℕ → ℕ → Text
next_revision cursor operation_id =
    b'r' ∷ (decimal cursor ++ b'-' ∷ hex_from 12 (operation_id / 2 ^ 80) [])

abbrev pub cloneable : LifecycleState → Bool
cloneable active = true
cloneable superseded = true
cloneable _ = false

-- The columns outside `_REVISION_IDENTITY_COLUMNS` are the source's; `created_at` is set on insert.
abbrev pub clone_row : ℕ → ℕ → Asset → ℕ → ℕ → Asset
clone_row new_id now source logical version = record source {
  id = new_id;
  logical_id = logical;
  version = version;
  lifecycle_state = active;
  superseded_at = none;
  trashed_at = none;
  purge_after = none;
  deleted_by = none;
  protection_status = unprotected;
  restore_status = not_requested;
  restored_at = none;
  created_at = now;
}

unfoldable pub clone_asset_revision : ℕ → ℕ → Asset → ℕ → ℕ → Result Asset
clone_asset_revision new_id now source logical version =
    if cloneable source.lifecycle_state
    then ok (clone_row new_id now source logical version)
    else err clone_of_deleting

abbrev asset_info : Asset → AssetInfo
asset_info a = record { asset_id = a.id; filename = a.original_filename; checksum = a.checksum }

unfoldable pub operation_payload : Input → Option Asset → Payload
operation_payload input none = content input.relative_path none
operation_payload input (some a) = content input.relative_path (some (asset_info a))

abbrev pub item_is : ℕ → ℕ → Item → Bool
item_is root logical item = item.root_id == root && item.logical_id == logical

-- an asset that a sync writer may use
abbrev pub usable : ℕ → ℕ → Asset → Bool
usable i user a = a.id == i && a.user_id == user && is_active a.lifecycle_state

abbrev larger : ℕ → ℕ → ℕ
larger m n = if leb m n then n else m

-- `coalesce(max(version), 0)` over the revisions of a file
unfoldable pub highest_version : ℕ → ℕ → List Asset → ℕ
highest_version user logical [] = 0
highest_version user logical (a ∷ xs) =
    let rest = highest_version user logical xs in
    if revision_of user logical a then larger a.version rest else rest

-- How the asset joins the file: as it is, by moving its own row, or by a new row.
pub data Place : Type 0 where
  stay attach clone : Place

abbrev elsewhere : ℕ → ℕ → ℕ → Item → Bool
elsewhere asset_id root logical item =
    opt_is item.asset_id asset_id
    && (not (item.root_id == root) || not (item.logical_id == logical))

abbrev history_of : ℕ → Asset → Asset → Bool
history_of user asset a = revision_of user asset.logical_id a && not (a.id == asset.id)

-- `item is not None and item.asset_id != asset.id and …`
abbrev pub reused : Option Item → ℕ → Option Asset → Bool
reused none i target = false
reused (some item) i target =
    not (opt_is item.asset_id i) && elim target [ none ↦ true | some t ↦ not (t.id == i) ]

unfoldable pub place_of : Root → Input → Option Item → Asset → Option Asset → Db → Place
place_of root input item asset target db =
    if asset.logical_id == input.logical_id
    then (if reused item asset.id target then clone else stay)
    else if any_row (elsewhere asset.id root.id input.logical_id) db.items
        || any_row (history_of root.user_id asset) db.assets
    then clone
    else attach

abbrev pub attach_row : ℕ → ℕ → Asset → Asset
attach_row logical version a = record a { logical_id = logical; version = version }

-- the row that a clone adds
unfoldable pub add_clone : Result Asset → Exec Db Asset
add_clone (err f) db = (err f, db)
add_clone (ok c) db = (ok c, record db { assets = db.assets ++ c ∷ []; next_id = suc db.next_id })

unfoldable pub place_asset : ℕ → ℕ → ℕ → Asset → Place → Exec Db Asset
unfolding add_clone
place_asset now logical version asset stay db = (ok asset, db)
place_asset now logical version asset attach db = (
  ok (attach_row logical version asset),
  set_assets (asset_is asset.id) (attach_row logical version) db,
)
place_asset now logical version asset clone db =
    add_clone (clone_asset_revision db.next_id now asset logical version) db

pub make_current : Asset → Asset
make_current a = record a {
  lifecycle_state = active;
  superseded_at = none;
  trashed_at = none;
  purge_after = none;
}

-- the active revision of the file gives way to another asset
unfoldable pub supersede_target : ℕ → Asset → Option Asset → Db → Db
unfolding supersede_row
supersede_target now asset none db = db
supersede_target now asset (some t) db =
    if t.id == asset.id then db else set_assets (asset_is t.id) (supersede_row now) db

abbrev pub revision_text : Option Text → Text
revision_text none = []
revision_text (some r) = r

abbrev point_item : ℕ → Text → Text → Item → Item
point_item asset_id path revision item = record item {
  asset_id = some asset_id;
  relative_path = path;
  revision = revision;
  deleted_at = none;
}

abbrev pub set_items : ℕ → ℕ → (Item → Item) → Db → Db
set_items root logical f db = record db { items = update (item_is root logical) f db.items }

unfoldable pub write_item : Root → ℕ → ℕ → Text → Text → Option Item → Db → Db
write_item root logical asset_id path revision none db = record db {
  items =
      db.items
      ++ record {
        root_id = root.id;
        logical_id = logical;
        asset_id = some asset_id;
        relative_path = path;
        revision = revision;
        deleted_at = none;
      }
        ∷ [];
}
write_item root logical asset_id path revision (some _) db =
    set_items root.id logical (point_item asset_id path revision) db

-- the end of an upsert, once the asset has its place
unfoldable pub finish_upsert :
    Root → Operation → Input → Option Item → Text → Result Asset × Db → Result Payload × Db
unfolding make_current write_item
finish_upsert root operation input item path (err f, db) = (err f, db)
finish_upsert root operation input item path (ok asset, db) = (
  ok (operation_payload input (some asset)),
  write_item root input.logical_id asset.id path (revision_text operation.revision) item
      (set_assets (asset_is asset.id) make_current db),
)

unfoldable pub upsert_asset :
    ℕ → Root → Operation → Input → Option Item → Text → Option Asset → Exec Db Payload
unfolding place_asset supersede_target finish_upsert
upsert_asset now root operation input item path none db = (err uploaded_asset_unavailable, db)
upsert_asset now root operation input item path (some asset) db =
    let version = highest_version root.user_id input.logical_id db.assets + 1 in
    let target = scalar (active_of root.user_id input.logical_id) db.assets in
    let given_way = supersede_target now asset target db in
    finish_upsert root operation input item path (
      place_asset now input.logical_id version asset
        (place_of root input item asset target given_way) given_way)

unfoldable pub apply_upsert :
    ℕ → Root → Operation → Input → Option Item → Option ℕ → Option Text → Exec Db Payload
unfolding upsert_asset
apply_upsert now root operation input item (some i) (some path) db =
    upsert_asset now root operation input item path (scalar (usable i root.user_id) db.assets) db
apply_upsert now root operation input item _ _ db = (err upsert_incomplete, db)

abbrev rename_item : Text → Text → Item → Item
rename_item path revision item = record item { relative_path = path; revision = revision }

-- `none` at the asset is an item with no asset
unfoldable pub move_asset : Root → Operation → Input → Text → Option Asset → Exec Db Payload
move_asset root operation input path asset db = (
  ok (operation_payload input asset),
  set_items root.id input.logical_id (rename_item path (revision_text operation.revision)) db,
)

unfoldable pub move_found : Root → Operation → Input → Text → Option Asset → Exec Db Payload
unfolding move_asset
move_found root operation input path none db = (err synchronized_asset_deleted, db)
move_found root operation input path (some a) db = move_asset root operation input path (some a) db

unfoldable pub move_item : Root → Operation → Input → Text → Option ℕ → Exec Db Payload
unfolding move_found
move_item root operation input path none db = move_asset root operation input path none db
move_item root operation input path (some i) db =
    move_found root operation input path (scalar (usable i root.user_id) db.assets) db

unfoldable pub apply_move : Root → Operation → Input → Option Item → Option Text → Exec Db Payload
unfolding move_item
apply_move root operation input (some item) (some path) db =
    if is_some item.deleted_at
    then (err move_incomplete, db)
    else move_item root operation input path item.asset_id db
apply_move root operation input _ _ db = (err move_incomplete, db)

abbrev bury_item : ℕ → Text → Item → Item
bury_item now revision item = record item { deleted_at = some now; revision = revision }

unfoldable pub bury : ℕ → Root → Operation → Input → Item → Exec Db Payload
bury now root operation input item db = (
  ok (tombstone item.relative_path),
  set_items root.id input.logical_id (bury_item now (revision_text operation.revision)) db,
)

-- the item is buried once its asset is in the trash
unfoldable pub bury_trashed :
    ℕ → Root → Operation → Input → Item → Result Asset × Db → Result Payload × Db
unfolding bury
bury_trashed now root operation input item (err f, db) = (err f, db)
bury_trashed now root operation input item (ok _, db) = bury now root operation input item db

unfoldable pub delete_found :
    Host → ℕ → Root → Operation → Input → Item → Option Asset → Exec Db Payload
unfolding bury_trashed
delete_found w now root operation input item none db = (err synchronized_asset_deleted, db)
delete_found w now root operation input item (some a) db =
    bury_trashed now root operation input item
      (trash_asset w now (codes "sync:" ++ operation.client_id) none a.id db)

unfoldable pub delete_item : Host → ℕ → Root → Operation → Input → Item → Option ℕ → Exec Db Payload
unfolding delete_found
delete_item w now root operation input item none db = bury now root operation input item db
delete_item w now root operation input item (some i) db =
    delete_found w now root operation input item (scalar (usable i root.user_id) db.assets) db

-- A file that the server does not know gets an item with no asset.
unfoldable pub apply_delete : Host → ℕ → Root → Operation → Input → Option Item → Exec Db Payload
unfolding delete_item
apply_delete w now root operation input none db = (
  ok (tombstone (revision_text input.relative_path)),
  record db {
    items =
        db.items
        ++ record {
          root_id = root.id;
          logical_id = input.logical_id;
          asset_id = none;
          relative_path = revision_text input.relative_path;
          revision = revision_text operation.revision;
          deleted_at = none;
        }
          ∷ [];
  },
)
apply_delete w now root operation input (some item) db =
    delete_item w now root operation input item item.asset_id db

unfoldable pub apply_kind :
    Host → ℕ → Root → Operation → Input → Option Item → Kind → Exec Db Payload
unfolding apply_upsert apply_move apply_delete
apply_kind w now root operation input item upsert db =
    apply_upsert now root operation input item input.asset_id input.relative_path db
apply_kind w now root operation input item move db =
    apply_move root operation input item input.relative_path db
apply_kind w now root operation input item delete db =
    apply_delete w now root operation input item db

unfoldable pub apply_item_operation :
    Host → ℕ → Root → Operation → Input → Option Item → Exec Db Payload
unfolding apply_kind
apply_item_operation w now root operation input item db =
    apply_kind w now root operation input item input.kind db
