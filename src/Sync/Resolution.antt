-- ===== src/Sync/Resolution.antt =====
-- `resolve_conflict` of backend/app/services/sync.py.
use drivebound_storage.Base.{
  ℕ, ◌+◌, Bool, true, false, ◌&&◌, Option, none, some, Text, ◌==◌, if◌then◌else◌, is_some, scalar,
  update,
}
use drivebound_storage.Base.Fault.{Result, ok, err, Exec, account_unavailable, conflict_incomplete}
use drivebound_storage.Host.{Host}
use drivebound_storage.Catalog.{
  Root, Item, Payload, no_payload, content, tombstone, invalid, unresolved, AssetInfo, Operation,
  applied, rejected, Choice, keep_local, keep_remote, Conflict, ConflictStatus, open_conflict,
  resolved_conflict, sync_conflict_resolved, Db,
}
use drivebound_storage.Lifecycle.{audit, active_user}
use drivebound_storage.Sync.{
  root_is, set_roots, set_operations, find_item, usable_root, set_payload,
}
use drivebound_storage.Sync.Items.{Input, apply_item_operation, next_revision, set_items}

-- `payload.get("relative_path")` and `payload.get("asset_id")`
abbrev payload_path : Payload → Option Text
payload_path no_payload = none
payload_path (content path asset) = path
payload_path (tombstone path) = some path
payload_path (invalid path asset f) = path
payload_path (unresolved path asset kind) = path

abbrev info_id : Option AssetInfo → Option ℕ
info_id none = none
info_id (some i) = some i.asset_id

abbrev payload_asset : Payload → Option ℕ
payload_asset (content path asset) = info_id asset
payload_asset (invalid path asset f) = asset
payload_asset (unresolved path asset kind) = asset
payload_asset _ = none

-- the input that the journal's operation stands for
unfoldable pub retried_input : Operation → Input
retried_input o = record {
  operation_id = o.operation_id;
  client_sequence = o.client_sequence;
  kind = o.kind;
  logical_id = o.logical_id;
  base_revision = none;
  relative_path = payload_path o.payload;
  asset_id = payload_asset o.payload;
}

abbrev pub is_open : ConflictStatus → Bool
is_open open_conflict = true
is_open resolved_conflict = false

abbrev conflict_is : ℕ → Conflict → Bool
conflict_is i c = c.id == i

abbrev pub republish : ℕ → Text → Operation → Operation
republish cursor revision o = record o {
  cursor = cursor;
  revision = some revision;
  status = applied;
}

abbrev pub at_revision : Text → Item → Item
at_revision revision item = record item { revision = revision }

-- the resolved form gets a new cursor, and its item the revision of that cursor
unfoldable pub publish_resolved : Root → Operation → Payload → Db → Db
publish_resolved root o payload db =
    let cursor = root.cursor + 1 in
    let revision = next_revision cursor o.operation_id in
    set_operations o.id (republish cursor revision) (
      set_items root.id o.logical_id (at_revision revision) (
        set_roots root.id (λ r. record r { cursor = cursor })
          (set_operations o.id (set_payload payload) db)))

-- what follows the item operation; its fault is the resolution's
unfoldable pub publish_kept : Root → Operation → Result Payload × Db → Result (Unit {0}) × Db
unfolding publish_resolved
publish_kept root o (err f, db) = (err f, db)
publish_kept root o (ok payload, db) = (ok tt, publish_resolved root o payload db)

unfoldable pub keep_local_copy : Host → ℕ → Root → Operation → Exec Db (Unit {0})
unfolding retried_input publish_kept
keep_local_copy w now root o db =
    publish_kept root o
      (apply_item_operation w now root o (retried_input o) (find_item root.id o.logical_id db) db)

abbrev pub reject_row : Operation → Operation
reject_row o = record o { status = rejected }

unfoldable pub settle_choice : Host → ℕ → Root → Operation → Choice → Exec Db (Unit {0})
unfolding keep_local_copy
settle_choice w now root o keep_local db = keep_local_copy w now root o db
settle_choice w now root o keep_remote db = (ok tt, set_operations o.id reject_row db)

abbrev pub resolve_row : ℕ → Choice → Conflict → Conflict
resolve_row now choice c = record c {
  status = resolved_conflict;
  resolution = some choice;
  resolved_at = some now;
}

abbrev set_conflicts : ℕ → (Conflict → Conflict) → Db → Db
set_conflicts i f db = record db { conflicts = update (conflict_is i) f db.conflicts }

unfoldable pub close_conflict :
    ℕ → Root → Operation → Conflict → Choice → Result (Unit {0}) × Db → Result Conflict × Db
close_conflict now root o c choice (err f, db) = (err f, db)
close_conflict now root o c choice (ok _, db) = (
  ok (resolve_row now choice c),
  audit root.user_id (sync_conflict_resolved c.id choice o.operation_id)
      (set_conflicts c.id (resolve_row now choice) db),
)

unfoldable pub resolve_operation :
    Host → ℕ → Root → Conflict → Choice → Option Operation → Exec Db Conflict
unfolding settle_choice close_conflict
resolve_operation w now root c choice none db = (err conflict_incomplete, db)
resolve_operation w now root c choice (some o) db =
    close_conflict now root o c choice (settle_choice w now root o choice db)

abbrev pub local_operation : ℕ → ℕ → Operation → Bool
local_operation i root o = o.id == i && o.root_id == root

unfoldable pub resolve_locked : Host → ℕ → Root → Choice → Option Conflict → Exec Db Conflict
unfolding resolve_operation
resolve_locked w now root choice none db = (err conflict_incomplete, db)
resolve_locked w now root choice (some c) db =
    if is_open c.status
    then resolve_operation w now root c choice
        (scalar (local_operation c.local_operation_id root.id) db.operations) db
    else (ok c, db)

abbrev pub conflict_in : ℕ → ℕ → Conflict → Bool
conflict_in i root c = c.id == i && c.root_id == root

unfoldable pub resolve_in_root : Host → ℕ → ℕ → Choice → Option Root → Exec Db Conflict
unfolding resolve_locked
resolve_in_root w now i choice none db = (err conflict_incomplete, db)
resolve_in_root w now i choice (some root) db =
    resolve_locked w now root choice (scalar (conflict_in i root.id) db.conflicts) db

unfoldable pub resolve_owned : Host → ℕ → Conflict → Choice → Option Root → Exec Db Conflict
unfolding resolve_in_root
resolve_owned w now conflict choice none db = (err conflict_incomplete, db)
resolve_owned w now conflict choice (some owned) db =
    if is_some (active_user owned.user_id db)
    then resolve_in_root w now conflict.id choice
        (scalar (usable_root conflict.root_id owned.user_id) db.roots) db
    else (err account_unavailable, db)

unfoldable pub resolve_conflict : Host → ℕ → Conflict → Choice → Exec Db Conflict
unfolding resolve_owned
resolve_conflict w now conflict choice db =
    resolve_owned w now conflict choice (scalar (root_is conflict.root_id) db.roots) db
