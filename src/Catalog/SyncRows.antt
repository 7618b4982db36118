-- ===== src/Catalog/SyncRows.antt =====
-- The rows of backend/app/models/sync.py and the audit events of backend/app/models/auth.py.
use drivebound_storage.Base.{ℕ, Option, List, Text}
use drivebound_storage.Base.Fault.{Fault}

pub data RootStatus : Type 0 where
  root_active root_suspended : RootStatus

-- `SyncRoot`
pub record Root : Type 0 where
  pub id : ℕ
  pub user_id : ℕ
  pub client_id : Text
  pub cursor : ℕ
  pub status : RootStatus
  pub last_seen_at : Option ℕ

-- `SyncItem`
pub record Item : Type 0 where
  pub root_id : ℕ
  pub logical_id : ℕ
  pub asset_id : Option ℕ
  pub relative_path : Text
  pub revision : Text
  pub deleted_at : Option ℕ

-- `kind` of an operation
pub data Kind : Type 0 where
  upsert move delete : Kind

pub data OperationStatus : Type 0 where
  applied conflicted rejected : OperationStatus

-- what `operation_payload` copies from an asset; `original_url` is made of the id
pub record AssetInfo : Type 0 where
  pub asset_id : ℕ
  pub filename : Option Text
  pub checksum : Text

-- the JSON documents that are stored as a payload, a constructor for each
pub data Payload : Type 0 where
  no_payload : Payload
  content : Option Text → Option AssetInfo → Payload
  tombstone : Text → Payload
  invalid : Option Text → Option ℕ → Fault → Payload
  unresolved : Option Text → Option ℕ → Kind → Payload

-- `SyncOperation`
pub record Operation : Type 0 where
  pub id : ℕ
  pub root_id : ℕ
  pub cursor : ℕ
  pub client_id : Text
  pub client_sequence : ℕ
  pub operation_id : ℕ
  pub kind : Kind
  pub logical_id : ℕ
  pub base_revision : Option Text
  pub revision : Option Text
  pub payload : Payload
  pub status : OperationStatus

pub data ConflictKind : Type 0 where
  delete_vs_change concurrent_change invalid_transition : ConflictKind

pub data Choice : Type 0 where
  keep_local keep_remote : Choice

pub data ConflictStatus : Type 0 where
  open_conflict resolved_conflict : ConflictStatus

-- `SyncConflict`; `detail` is the pair of revisions
pub record Conflict : Type 0 where
  pub id : ℕ
  pub root_id : ℕ
  pub logical_id : ℕ
  pub local_operation_id : ℕ
  pub conflicting_operation_id : Option ℕ
  pub kind : ConflictKind
  pub expected_revision : Option Text
  pub actual_revision : Option Text
  pub status : ConflictStatus
  pub resolution : Option Choice
  pub resolved_at : Option ℕ

-- the kinds of path that a purge removes
pub data PathKind : Type 0 where
  replica_copy replica_metadata managed_original derivative : PathKind

-- `event_type` and `detail` of an `AuditEvent`, a constructor for each event that is recorded
pub data AuditDetail : Type 0 where
  asset_trashed : ℕ → ℕ → ℕ → Text → AuditDetail
  asset_restored : ℕ → ℕ → Text → AuditDetail
  asset_rolled_back : List ℕ → ℕ → ℕ → Text → AuditDetail
  asset_path_retained : ℕ → PathKind → AuditDetail
  asset_purge_deferred : ℕ → Fault → PathKind → AuditDetail
  asset_purged : ℕ → ℕ → Text → AuditDetail
  sync_operation_applied : ℕ → ℕ → Kind → ℕ → ℕ → AuditDetail
  sync_conflict_detected : ℕ → ℕ → ConflictKind → ℕ → AuditDetail
  sync_conflict_resolved : ℕ → Choice → ℕ → AuditDetail
  account_deletion_requested : ℕ → AuditDetail
  account_deletion_completed : ℕ → ℕ → ℕ → AuditDetail

-- `AuditEvent.event_type`, a constructor for each name
pub data EventType : Type 0 where
  asset_trashed_event asset_restored_event asset_rolled_back_event : EventType
  asset_path_retained_event asset_purge_deferred_event asset_purged_event : EventType
  sync_operation_applied_event sync_conflict_detected_event : EventType
  sync_conflict_resolved_event : EventType
  account_deletion_requested_event account_deletion_completed_event : EventType

abbrev pub event_of : AuditDetail → EventType
event_of (asset_trashed _ _ _ _) = asset_trashed_event
event_of (asset_restored _ _ _) = asset_restored_event
event_of (asset_rolled_back _ _ _ _) = asset_rolled_back_event
event_of (asset_path_retained _ _) = asset_path_retained_event
event_of (asset_purge_deferred _ _ _) = asset_purge_deferred_event
event_of (asset_purged _ _ _) = asset_purged_event
event_of (sync_operation_applied _ _ _ _ _) = sync_operation_applied_event
event_of (sync_conflict_detected _ _ _ _) = sync_conflict_detected_event
event_of (sync_conflict_resolved _ _ _) = sync_conflict_resolved_event
event_of (account_deletion_requested _) = account_deletion_requested_event
event_of (account_deletion_completed _ _ _) = account_deletion_completed_event

-- `AuditEvent`
pub record Audit : Type 0 where
  pub user_id : Option ℕ
  pub event_type : EventType
  pub detail : Option AuditDetail
