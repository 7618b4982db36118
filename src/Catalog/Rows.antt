-- ===== src/Catalog/Rows.antt =====
-- The rows of backend/app/models/{asset,replica,upload_session,user,storage_policy}.py. Columns that
-- no modelled operation reads or writes are left out. An id, a time (in microseconds) and a count
-- are numbers.
use drivebound_storage.Base.{ℕ, Option, Text}

-- `Asset.lifecycle_state`; the check constraint names these four
pub data LifecycleState : Type 0 where
  active superseded trashed purging : LifecycleState

pub data StorageSource : Type 0 where
  managed external : StorageSource

pub data ProtectionStatus : Type 0 where
  unprotected protected degraded protection_failed : ProtectionStatus

pub data RestoreStatus : Type 0 where
  not_requested requested restored restore_failed : RestoreStatus

pub record Asset : Type 0 where
  pub id : ℕ
  pub user_id : ℕ
  pub logical_id : ℕ
  pub version : ℕ
  pub lifecycle_state : LifecycleState
  pub superseded_at : Option ℕ
  pub trashed_at : Option ℕ
  pub purge_after : Option ℕ
  pub deleted_by : Option Text
  pub original_path : Text
  pub checksum : Text
  pub storage_checksum : Text
  pub encryption_version : ℕ
  pub file_size : ℕ
  pub mime_type : Text
  pub thumbnail_path : Option Text
  pub preview_path : Option Text
  pub storage_source : StorageSource
  pub original_filename : Option Text
  pub protection_status : ProtectionStatus
  pub restore_status : RestoreStatus
  pub restored_at : Option ℕ
  pub created_at : ℕ

pub data ReplicaStatus : Type 0 where
  verified failed : ReplicaStatus

-- `AssetReplica`
pub record Replica : Type 0 where
  pub id : ℕ
  pub asset_id : ℕ
  pub drive_id : Option ℕ
  pub path : Text
  pub checksum : Text
  pub metadata_path : Option Text
  pub status : ReplicaStatus
  pub verification_status : ReplicaStatus
  pub failure_count : ℕ
  pub verified_at : ℕ

pub data UploadStatus : Type 0 where
  upload_active upload_expired upload_failed upload_complete : UploadStatus

-- `UploadSession`
pub record Upload : Type 0 where
  pub id : ℕ
  pub user_id : ℕ
  pub device_id : Option ℕ
  pub filename : Text
  pub mime_type : Text
  pub total_size : ℕ
  pub offset : ℕ
  pub expected_checksum : Option Text
  pub staging_path : Text
  pub status : UploadStatus
  pub expires_at : ℕ
  pub created_at : ℕ

pub record User : Type 0 where
  pub id : ℕ
  pub email : Text
  pub email_verified_at : Option ℕ
  pub disabled_at : Option ℕ
  pub media_key_encrypted : Option Text
  pub media_key_version : ℕ

-- `StoragePolicy`
pub record Policy : Type 0 where
  pub user_id : ℕ
  pub desired_replica_count : ℕ
  pub retention_days : ℕ
  pub balance_threshold_percent : ℕ
  pub backup_retention_days : ℕ
