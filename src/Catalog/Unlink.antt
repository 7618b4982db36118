-- ===== src/Catalog/Unlink.antt =====
-- The path validation of backend/app/services/storage.py and `safely_unlink_catalog_path` of
-- backend/app/services/lifecycle.py. The advisory lock on the path orders concurrent callers and
-- changes nothing here.
pub mod Safety
use drivebound_storage.Base.{
  ℕ, Bool, true, false, Option, none, some, List, Text, same_text, if◌then◌else◌, any_row,
}
use drivebound_storage.Base.Fault.{
  Fault, Result, ok, err, check, and_then, Exec, invalid_storage_path, outside_external_roots,
  outside_replica_roots, noncanonical_catalog_path, os_error,
}
use drivebound_storage.Host.{Host, require_storage_path}
use drivebound_storage.Catalog.{Db}
use drivebound_storage.Catalog.References.{
  Excluding, canonical_storage_path, physical_path_has_other_reference,
}

unfoldable pub validated_storage_path : Host → Text → Text → Result Text
validated_storage_path w path root =
    let resolved = w.resolve path in
    and_then (check (w.is_relative_to resolved (w.resolve root)) invalid_storage_path)
      λ _. and_then (require_storage_path w resolved) λ _. ok resolved

unfoldable pub validated_external_path : Host → Text → Result Text
validated_external_path w path =
    let resolved = w.resolve path in
    and_then
      (check (any_row (w.is_relative_to resolved) w.external_root_list) outside_external_roots)
      λ _. and_then (require_storage_path w resolved) λ _. ok resolved

unfoldable pub validated_replica_drive_path : Host → Text → Result Text
validated_replica_drive_path w path =
    let resolved = w.resolve path in
    and_then (check (any_row (w.is_relative_to resolved) w.replica_root_list) outside_replica_roots)
      λ _. and_then (require_storage_path w resolved) λ _. ok resolved

unfoldable pub validated_backup_path : Host → Text → Result Text
validated_backup_path w path =
    let resolved = w.resolve path in
    and_then (check (w.is_relative_to resolved (w.resolve w.backups_path)) invalid_storage_path)
      λ _. and_then (require_storage_path w resolved) λ _. ok resolved

-- `replica_root=True`, or `root=…`
pub data Area : Type 0 where
  replica_drives : Area
  under : Text → Area

validated : Host → Area → Text → Result Text
unfolding validated_replica_drive_path validated_storage_path
validated w replica_drives path = validated_replica_drive_path w path
validated w (under root) path = validated_storage_path w path root

-- `Path.unlink(missing_ok=True)`
abbrev pub unlink : Text → Db → Db
unlink path db = record db { files = λ q. if same_text q path then none else db.files q }

-- the last two steps, once the references have been checked
remove_file : Host → Text → Exec Db Bool
remove_file w resolved db = elim (require_storage_path w resolved) [
  | err f ↦ (err f, db)
  | ok _ ↦
      if w.can_unlink resolved
      then (ok true, unlink (canonical_storage_path w resolved) db)
      else (err os_error, db)
]

unlink_resolved : Host → Text → Excluding → Text → Exec Db Bool
unfolding remove_file
unlink_resolved w path ex resolved db =
    if same_text (canonical_storage_path w resolved) path
    then (if physical_path_has_other_reference w path ex db
        then (ok false, db)
        else remove_file w resolved db)
    else (err noncanonical_catalog_path, db)

unfoldable pub safely_unlink_catalog_path : Host → Text → Area → Excluding → Exec Db Bool
unfolding validated unlink_resolved
safely_unlink_catalog_path w path area ex db = elim (validated w area path) [
  | err f ↦ (err f, db)
  | ok resolved ↦ unlink_resolved w path ex resolved db
]
