-- ===== src/Intake/Uploads.antt =====
-- The resumable uploads of backend/app/api/v1/uploads.py. Who is calling (`upload_principal`) is an
-- argument; the task that derives thumbnails is not started, and a commit does not fail.
pub mod Resume
pub mod Complete
use drivebound_storage.Base.{
  ℕ, zero, suc, ◌+◌, ◌*◌, ◌-◌, Bool, true, false, ◌&&◌, not, Option, none, some, List, [], ◌∷◌,
  ◌++◌, Text, codes, same_text, ◌==◌, ltb, if◌then◌else◌, is_some, scalar, update, length, take,
}
use drivebound_storage.Base.Fault.{
  Fault, Result, ok, err, check, and_then, account_unavailable, upload_too_large, file_exists,
  upload_missing, upload_not_active, upload_is_expired, offset_mismatch, staged_missing,
  chunk_too_large, empty_chunk, checksum_mismatch, storage_unavailable, finalization_failed,
}
use drivebound_storage.Host.{Host, originals, staging, require_storage, require_storage_path}
use drivebound_storage.Catalog.{
  Asset, Upload, UploadStatus, upload_active, upload_expired, upload_failed, upload_complete, Db,
}
use drivebound_storage.Catalog.References.{canonical_storage_path}
use drivebound_storage.Deletion.Jobs.{second}
use drivebound_storage.Encryption.{Bytes, drop, put_file}
use drivebound_storage.Intake.Publish.{Kit, discard}
use drivebound_storage.Intake.Ingestion.{Staged, enabled_user, same_content, persist_managed_asset}

-- `Device`, the counters of backups
pub record Device : Type 0 where
  pub id : ℕ
  pub last_backup_at : Option ℕ
  pub files_backed_up : ℕ
  pub bytes_backed_up : ℕ

pub record Intake : Type 0 where
  pub db : Db
  pub devices : List Device

-- `UploadPrincipal`
pub record Principal : Type 0 where
  pub user_id : ℕ
  pub device_id : Option ℕ

-- `UploadSessionCreate`, whose validator refuses an empty checksum
pub record Create : Type 0 where
  pub filename : Text
  pub mime_type : Text
  pub total_size : ℕ
  pub checksum : Option Text

-- `UploadSessionResponse`
pub record Response : Type 0 where
  pub id : ℕ
  pub offset : ℕ
  pub total_size : ℕ
  pub status : UploadStatus
  pub asset : Option Asset
  pub duplicate : Bool

abbrev pub session_response : Upload → Option Asset → Bool → Response
session_response u a duplicate = record {
  id = u.id;
  offset = u.offset;
  total_size = u.total_size;
  status = u.status;
  asset = a;
  duplicate = duplicate;
}

abbrev pub set_db : (Db → Db) → Intake → Intake
set_db f s = record s { db = f s.db }

abbrev content_of : ℕ → Option Text → Db → Option Asset
content_of user none db = none
content_of user (some checksum) db = scalar (same_content user checksum) db.assets

abbrev new_upload : Kit → ℕ → Principal → Create → ℕ → Text → Upload
new_upload k now p x i path = record {
  id = i;
  user_id = p.user_id;
  device_id = p.device_id;
  filename = x.filename;
  mime_type = x.mime_type;
  total_size = x.total_size;
  offset = 0;
  expected_checksum = x.checksum;
  staging_path = path;
  status = upload_active;
  expires_at = now + k.upload_session_hours * 3600 * second;
  created_at = now;
}

abbrev placeholder : ℕ → Principal → Create → ℕ → ℕ → Upload
placeholder now p x i path = record {
  id = i;
  user_id = p.user_id;
  device_id = p.device_id;
  filename = x.filename;
  mime_type = x.mime_type;
  total_size = x.total_size;
  offset = x.total_size;
  expected_checksum = x.checksum;
  staging_path = codes "duplicate:" ++ path ∷ [];
  status = upload_complete;
  expires_at = now;
  created_at = now;
}

abbrev add_upload : Upload → Db → Db
add_upload u db = record (put_file u.staging_path [] db) {
  uploads = db.uploads ++ u ∷ [];
  next_id = db.next_id + 1;
}

-- A new session; `open("xb")` raises `FileExistsError` where the file is there.
pub open_session : Upload → Intake → Result Response × Intake
open_session u s =
    if is_some (s.db.files u.staging_path)
    then (err file_exists, s)
    else (ok (session_response u none false), set_db (add_upload u) s)

abbrev staging_name : Kit → Principal → ℕ → Text
staging_name k p i = canonical_storage_path k.host (
    k.host.resolve
      (k.join (k.join k.host.staging_path (k.str_of p.user_id)) (k.str_of i ++ codes ".resumable")))

pub create_unless : Kit → ℕ → Principal → Create → Option Asset → Intake → Result Response × Intake
unfolding open_session
create_unless k now p x (some a) s = (
  ok (session_response (placeholder now p x s.db.next_id (s.db.next_id + 1)) (some a) true),
  set_db (λ db. record db { next_id = db.next_id + 2 }) s,
)
create_unless k now p x none s =
    open_session (new_upload k now p x s.db.next_id (staging_name k p s.db.next_id)) s

abbrev may_create : Kit → Principal → Create → Db → Result (Unit {0})
may_create k p x db = and_then (require_storage k.host (originals ∷ staging ∷ [])) λ _.
    and_then (check (not (ltb k.max_upload_size x.total_size)) upload_too_large)
      λ _. check (is_some (enabled_user p.user_id db)) account_unavailable

unfoldable pub create_upload : Kit → ℕ → Principal → Create → Intake → Result Response × Intake
unfolding create_unless
create_upload k now p x s = elim (may_create k p x s.db) [
  | err f ↦ (err f, s)
  | ok _ ↦ create_unless k now p x (content_of p.user_id x.checksum s.db) s
]

abbrev pub owned_upload : Principal → ℕ → Db → Option Upload
owned_upload p i db = scalar (λ u. u.id == i && u.user_id == p.user_id) db.uploads

-- the three headers
unfoldable pub upload_status : Principal → ℕ → Db → Result (ℕ × ℕ × UploadStatus)
upload_status p i db = elim (owned_upload p i db) [
  | none ↦ err upload_missing
  | some u ↦ ok (u.offset, u.total_size, u.status)
]

abbrev zeros : ℕ → Bytes
zeros zero = []
zeros (suc n) = 0 ∷ zeros n

-- `seek(at)` and `write(new)` on a file
abbrev pub write_at : ℕ → Bytes → Bytes → Bytes
write_at at new old =
    take at old ++ (zeros (at - length old) ++ (new ++ drop (at + length new) old))

-- The loop over `request.stream()`: the bytes written, and the file. `ready` is the check of the
-- drive before each chunk.
unfoldable pub write_stream : Result (Unit {0}) → ℕ → ℕ → List Bytes → ℕ → Bytes → Result ℕ × Bytes
write_stream ready offset total [] written file = (ok written, file)
write_stream (err f) offset total (c ∷ cs) written file = (err f, file)
write_stream (ok u) offset total (c ∷ cs) written file =
    let rest =
      write_stream (ok u) offset total cs (written + length c)
        (write_at (offset + written) c file) in
    if ltb total (offset + written + length c) then (err chunk_too_large, file) else rest

abbrev nonzero : ℕ → Result ℕ
nonzero zero = err empty_chunk
nonzero (suc n) = ok (suc n)

-- The block that receives bytes: how many more were accepted, and the file.
unfoldable pub receive : Host → Upload → List Bytes → Bytes → Result ℕ × Bytes
receive w u stream file =
    if ltb u.offset u.total_size
    then (let (r, file') =
          write_stream (require_storage_path w u.staging_path) u.offset u.total_size stream 0
            file in
        (and_then r nonzero, file'))
    else (ok 0, file)

abbrev pub set_upload : ℕ → (Upload → Upload) → Db → Db
set_upload i f db = record db { uploads = update (λ u. u.id == i) f db.uploads }

abbrev pub with_status : UploadStatus → Upload → Upload
with_status status u = record u { status = status }

abbrev pub advanced : ℕ → Upload → Upload
advanced n u = record u { offset = u.offset + n }

abbrev backed_up : ℕ → Bool → ℕ → Device → Device
backed_up now true size d = record d { last_backup_at = some now }
backed_up now false size d = record d {
  last_backup_at = some now;
  files_backed_up = d.files_backed_up + 1;
  bytes_backed_up = d.bytes_backed_up + size;
}

abbrev count_backup : ℕ → Option ℕ → Bool → ℕ → List Device → List Device
count_backup now none duplicate size devices = devices
count_backup now (some i) duplicate size devices =
    update (λ d. d.id == i) (backed_up now duplicate size) devices

abbrev pub staged_of : ℕ → Upload → Text → Staged
staged_of now u checksum = record {
  user_id = u.user_id;
  staged_path = u.staging_path;
  checksum = checksum;
  file_size = u.total_size;
  mime_type = u.mime_type;
  filename = u.filename;
  logical_id = none;
  force_new_version = false;
  now = now;
}

-- `finalize_upload_asset` passes on a `StorageUnavailableError`, the only `HTTPException` of
-- ingestion, and answers any other exception with a diagnostic.
abbrev reported : Fault → Fault
reported storage_unavailable = storage_unavailable
reported _ = finalization_failed

-- The session and the device after the asset is stored.
pub completed : ℕ → Upload → List Device → Result (Asset × Bool) × Db → Result Response × Intake
completed now u devices (err f, db) = (err (reported f), record { db = db; devices = devices })
completed now u devices (ok (a, duplicate), db) = (
  ok (session_response (with_status upload_complete u) (some a) duplicate),
  record {
    db = set_upload u.id (with_status upload_complete) db;
    devices = count_backup now u.device_id duplicate u.total_size devices;
  },
)

abbrev pub unexpected : Option Text → Text → Bool
unexpected none checksum = false
unexpected (some expected) checksum = not (same_text checksum expected)

-- a failed check of the drive leaves the bytes, and raises in place of the checksum's error
abbrev pub rejected : Host → Upload → Db → Fault × Db
rejected w u db = elim (require_storage_path w u.staging_path) [
  | err f ↦ (f, set_upload u.id (with_status upload_failed) db)
  | ok _ ↦
      (checksum_mismatch, discard w u.staging_path (set_upload u.id (with_status upload_failed) db))
]

pub finalize_with : Kit → ℕ → Upload → Text → Intake → Result Response × Intake
unfolding completed
finalize_with k now u checksum s =
    if unexpected u.expected_checksum checksum
    then (let (f, db) = rejected k.host u s.db in (err f, record s { db = db }))
    else completed now u s.devices (persist_managed_asset k (staged_of now u checksum) s.db)

-- After the bytes: the session goes on, or its content is checked and stored.
pub finish_upload : Kit → ℕ → Upload → Bytes → Intake → Result Response × Intake
unfolding finalize_with
finish_upload k now u file s =
    if ltb u.offset u.total_size
    then (ok (session_response u none false), s)
    else finalize_with k now u (k.sha256 file) s

abbrev pub store : Kit → Upload → Bytes → Db → Db
store k u file db = put_file (canonical_storage_path k.host u.staging_path) file db

pub after_receive : Kit → ℕ → Upload → Result ℕ × Bytes → Intake → Result Response × Intake
unfolding finish_upload
after_receive k now u (err f, file) s = (err f, set_db (store k u file) s)
after_receive k now u (ok n, file) s =
    finish_upload k now (advanced n u) file
      (set_db (λ db. set_upload u.id (advanced n) (store k u file db)) s)

pub append_staged : Kit → ℕ → Upload → List Bytes → Option Bytes → Intake → Result Response × Intake
unfolding after_receive
append_staged k now u stream none s = (err staged_missing, s)
append_staged k now u stream (some file) s = after_receive k now u (receive k.host u stream file) s

-- the checks that write nothing, once the session has not expired
abbrev pub may_append : Kit → Upload → ℕ → Result (Unit {0})
may_append k u offset =
    and_then (check (offset == u.offset) offset_mismatch)
      λ _. require_storage_path k.host u.staging_path

pub append_unexpired : Kit → ℕ → Upload → ℕ → List Bytes → Intake → Result Response × Intake
unfolding append_staged
append_unexpired k now u offset stream s = elim (may_append k u offset) [
  | err f ↦ (err f, s)
  | ok _ ↦
      append_staged k now u stream (s.db.files (canonical_storage_path k.host u.staging_path)) s
]

pub append_active :
    Kit → ℕ → Upload → ℕ → List Bytes → UploadStatus → Intake → Result Response × Intake
unfolding append_unexpired
append_active k now u offset stream upload_active s =
    if ltb u.expires_at now
    then (err upload_is_expired, set_db (set_upload u.id (with_status upload_expired)) s)
    else append_unexpired k now u offset stream s
append_active k now u offset stream _ s = (err upload_not_active, s)

pub append_found : Kit → ℕ → Option Upload → ℕ → List Bytes → Intake → Result Response × Intake
unfolding append_active
append_found k now none offset stream s = (err upload_missing, s)
append_found k now (some u) offset stream s = append_active k now u offset stream u.status s

unfoldable pub append_upload :
    Kit → ℕ → Principal → ℕ → ℕ → List Bytes → Intake → Result Response × Intake
unfolding append_found
append_upload k now p i offset stream s =
    if is_some (enabled_user p.user_id s.db)
    then append_found k now (owned_upload p i s.db) offset stream s
    else (err account_unavailable, s)
