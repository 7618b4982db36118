-- ===== src/Intake/Ingestion.antt =====
-- backend/app/services/ingestion.py: the asset of a staged file. The advisory locks order concurrent
-- callers; the times that a file brings with it are left out.
pub mod Keeps
pub mod Invariants
pub mod Answers
use drivebound_storage.Base.{
  ℕ, ◌+◌, Bool, true, false, ◌&&◌, ◌||◌, not, Option, none, some, List, [], ◌∷◌, ◌++◌, Text,
  same_text, ◌==◌, ltb, leb, if◌then◌else◌, is_some, scalar, update, any_row, length,
}
use drivebound_storage.Base.Fault.{
  Result, ok, err, check, and_then, Exec, pure, raise, lift, guard, asks, ◌>>=◌, os_error,
  account_disabled, media_key_missing, media_key_unreadable, unexpected_size, adoption_refused,
  integrity_error,
}
use drivebound_storage.Host.{Host, originals, staging, require_storage, require_storage_path}
use drivebound_storage.Catalog.{
  active, managed, unprotected, not_requested, Asset, User, Db, is_active,
}
use drivebound_storage.Catalog.References.{canonical_storage_path}
use drivebound_storage.Encryption.{Bytes, decrypted_chunks, chunk_size, joined, whole}
use drivebound_storage.Intake.Publish.{
  Kit, original_path_for, discard, consume, commit_original, commit_encrypted_original,
}

-- The account, not disabled, as the query locks it.
abbrev pub enabled_user : ℕ → Db → Option User
enabled_user i db = scalar (λ u. u.id == i && not (is_some u.disabled_at)) db.users

abbrev read_key : Option Bytes → Result Bytes
read_key none = err media_key_unreadable
read_key (some key) = ok key

abbrev wrapped_of : Kit → Option Text → Result Bytes
wrapped_of k none = err media_key_missing
wrapped_of k (some wrapped) = read_key (k.unwrap_user_media_key wrapped)

unfoldable pub user_media_key : Kit → User → Result Bytes
user_media_key k u =
    and_then (check (not (is_some u.disabled_at)) account_disabled)
      λ _. wrapped_of k u.media_key_encrypted

abbrev pub with_key : Text → User → User
with_key wrapped u = record u { media_key_encrypted = some wrapped; media_key_version = 1 }

pub write_key : Text → ℕ → Option Bytes → Exec Db Bytes
write_key wrapped i none db = (err media_key_unreadable, db)
write_key wrapped i (some key) db = (
  ok key,
  record db {
    users = update (λ u. u.id == i) (with_key wrapped) db.users;
    next_id = db.next_id + 1;
  },
)

-- `initialize_user_media_key` of an account without a key, and the commit. A key that cannot be
-- unwrapped raises before the commit.
unfoldable pub initialize_user_media_key : Kit → ℕ → Exec Db Bytes
unfolding write_key
initialize_user_media_key k i db =
    let wrapped = k.wrapped_key db.next_id in
    write_key wrapped i (k.unwrap_user_media_key wrapped) db

abbrev size_checked : ℕ → Bytes → Result Bytes
size_checked expected content =
    and_then (check (length content == expected) unexpected_size) λ _. ok content

abbrev pub bytes_at : Host → Text → Db → Result Bytes
bytes_at w path db = elim (db.files (canonical_storage_path w path)) [
  | none ↦ err os_error
  | some file ↦ ok file
]

unfoldable pub encrypted_plaintext_checksum : Kit → Text → Bytes → ℕ → Db → Result Text
encrypted_plaintext_checksum k path key expected db =
    and_then (require_storage_path k.host path) λ _. and_then (bytes_at k.host path db) λ file.
      and_then (whole (decrypted_chunks k.gcm chunk_size key file))
        λ content. and_then (size_checked expected content) λ _. ok (k.sha256 content)

-- What a caller passes, and the time.
pub record Staged : Type 0 where
  pub user_id : ℕ
  pub staged_path : Text
  pub checksum : Text
  pub file_size : ℕ
  pub mime_type : Text
  pub filename : Text
  pub logical_id : Option ℕ
  pub force_new_version : Bool
  pub now : ℕ

abbrev pub same_content : ℕ → Text → Asset → Bool
same_content user checksum a =
    a.user_id == user && same_text a.checksum checksum && is_active a.lifecycle_state

abbrev pub existing_asset : Staged → Db → Option Asset
existing_asset x db = scalar (same_content x.user_id x.checksum) db.assets

abbrev max_version : ℕ → ℕ → List Asset → ℕ
max_version user logical [] = 0
max_version user logical (a ∷ rest) =
    let m = max_version user logical rest in
    if a.user_id == user && a.logical_id == logical
    then (if leb m a.version then a.version else m)
    else m

abbrev pub next_version : ℕ → Option ℕ → Db → ℕ
next_version user none db = 1
next_version user (some logical) db = max_version user logical db.assets + 1

abbrev logical_or : Option ℕ → ℕ → ℕ
logical_or none fresh = fresh
logical_or (some logical) fresh = logical

-- The new row; the id and the file's identity are the next two draws.
abbrev pub new_asset : Kit → Staged → Text → ℕ → Text → Db → Asset
new_asset k x final version stored db = record {
  id = db.next_id;
  user_id = x.user_id;
  logical_id = logical_or x.logical_id (db.next_id + 1);
  version = version;
  lifecycle_state = active;
  superseded_at = none;
  trashed_at = none;
  purge_after = none;
  deleted_by = none;
  original_path = canonical_storage_path k.host final;
  checksum = x.checksum;
  storage_checksum = stored;
  encryption_version = if k.media_encryption_enabled then 1 else 0;
  file_size = x.file_size;
  mime_type = x.mime_type;
  thumbnail_path = none;
  preview_path = none;
  storage_source = managed;
  original_filename = some x.filename;
  protection_status = unprotected;
  restore_status = not_requested;
  restored_at = none;
  created_at = x.now;
}

-- `uq_assets_logical_version` and `uq_assets_active_logical`
abbrev pub collides : Asset → Asset → Bool
collides a b =
    b.user_id == a.user_id
    && b.logical_id == a.logical_id
    && (b.version == a.version || is_active b.lifecycle_state)

abbrev pub draw_two : Db → Db
draw_two db = record db { next_id = db.next_id + 2 }

abbrev adopted : Option Asset → Db → Result (Asset × Bool) × Db
adopted none db = (err integrity_error, db)
adopted (some a) db = (ok (a, true), db)

-- the commit, or the `except IntegrityError` block
pub insert_asset : Staged → Asset → Exec Db (Asset × Bool)
insert_asset x a db =
    if any_row (collides a) db.assets
    then (if x.force_new_version
        then (err integrity_error, draw_two db)
        else adopted (existing_asset x db) (draw_two db))
    else (ok (a, false), record (draw_two db) { assets = db.assets ++ a ∷ [] })

pub insert_stored : Kit → Staged → Text → Bytes → Exec Db (Asset × Bool)
unfolding insert_asset
insert_stored k x final file db =
    insert_asset x (new_asset k x final (next_version x.user_id x.logical_id db) (k.sha256 file) db)
      db

pub add_asset : Kit → Staged → Text → Exec Db (Asset × Bool)
unfolding insert_stored
add_asset k x final = asks (bytes_at k.host final) >>= insert_stored k x final

pub adopt_found : Kit → Staged → Text → Exec Db Bool
adopt_found k x found db =
    if same_text found x.checksum
    then consume k.host x.staged_path false db
    else (err adoption_refused, db)

-- An existing ciphertext is adopted only if it authenticates as the content.
pub adopt : Kit → Staged → Text → Bytes → Bool → Exec Db Bool
unfolding adopt_found
adopt k x final key true db = (ok true, db)
adopt k x final key false db =
    (asks (encrypted_plaintext_checksum k final key x.file_size) >>= adopt_found k x) db

pub publish_with_key : Kit → Staged → Text → Bytes → Exec Db Bool
unfolding adopt
publish_with_key k x final key db =
    (commit_encrypted_original k.host k.gcm (k.nonce db.next_id) x.staged_path final key
        >>= adopt k x final key)
      db

pub publish_original : Kit → Staged → User → Text → Exec Db Bool
unfolding publish_with_key
publish_original k x u final db =
    if k.media_encryption_enabled
    then (lift (user_media_key k u) >>= publish_with_key k x final) db
    else commit_original k.host x.staged_path final db

abbrev pub final_path : Kit → Staged → Text
final_path k x =
    k.host.resolve
      (original_path_for k x.checksum (if k.media_encryption_enabled then some x.user_id else none))

pub ingest_new : Kit → Staged → User → Exec Db (Asset × Bool)
unfolding publish_original add_asset
ingest_new k x u = publish_original k x u (final_path k x) >>= λ _. add_asset k x (final_path k x)

pub ingest_unless : Kit → Staged → User → Option Asset → Exec Db (Asset × Bool)
unfolding ingest_new
ingest_unless k x u none db = ingest_new k x u db
ingest_unless k x u (some a) db =
    if x.force_new_version
    then ingest_new k x u db
    else (ok (a, true), discard k.host x.staged_path db)

pub ingest_for : Kit → Staged → Option User → Exec Db (Asset × Bool)
unfolding ingest_unless
ingest_for k x none db = (err account_disabled, discard k.host x.staged_path db)
ingest_for k x (some u) db = ingest_unless k x u (existing_asset x db) db

-- A key is made durable first where the account has none.
pub ensure_key : Kit → Staged → Option User → Exec Db Bytes
ensure_key k x none db = (ok [], db)
ensure_key k x (some u) db =
    if k.media_encryption_enabled && not (is_some u.media_key_encrypted)
    then initialize_user_media_key k x.user_id db
    else (ok [], db)

pub ensure_user_key : Kit → Staged → Exec Db Bytes
unfolding ensure_key
ensure_user_key k x db = ensure_key k x (enabled_user x.user_id db) db

pub ingest_user : Kit → Staged → Exec Db (Asset × Bool)
unfolding ingest_for
ingest_user k x db = ingest_for k x (enabled_user x.user_id db) db

pub ingest : Kit → Staged → Exec Db (Asset × Bool)
unfolding ensure_user_key ingest_user
ingest k x = ensure_user_key k x >>= λ _. ingest_user k x

unfoldable pub persist_managed_asset : Kit → Staged → Exec Db (Asset × Bool)
unfolding ingest
persist_managed_asset k x =
    guard (require_storage k.host (originals ∷ staging ∷ []))
      (guard (require_storage_path k.host x.staged_path) (ingest k x))
