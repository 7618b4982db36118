-- ===== src/Intake/Publish.antt =====
-- The publication of staged bytes in backend/app/services/storage.py. A write that the drive refuses
-- half-way is left out.
pub mod Frame
use drivebound_storage.Base.{
  ℕ, Bool, true, false, Option, none, some, List, [], ◌∷◌, ◌++◌, Text, codes, take, is_some,
  if◌then◌else◌, same_text,
}
use drivebound_storage.Base.Fault.{
  Fault, Result, ok, err, Exec, pure, guard, ◌>>=◌, os_error, file_exists,
}
use drivebound_storage.Host.{Host, require_storage_path}
use drivebound_storage.Catalog.{Db}
use drivebound_storage.Catalog.References.{canonical_storage_path}
use drivebound_storage.Catalog.Unlink.{unlink}
use drivebound_storage.Encryption.{Bytes, Gcm, put_file, encrypt_file}

-- What pathlib and the libraries answer: `a / b` and `str(user_id)` of a path, SHA-256 in
-- hexadecimal, and the Fernet wrapping of a key; `none` is an exception of `unwrap_user_media_key`.
pub record Kit : Type 0 where
  pub host : Host
  pub gcm : Gcm
  pub join : Text → Text → Text
  pub str_of : ℕ → Text
  pub sha256 : Bytes → Text
  pub unwrap_user_media_key : Text → Option Bytes
  -- a freshly generated key, wrapped, and a nonce, of a fresh draw
  pub wrapped_key : ℕ → Text
  pub nonce : ℕ → Bytes
  pub media_encryption_enabled : Bool
  pub upload_session_hours : ℕ
  pub max_upload_size : ℕ

unfoldable pub original_path_for : Kit → Text → Option ℕ → Text
original_path_for k checksum none = k.join (k.join k.host.originals_path (take 2 checksum)) checksum
original_path_for k checksum (some user) =
    k.join (k.join (k.join k.host.originals_path (k.str_of user)) (take 2 checksum)) checksum

-- `staged_path.unlink(missing_ok=True)`
abbrev pub discard : Host → Text → Db → Db
discard w path db = unlink (canonical_storage_path w path) db

-- the check of the drive, and the unlink
unfoldable pub consume : Host → Text → Bool → Exec Db Bool
consume w staged created =
    guard (require_storage_path w staged) λ db. (ok created, discard w staged db)

abbrev pub copied : Host → Text → Option Bytes → Option Bytes → Exec Db Bool
copied w final none there db = (err os_error, db)
copied w final (some bytes) (some existing) db = (ok false, db)
copied w final (some bytes) none db = (ok true, put_file (canonical_storage_path w final) bytes db)

-- the `with` block: `open("xb")` creates the file or raises `FileExistsError`
pub copy_staged : Host → Text → Text → Exec Db Bool
copy_staged w staged final db =
    copied w final (db.files (canonical_storage_path w staged))
      (db.files (canonical_storage_path w final)) db

pub copy_consume : Host → Text → Text → Exec Db Bool
unfolding copy_staged consume
copy_consume w staged final = copy_staged w staged final >>= consume w staged

unfoldable pub commit_original : Host → Text → Text → Exec Db Bool
unfolding copy_consume
commit_original w staged final =
    guard (require_storage_path w staged)
      (guard (require_storage_path w final) (copy_consume w staged final))

abbrev pub is_file_exists : Fault → Bool
is_file_exists file_exists = true
is_file_exists _ = false

-- the `try` block around `encrypt_file`
pub encrypted_or : Host → Text → Result (Unit {0}) × Db → Result Bool × Db
unfolding consume
encrypted_or w staged (ok _, db) = consume w staged true db
encrypted_or w staged (err f, db) = if is_file_exists f then (ok false, db) else (err f, db)

pub encrypt_staged : Host → Gcm → Bytes → Text → Text → Bytes → Exec Db Bool
unfolding encrypted_or
encrypt_staged w g nonce staged final key db =
    encrypted_or w staged (encrypt_file w g nonce staged final key db)

unfoldable pub commit_encrypted_original : Host → Gcm → Bytes → Text → Text → Bytes → Exec Db Bool
unfolding encrypt_staged
commit_encrypted_original w g nonce staged final key =
    guard (require_storage_path w staged)
      (guard (require_storage_path w final) (encrypt_staged w g nonce staged final key))
