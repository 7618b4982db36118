-- ===== src/Intake/Publish/Frame.antt =====
-- A publication changes files only: it adds a file that was not there, or discards the staged one.
use drivebound_storage.Base.{◌≡◌, refl, Bool, true, Option, none, some, Text, Bool-cases, inl, inr}
use drivebound_storage.Base.Fault.{Result, ok, err, guard, Keeps, bind-Keeps, guard-Keeps}
use drivebound_storage.Host.{Host, require_storage_path}
use drivebound_storage.Catalog.{Db}
use drivebound_storage.Catalog.References.{canonical_storage_path}
use drivebound_storage.Encryption.{Bytes, Gcm, put_file, encrypt_file}
use drivebound_storage.Encryption.Frame.{encrypt_file-Keeps}
use drivebound_storage.Intake.Publish.{
  discard, consume, copied, copy_staged, copy_consume, commit_original, is_file_exists,
  encrypted_or, encrypt_staged, commit_encrypted_original,
}

module _ (w : Host) (staged : Text) (P : Db → Type 0)
    (add : (path : Text) (bytes : Bytes) (db : Db)
      → db.files path ≡ none
      → P db
      → P (put_file path bytes db))
    (drop_staged : (db : Db) → P db → P (discard w staged db)) where
  pub consume-Keeps : (created : Bool) → Keeps P (consume w staged created)
  unfolding consume
  consume-Keeps created =
      guard-Keeps P (require_storage_path w staged) (λ db. (ok created, discard w staged db))
        drop_staged

  copied-Keeps :
      (final : Text) (o there : Option Bytes) (db : Db)
      → db.files (canonical_storage_path w final) ≡ there
      → P db
      → P (copied w final o there db).1
  copied-Keeps final none there db e h = h
  copied-Keeps final (some bytes) (some existing) db e h = h
  copied-Keeps final (some bytes) none db e h = add (canonical_storage_path w final) bytes db e h

  copy_staged-Keeps : (final : Text) → Keeps P (copy_staged w staged final)
  unfolding copy_staged
  copy_staged-Keeps final db h =
      copied-Keeps final (db.files (canonical_storage_path w staged))
        (db.files (canonical_storage_path w final)) db refl h

  copy_consume-Keeps : (final : Text) → Keeps P (copy_consume w staged final)
  unfolding copy_consume
  copy_consume-Keeps final =
      bind-Keeps P (copy_staged w staged final) (consume w staged) (copy_staged-Keeps final)
        consume-Keeps

  pub commit_original-Keeps : (final : Text) → Keeps P (commit_original w staged final)
  unfolding commit_original
  commit_original-Keeps final =
      let step = copy_consume w staged final in
      guard-Keeps P (require_storage_path w staged) (guard (require_storage_path w final) step)
        (guard-Keeps P (require_storage_path w final) step (copy_consume-Keeps final))

  encrypted_or-Keeps : (x : Result (Unit {0}) × Db) → P x.1 → P (encrypted_or w staged x).1
  unfolding encrypted_or
  encrypted_or-Keeps (ok _, db) h = consume-Keeps true db h
  encrypted_or-Keeps (err f, db) h = elim (Bool-cases (is_file_exists f)) [
    | inl y ↦ rw y h
    | inr n ↦ rw n h
  ]

  encrypt_staged-Keeps :
      (g : Gcm) (nonce : Bytes) (final : Text) (key : Bytes)
      → Keeps P (encrypt_staged w g nonce staged final key)
  unfolding encrypt_staged
  encrypt_staged-Keeps g nonce final key db h =
      encrypted_or-Keeps (encrypt_file w g nonce staged final key db)
        (encrypt_file-Keeps w P add g nonce staged final key db h)

  pub commit_encrypted_original-Keeps :
      (g : Gcm) (nonce : Bytes) (final : Text) (key : Bytes)
      → Keeps P (commit_encrypted_original w g nonce staged final key)
  unfolding commit_encrypted_original
  commit_encrypted_original-Keeps g nonce final key =
      let step = encrypt_staged w g nonce staged final key in
      guard-Keeps P (require_storage_path w staged) (guard (require_storage_path w final) step)
        (guard-Keeps P (require_storage_path w final) step (encrypt_staged-Keeps g nonce final key))
