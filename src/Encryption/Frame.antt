-- ===== src/Encryption/Frame.antt =====
-- An encryption or decryption changes files only, and no file that was there.
use drivebound_storage.Base.{Option-cases, length, ◌≡◌, Option, none, some, Text, inl, inr}
use drivebound_storage.Base.Fault.{Result, ok, err, os_error, Keeps, bind-Keeps, guard, guard-Keeps}
use drivebound_storage.Host.{Host, require_storage_path}
use drivebound_storage.Catalog.{Db}
use drivebound_storage.Catalog.References.{canonical_storage_path}
use drivebound_storage.Encryption.{
  Bytes, Gcm, read_file, put_file, publish, checked_each, chunks, chunk_size, encrypted,
  encrypt_content, encrypt_source, encrypt_file,
}

module _ (w : Host) (P : Db → Type 0)
    (add : (path : Text) (bytes : Bytes) (db : Db)
      → db.files path ≡ none
      → P db
      → P (put_file path bytes db)) where
  read_file-Keeps : (path : Text) → Keeps P (read_file w path)
  unfolding read_file
  read_file-Keeps path db h = go (db.files (canonical_storage_path w path))
    where
      go :
          (o : Option Bytes)
          → P
              (elim o as (λ x. Result Bytes × Db) [
                | none ↦ (err os_error, db)
                | some bytes ↦ (ok bytes, db)
              ]).1
      go none = h
      go (some bytes) = h

  publish-Keeps : (path : Text) (bytes : Bytes) → Keeps P (publish w path bytes)
  unfolding publish
  publish-Keeps path bytes db h = elim (Option-cases (db.files (canonical_storage_path w path))) [
    | inl e ↦ rw e (add (canonical_storage_path w path) bytes db e h)
    | inr (b, e) ↦ rw e h
  ]

  encrypt_source-Keeps :
      (g : Gcm) (nonce : Bytes) (source destination : Text) (key : Bytes)
      → Keeps P (encrypt_source w g nonce source destination key)
  unfolding encrypt_source encrypt_content
  encrypt_source-Keeps g nonce source destination key =
      bind-Keeps P (read_file w source) (encrypt_content w g nonce destination key)
        (read_file-Keeps source)
        λ content.
          guard-Keeps P (checked_each w destination (chunks (length content) chunk_size content))
            (publish w destination (encrypted g chunk_size key nonce content))
            (publish-Keeps destination (encrypted g chunk_size key nonce content))

  pub encrypt_file-Keeps :
      (g : Gcm) (nonce : Bytes) (source destination : Text) (key : Bytes)
      → Keeps P (encrypt_file w g nonce source destination key)
  unfolding encrypt_file
  encrypt_file-Keeps g nonce source destination key =
      let step = encrypt_source w g nonce source destination key in
      guard-Keeps P (require_storage_path w source)
        (guard (require_storage_path w destination) step)
        (guard-Keeps P (require_storage_path w destination) step
          (encrypt_source-Keeps g nonce source destination key))
