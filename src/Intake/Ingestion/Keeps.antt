-- ===== src/Intake/Ingestion/Keeps.antt =====
-- What ingestion keeps: a fact that its few writes keep.
use drivebound_storage.Base.{
  ℕ, ◌+◌, ◌≡◌, refl, Bool, true, false, ◌&&◌, not, Option, none, some, List, [], ◌∷◌, Text,
  same_text, is_some,
}
use drivebound_storage.Base.Fault.{
  Result, ok, raise, lift, guard, ◌>>=◌, Keeps, bind-Keeps, bind-leads, asks-Keeps, lift_bind-Keeps,
  guard-Keeps, if-Keeps, if-leads, adoption_refused,
}
use drivebound_storage.Host.{originals, staging, require_storage, require_storage_path}
use drivebound_storage.Catalog.{Asset, User, Db}
use drivebound_storage.Encryption.{Bytes, put_file}
use drivebound_storage.Intake.Publish.{
  Kit, discard, consume, commit_original, commit_encrypted_original,
}
use drivebound_storage.Intake.Publish.Frame.{
  consume-Keeps, commit_original-Keeps, commit_encrypted_original-Keeps,
}
use drivebound_storage.Intake.Ingestion.{
  Staged, enabled_user, user_media_key, initialize_user_media_key, encrypted_plaintext_checksum,
  existing_asset, add_asset, adopt, adopt_found, publish_with_key, bytes_at, insert_stored,
  write_key, ensure_user_key, ingest_user, publish_original, final_path, ingest_new, ingest_unless,
  ingest_for, ensure_key, ingest, persist_managed_asset,
}

module _ (k : Kit) (x : Staged) (P : Db → Type 0)
    (add : (path : Text) (bytes : Bytes) (db : Db)
      → db.files path ≡ none
      → P db
      → P (put_file path bytes db))
    (drop_staged : (db : Db) → P db → P (discard k.host x.staged_path db)) where
  adopt_found-Keeps : (found : Text) → Keeps P (adopt_found k x found)
  unfolding adopt_found
  adopt_found-Keeps found =
      if-Keeps P (same_text found x.checksum) (consume k.host x.staged_path false)
        (raise adoption_refused) (consume-Keeps k.host x.staged_path P add drop_staged false)
        (λ db h. h)

  adopt-Keeps :
      (final : Text) (key : Bytes) (created : Bool) → Keeps P (adopt k x final key created)
  unfolding adopt
  adopt-Keeps final key true db h = h
  adopt-Keeps final key false db h =
      asks-Keeps P (encrypted_plaintext_checksum k final key x.file_size) (adopt_found k x) db h
        λ found. adopt_found-Keeps found db h

  publish_with_key-Keeps : (final : Text) (key : Bytes) → Keeps P (publish_with_key k x final key)
  unfolding publish_with_key
  publish_with_key-Keeps final key db h =
      bind-Keeps P
        (commit_encrypted_original k.host k.gcm (k.nonce db.next_id) x.staged_path final key)
        (adopt k x final key)
        (commit_encrypted_original-Keeps k.host x.staged_path P add drop_staged k.gcm
          (k.nonce db.next_id) final key)
        (adopt-Keeps final key) db h

  publish_original-Keeps : (u : User) (final : Text) → Keeps P (publish_original k x u final)
  unfolding publish_original
  publish_original-Keeps u final =
      if-Keeps P k.media_encryption_enabled
        (lift (user_media_key k u) >>= publish_with_key k x final)
        (commit_original k.host x.staged_path final)
        (lift_bind-Keeps P (user_media_key k u) (publish_with_key k x final)
          (publish_with_key-Keeps final))
        (commit_original-Keeps k.host x.staged_path P add drop_staged final)

-- A fact that the writes of files and of a key keep, and that the insertion keeps wherever the
-- content is new or a new version is forced, is kept by ingestion.
module _ (k : Kit) (x : Staged) (P : Db → Type 0)
    (add : (path : Text) (bytes : Bytes) (db : Db)
      → db.files path ≡ none
      → P db
      → P (put_file path bytes db))
    (drop_staged : (db : Db) → P db → P (discard k.host x.staged_path db))
    (keyed : (users : List User) (db : Db)
      → P db
      → P (record db { users = users; next_id = db.next_id + 1 }))
    (insert : (final : Text) (file : Bytes) (db : Db)
      → P db
      → (x.force_new_version ≡ false → existing_asset x db ≡ none)
      → P (insert_stored k x final file db).1) where
  abbrev Ready : Db → Type 0
  Ready db = P db × (x.force_new_version ≡ false → existing_asset x db ≡ none)

  ingest_new-keeps : (u : User) (db : Db) → Ready db → P (ingest_new k x u db).1
  unfolding ingest_new add_asset
  ingest_new-keeps u db h =
      bind-leads Ready P (publish_original k x u (final_path k x))
        (λ _. add_asset k x (final_path k x)) db
        (publish_original-Keeps k x Ready (λ path bytes d e r. (add path bytes d e r.0, r.1))
          (λ d r. (drop_staged d r.0, r.1)) u (final_path k x) db h)
        (λ d r. r.0)
        (λ _ d r.
          asks-Keeps P (bytes_at k.host (final_path k x)) (insert_stored k x (final_path k x)) d r.0
            λ file. insert (final_path k x) file d r.0 r.1)

  ingest_unless-keeps :
      (u : User) (o : Option Asset) (db : Db)
      → existing_asset x db ≡ o
      → P db
      → P (ingest_unless k x u o db).1
  unfolding ingest_unless
  ingest_unless-keeps u none db e h = ingest_new-keeps u db (h, λ _. e)
  ingest_unless-keeps u (some a) db e h =
      if-leads (λ (r : Result (Asset × Bool) × Db). P r.1) x.force_new_version (ingest_new k x u db)
        (ok (a, true), discard k.host x.staged_path db) (λ y. ingest_new-keeps u db (h, λ n. cc))
        (λ n. drop_staged db h)

  ingest_for-Keeps : (o : Option User) → Keeps P (ingest_for k x o)
  unfolding ingest_for
  ingest_for-Keeps none db h = drop_staged db h
  ingest_for-Keeps (some u) db h = ingest_unless-keeps u (existing_asset x db) db refl h

  write_key-Keeps : (wrapped : Text) (i : ℕ) (o : Option Bytes) → Keeps P (write_key wrapped i o)
  unfolding write_key
  write_key-Keeps wrapped i none db h = h
  write_key-Keeps wrapped i (some key) db h = keyed _ db h

  ensure_key-Keeps : (o : Option User) → Keeps P (ensure_key k x o)
  unfolding ensure_key initialize_user_media_key
  ensure_key-Keeps none db h = h
  ensure_key-Keeps (some u) db h =
      if-Keeps P (k.media_encryption_enabled && not (is_some u.media_key_encrypted))
        (initialize_user_media_key k x.user_id) (λ d. (ok [], d))
        (λ d r. write_key-Keeps (k.wrapped_key d.next_id) x.user_id _ d r) (λ d r. r) db h

  ensure_user_key-Keeps : Keeps P (ensure_user_key k x)
  unfolding ensure_user_key
  ensure_user_key-Keeps db = ensure_key-Keeps (enabled_user x.user_id db) db

  ingest_user-Keeps : Keeps P (ingest_user k x)
  unfolding ingest_user
  ingest_user-Keeps db = ingest_for-Keeps (enabled_user x.user_id db) db

  ingest-Keeps : Keeps P (ingest k x)
  unfolding ingest
  ingest-Keeps =
      bind-Keeps P (ensure_user_key k x) (λ _. ingest_user k x) ensure_user_key-Keeps
        (λ _. ingest_user-Keeps)

  pub persist_managed_asset-Keeps : Keeps P (persist_managed_asset k x)
  unfolding persist_managed_asset
  persist_managed_asset-Keeps =
      guard-Keeps P (require_storage k.host (originals ∷ staging ∷ []))
        (guard (require_storage_path k.host x.staged_path) (ingest k x))
        (guard-Keeps P (require_storage_path k.host x.staged_path) (ingest k x) ingest-Keeps)
