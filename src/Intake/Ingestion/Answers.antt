-- ===== src/Intake/Ingestion/Answers.antt =====
-- The asset that ingestion answers is the caller's content.
use drivebound_storage.Base.{
  ◌≡◌, refl, subst, Bool, true, false, Option, none, some, [], ◌∷◌, ◌++◌, Text, scalar_sound,
  any_row, if◌then◌else◌,
}
use drivebound_storage.Base.Fault.{
  Result, ok, err, ok-injective, guard, asks, Yields, bind-Yields, guard-Yields, if-leads,
  integrity_error,
}
use drivebound_storage.Host.{originals, staging, require_storage, require_storage_path}
use drivebound_storage.Catalog.{Asset, User, Db}
use drivebound_storage.Encryption.{Bytes}
use drivebound_storage.Intake.Publish.{Kit, discard}
use drivebound_storage.Intake.Ingestion.{
  Staged, existing_asset, same_content, new_asset, next_version, collides, draw_two, adopted,
  insert_asset, insert_stored, bytes_at, add_asset, final_path, publish_original, ingest_new,
  ingest_unless, ingest_for, ensure_user_key, ingest_user, ingest, enabled_user,
  persist_managed_asset,
}
use drivebound_storage.Intake.Ingestion.Invariants.{same_content_key}

-- The asset is one of the caller's account, with the caller's checksum.
abbrev pub Matches : Staged → Asset × Bool → Type 0
Matches x (a, duplicate) = (a.user_id ≡ x.user_id) × (a.checksum ≡ x.checksum)

-- the same, of the answer of one run
abbrev pub Right : Staged → Result (Asset × Bool) × Db → Type 0
Right x (ok p, db) = Matches x p
Right x (err f, db) = Unit

Right-answer :
    (x : Staged) (r : Result (Asset × Bool) × Db) (p : Asset × Bool)
    → Right x r
    → r.0 ≡ ok p
    → Matches x p
Right-answer x (ok q, db) p h e = subst (Matches x) (ok-injective q p e) h
Right-answer x (err f, db) p h e = cc

answer-Right :
    (x : Staged) (r : Result (Asset × Bool) × Db)
    → ((p : Asset × Bool) → r.0 ≡ ok p → Matches x p)
    → Right x r
answer-Right x (ok p, db) h = h p refl
answer-Right x (err f, db) h = tt

existing-Matches :
    (x : Staged) (a : Asset) (db : Db) → existing_asset x db ≡ some a → Matches x (a, true)
existing-Matches x a db e =
    same_content_key x.user_id x.checksum a
      (scalar_sound (same_content x.user_id x.checksum) db.assets a e)

adopted-Right :
    (x : Staged) (o : Option Asset) (db : Db)
    → existing_asset x db ≡ o
    → Right x (adopted o (draw_two db))
adopted-Right x none db e = tt
adopted-Right x (some a) db e = existing-Matches x a db e

insert_asset-Right :
    (x : Staged) (a : Asset) (db : Db) → Matches x (a, false) → Right x (insert_asset x a db)
unfolding insert_asset
insert_asset-Right x a db h =
    if-leads (Right x) (any_row (collides a) db.assets)
      (if x.force_new_version
        then (err integrity_error, draw_two db)
        else adopted (existing_asset x db) (draw_two db))
      (ok (a, false), record (draw_two db) { assets = db.assets ++ a ∷ [] })
      (λ _.
        if-leads (Right x) x.force_new_version (err integrity_error, draw_two db)
          (adopted (existing_asset x db) (draw_two db)) (λ _. tt)
          (λ _. adopted-Right x (existing_asset x db) db refl))
      (λ _. h)

module _ (k : Kit) (x : Staged) where
  insert_stored-Yields :
      (final : Text) (file : Bytes) → Yields (Matches x) (insert_stored k x final file)
  unfolding insert_stored
  insert_stored-Yields final file db p e =
      let a = new_asset k x final (next_version x.user_id x.logical_id db) (k.sha256 file) db in
      Right-answer x (insert_asset x a db) p (insert_asset-Right x a db (refl, refl)) e

  ingest_new-Yields : (u : User) → Yields (Matches x) (ingest_new k x u)
  unfolding ingest_new add_asset
  ingest_new-Yields u =
      bind-Yields (Matches x) (publish_original k x u (final_path k x))
        (λ _. add_asset k x (final_path k x))
        λ _.
          bind-Yields (Matches x) (asks (bytes_at k.host (final_path k x)))
            (insert_stored k x (final_path k x)) (insert_stored-Yields (final_path k x))

  ingest_unless-Right :
      (u : User) (o : Option Asset) (db : Db) (p : Asset × Bool)
      → existing_asset x db ≡ o
      → (ingest_unless k x u o db).0 ≡ ok p
      → Matches x p
  unfolding ingest_unless
  ingest_unless-Right u none db p found e = ingest_new-Yields u db p e
  ingest_unless-Right u (some a) db p found e =
      if-leads (λ (r : Result (Asset × Bool) × Db). r.0 ≡ ok p → Matches x p) x.force_new_version
        (ingest_new k x u db) (ok (a, true), discard k.host x.staged_path db)
        (λ _ q. ingest_new-Yields u db p q)
        (λ _ q. subst (Matches x) (ok-injective (a, true) p q) (existing-Matches x a db found)) e

  ingest_for-Yields : (o : Option User) → Yields (Matches x) (ingest_for k x o)
  unfolding ingest_for
  ingest_for-Yields none db p e = cc
  ingest_for-Yields (some u) db p e = ingest_unless-Right u (existing_asset x db) db p refl e

  ingest_user-Yields : Yields (Matches x) (ingest_user k x)
  unfolding ingest_user
  ingest_user-Yields db p e = ingest_for-Yields (enabled_user x.user_id db) db p e

  ingest-Yields : Yields (Matches x) (ingest k x)
  unfolding ingest
  ingest-Yields =
      bind-Yields (Matches x) (ensure_user_key k x) (λ _. ingest_user k x) (λ _. ingest_user-Yields)

  pub persist_managed_asset-Yields : Yields (Matches x) (persist_managed_asset k x)
  unfolding persist_managed_asset
  persist_managed_asset-Yields =
      guard-Yields (Matches x) (require_storage k.host (originals ∷ staging ∷ []))
        (guard (require_storage_path k.host x.staged_path) (ingest k x))
        (guard-Yields (Matches x) (require_storage_path k.host x.staged_path) (ingest k x)
          ingest-Yields)

pub persist_managed_asset-Right :
    (k : Kit) (x : Staged) (db : Db) → Right x (persist_managed_asset k x db)
persist_managed_asset-Right k x db =
    answer-Right x (persist_managed_asset k x db) (persist_managed_asset-Yields k x db)
