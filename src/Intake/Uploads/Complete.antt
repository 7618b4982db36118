-- ===== src/Intake/Uploads/Complete.antt =====
-- A session that completes has stored the content that the client announced.
use drivebound_storage.Base.{
  ℕ, ◌≡◌, refl, sym, subst, Bool, false, Option, none, some, List, Text, same_text_sound, ltb,
  is_some, arith,
}
use drivebound_storage.Base.Fault.{
  Result, ok, err, if-leads, upload_is_expired, account_unavailable,
}
use drivebound_storage.Catalog.{
  Asset, Upload, UploadStatus, upload_active, upload_expired, upload_failed, upload_complete, Db,
}
use drivebound_storage.Catalog.References.{canonical_storage_path}
use drivebound_storage.Encryption.{Bytes}
use drivebound_storage.Intake.Publish.{Kit}
use drivebound_storage.Intake.Ingestion.{enabled_user, persist_managed_asset}
use drivebound_storage.Intake.Ingestion.Answers.{Right, persist_managed_asset-Right}
use drivebound_storage.Intake.Uploads.{
  Intake, Principal, Response, session_response, owned_upload, receive, advanced, staged_of,
  completed, unexpected, rejected, finalize_with, finish_upload, store, set_upload, set_db,
  with_status, after_receive, append_staged, may_append, append_unexpired, append_active,
  append_found, append_upload,
}

-- The checksum is the announced one, where one was announced.
abbrev pub IsExpected : Option Text → Text → Type 0
IsExpected none checksum = Unit
IsExpected (some expected) checksum = checksum ≡ expected

abbrev pub IsStored : Upload → UploadStatus → Option Asset → Type 0
IsStored u status none = Unit
IsStored u status (some a) =
    (status ≡ upload_complete) × (a.user_id ≡ u.user_id) × IsExpected u.expected_checksum a.checksum

-- What an answer says of the session's content.
abbrev pub Answered : Upload → Result Response × Intake → Type 0
Answered u (ok r, s) = IsStored u r.status r.asset
Answered u (err f, s) = Unit

unexpected-IsExpected : (o : Option Text) (t : Text) → unexpected o t ≡ false → IsExpected o t
unexpected-IsExpected none t h = tt
unexpected-IsExpected (some e) t h = same_text_sound t e (ground (arith, h))

module _ (k : Kit) (now : ℕ) where
  completed-Answered :
      (u : Upload) (checksum : Text) (s : Intake) (x : Result (Asset × Bool) × Db)
      → IsExpected u.expected_checksum checksum
      → Right (staged_of now u checksum) x
      → Answered u (completed now u s.devices x)
  unfolding completed
  completed-Answered u checksum s (err f, db) h r = tt
  completed-Answered u checksum s (ok (a, d), db) h (own, same) =
      (refl, own, subst (IsExpected u.expected_checksum) (sym same) h)

  finalize_with-Answered :
      (u : Upload) (checksum : Text) (s : Intake) → Answered u (finalize_with k now u checksum s)
  unfolding finalize_with
  finalize_with-Answered u checksum s =
      let (f, db) = rejected k.host u s.db in
      if-leads (Answered u) (unexpected u.expected_checksum checksum) (err f, record s { db = db })
        (completed now u s.devices (persist_managed_asset k (staged_of now u checksum) s.db))
        (λ _. tt)
        (λ n.
          completed-Answered u checksum s _ (unexpected-IsExpected u.expected_checksum checksum n)
            (persist_managed_asset-Right k (staged_of now u checksum) s.db))

  finish_upload-Answered :
      (u : Upload) (file : Bytes) (s : Intake) → Answered u (finish_upload k now u file s)
  unfolding finish_upload
  finish_upload-Answered u file s =
      if-leads (Answered u) (ltb u.offset u.total_size) (ok (session_response u none false), s)
        (finalize_with k now u (k.sha256 file) s) (λ _. tt)
        (λ _. finalize_with-Answered u (k.sha256 file) s)

  after_receive-Answered :
      (u : Upload) (x : Result ℕ × Bytes) (s : Intake) → Answered u (after_receive k now u x s)
  unfolding after_receive
  after_receive-Answered u (err f, file) s = tt
  after_receive-Answered u (ok n, file) s =
      finish_upload-Answered (advanced n u) file
        (set_db (λ db. set_upload u.id (advanced n) (store k u file db)) s)

  append_staged-Answered :
      (u : Upload) (stream : List Bytes) (o : Option Bytes) (s : Intake)
      → Answered u (append_staged k now u stream o s)
  unfolding append_staged
  append_staged-Answered u stream none s = tt
  append_staged-Answered u stream (some file) s =
      after_receive-Answered u (receive k.host u stream file) s

  append_unexpired-Answered :
      (u : Upload) (offset : ℕ) (stream : List Bytes) (s : Intake)
      → Answered u (append_unexpired k now u offset stream s)
  unfolding append_unexpired
  append_unexpired-Answered u offset stream s = go (may_append k u offset)
    where
      go :
          (r : Result (Unit {0}))
          → Answered u (elim r as (λ x. Result Response × Intake) [
            | err f ↦ (err f, s)
            | ok _ ↦
                append_staged k now u stream
                  (s.db.files (canonical_storage_path k.host u.staging_path))
                  s
          ])
      go (err f) = tt
      go (ok _) =
          append_staged-Answered u stream
            (s.db.files (canonical_storage_path k.host u.staging_path)) s

  append_active-Answered :
      (u : Upload) (offset : ℕ) (stream : List Bytes) (status : UploadStatus) (s : Intake)
      → Answered u (append_active k now u offset stream status s)
  unfolding append_active
  append_active-Answered u offset stream upload_active s =
      if-leads (Answered u) (ltb u.expires_at now)
        (err upload_is_expired, set_db (set_upload u.id (with_status upload_expired)) s)
        (append_unexpired k now u offset stream s) (λ _. tt)
        (λ _. append_unexpired-Answered u offset stream s)
  append_active-Answered u offset stream upload_expired s = tt
  append_active-Answered u offset stream upload_failed s = tt
  append_active-Answered u offset stream upload_complete s = tt

-- A request to a session that answers an asset answers it as complete; the asset is one of the
-- session's account, and where the client announced a checksum when it opened the session, the asset
-- has that checksum, whether its bytes were stored now or were there already.
pub append_upload-Answered :
    (k : Kit) (now : ℕ) (p : Principal) (i offset : ℕ) (stream : List Bytes) (s : Intake)
    (u : Upload)
    → owned_upload p i s.db ≡ some u
    → Answered u (append_upload k now p i offset stream s)
unfolding append_upload append_found
append_upload-Answered k now p i offset stream s u found =
    if-leads (Answered u) (is_some (enabled_user p.user_id s.db))
      (append_found k now (owned_upload p i s.db) offset stream s) (err account_unavailable, s)
      (λ _. rw found (append_active-Answered k now u offset stream u.status s)) (λ _. tt)
