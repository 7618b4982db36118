-- ===== src/Tests/Uploads.antt =====
-- The theorems on encryption, ingestion and resumable uploads, at a sample session.
use drivebound_storage.Base.{
  ◌≡◌, ◌≢◌, refl, true, false, none, some, [], ◌∷◌, ◌++◌, codes, same_text, same_text_iff, count,
  if◌then◌else◌, ◌||◌, starts_with, scalar, arith,
}
use drivebound_storage.Base.Fault.{ok}
use drivebound_storage.Catalog.{Db, Upload, upload_active}
use drivebound_storage.Catalog.References.{canonical_storage_path}
use drivebound_storage.Sync.Items.Upsert.{AssetsOk}
use drivebound_storage.Encryption.{Bytes, Gcm, encrypted, decrypted_chunks, whole}
use drivebound_storage.Encryption.RoundTrip.{IsGcm, decrypted-encrypted}
use drivebound_storage.Intake.Publish.{Kit}
use drivebound_storage.Intake.Ingestion.{Staged, persist_managed_asset}
use drivebound_storage.Intake.Ingestion.Invariants.{
  AreDistinct, persist_managed_asset-AssetsOk, persist_managed_asset-AreDistinct,
  persist_managed_asset_files,
}
use drivebound_storage.Intake.Uploads.{Intake, Principal, receive, append_upload}
use drivebound_storage.Intake.Uploads.Resume.{Received, receive-Received}
use drivebound_storage.Intake.Uploads.Complete.{Answered, append_upload-Answered}
use drivebound_storage.Tests.Samples.{plain_host, db, db-AssetsOk}

-- A cipher that changes nothing, with a tag of sixteen zeros.
abbrev plain_tag : Bytes
plain_tag = 0 ∷ 0 ∷ 0 ∷ 0 ∷ 0 ∷ 0 ∷ 0 ∷ 0 ∷ 0 ∷ 0 ∷ 0 ∷ 0 ∷ 0 ∷ 0 ∷ 0 ∷ 0 ∷ []

abbrev plain_gcm : Gcm
plain_gcm = record {
  enc_update = λ key nonce seen c. c;
  enc_finalize = λ key nonce seen. [];
  enc_tag = λ key nonce seen. plain_tag;
  dec_update = λ key nonce seen c. c;
  dec_finalize = λ key nonce tag seen. some [];
}

plain_gcm-IsGcm : IsGcm plain_gcm [] (codes "123456789012") (λ x. x) (λ x. x)
plain_gcm-IsGcm = record {
  cipher_starts = refl;
  encrypts = λ s c. refl;
  encrypted_end = λ s. refl;
  tag_length = λ s. refl;
  plain_starts = refl;
  decrypts = λ s c. refl;
  inverse = λ s. refl;
  accepts = λ s. refl;
}

decrypted-encrypted_example :
    whole (
      decrypted_chunks plain_gcm 2 []
        (encrypted plain_gcm 3 [] (codes "123456789012") (codes "a photo")))
    ≡ ok (codes "a photo")
decrypted-encrypted_example =
    decrypted-encrypted plain_gcm 3 2 [] (codes "123456789012") (codes "a photo") (λ x. x) (λ x. x)
      plain_gcm-IsGcm (omega arith) (omega arith) refl

abbrev kit : Kit
kit = record {
  host = plain_host;
  gcm = plain_gcm;
  join = λ a b. a ++ b;
  str_of = λ i. i ∷ [];
  sha256 = λ x. x;
  unwrap_user_media_key = λ t. some t;
  wrapped_key = λ i. i ∷ [];
  nonce = λ i. codes "123456789012";
  media_encryption_enabled = true;
  upload_session_hours = 24;
  max_upload_size = 100;
}

abbrev staged : Staged
staged = record {
  user_id = 1;
  staged_path = codes "/s/x";
  checksum = codes "c";
  file_size = 1;
  mime_type = [];
  filename = codes "x.jpg";
  logical_id = none;
  force_new_version = false;
  now = 7;
}

-- The sample database with no files but a staged one and one at a path of its own.
abbrev fresh_db : Db
fresh_db = record db {
  files = λ p.
      if starts_with (codes "/s/") p || same_text p (codes "/o/2") then some (1 ∷ []) else none;
}

persist_managed_asset-AssetsOk_example : AssetsOk (persist_managed_asset kit staged fresh_db).1
persist_managed_asset-AssetsOk_example =
    persist_managed_asset-AssetsOk kit staged fresh_db db-AssetsOk

db-AreDistinct : AreDistinct fresh_db
unfolding count
db-AreDistinct = λ u c. ground arith

persist_managed_asset-AreDistinct_example :
    AreDistinct (persist_managed_asset kit staged fresh_db).1
persist_managed_asset-AreDistinct_example =
    persist_managed_asset-AreDistinct kit staged fresh_db refl db-AreDistinct

other_path : codes "/o/2" ≢ canonical_storage_path plain_host (codes "/s/x")
unfolding same_text canonical_storage_path scalar
other_path e =
    let differ : same_text (codes "/o/2") (codes "/s/x") ≡ false = refl in
    let same : same_text (codes "/o/2") (codes "/s/x") ≡ true =
      (same_text_iff (codes "/o/2") (codes "/s/x")).1 e in
    cc

persist_managed_asset_files_example :
    (persist_managed_asset kit staged fresh_db).1.files (codes "/o/2") ≡ some (1 ∷ [])
unfolding starts_with same_text
persist_managed_asset_files_example =
    persist_managed_asset_files kit staged fresh_db (codes "/o/2") (1 ∷ []) other_path refl

abbrev upload : Upload
upload = record {
  id = 3;
  user_id = 1;
  device_id = none;
  filename = codes "x.jpg";
  mime_type = [];
  total_size = 4;
  offset = 1;
  expected_checksum = some (1 ∷ 5 ∷ 6 ∷ 7 ∷ []);
  staging_path = codes "/s/x";
  status = upload_active;
  expires_at = 9;
  created_at = 0;
}

receive-Received_example :
    Received upload
      ((5 ∷ []) ∷ (6 ∷ []) ∷ [])
      (1 ∷ [])
      (receive plain_host upload ((5 ∷ []) ∷ (6 ∷ []) ∷ []) (1 ∷ []))
receive-Received_example =
    receive-Received plain_host upload ((5 ∷ []) ∷ (6 ∷ []) ∷ []) (1 ∷ []) (omega arith)
      (omega arith)

abbrev principal : Principal
principal = record { user_id = 1; device_id = none }

abbrev intake : Intake
intake = record { db = record fresh_db { uploads = upload ∷ [] }; devices = [] }

append_upload-Answered_example :
    Answered upload (append_upload kit 7 principal 3 1 ((5 ∷ 6 ∷ 7 ∷ []) ∷ []) intake)
unfolding scalar
append_upload-Answered_example =
    append_upload-Answered kit 7 principal 3 1 ((5 ∷ 6 ∷ 7 ∷ []) ∷ []) intake upload refl
