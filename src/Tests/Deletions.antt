-- ===== src/Tests/Deletions.antt =====
-- The theorems on account deletion, at a sample account with three revisions and a running job.
use drivebound_storage.Base.{
  ℕ, ◌≡◌, ◌≢◌, ◌≤◌, refl, true, false, Option, none, some, List, [], ◌∷◌, Text, codes, count,
  scalar, arith, Row,
}
use drivebound_storage.Base.Fault.{ok}
use drivebound_storage.Host.{require_storage, load_storage_manifest}
use drivebound_storage.Catalog.{Upload, upload_active}
use drivebound_storage.Deletion.Jobs.{
  Job, JobStatus, pending, running, completed, Pace, retry_delay, claim_account_deletion_job,
}
use drivebound_storage.Deletion.Jobs.Backoff.{retry_delay_bounds}
use drivebound_storage.Deletion.Jobs.Changes.{AreJobsOk}
use drivebound_storage.Deletion.Jobs.Claims.{claim_exclusive}
use drivebound_storage.Deletion.Rows.{Server, Login, auth_session}
use drivebound_storage.Deletion.Sweep.{Walk, sweep_account_namespaces}
use drivebound_storage.Deletion.Sweep.Safety.{Sweeps, sweep_account_namespaces_safe}
use drivebound_storage.Deletion.Ledger.{
  Seal, Deployment, Ledger, Marker, Document, write_suppression_marker,
  suppression_subject_is_denied,
}
use drivebound_storage.Deletion.Ledger.FailClosed.{here, denied_after_write}
use drivebound_storage.Deletion.Batch.{Tools, Turn, stale_answer, process_account_deletion_batch}
use drivebound_storage.Deletion.Batch.Finish.{superseded_worker}
use drivebound_storage.Deletion.Lockout.{Letters, prepare_account_deletion}
use drivebound_storage.Deletion.Lockout.Erasure.{IsLockedOut, prepare-IsLockedOut, prepare_again}
use drivebound_storage.Deletion.History.{start, step, claims, Reach-AreJobsOk, Reach-completed}
use drivebound_storage.Tests.Samples.{plain_host, plain_host-resolve, db, user, gone_asset}

abbrev pace : Pace
pace = record {
  quiescence_seconds = 0;
  retry_base_seconds = 30;
  retry_max_seconds = 3600;
  lease_seconds = 900;
  batch_size = 25;
  backup_interval_hours = 24;
}

-- Every path exists, nothing is a link, and each namespace has one file.
abbrev walk : Walk
walk = record {
  exists = λ p. true;
  is_folder = λ p. true;
  is_symlink = λ p. some false;
  is_junction = λ p. some false;
  is_reparse_point = λ p. some false;
  iterdir = λ p. [];
  rglob = λ files p. codes "/o/stray" ∷ [];
  depth = λ p. 0;
  account_folder = λ p i. p;
  rebased = λ root p. p;
  abspath = λ p. p;
  staged_files = λ files p i. [];
}

abbrev tools : Tools
tools = record { host = plain_host; walk = walk; pace = pace }

-- The folders of the account are empty once the catalogue's files are gone.
abbrev swept_tools : Tools
swept_tools = record tools { walk = record walk { rglob = λ files p. [] } }

abbrev job : JobStatus → Option ℕ → Job
job status token = record {
  id = 5;
  subject_id = some 1;
  status = status;
  attempt_count = 0;
  failure_count = 0;
  assets_purged = 0;
  uploads_purged = 0;
  retained_legacy_paths = 0;
  requested_at = 0;
  not_before = 0;
  next_attempt_at = 0;
  lease_token = token;
  lease_expires_at = token;
  last_error_code = none;
  last_error_at = none;
  suppression_review_after = 0;
  completed_at = none;
}

abbrev done : Job
done = record (job completed none) { id = 6; subject_id = none }

abbrev login : Login
login = record {
  user_id = 1;
  password_hash = codes "x";
  password_enabled = true;
  password_set_at = none;
  display_name = none;
  onboarding_completed_at = none;
  totp_secret_encrypted = none;
  totp_enabled_at = none;
  totp_last_used_step = none;
  pending_totp_secret_encrypted = none;
  pending_totp_expires_at = none;
  pending_totp_session_id = none;
}

abbrev server : List Job → Server
server jobs = record {
  db = db;
  jobs = jobs;
  logins = login ∷ [];
  grants = record { kind = auth_session; user_id = 1 } ∷ [];
  albums = [];
  members = [];
  invites = [];
}

abbrev letters : Letters
letters = record { hex = λ i. i ∷ []; token_hex = λ i. i ∷ []; lower = λ t. t; sql_lower = λ t. t }

abbrev turn : Turn
turn = record { now = 7; locked = λ k. false }

retry_delay_bounds_example :
    (30 ≤ retry_delay pace 2)
    × (retry_delay pace 2 ≤ retry_delay pace 9)
    × (retry_delay pace 9 ≤ 3600)
retry_delay_bounds_example = retry_delay_bounds pace 2 9 (omega arith) (omega arith)

abbrev claimed : List Job
claimed = (claim_account_deletion_job pace 7 11 5 (job pending none ∷ [])).1

claim_exclusive_example : claim_account_deletion_job pace 8 12 5 claimed ≡ (none, claimed)
unfolding claim_account_deletion_job scalar
claim_exclusive_example =
    claim_exclusive pace 7 8 11 12 5 (job pending none ∷ []) _ refl (omega arith)

superseded_worker_example :
    process_account_deletion_batch tools (λ n. turn) turn 5 3 (server claimed)
    ≡ (stale_answer, server claimed)
unfolding claim_account_deletion_job scalar
superseded_worker_example =
    superseded_worker tools (λ n. turn) turn 7 5 11 3 (server (job pending none ∷ [])) _ refl
      (λ e. omega (arith, e)) (omega arith)

-- An account with a trashed revision and an upload in progress.
abbrev staged : Upload
staged = record {
  id = 9;
  user_id = 1;
  device_id = none;
  filename = codes "x.jpg";
  mime_type = [];
  total_size = 4;
  offset = 1;
  expected_checksum = none;
  staging_path = codes "/s/x";
  status = upload_active;
  expires_at = 9;
  created_at = 0;
}

abbrev doomed_server : Server
doomed_server = record (server (job running (some 9) ∷ [])) {
  db = record db { assets = gone_asset ∷ []; uploads = staged ∷ [] };
}

sweep_account_namespaces_safe_example :
    Sweeps plain_host db (sweep_account_namespaces plain_host walk 1 db).1
sweep_account_namespaces_safe_example =
    sweep_account_namespaces_safe plain_host walk 1 db plain_host-resolve

prepare-IsLockedOut_example :
    IsLockedOut 1 7 (prepare_account_deletion letters pace 30 7 none user (server [])).1
unfolding scalar
prepare-IsLockedOut_example = prepare-IsLockedOut letters pace 30 7 none user (server []) refl

prepare_again_example :
    let (j, after) = prepare_account_deletion letters pace 30 7 none user (server []) in
    prepare_account_deletion letters pace 30 8 (some 4) user after ≡ (j, after)
prepare_again_example = prepare_again letters pace 30 7 8 none (some 4) user user (server []) refl

abbrev jobs : List Job
jobs = job pending none ∷ done ∷ []

jobs-AreJobsOk : AreJobsOk jobs
unfolding count
jobs-AreJobsOk =
    (((refl, refl, refl), ((refl, refl, refl), tt)), λ i. ground arith, λ u. ground arith)

abbrev after_claim : Server
after_claim = record (server jobs) {
  jobs = (claim_account_deletion_job pace 7 10 5 jobs).1;
  db = record db { next_id = 11 };
}

Reach-AreJobsOk_example : AreJobsOk after_claim.jobs
Reach-AreJobsOk_example =
    Reach-AreJobsOk {t = tools} {s = server jobs} {after = after_claim} (step start (claims 7 5))
      jobs-AreJobsOk

Reach-completed_example : Row done after_claim.jobs
Reach-completed_example =
    Reach-completed {t = tools} {s = server jobs} {after = after_claim} (step start (claims 7 5))
      jobs-AreJobsOk done (λ P h. h.1.0) refl

abbrev read_document : Text → Option (Document × Text)
read_document (job ∷ time ∷ f) =
    some
      (record { schema = some 1; job_id = job; subject_fingerprint = f; requested_at = time }, [])
read_document _ = none

-- the rest of a fingerprint of sixty-four digits
abbrev rest_of_fingerprint : Text
rest_of_fingerprint = codes "0123456789abcdef0123456789abcdef0123456789abcdef0123456789abcde"

abbrev seal : Seal
seal = record {
  fingerprint = λ i. i ∷ rest_of_fingerprint;
  tag = λ x. [];
  encode = λ x t. x.job_id ∷ x.requested_at ∷ x.subject_fingerprint;
  parse = read_document;
  file_name = λ i. i ∷ [];
  before = λ a b. false;
}

abbrev deployment : Deployment
deployment = record { host = plain_host; seal = seal; public_install = true }

abbrev ledger : List Marker → Ledger
ledger markers = record { exists = true; is_dir = true; can_list = true; markers = markers }

abbrev marker : Marker
marker = record { name = 5 ∷ []; content = some (5 ∷ 7 ∷ 1 ∷ rest_of_fingerprint) }

denied_after_write_example :
    suppression_subject_is_denied deployment 1 (ledger (marker ∷ [])) ≢ ok false
unfolding write_suppression_marker scalar require_storage load_storage_manifest
denied_after_write_example =
    denied_after_write deployment 5 1 7 (ledger []) (ledger (marker ∷ [])) (ledger (marker ∷ []))
      (λ i u n. refl) refl here
