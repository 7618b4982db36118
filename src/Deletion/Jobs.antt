-- ===== src/Deletion/Jobs.antt =====
-- backend/app/models/account_deletion.py, and the transitions of a job that
-- backend/app/services/account_deletion.py makes outside a batch: the retry delay, the claim of a
-- lease, the due jobs and the record of a publication.
pub mod Backoff
pub mod Changes
pub mod Claims
use drivebound_storage.Base.{
  ℕ, ◌+◌, ◌*◌, ◌-◌, ◌^◌, Bool, true, false, ◌&&◌, ◌||◌, not, Option, none, some, List, map, ◌==◌,
  leb, ltb, if◌then◌else◌, scalar, scalars, update, order_by, take, opt_is,
}
use drivebound_storage.Base.Fault.{Fault}

-- `AccountDeletionJob.status`; the check constraint names these six
pub data JobStatus : Type 0 where
  pending queued running retry manual_review completed : JobStatus

-- `last_error_code`; `raised` is the name of an exception's type
pub data ErrorCode : Type 0 where
  asset_cleanup_deferred noncanonical_legacy_path : ErrorCode
  account_namespace_requires_review broker_publish_failed : ErrorCode
  raised : Fault → ErrorCode

-- `AccountDeletionJob`
pub record Job : Type 0 where
  pub id : ℕ
  pub subject_id : Option ℕ
  pub status : JobStatus
  pub attempt_count : ℕ
  pub failure_count : ℕ
  pub assets_purged : ℕ
  pub uploads_purged : ℕ
  pub retained_legacy_paths : ℕ
  pub requested_at : ℕ
  pub not_before : ℕ
  pub next_attempt_at : ℕ
  pub lease_token : Option ℕ
  pub lease_expires_at : Option ℕ
  pub last_error_code : Option ErrorCode
  pub last_error_at : Option ℕ
  pub suppression_review_after : ℕ
  pub completed_at : Option ℕ

-- the settings `account_deletion_…_seconds`, `account_deletion_batch_size` and
-- `database_backup_interval_hours`
pub record Pace : Type 0 where
  pub quiescence_seconds : ℕ
  pub retry_base_seconds : ℕ
  pub retry_max_seconds : ℕ
  pub lease_seconds : ℕ
  pub batch_size : ℕ
  pub backup_interval_hours : ℕ

-- one second, in microseconds
abbrev pub second : ℕ
second = 1000000

abbrev pub min : ℕ → ℕ → ℕ
min a b = if leb a b then a else b

-- `retry_delay`; on ℕ, `attempt - 1` stops at 0 as `max(attempt - 1, 0)` does
unfoldable pub retry_delay : Pace → ℕ → ℕ
retry_delay c attempt = min (c.retry_base_seconds * 2 ^ min (attempt - 1) 10) c.retry_max_seconds

abbrev pub is_running : JobStatus → Bool
is_running running = true
is_running _ = false

abbrev pub is_queued : JobStatus → Bool
is_queued queued = true
is_queued _ = false

-- `{"pending", "queued", "retry"}`
abbrev pub is_waiting : JobStatus → Bool
is_waiting pending = true
is_waiting queued = true
is_waiting retry = true
is_waiting _ = false

abbrev pub job_is : ℕ → Job → Bool
job_is i j = j.id == i

-- the assignments to the row that a query has locked
abbrev pub set_jobs : ℕ → (Job → Job) → List Job → List Job
set_jobs i f jobs = update (job_is i) f jobs

-- The lease of a running job is still good.
abbrev pub leased : ℕ → Job → Bool
leased now j = elim j.lease_expires_at [ none ↦ false | some t ↦ is_running j.status && ltb now t ]

abbrev pub claimable : ℕ → Job → Bool
claimable now j =
    (is_waiting j.status || is_running j.status)
    && leb j.not_before now
    && (is_queued j.status || leb j.next_attempt_at now)
    && not (leased now j)

pub claimed_row : Pace → ℕ → ℕ → Job → Job
claimed_row c now token j = record j {
  status = running;
  lease_token = some token;
  lease_expires_at = some (now + c.lease_seconds * second);
  attempt_count = j.attempt_count + 1;
  last_error_code = none;
}

pub claim_found : Pace → ℕ → ℕ → ℕ → Option Job → List Job → Option (Job × ℕ) × List Job
unfolding claimed_row
claim_found c now token i none jobs = (none, jobs)
claim_found c now token i (some j) jobs =
    if claimable now j
    then (some (claimed_row c now token j, token), set_jobs i (claimed_row c now token) jobs)
    else (none, jobs)

-- `token` is the value that `uuid.uuid4()` draws
unfoldable pub claim_account_deletion_job :
    Pace → ℕ → ℕ → ℕ → List Job → Option (Job × ℕ) × List Job
unfolding claim_found
claim_account_deletion_job c now token i jobs =
    claim_found c now token i (scalar (job_is i) jobs) jobs

abbrev pub unleased : ℕ → Job → Bool
unleased now j =
    not (is_running j.status) || elim j.lease_expires_at [ none ↦ true | some t ↦ leb t now ]

abbrev pub is_due_job : ℕ → Job → Bool
is_due_job now j =
    (is_waiting j.status || is_running j.status)
    && leb j.not_before now
    && leb j.next_attempt_at now
    && unleased now j

unfoldable pub due_account_deletion_job_ids : ℕ → ℕ → List Job → List ℕ
due_account_deletion_job_ids now limit jobs =
    map (λ j. j.id)
      (take limit (
        order_by (λ j. j.next_attempt_at)
          (order_by (λ j. j.requested_at) (scalars (is_due_job now) jobs))))

pub published_row : Pace → ℕ → Bool → Job → Job
unfolding retry_delay
published_row c now true j = record j {
  lease_token = none;
  lease_expires_at = none;
  status = queued;
  next_attempt_at = now + c.lease_seconds * second;
  last_error_code = none;
}
published_row c now false j = record j {
  lease_token = none;
  lease_expires_at = none;
  status = retry;
  failure_count = j.failure_count + 1;
  last_error_code = some broker_publish_failed;
  last_error_at = some now;
  next_attempt_at = now + retry_delay c (j.failure_count + 1) * second;
}

pub publish_found : Pace → ℕ → ℕ → Bool → Option Job → List Job → List Job
unfolding published_row
publish_found c now i published none jobs = jobs
publish_found c now i published (some j) jobs =
    if is_waiting j.status then set_jobs i (published_row c now published) jobs else jobs

unfoldable pub record_account_deletion_publish : Pace → ℕ → ℕ → Bool → List Job → List Job
unfolding publish_found
record_account_deletion_publish c now i published jobs =
    publish_found c now i published (scalar (job_is i) jobs) jobs
