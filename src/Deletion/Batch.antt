-- ===== src/Deletion/Batch.antt =====
-- `process_account_deletion_batch` of backend/app/services/account_deletion.py. A rollback returns
-- the tables to the last commit, and brings no removed file back.
pub mod Steps
pub mod Finish
pub mod Erased
pub mod Removals
pub mod Progress
use drivebound_storage.Base.{
  ℕ, zero, suc, ◌+◌, ◌*◌, Bool, true, false, ◌&&◌, ◌||◌, not, Option, none, some, List, [], ◌∷◌,
  ◌++◌, Text, ◌==◌, if◌then◌else◌, is_some, scalar, update, delete_rows, order_by, length, opt_is,
  any_row,
}
use drivebound_storage.Base.Fault.{Result, ok, err, Exec, pure, ◌>>=◌}
use drivebound_storage.Host.{Host, require_storage}
use drivebound_storage.Catalog.{
  Asset, Upload, PathKind, Audit, account_deletion_completed, event_of, Root, Db,
}
use drivebound_storage.Catalog.References.{Excluding, is_placeholder}
use drivebound_storage.Catalog.Unlink.{under, safely_unlink_catalog_path}
use drivebound_storage.Lifecycle.Purge.{Purged, purge_roles, safely_purge_asset}
use drivebound_storage.Deletion.Jobs.{
  pending, retry, manual_review, completed, ErrorCode, asset_cleanup_deferred,
  noncanonical_legacy_path, account_namespace_requires_review, raised, Job, Pace, second,
  retry_delay, is_running, job_is, set_jobs,
}
use drivebound_storage.Deletion.Rows.{Album, Member, Server}
use drivebound_storage.Deletion.Sweep.{Walk, no_exclusion, sweep_account_namespaces}

-- What the batch returns.
pub data Answer : Type 0 where
  stale_answer review_answer completed_answer retry_answer pending_answer : Answer

-- How one round of the loop ends: `continue`, or `return`.
pub data Round : Type 0 where
  again : Round
  answers : Answer → Round

-- The time of a round, and the rows that other transactions have locked, which a query skips.
pub record Turn : Type 0 where
  pub now : ℕ
  pub locked : ℕ → Bool

pub record Tools : Type 0 where
  pub host : Host
  pub walk : Walk
  pub pace : Pace

abbrev pub holds_lease : ℕ → ℕ → Job → Bool
holds_lease i token j = job_is i j && opt_is j.lease_token token

-- the query for the job of this lease
abbrev pub held : ℕ → ℕ → List Job → Option Job
held i token jobs = scalar (holds_lease i token) jobs

abbrev pub held_running : ℕ → ℕ → List Job → Option Job
held_running i token jobs = scalar (λ j. holds_lease i token j && is_running j.status) jobs

-- The tables of the last commit, with the files as they are now.
abbrev pub roll_back : Server → Db → Server
roll_back s after = record s { db = record s.db { files = after.files } }

abbrev pub set_job : ℕ → (Job → Job) → Server → Server
set_job i f s = record s { jobs = set_jobs i f s.jobs }

abbrev pub release : Job → Job
release j = record j { lease_token = none; lease_expires_at = none }

pub retry_row : Pace → ℕ → ErrorCode → Job → Job
unfolding retry_delay
retry_row c now code j = record (release j) {
  status = retry;
  last_error_code = some code;
  last_error_at = some now;
  failure_count = j.failure_count + 1;
  next_attempt_at = now + retry_delay c (j.failure_count + 1) * second;
}

pub review_row : ℕ → ErrorCode → ℕ → Job → Job
review_row now code kept j = record (release j) {
  status = manual_review;
  retained_legacy_paths = j.retained_legacy_paths + kept;
  last_error_code = some code;
  last_error_at = some now;
}

-- the job found again, or the answer "stale"
pub answer_held : ℕ → Answer → (Job → Job) → Option Job → Server → Round × Server
answer_held i a f none s = (answers stale_answer, s)
answer_held i a f (some j) s = (answers a, set_job i f s)

-- the `except` block
pub failed : Tools → Turn → ℕ → ℕ → ErrorCode → Server → Db → Round × Server
unfolding answer_held retry_row
failed t turn i token code s after =
    answer_held i retry_answer (retry_row t.pace turn.now code) (held_running i token s.jobs)
      (roll_back s after)

abbrev pub extended : Pace → ℕ → Job → Job
extended c now j = record j {
  failure_count = 0;
  lease_expires_at = some (now + c.lease_seconds * second);
}

pub upload_row : Pace → ℕ → Job → Job
upload_row c now j = record (extended c now j) { uploads_purged = j.uploads_purged + 1 }

pub asset_row : Pace → ℕ → ℕ → Job → Job
asset_row c now kept j = record (extended c now j) {
  assets_purged = j.assets_purged + 1;
  retained_legacy_paths = j.retained_legacy_paths + kept;
}

abbrev pub delete_upload : ℕ → Db → Db
delete_upload i db = record db { uploads = delete_rows (λ u. u.id == i) db.uploads }

abbrev pub excluding_upload : ℕ → Excluding
excluding_upload i = record { asset = none; replica = none; upload = some i }

pub unlink_upload : Host → Upload → Exec Db Bool
unlink_upload w u =
    if is_placeholder u.staging_path
    then pure true
    else safely_unlink_catalog_path w u.staging_path (under w.staging_path) (excluding_upload u.id)

pub after_upload : Tools → Turn → ℕ → ℕ → Upload → Server → Result Bool × Db → Round × Server
unfolding failed upload_row
after_upload t turn i token u s (err f, db) = failed t turn i token (raised f) s db
after_upload t turn i token u s (ok _, db) =
    (again, set_job i (upload_row t.pace turn.now) (record s { db = delete_upload u.id db }))

pub remove_staged : Host → List Text → Exec Db Bool
remove_staged w [] = pure true
remove_staged w (p ∷ ps) =
    safely_unlink_catalog_path w p (under w.staging_path) no_exclusion >>= λ _. remove_staged w ps

-- `_owned_staging_paths_for_asset`
unfoldable pub owned_staging_paths_for_asset : Host → Walk → Asset → Db → List Text
owned_staging_paths_for_asset w k a db =
    let account_root = k.account_folder (w.resolve w.staging_path) a.user_id in
    if k.is_folder account_root then k.staged_files db.files account_root a.id else []

pub purge_with_staged : Tools → Turn → Asset → Exec Db Purged
unfolding remove_staged
purge_with_staged t turn a db =
    (remove_staged t.host (owned_staging_paths_for_asset t.host t.walk a db) >>= λ _.
    safely_purge_asset t.host turn.now true a)
      db

-- A purge that answered False, with the kinds of path that it retained.
pub after_kept : Tools → Turn → ℕ → ℕ → Server → Db → List PathKind → Round × Server
unfolding failed answer_held review_row
after_kept t turn i token s db [] = failed t turn i token asset_cleanup_deferred s db
after_kept t turn i token s db (kind ∷ kinds) =
    answer_held i review_answer
      (review_row turn.now noncanonical_legacy_path (length (kind ∷ kinds)))
      (held_running i token s.jobs) (roll_back s db)

pub after_asset : Tools → Turn → ℕ → ℕ → Server → Result Purged × Db → Round × Server
unfolding failed after_kept asset_row
after_asset t turn i token s (err f, db) = failed t turn i token (raised f) s db
after_asset t turn i token s (ok p, db) =
    if p.purged
    then (again, set_job i (asset_row t.pace turn.now (length p.retained)) (record s { db = db }))
    else after_kept t turn i token s db p.retained

abbrev pub audit_of : ℕ → Audit → Bool
audit_of user e = opt_is e.user_id user

-- `values(ip_address=None, user_agent=None, detail=None)`
abbrev pub redacted : Audit → Audit
redacted e = record e { detail = none }

abbrev pub scrub : ℕ → Db → Db
scrub user db = record db { audits = update (audit_of user) redacted db.audits }

abbrev root_of : ℕ → List Root → ℕ → Bool
root_of user roots i = any_row (λ r. r.id == i && r.user_id == user) roots

abbrev asset_of : ℕ → List Asset → ℕ → Bool
asset_of user assets i = any_row (λ a. a.id == i && a.user_id == user) assets

abbrev pub anonymous : Audit → Audit
anonymous e = record e { user_id = none }

abbrev pub owned_album : ℕ → List Album → ℕ → Bool
owned_album user albums i = any_row (λ b. b.id == i && b.user_id == user) albums

abbrev uninvited : Member → Member
uninvited m = record m { invited_by = none }

-- `session.delete(user)` with what the foreign keys cascade to
pub delete_user : ℕ → Server → Server
delete_user user s = record s {
  db = record s.db {
    users = delete_rows (λ x. x.id == user) s.db.users;
    assets = delete_rows (λ a. a.user_id == user) s.db.assets;
    replicas = delete_rows (λ r. asset_of user s.db.assets r.asset_id) s.db.replicas;
    uploads = delete_rows (λ u. u.user_id == user) s.db.uploads;
    policies = delete_rows (λ p. p.user_id == user) s.db.policies;
    audits = update (audit_of user) anonymous s.db.audits;
    roots = delete_rows (λ r. r.user_id == user) s.db.roots;
    items = delete_rows (λ x. root_of user s.db.roots x.root_id) s.db.items;
    operations = delete_rows (λ x. root_of user s.db.roots x.root_id) s.db.operations;
    conflicts = delete_rows (λ x. root_of user s.db.roots x.root_id) s.db.conflicts;
  };
  logins = delete_rows (λ l. l.user_id == user) s.logins;
  grants = delete_rows (λ g. g.user_id == user) s.grants;
  albums = delete_rows (λ b. b.user_id == user) s.albums;
  members =
      update (λ m. opt_is m.invited_by user) uninvited
        (delete_rows (λ m. m.user_id == user || owned_album user s.albums m.album_id) s.members);
  invites =
      delete_rows (λ x. x.invited_by == user || owned_album user s.albums x.album_id) s.invites;
}

abbrev pub delete_found_user : ℕ → Bool → Server → Server
delete_found_user user true s = delete_user user s
delete_found_user user false s = s

pub completed_row : ℕ → Job → Job
completed_row now j = record (release j) {
  status = completed;
  completed_at = some now;
  subject_id = none;
  next_attempt_at = now;
}

abbrev completion_event : Job → Audit
completion_event j =
    let detail = account_deletion_completed j.id j.assets_purged j.uploads_purged in
    record { user_id = none; event_type = event_of detail; detail = some detail }

abbrev add_audit : Audit → Server → Server
add_audit e s = record s { db = record s.db { audits = s.db.audits ++ e ∷ [] } }

pub completes : Turn → ℕ → ℕ → Job → Bool → Server → Server
unfolding completed_row delete_user
completes turn i user j found s = add_audit (completion_event j) (
    set_job i (completed_row turn.now)
      (delete_found_user user found (record s { db = scrub user s.db })))

pub after_sweep : Tools → Turn → ℕ → ℕ → ℕ → Job → Bool → Server → Result ℕ × Db → Round × Server
unfolding failed review_row completes
after_sweep t turn i token user j found s (err f, db) = failed t turn i token (raised f) s db
after_sweep t turn i token user j found s (ok zero, db) =
    (answers completed_answer, completes turn i user j found (record s { db = db }))
after_sweep t turn i token user j found s (ok (suc n), db) = (
  answers review_answer,
  set_job i (review_row turn.now account_namespace_requires_review (suc n))
      (record s { db = scrub user db }),
)

abbrev pub asset_of_user : ℕ → Asset → Bool
asset_of_user user a = a.user_id == user

abbrev pub upload_of_user : ℕ → Upload → Bool
upload_of_user user u = u.user_id == user

abbrev pub has_rows : ℕ → Db → Bool
has_rows user db =
    any_row (asset_of_user user) db.assets || any_row (upload_of_user user) db.uploads

-- User-first finalization, once the queries for uploads and assets have found none.
pub finalize : Tools → Turn → ℕ → ℕ → ℕ → Option Job → Server → Round × Server
unfolding after_sweep
finalize t turn i token user none s = (answers stale_answer, s)
finalize t turn i token user (some j) s =
    if has_rows user s.db
    then (again, s)
    else after_sweep t turn i token user j (is_some (scalar (λ x. x.id == user) s.db.users)) s
        (sweep_account_namespaces t.host t.walk user s.db)

-- the first row of the account that no other transaction has locked
abbrev pub next_upload : Turn → ℕ → List Upload → Option Upload
next_upload turn user uploads =
    scalar (λ u. upload_of_user user u && not (turn.locked u.id))
      (order_by (λ u. u.created_at) (order_by (λ u. u.id) uploads))

abbrev pub next_asset : Turn → ℕ → List Asset → Option Asset
next_asset turn user assets =
    scalar (λ a. asset_of_user user a && not (turn.locked a.id))
      (order_by (λ a. a.created_at) (order_by (λ a. a.id) assets))

pub asset_round : Tools → Turn → ℕ → ℕ → ℕ → Option Asset → Server → Round × Server
unfolding after_asset finalize purge_with_staged
asset_round t turn i token user (some a) s =
    after_asset t turn i token s (purge_with_staged t turn a s.db)
asset_round t turn i token user none s = finalize t turn i token user (held i token s.jobs) s

pub upload_round : Tools → Turn → ℕ → ℕ → ℕ → Option Upload → Server → Round × Server
unfolding after_upload asset_round unlink_upload
upload_round t turn i token user (some u) s =
    after_upload t turn i token u s (unlink_upload t.host u s.db)
upload_round t turn i token user none s =
    asset_round t turn i token user (next_asset turn user s.db.assets) s

-- the `try` block
pub guarded_round : Tools → Turn → ℕ → ℕ → ℕ → Result (Unit {0}) → Server → Round × Server
unfolding failed upload_round
guarded_round t turn i token user (err f) s = failed t turn i token (raised f) s s.db
guarded_round t turn i token user (ok _) s =
    upload_round t turn i token user (next_upload turn user s.db.uploads) s

pub subject_round : Tools → Turn → ℕ → ℕ → Option ℕ → Server → Round × Server
unfolding guarded_round
subject_round t turn i token none s = (answers stale_answer, s)
subject_round t turn i token (some user) s =
    guarded_round t turn i token user (require_storage t.host purge_roles) s

pub job_round : Tools → Turn → ℕ → ℕ → Option Job → Server → Round × Server
unfolding subject_round
job_round t turn i token none s = (answers stale_answer, s)
job_round t turn i token (some j) s = subject_round t turn i token j.subject_id s

pub process_round : Tools → Turn → ℕ → ℕ → Server → Round × Server
unfolding job_round
process_round t turn i token s = job_round t turn i token (held i token s.jobs) s

pub pending_row : ℕ → Job → Job
pending_row now j = record (release j) { status = pending; next_attempt_at = now }

pub give_up : Turn → ℕ → ℕ → Option Job → Server → Server
unfolding pending_row
give_up turn i token none s = s
give_up turn i token (some j) s =
    if is_running j.status && opt_is j.lease_token token
    then set_job i (pending_row turn.now) s
    else s

abbrev pub continue_with : Round × Server → (Server → Answer × Server) → Answer × Server
continue_with (again, s) rest = rest s
continue_with (answers a, s) rest = (a, s)

-- The loop of `range(batch_size)`; `turns n` is the round with `n` more to come, and `last` the end.
pub process_rounds : Tools → (ℕ → Turn) → Turn → ℕ → ℕ → ℕ → Server → Answer × Server
unfolding process_round give_up
process_rounds t turns last i token zero s =
    (pending_answer, give_up last i token (scalar (job_is i) s.jobs) s)
process_rounds t turns last i token (suc n) s =
    continue_with (process_round t (turns n) i token s) (process_rounds t turns last i token n)

unfoldable pub process_account_deletion_batch :
    Tools → (ℕ → Turn) → Turn → ℕ → ℕ → Server → Answer × Server
unfolding process_rounds
process_account_deletion_batch t turns last i token s =
    process_rounds t turns last i token t.pace.batch_size s
