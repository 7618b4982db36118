-- ===== src/Deletion/Lockout.antt =====
-- `prepare_account_deletion` and `reconcile_suppression_ledger` of
-- backend/app/services/account_deletion.py: the lockout of an account, and its repetition from the
-- ledger.
pub mod Requests
pub mod Erasure
use drivebound_storage.Base.{
  ℕ, ◌+◌, ◌*◌, Bool, false, ◌||◌, ◌&&◌, Option, none, some, List, [], ◌∷◌, ◌++◌, Text, codes,
  same_text, ◌==◌, if◌then◌else◌, scalar, update, delete_rows, any_row, opt_is,
}
use drivebound_storage.Base.Fault.{Result, ok, err}
use drivebound_storage.Catalog.{purging, Asset, User, account_deletion_requested, Db}
use drivebound_storage.Lifecycle.{audit, day}
use drivebound_storage.Deletion.Jobs.{pending, Job, Pace, second}
use drivebound_storage.Deletion.Rows.{Login, Album, Server}
use drivebound_storage.Deletion.Batch.{owned_album, scrub}
use drivebound_storage.Deletion.Ledger.{
  Document, Seal, Ledger, Deployment, read_suppression_markers,
}

-- `UUID.hex`, `secrets.token_hex` of a fresh draw, and `lower` of Python and of PostgreSQL
pub record Letters : Type 0 where
  pub hex : ℕ → Text
  pub token_hex : ℕ → Text
  pub lower : Text → Text
  pub sql_lower : Text → Text

abbrev hour : ℕ
hour = 3600 * second

abbrev pub new_job : Pace → ℕ → ℕ → ℕ → ℕ → Job
new_job c retention i subject now = record {
  id = i;
  subject_id = some subject;
  status = pending;
  attempt_count = 0;
  failure_count = 0;
  assets_purged = 0;
  uploads_purged = 0;
  retained_legacy_paths = 0;
  requested_at = now;
  not_before = now + c.quiescence_seconds * second;
  next_attempt_at = now;
  lease_token = none;
  lease_expires_at = none;
  last_error_code = none;
  last_error_at = none;
  suppression_review_after = now + retention * day + (c.backup_interval_hours + 1) * hour;
  completed_at = none;
}

-- The deleted rows, with the members and invites that go with an album.
pub revoke_grants : Letters → User → Server → Server
revoke_grants t user s = record s {
  grants = delete_rows (λ g. g.user_id == user.id) s.grants;
  albums = delete_rows (λ b. b.user_id == user.id) s.albums;
  members =
      delete_rows (λ m. m.user_id == user.id || owned_album user.id s.albums m.album_id) s.members;
  invites =
      delete_rows
        (λ x.
          x.invited_by == user.id
          || same_text (t.sql_lower x.email) (t.lower user.email)
          || owned_album user.id s.albums x.album_id)
        s.invites;
}

pub locked_out : Letters → ℕ → User → User
locked_out t now user = record user {
  disabled_at = some now;
  email = codes "deleted-" ++ t.hex user.id ++ codes "@invalid.drivebound";
  email_verified_at = none;
  media_key_encrypted = none;
  media_key_version = user.media_key_version + 1;
}

pub erased_login : Text → Login → Login
erased_login secret l = record l {
  password_hash = codes "!deleted!" ++ secret;
  password_enabled = false;
  password_set_at = none;
  display_name = none;
  onboarding_completed_at = none;
  totp_secret_encrypted = none;
  totp_enabled_at = none;
  totp_last_used_step = none;
  pending_totp_secret_encrypted = none;
  pending_totp_expires_at = none;
  pending_totp_session_id = none;
}

abbrev coalesce : Option ℕ → ℕ → ℕ
coalesce none t = t
coalesce (some t) _ = t

pub doomed : ℕ → Asset → Asset
doomed now a = record a {
  lifecycle_state = purging;
  trashed_at = some (coalesce a.trashed_at now);
  purge_after = some now;
  deleted_by = some (codes "account-deletion");
}

abbrev pub of_user : ℕ → Asset → Bool
of_user user a = a.user_id == user

-- The writes to the tables of the catalog.
pub lock_catalog : Letters → ℕ → ℕ → ℕ → Db → Db
unfolding locked_out doomed audit
lock_catalog t now job user db =
    let logged = audit user (account_deletion_requested job) (scrub user db) in
    record logged {
      users = update (λ x. x.id == user) (locked_out t now) logged.users;
      assets = update (of_user user) (doomed now) logged.assets;
    }

abbrev pub drawn_id : Option ℕ → Db → ℕ
drawn_id none db = db.next_id
drawn_id (some i) db = i

-- two draws: the job's id where none is given, and the password's
abbrev draw : Db → Db
draw db = record db { next_id = db.next_id + 2 }

pub prepare_new : Letters → Pace → ℕ → ℕ → ℕ → User → Server → Job × Server
unfolding revoke_grants lock_catalog erased_login
prepare_new t c retention now i user s =
    let job = new_job c retention i user.id now in
    let revoked = revoke_grants t user s in
    (
      job,
      record revoked {
        jobs = s.jobs ++ job ∷ [];
        db = lock_catalog t now i user.id (draw s.db);
        logins =
            update (λ l. l.user_id == user.id) (erased_login (t.token_hex (s.db.next_id + 1)))
              s.logins;
      },
    )

pub prepare_unless : Letters → Pace → ℕ → ℕ → ℕ → User → Option Job → Server → Job × Server
unfolding prepare_new
prepare_unless t c retention now i user (some job) s = (job, s)
prepare_unless t c retention now i user none s = prepare_new t c retention now i user s

-- `requested_at` or the current time is `now`; `retention` is `database_backup_retention_days`.
unfoldable pub prepare_account_deletion :
    Letters → Pace → ℕ → ℕ → Option ℕ → User → Server → Job × Server
unfolding prepare_unless
prepare_account_deletion t c retention now job_id user s =
    prepare_unless t c retention now (drawn_id job_id s.db) user
      (scalar (λ j. opt_is j.subject_id user.id) s.jobs) s

-- the last of the accounts with the fingerprint, as a dictionary keeps it
abbrev by_fingerprint : Seal → Text → List User → Option User
by_fingerprint k f [] = none
by_fingerprint k f (u ∷ us) = elim (by_fingerprint k f us) [
  | some v ↦ some v
  | none ↦ if same_text (k.fingerprint u.id) f then some u else none
]

pub reconcile_locked :
    Letters → Pace → ℕ → Document → List ℕ → Option User → Server → List ℕ × Server
unfolding prepare_account_deletion
reconcile_locked t c retention x created none s = (created, s)
reconcile_locked t c retention x created (some user) s = (
  created ++ x.job_id ∷ [],
  (prepare_account_deletion t c retention x.requested_at (some x.job_id) user s).1,
)

pub reconcile_user : Letters → Pace → ℕ → Document → List ℕ → Option User → Server → List ℕ × Server
unfolding reconcile_locked
reconcile_user t c retention x created none s = (created, s)
reconcile_user t c retention x created (some user) s =
    reconcile_locked t c retention x created (scalar (λ u. u.id == user.id) s.db.users) s

-- `users` are the accounts before the loop.
pub reconcile_each :
    Letters → Pace → ℕ → Seal → List User → List Document → List ℕ → Server → List ℕ × Server
unfolding reconcile_user
reconcile_each t c retention k users [] created s = (created, s)
reconcile_each t c retention k users (x ∷ xs) created s =
    let (more, s') =
      reconcile_user t c retention x created (by_fingerprint k x.subject_fingerprint users) s in
    reconcile_each t c retention k users xs more s'

abbrev missing : List Job → List Document → List Document
missing jobs xs = delete_rows (λ x. any_row (λ j. j.id == x.job_id) jobs) xs

unfoldable pub reconcile_suppression_ledger :
    Letters → Pace → ℕ → Deployment → Ledger → Server → Result (List ℕ) × Server
unfolding reconcile_each
reconcile_suppression_ledger t c retention d l s = elim (read_suppression_markers d l) [
  | err f ↦ (err f, s)
  | ok xs ↦
      let (created, s') = reconcile_each t c retention d.seal s.db.users (missing s.jobs xs) [] s in
      (ok created, s')
]
