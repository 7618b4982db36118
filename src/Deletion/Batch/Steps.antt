-- ===== src/Deletion/Batch/Steps.antt =====
-- A round of a batch changes the table of jobs as `Changes` says.
use drivebound_storage.Base.{
  ℕ, zero, suc, ◌≡◌, inl, inr, refl, Bool, true, false, ◌&&◌, Option, none, some, List, [], ◌∷◌,
  is_some, scalar, scalar_sound, arith, Bool-cases, opt_is, length,
}
use drivebound_storage.Base.Fault.{Result, ok, err}
use drivebound_storage.Host.{require_storage}
use drivebound_storage.Catalog.{Asset, Upload, PathKind, Db}
use drivebound_storage.Lifecycle.Purge.{Purged, purge_roles}
use drivebound_storage.Deletion.Jobs.{
  JobStatus, running, completed, ErrorCode, raised, asset_cleanup_deferred,
  noncanonical_legacy_path, account_namespace_requires_review, Job, Pace, is_running, job_is,
  set_jobs,
}
use drivebound_storage.Deletion.Jobs.Changes.{
  is_completed, IsJobOk, KeepsKeys, Change, unchanged, assigned, Changes, here, next, Changes-trans,
}
use drivebound_storage.Deletion.Rows.{Server}
use drivebound_storage.Deletion.Sweep.{sweep_account_namespaces}
use drivebound_storage.Deletion.Batch.{
  Answer, review_answer, retry_answer, Round, again, answers, Turn, Tools, holds_lease, held,
  held_running, roll_back, retry_row, review_row, answer_held, failed, upload_row, asset_row,
  unlink_upload, after_upload, purge_with_staged, after_kept, after_asset, has_rows, completed_row,
  completes, after_sweep, finalize, next_upload, next_asset, asset_round, upload_round,
  guarded_round, subject_round, job_round, process_round, pending_row, give_up, continue_with,
  process_rounds, process_account_deletion_batch,
}

-- A job that holds a lease is running.
lease_running :
    (j : Job) (token : ℕ)
    → IsJobOk j
    → opt_is j.lease_token token ≡ true
    → is_running j.status ≡ true
lease_running j token h e = go j.lease_token h.0 e
  where
    go :
        (o : Option ℕ)
        → is_some o ≡ is_running j.status
        → opt_is o token ≡ true
        → is_running j.status ≡ true
    go none q e = cc
    go (some x) q e = cc

running_live : (s : JobStatus) → is_running s ≡ true → is_completed s ≡ false
running_live running h = refl
running_live completed h = cc
running_live _ h = cc

-- An assignment that ends well on every job that runs under a lease.
record Runs (f : Job → Job) : Type 0 where
  keys : KeepsKeys f
  good : (j : Job) → IsJobOk j → is_running j.status ≡ true → IsJobOk (f j)

retry-Runs : (c : Pace) (now : ℕ) (code : ErrorCode) → Runs (retry_row c now code)
unfolding retry_row
retry-Runs c now code = record {
  keys = λ j. (refl, λ u e. e);
  good = λ j h r. (refl, refl, rw (running_live j.status r) at (h.2));
}

review-Runs : (now : ℕ) (code : ErrorCode) (kept : ℕ) → Runs (review_row now code kept)
unfolding review_row
review-Runs now code kept = record {
  keys = λ j. (refl, λ u e. e);
  good = λ j h r. (refl, refl, rw (running_live j.status r) at (h.2));
}

pending-Runs : (now : ℕ) → Runs (pending_row now)
unfolding pending_row
pending-Runs now = record {
  keys = λ j. (refl, λ u e. e);
  good = λ j h r. (refl, refl, rw (running_live j.status r) at (h.2));
}

completed-Runs : (now : ℕ) → Runs (completed_row now)
unfolding completed_row
completed-Runs now = record { keys = λ j. (refl, λ u e. cc); good = λ j h r. (refl, refl, refl) }

upload-Runs : (c : Pace) (now : ℕ) → Runs (upload_row c now)
unfolding upload_row
upload-Runs c now = record { keys = λ j. (refl, λ u e. e); good = λ j h r. (h.0, rw r refl, h.2) }

asset-Runs : (c : Pace) (now kept : ℕ) → Runs (asset_row c now kept)
unfolding asset_row
asset-Runs c now kept = record {
  keys = λ j. (refl, λ u e. e);
  good = λ j h r. (h.0, rw r refl, h.2);
}

-- A query for the job of a lease, with whatever further condition.
record Finds (i token : ℕ) (p : Job → Bool) : Type 0 where
  finds : (x : Job) → p x ≡ true → holds_lease i token x ≡ true

found-Change :
    (i token : ℕ) (p : Job → Bool) (f : Job → Job) (j : Job) (jobs : List Job)
    → Finds i token p
    → Runs f
    → scalar p jobs ≡ some j
    → Change jobs (set_jobs i f jobs)
found-Change i token p f j jobs q r e =
    let holds = q.finds j (scalar_sound p jobs j e) in
    assigned i p f j (λ x h. ground (arith, q.finds x h)) e r.keys
      λ h.
        let runs = lease_running j token h (ground (arith, holds)) in
        (r.good j h runs, running_live j.status runs)

held-Finds : (i token : ℕ) → Finds i token (holds_lease i token)
held-Finds i token = record { finds = λ x h. h }

held_running-Finds :
    (i token : ℕ) → Finds i token (λ j. holds_lease i token j && is_running j.status)
held_running-Finds i token = record { finds = λ x h. ground (arith, h) }

answer_held-Change :
    (i token : ℕ) (a : Answer) (f : Job → Job) (o : Option Job) (s : Server)
    → Runs f
    → held_running i token s.jobs ≡ o
    → Change s.jobs (answer_held i a f o s).1.jobs
unfolding answer_held
answer_held-Change i token a f none s r e = unchanged
answer_held-Change i token a f (some j) s r e =
    found-Change i token _ f j s.jobs (held_running-Finds i token) r e

failed-Change :
    (t : Tools) (turn : Turn) (i token : ℕ) (code : ErrorCode) (s : Server) (after : Db)
    → Change s.jobs (failed t turn i token code s after).1.jobs
unfolding failed
failed-Change t turn i token code s after =
    answer_held-Change i token retry_answer (retry_row t.pace turn.now code)
      (held_running i token s.jobs) (roll_back s after) (retry-Runs t.pace turn.now code) refl

module _ (t : Tools) (turn : Turn) (i token : ℕ) (s : Server) (j : Job)
    (found : held i token s.jobs ≡ some j) where
  set-Change : (f : Job → Job) → Runs f → Change s.jobs (set_jobs i f s.jobs)
  set-Change f r = found-Change i token _ f j s.jobs (held-Finds i token) r found

  after_upload-Change :
      (u : Upload) (x : Result Bool × Db) → Change s.jobs (after_upload t turn i token u s x).1.jobs
  unfolding after_upload
  after_upload-Change u (err f, db) = failed-Change t turn i token (raised f) s db
  after_upload-Change u (ok _, db) =
      set-Change (upload_row t.pace turn.now) (upload-Runs t.pace turn.now)

  after_kept-Change :
      (db : Db) (kinds : List PathKind)
      → Change s.jobs (after_kept t turn i token s db kinds).1.jobs
  unfolding after_kept
  after_kept-Change db [] = failed-Change t turn i token asset_cleanup_deferred s db
  after_kept-Change db (kind ∷ kinds) =
      answer_held-Change i token review_answer _ (held_running i token s.jobs) (roll_back s db)
        (review-Runs turn.now noncanonical_legacy_path (length (kind ∷ kinds))) refl

  after_asset-Change :
      (x : Result Purged × Db) → Change s.jobs (after_asset t turn i token s x).1.jobs
  unfolding after_asset
  after_asset-Change (err f, db) = failed-Change t turn i token (raised f) s db
  after_asset-Change (ok p, db) = elim (Bool-cases p.purged) [
    | inl y ↦ rw y (
        set-Change (asset_row t.pace turn.now (length p.retained))
          (asset-Runs t.pace turn.now (length p.retained)))
    | inr n ↦ rw n (after_kept-Change db p.retained)
  ]

  completes-Change :
      (user : ℕ) (present : Bool) (db : Db)
      → Change s.jobs (completes turn i user j present (record s { db = db })).jobs
  unfolding completes
  completes-Change user true db = set-Change (completed_row turn.now) (completed-Runs turn.now)
  completes-Change user false db = set-Change (completed_row turn.now) (completed-Runs turn.now)

  after_sweep-Change :
      (user : ℕ) (present : Bool) (x : Result ℕ × Db)
      → Change s.jobs (after_sweep t turn i token user j present s x).1.jobs
  unfolding after_sweep
  after_sweep-Change user present (err f, db) = failed-Change t turn i token (raised f) s db
  after_sweep-Change user present (ok zero, db) = completes-Change user present db
  after_sweep-Change user present (ok (suc n), db) =
      set-Change (review_row turn.now account_namespace_requires_review (suc n))
        (review-Runs turn.now account_namespace_requires_review (suc n))

  finalize-Change : (user : ℕ) → Change s.jobs (finalize t turn i token user (some j) s).1.jobs
  unfolding finalize
  finalize-Change user = elim (Bool-cases (has_rows user s.db)) [
    | inl y ↦ rw y unchanged
    | inr n ↦ rw n (after_sweep-Change user _ (sweep_account_namespaces t.host t.walk user s.db))
  ]

  asset_round-Change :
      (user : ℕ) (o : Option Asset) → Change s.jobs (asset_round t turn i token user o s).1.jobs
  unfolding asset_round
  asset_round-Change user (some a) = after_asset-Change (purge_with_staged t turn a s.db)
  asset_round-Change user none = rw found (finalize-Change user)

  upload_round-Change :
      (user : ℕ) (o : Option Upload) → Change s.jobs (upload_round t turn i token user o s).1.jobs
  unfolding upload_round
  upload_round-Change user (some u) = after_upload-Change u (unlink_upload t.host u s.db)
  upload_round-Change user none = asset_round-Change user (next_asset turn user s.db.assets)

  guarded_round-Change :
      (user : ℕ) (r : Result (Unit {0}))
      → Change s.jobs (guarded_round t turn i token user r s).1.jobs
  unfolding guarded_round
  guarded_round-Change user (err f) = failed-Change t turn i token (raised f) s s.db
  guarded_round-Change user (ok _) = upload_round-Change user (next_upload turn user s.db.uploads)

  subject_round-Change : (o : Option ℕ) → Change s.jobs (subject_round t turn i token o s).1.jobs
  unfolding subject_round
  subject_round-Change none = unchanged
  subject_round-Change (some user) = guarded_round-Change user (require_storage t.host purge_roles)

job_round-Change :
    (t : Tools) (turn : Turn) (i token : ℕ) (s : Server) (o : Option Job)
    → held i token s.jobs ≡ o
    → Change s.jobs (job_round t turn i token o s).1.jobs
unfolding job_round
job_round-Change t turn i token s none e = unchanged
job_round-Change t turn i token s (some j) e =
    subject_round-Change t turn i token s j e j.subject_id

pub process_round-Change :
    (t : Tools) (turn : Turn) (i token : ℕ) (s : Server)
    → Change s.jobs (process_round t turn i token s).1.jobs
unfolding process_round
process_round-Change t turn i token s = job_round-Change t turn i token s (held i token s.jobs) refl

give_up-Change :
    (turn : Turn) (i token : ℕ) (o : Option Job) (s : Server)
    → scalar (job_is i) s.jobs ≡ o
    → Change s.jobs (give_up turn i token o s).jobs
unfolding give_up
give_up-Change turn i token none s e = unchanged
give_up-Change turn i token (some j) s e =
    elim (Bool-cases (is_running j.status && opt_is j.lease_token token)) [
      | inl y ↦
          let r = pending-Runs turn.now in
          rw y (
            assigned i (job_is i) (pending_row turn.now) j (λ x h. h) e r.keys
              λ h.
                let runs : is_running j.status ≡ true = ground (arith, y) in
                (r.good j h runs, running_live j.status runs))
      | inr n ↦ rw n unchanged
    ]

continue_with-Changes :
    (s : Server) (x : Round × Server) (rest : Server → Answer × Server)
    → Change s.jobs x.1.jobs
    → ((mid : Server) → Changes mid.jobs (rest mid).1.jobs)
    → Changes s.jobs (continue_with x rest).1.jobs
continue_with-Changes s (again, mid) rest c h = Changes-trans (next here c) (h mid)
continue_with-Changes s (answers a, mid) rest c h = next here c

pub process_rounds-Changes :
    (t : Tools) (turns : ℕ → Turn) (last : Turn) (i token n : ℕ) (s : Server)
    → Changes s.jobs (process_rounds t turns last i token n s).1.jobs
unfolding process_rounds
process_rounds-Changes t turns last i token zero s =
    next here (give_up-Change last i token (scalar (job_is i) s.jobs) s refl)
process_rounds-Changes t turns last i token (suc n) s =
    continue_with-Changes s (process_round t (turns n) i token s)
      (process_rounds t turns last i token n) (process_round-Change t (turns n) i token s)
      (process_rounds-Changes t turns last i token n)

pub process-Changes :
    (t : Tools) (turns : ℕ → Turn) (last : Turn) (i token : ℕ) (s : Server)
    → Changes s.jobs (process_account_deletion_batch t turns last i token s).1.jobs
unfolding process_account_deletion_batch
process-Changes t turns last i token s =
    process_rounds-Changes t turns last i token t.pace.batch_size s
