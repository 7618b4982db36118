-- ===== src/Deletion/History.antt =====
-- The calls that change the jobs, one after the other in whatever order, and what all of their
-- histories keep. A reconciliation is a request for each marker that has no job.
use drivebound_storage.Base.{ℕ, ◌+◌, ◌≡◌, true, Bool, Option, none, Row, scalar}
use drivebound_storage.Catalog.{User}
use drivebound_storage.Deletion.Jobs.{
  Job, job_is, claim_account_deletion_job, record_account_deletion_publish,
}
use drivebound_storage.Deletion.Jobs.Changes.{
  is_completed, AreJobsOk, Changes, here, next, Changes-AreJobsOk, Changes-completed,
}
use drivebound_storage.Deletion.Jobs.Claims.{claim-Change, publish-Change}
use drivebound_storage.Deletion.Rows.{Server}
use drivebound_storage.Deletion.Batch.{Tools, Turn, process_account_deletion_batch}
use drivebound_storage.Deletion.Batch.Steps.{process-Changes}
use drivebound_storage.Deletion.Lockout.{Letters, drawn_id, prepare_account_deletion}
use drivebound_storage.Deletion.Lockout.Requests.{prepare-Change}

-- One call. The job of a request has an id of its own, as the primary key demands.
pub data Step (t : Tools) (s : Server) : Server → Type 0 where
  requests :
      (letters : Letters) (retention now : ℕ) (job_id : Option ℕ) (user : User)
      → scalar (job_is (drawn_id job_id s.db)) s.jobs ≡ none
      → Step t s (prepare_account_deletion letters t.pace retention now job_id user s).1
  claims :
      (now i : ℕ)
      → Step t s (record s {
        jobs = (claim_account_deletion_job t.pace now s.db.next_id i s.jobs).1;
        db = record s.db { next_id = s.db.next_id + 1 };
      })
  publishes :
      (now i : ℕ) (published : Bool)
      → Step t s (record s { jobs = record_account_deletion_publish t.pace now i published s.jobs })
  processes :
      (turns : ℕ → Turn) (last : Turn) (i token : ℕ)
      → Step t s (process_account_deletion_batch t turns last i token s).1

pub data Reach (t : Tools) (s : Server) : Server → Type 0 where
  start : Reach t s s
  step : {mid after : Server} → Reach t s mid → Step t mid after → Reach t s after

Step-Changes : {t : Tools} {s after : Server} → Step t s after → Changes s.jobs after.jobs
Step-Changes {t} {s} (requests letters retention now job_id user fresh) =
    next here (prepare-Change letters t.pace retention now job_id user s fresh)
Step-Changes {t} {s} (claims now i) = next here (claim-Change t.pace now s.db.next_id i s.jobs)
Step-Changes {t} {s} (publishes now i published) =
    next here (publish-Change t.pace now i published s.jobs)
Step-Changes {t} {s} (processes turns last i token) = process-Changes t turns last i token s

-- Where the jobs are well formed, they are after any history of requests, claims, publications and
-- batches: a job has a lease exactly while it is running and a subject exactly until it is completed,
-- no id stands twice, and no account has two jobs.
pub Reach-AreJobsOk :
    {t : Tools} {s after : Server} → Reach t s after → AreJobsOk s.jobs → AreJobsOk after.jobs
Reach-AreJobsOk start h = h
Reach-AreJobsOk (step r c) h = Changes-AreJobsOk (Step-Changes c) (Reach-AreJobsOk r h)

-- Where the jobs are well formed, a completed job stands in the table unchanged after any history.
pub Reach-completed :
    {t : Tools} {s after : Server}
    → Reach t s after
    → AreJobsOk s.jobs
    → (j : Job) → Row j s.jobs
    → is_completed j.status ≡ true
    → Row j after.jobs
Reach-completed start h j row over = row
Reach-completed (step r c) h j row over =
    Changes-completed (Step-Changes c) (Reach-AreJobsOk r h) j (Reach-completed r h j row over) over
