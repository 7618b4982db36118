-- ===== src/Deletion/Batch/Progress.antt =====
-- A round that goes on has taken a row of the account out of the tables, so that a batch of enough
-- rounds comes to an answer.
use drivebound_storage.Base.{ℕ, ◌≡◌, ◌<◌, some}
use drivebound_storage.Catalog.{Db}
use drivebound_storage.Deletion.Jobs.{Job}
use drivebound_storage.Deletion.Rows.{Server}
use drivebound_storage.Deletion.Batch.{
  completed_answer, review_answer, retry_answer, Answer, stale_answer, pending_answer, Round, again,
  answers, held,
}
use drivebound_storage.Deletion.Batch.Erased.{left, IsErased}
use drivebound_storage.Deletion.Batch.Removals.{Deletes}

-- What a round leads to: where it goes on, the account has fewer rows left and the worker still
-- holds the job; where it answers "completed", the account is erased; and it never answers "pending".
abbrev Goes : ℕ → ℕ → ℕ → Db → Round × Server → Type 0
Goes i token user db (again, s) =
    (left user s.db < left user db)
    × ((j : Job) × (held i token s.jobs ≡ some j) × (j.subject_id ≡ some user))
Goes i token user db (answers completed_answer, s) = IsErased user s
Goes i token user db (answers pending_answer, s) = ⊥
Goes i token user db (answers stale_answer, s) = Unit
Goes i token user db (answers review_answer, s) = Unit
Goes i token user db (answers retry_answer, s) = Unit

-- The batch has not run out, and where it answers "completed", the account is erased.
abbrev pub HasSettled : ℕ → Answer × Server → Type 0
HasSettled user (completed_answer, s) = IsErased user s
HasSettled user (pending_answer, s) = ⊥
HasSettled user (stale_answer, s) = Unit
HasSettled user (review_answer, s) = Unit
HasSettled user (retry_answer, s) = Unit
