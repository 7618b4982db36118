-- ===== src/Deletion/Batch/Finish.antt =====
-- What a batch that answers has done, and whom it obeys.
use drivebound_storage.Base.{
  ℕ, zero, suc, ◌≡◌, ◌≢◌, ◌≤◌, refl, Bool, false, none, some, List, [], ◌∷◌, scalar, All, arith,
}
use drivebound_storage.Deletion.Jobs.{Job, claim_account_deletion_job, claimed_row, set_jobs}
use drivebound_storage.Deletion.Jobs.Claims.{claim_some, claimed_row-token}
use drivebound_storage.Deletion.Rows.{Server}
use drivebound_storage.Deletion.Batch.{
  stale_answer, Turn, Tools, holds_lease, held, job_round, process_round, process_rounds,
  process_account_deletion_batch,
}

scalar_misses :
    {A : Type 0} (p : A → Bool) (xs : List A) → All (λ x. p x ≡ false) xs → scalar p xs ≡ none
unfolding scalar
scalar_misses p [] h = refl
scalar_misses p (x ∷ xs) h = rw h.0 (scalar_misses p xs h.1)

-- No row is held under a token that no row of the job carries.
held-none :
    (t : Tools) (turns : ℕ → Turn) (last : Turn) (i token n : ℕ) (s : Server)
    → held i token s.jobs ≡ none
    → process_rounds t turns last i token (suc n) s ≡ (stale_answer, s)
unfolding process_rounds process_round job_round
held-none t turns last i token n s e = rw e refl

held-stale :
    (t : Tools) (turns : ℕ → Turn) (last : Turn) (i token n : ℕ) (s : Server)
    → held i token s.jobs ≡ none
    → 1 ≤ n
    → process_rounds t turns last i token n s ≡ (stale_answer, s)
held-stale t turns last i token zero s e h = absurd (omega (arith, h))
held-stale t turns last i token (suc n) s e h = held-none t turns last i token n s e

-- After a claim of a job, a worker that still holds another token of the job is answered "stale",
-- and changes nothing at all, if its batch has any round.
pub superseded_worker :
    (t : Tools) (turns : ℕ → Turn) (last : Turn) (now i token old : ℕ) (s : Server) (x : Job × ℕ)
    → (claim_account_deletion_job t.pace now token i s.jobs).0 ≡ some x
    → old ≢ token
    → 1 ≤ t.pace.batch_size
    → let after = record s { jobs = (claim_account_deletion_job t.pace now token i s.jobs).1 } in
      process_account_deletion_batch t turns last i old after ≡ (stale_answer, after)
unfolding process_account_deletion_batch
superseded_worker t turns last now i token old s x e other some_round =
    let jobs = set_jobs i (claimed_row t.pace now token) s.jobs in
    rw (claim_some t.pace now token i s.jobs x e) (
      held-stale t turns last i old t.pace.batch_size (record s { jobs = jobs })
        (scalar_misses (holds_lease i old) jobs
          (claimed_row-token t.pace now token old i s.jobs other))
        some_round)
