-- ===== src/Deletion/Lockout/Requests.antt =====
-- What a request to delete an account does: the job, and the lockout.
use drivebound_storage.Base.{ℕ, ◌≡◌, refl, sym, Option, none, some, scalar, opt_is, ==_sound}
use drivebound_storage.Catalog.{User}
use drivebound_storage.Deletion.Jobs.{Job, Pace, job_is}
use drivebound_storage.Deletion.Jobs.Changes.{subject_is, Change, unchanged, added}
use drivebound_storage.Deletion.Rows.{Server}
use drivebound_storage.Deletion.Lockout.{
  Letters, new_job, drawn_id, prepare_new, prepare_unless, prepare_account_deletion,
}

prepare_unless-Change :
    (t : Letters) (c : Pace) (retention now i : ℕ) (user : User) (o : Option Job) (s : Server)
    → scalar (subject_is user.id) s.jobs ≡ o
    → scalar (job_is i) s.jobs ≡ none
    → Change s.jobs (prepare_unless t c retention now i user o s).1.jobs
unfolding prepare_unless prepare_new
prepare_unless-Change t c retention now i user (some j) s e fresh = unchanged
prepare_unless-Change t c retention now i user none s e fresh =
    added (new_job c retention i user.id now) (refl, refl, refl) fresh
      λ u same. rw (sym (==_sound user.id u same)) e

pub prepare-Change :
    (t : Letters) (c : Pace) (retention now : ℕ) (job_id : Option ℕ) (user : User) (s : Server)
    → scalar (job_is (drawn_id job_id s.db)) s.jobs ≡ none
    → Change s.jobs (prepare_account_deletion t c retention now job_id user s).1.jobs
unfolding prepare_account_deletion
prepare-Change t c retention now job_id user s fresh =
    prepare_unless-Change t c retention now (drawn_id job_id s.db) user
      (scalar (λ j. opt_is j.subject_id user.id) s.jobs) s refl fresh
