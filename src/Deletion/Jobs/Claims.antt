-- ===== src/Deletion/Jobs/Claims.antt =====
-- Claims and publications change the table as `Changes` says, and a lease excludes other claims.
use drivebound_storage.Base.{
  ℕ, ◌+◌, ◌*◌, ◌<◌, ◌≡◌, inl, inr, refl, Bool, true, false, ◌&&◌, ◌||◌, not, Option, none, some,
  List, scalar, scalar-update, arith, opt_is, ◌≢◌, All, All-every, All-update, Bool-cases,
}
use drivebound_storage.Deletion.Jobs.{
  JobStatus, pending, queued, running, retry, manual_review, completed, Job, Pace, second,
  is_running, is_waiting, job_is, set_jobs, leased, claimable, claimed_row, claim_found,
  claim_account_deletion_job, published_row, publish_found, record_account_deletion_publish,
}
use drivebound_storage.Deletion.Jobs.Changes.{
  is_completed, IsJobOk, KeepsKeys, Change, unchanged, assigned,
}

live_status : (s : JobStatus) → is_waiting s || is_running s ≡ true → is_completed s ≡ false
live_status pending h = refl
live_status queued h = refl
live_status running h = refl
live_status retry h = refl
live_status manual_review h = refl
live_status completed h = cc

waiting_status : (s : JobStatus) → is_waiting s ≡ true → is_completed s ≡ false
waiting_status s h = live_status s (ground (arith, h))

claimed_row-good :
    (c : Pace) (now token : ℕ) (j : Job)
    → claimable now j ≡ true
    → IsJobOk j
    → IsJobOk (claimed_row c now token j) × (is_completed j.status ≡ false)
unfolding claimed_row
claimed_row-good c now token j h (t, e, s) =
    let live = live_status j.status (ground (arith, h)) in ((refl, refl, rw live at s), live)

claim_found-Change :
    (c : Pace) (now token i : ℕ) (o : Option Job) (jobs : List Job)
    → scalar (job_is i) jobs ≡ o
    → Change jobs (claim_found c now token i o jobs).1
unfolding claim_found
claim_found-Change c now token i none jobs e = unchanged
claim_found-Change c now token i (some j) jobs e = elim (Bool-cases (claimable now j)) [
  | inl y ↦ rw y (
      assigned i (job_is i) (claimed_row c now token) j (λ x p. p) e
        (unfold claimed_row in λ x. (refl, λ u p. p)) (claimed_row-good c now token j y))
  | inr n ↦ rw n unchanged
]

pub claim-Change :
    (c : Pace) (now token i : ℕ) (jobs : List Job)
    → Change jobs (claim_account_deletion_job c now token i jobs).1
unfolding claim_account_deletion_job
claim-Change c now token i jobs =
    claim_found-Change c now token i (scalar (job_is i) jobs) jobs refl

published_row-good :
    (c : Pace) (now : ℕ) (published : Bool) (j : Job)
    → is_waiting j.status ≡ true
    → IsJobOk j
    → IsJobOk (published_row c now published j) × (is_completed j.status ≡ false)
unfolding published_row
published_row-good c now true j h (t, e, s) =
    let live = waiting_status j.status h in ((refl, refl, rw live at s), live)
published_row-good c now false j h (t, e, s) =
    let live = waiting_status j.status h in ((refl, refl, rw live at s), live)

published_row-KeepsKeys :
    (c : Pace) (now : ℕ) (published : Bool) → KeepsKeys (published_row c now published)
unfolding published_row
published_row-KeepsKeys c now true j = (refl, λ u p. p)
published_row-KeepsKeys c now false j = (refl, λ u p. p)

publish_found-Change :
    (c : Pace) (now i : ℕ) (published : Bool) (o : Option Job) (jobs : List Job)
    → scalar (job_is i) jobs ≡ o
    → Change jobs (publish_found c now i published o jobs)
unfolding publish_found
publish_found-Change c now i published none jobs e = unchanged
publish_found-Change c now i published (some j) jobs e = elim (Bool-cases (is_waiting j.status)) [
  | inl y ↦ rw y (
      assigned i (job_is i) (published_row c now published) j (λ x p. p) e
        (published_row-KeepsKeys c now published) (published_row-good c now published j y))
  | inr n ↦ rw n unchanged
]

pub publish-Change :
    (c : Pace) (now i : ℕ) (published : Bool) (jobs : List Job)
    → Change jobs (record_account_deletion_publish c now i published jobs)
unfolding record_account_deletion_publish
publish-Change c now i published jobs =
    publish_found-Change c now i published (scalar (job_is i) jobs) jobs refl

claim_found-some :
    (c : Pace) (now token i : ℕ) (o : Option Job) (jobs : List Job) (x : Job × ℕ)
    → (claim_found c now token i o jobs).0 ≡ some x
    → (j : Job) × (o ≡ some j)
      × ((claim_found c now token i o jobs).1 ≡ set_jobs i (claimed_row c now token) jobs)
unfolding claim_found
claim_found-some c now token i none jobs x e = cc
claim_found-some c now token i (some j) jobs x e = elim (Bool-cases (claimable now j)) [
  | inl y ↦ (j, refl, rw y refl)
  | inr n ↦ cc (rw n at e)
]

and_not : (a b : Bool) → b ≡ true → a && not b ≡ false
and_not true b h = rw h refl
and_not false b h = refl

claimed_row-id :
    (c : Pace) (now token i : ℕ) (j : Job) → job_is i (claimed_row c now token j) ≡ job_is i j
unfolding claimed_row
claimed_row-id c now token i j = refl

claimed_row-leased :
    (c : Pace) (now later token : ℕ) (j : Job)
    → later < now + c.lease_seconds * second
    → leased later (claimed_row c now token j) ≡ true
unfolding claimed_row
claimed_row-leased c now later token j h = ground arith

claim_found-leased :
    (c : Pace) (now token i : ℕ) (j : Job) (jobs : List Job)
    → leased now j ≡ true
    → claim_found c now token i (some j) jobs ≡ (none, jobs)
unfolding claim_found
claim_found-leased c now token i j jobs h = rw (and_not _ (leased now j) h) refl

-- A claim that succeeds excludes the others: while its lease lasts, no second claim of the job
-- succeeds or changes the table, whoever makes it and whatever token it draws.
pub claim_exclusive :
    (c : Pace) (now later token other i : ℕ) (jobs : List Job) (x : Job × ℕ)
    → (claim_account_deletion_job c now token i jobs).0 ≡ some x
    → later < now + c.lease_seconds * second
    → let after = (claim_account_deletion_job c now token i jobs).1 in
      claim_account_deletion_job c later other i after ≡ (none, after)
unfolding claim_account_deletion_job
claim_exclusive c now later token other i jobs x e early =
    let (j, found, after) = claim_found-some c now token i (scalar (job_is i) jobs) jobs x e in
    let again =
      scalar-update (job_is i) (claimed_row c now token) jobs j
        (λ y. claimed_row-id c now token i y) found in
    rw (after, again)
      (claim_found-leased c later other i (claimed_row c now token j) _
        (claimed_row-leased c now later token j early))

-- What a claim that succeeds writes.
pub claim_some :
    (c : Pace) (now token i : ℕ) (jobs : List Job) (x : Job × ℕ)
    → (claim_account_deletion_job c now token i jobs).0 ≡ some x
    → (claim_account_deletion_job c now token i jobs).1 ≡ set_jobs i (claimed_row c now token) jobs
unfolding claim_account_deletion_job
claim_some c now token i jobs x e =
    (claim_found-some c now token i (scalar (job_is i) jobs) jobs x e).2

-- No row of a claimed job carries another token.
pub claimed_row-token :
    (c : Pace) (now token old i : ℕ) (jobs : List Job)
    → old ≢ token
    → All
        (λ j. job_is i j && opt_is j.lease_token old ≡ false)
        (set_jobs i (claimed_row c now token) jobs)
unfolding claimed_row
claimed_row-token c now token old i jobs other =
    All-update {0, 0, 0} (λ j. j ≡ j) _ (job_is i) (claimed_row c now token) jobs
      (λ j h y. ground (arith, other)) (λ j h n. rw n refl) (All-every _ jobs (λ j. refl))
