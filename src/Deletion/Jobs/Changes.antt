-- ===== src/Deletion/Jobs/Changes.antt =====
-- The changes that a table of deletion jobs goes through, and what all of them keep: the rows are
-- well formed, their keys unique, and a completed job stays as it is.
use drivebound_storage.Base.{
  ℕ, ◌≤◌, ◌≡◌, inl, inr, sym, ==_sound, Bool, true, false, not, none, some, List, [], ◌∷◌, ◌++◌,
  is_some, scalar, scalar_sound, scalar-none, scalar-Row, scalar_unique, All, All-zip, All-every,
  All-update, All-append, count, count-update, count_mono, count-append, count_zero, Row,
  Row-scalar, Row-update, arith, Bool-cases, opt_is,
}
use drivebound_storage.Deletion.Jobs.{JobStatus, completed, Job, is_running, job_is, set_jobs}

abbrev pub is_completed : JobStatus → Bool
is_completed completed = true
is_completed _ = false

-- A job has a lease exactly while it is running, and a subject exactly until it is completed.
abbrev pub IsJobOk : Job → Type 0
IsJobOk j =
    (is_some j.lease_token ≡ is_running j.status)
    × (is_some j.lease_expires_at ≡ is_running j.status)
    × (is_some j.subject_id ≡ not (is_completed j.status))

abbrev pub subject_is : ℕ → Job → Bool
subject_is u j = opt_is j.subject_id u

-- Every row is well formed, no id stands twice, and no account has two jobs.
abbrev pub AreJobsOk : List Job → Type 0
AreJobsOk jobs =
    All IsJobOk jobs
    × ((i : ℕ) → count (job_is i) jobs ≤ 1)
    × ((u : ℕ) → count (subject_is u) jobs ≤ 1)

-- An assignment that keeps the id, and keeps or erases the subject.
abbrev pub KeepsKeys : (Job → Job) → Type 0
KeepsKeys f =
    (j : Job) → ((f j).id ≡ j.id) × ((u : ℕ) → subject_is u (f j) ≡ true → subject_is u j ≡ true)

pub data Change (jobs : List Job) : List Job → Type 0 where
  unchanged : Change jobs jobs
  -- an assignment to the job that a query has found, which is not completed
  assigned :
      (i : ℕ) (p : Job → Bool) (f : Job → Job) (j : Job)
      → ((x : Job) → p x ≡ true → job_is i x ≡ true)
      → scalar p jobs ≡ some j
      → KeepsKeys f
      → (IsJobOk j → IsJobOk (f j) × (is_completed j.status ≡ false))
      → Change jobs (set_jobs i f jobs)
  -- a new row with keys of its own
  added :
      (j : Job)
      → IsJobOk j
      → scalar (job_is j.id) jobs ≡ none
      → ((u : ℕ) → subject_is u j ≡ true → scalar (subject_is u) jobs ≡ none)
      → Change jobs (jobs ++ j ∷ [])

module _ (i : ℕ) (p : Job → Bool) (f : Job → Job) (j : Job) (jobs : List Job)
    (picks : (x : Job) → p x ≡ true → job_is i x ≡ true) (found : scalar p jobs ≡ some j)
    (keeps : KeepsKeys f) (good : IsJobOk j → IsJobOk (f j) × (is_completed j.status ≡ false))
    (h : AreJobsOk jobs) where
  assigned-only : All (λ x. job_is i x ≡ true → x ≡ j) jobs
  assigned-only = scalar_unique (job_is i) jobs j (h.1 i) (
      scalar-Row (job_is i) jobs j (Row-scalar p jobs j found)
        (picks j (scalar_sound p jobs j found)) (h.1 i))

  assigned-rows : All IsJobOk (set_jobs i f jobs)
  assigned-rows =
      All-update (λ x. IsJobOk x × (job_is i x ≡ true → x ≡ j)) IsJobOk (job_is i) f jobs
        (λ x k y. rw (k.1 y) (good (rw (k.1 y) at k.0)).0) (λ x k n. k.0)
        (All-zip IsJobOk _ jobs h.0 assigned-only)

  assigned-count :
      (q : Job → Bool)
      → ((x : Job) → q (f x) ≡ true → q x ≡ true)
      → count q (set_jobs i f jobs) ≤ count q jobs
  assigned-count q back = rw (count-update q (job_is i) f jobs) (
      count_mono _ q jobs (
        All-every _ jobs λ x e. elim (Bool-cases (job_is i x)) [
          | inl y ↦ back x (rw y at e)
          | inr n ↦ (rw n at e)
        ]))

  assigned-completed :
      (x : Job) → Row x jobs → is_completed x.status ≡ true → Row x (set_jobs i f jobs)
  assigned-completed x row over = elim (Bool-cases (job_is i x)) [
    | inl y ↦
        let same = row (λ z. job_is i z ≡ true → z ≡ j) assigned-only y in
        let live = (good (Row-scalar p jobs j found IsJobOk h.0)).1 in
        absurd (ground (arith, rw same at over, live))
    | inr n ↦ (rw n at (Row-update (job_is i) f jobs x row))
  ]

append-All : (P : Job → Type 0) (xs ys : List Job) → All P (xs ++ ys) → All P xs
append-All P [] ys h = tt
append-All P (x ∷ xs) ys h = (h.0, append-All P xs ys h.1)

append-count :
    (q : Job → Bool) (j : Job) (jobs : List Job)
    → count q jobs ≤ 1
    → (q j ≡ true → scalar q jobs ≡ none)
    → count q (jobs ++ j ∷ []) ≤ 1
unfolding count
append-count q j jobs h apart = elim (Bool-cases (q j)) [
  | inl y ↦
      rw (count-append q jobs (j ∷ []), y)
        (omega (arith, count_zero q jobs (scalar-none q jobs (apart y))))
  | inr n ↦ rw (count-append q jobs (j ∷ []), n) (omega (arith, h))
]

-- Every change keeps the rows well formed and their keys unique.
pub Change-AreJobsOk :
    {jobs after : List Job} → Change jobs after → AreJobsOk jobs → AreJobsOk after
Change-AreJobsOk unchanged h = h
Change-AreJobsOk {jobs} (assigned i p f j picks found keeps good) h = (
  assigned-rows i p f j jobs picks found keeps good h,
  λ k.
      let fewer =
        assigned-count i p f j jobs picks found keeps good h (job_is k)
          (λ x e. rw (sym (keeps x).0) e) in
      omega (arith, fewer, h.1 k),
  λ u.
      let fewer =
        assigned-count i p f j jobs picks found keeps good h (subject_is u)
          (λ x e. (keeps x).1 u e) in
      omega (arith, fewer, h.2 u),
)
Change-AreJobsOk {jobs} (added j fine fresh apart) h = (
  All-append IsJobOk jobs (j ∷ []) h.0 (fine, tt),
  λ k. append-count (job_is k) j jobs (h.1 k) (λ e. rw (sym (==_sound j.id k e)) fresh),
  λ u. append-count (subject_is u) j jobs (h.2 u) (apart u),
)

-- A change leaves a completed job in the table, as it is.
pub Change-completed :
    {jobs after : List Job}
    → Change jobs after
    → AreJobsOk jobs
    → (x : Job) → Row x jobs
    → is_completed x.status ≡ true
    → Row x after
Change-completed unchanged h x row over = row
Change-completed {jobs} (assigned i p f j picks found keeps good) h x row over =
    assigned-completed i p f j jobs picks found keeps good h x row over
Change-completed {jobs} (added j fine fresh apart) h x row over =
    λ P k. row P (append-All P jobs (j ∷ []) k)

-- The tables that follow by changes.
pub data Changes (jobs : List Job) : List Job → Type 0 where
  here : Changes jobs jobs
  next : {mid after : List Job} → Changes jobs mid → Change mid after → Changes jobs after

pub Changes-trans : {x y z : List Job} → Changes x y → Changes y z → Changes x z
Changes-trans r here = r
Changes-trans r (next s c) = next (Changes-trans r s) c

pub Changes-AreJobsOk :
    {jobs after : List Job} → Changes jobs after → AreJobsOk jobs → AreJobsOk after
Changes-AreJobsOk here h = h
Changes-AreJobsOk (next r c) h = Change-AreJobsOk c (Changes-AreJobsOk r h)

pub Changes-completed :
    {jobs after : List Job}
    → Changes jobs after
    → AreJobsOk jobs
    → (x : Job) → Row x jobs
    → is_completed x.status ≡ true
    → Row x after
Changes-completed here h x row over = row
Changes-completed (next r c) h x row over =
    Change-completed c (Changes-AreJobsOk r h) x (Changes-completed r h x row over) over
