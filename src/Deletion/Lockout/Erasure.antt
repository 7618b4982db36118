-- ===== src/Deletion/Lockout/Erasure.antt =====
-- What a request to delete an account leaves of it, and that a second request does nothing more.
use drivebound_storage.Base.{
  ℕ, ◌+◌, ◌≡◌, ◌≤◌, refl, inl, inr, true, false, Bool, not, Option, none, some, List, [], ◌∷◌, ◌++◌,
  ◌==◌, ==_refl, scalar, All, All-every, All-update, All-scalars, delete_rows, update, arith,
  Bool-cases, opt_is,
}
use drivebound_storage.Catalog.{User}
use drivebound_storage.Lifecycle.Purge.{is_due}
use drivebound_storage.Deletion.Jobs.{Job, Pace}
use drivebound_storage.Deletion.Rows.{Login, Server}
use drivebound_storage.Deletion.Lockout.{
  Letters, new_job, drawn_id, of_user, doomed, locked_out, erased_login, revoke_grants,
  lock_catalog, prepare_new, prepare_unless, prepare_account_deletion,
}

-- The rows of an account after its lockout.
pub record IsLockedOut (user now : ℕ) (s : Server) : Type 0 where
  pub users :
      All
        (λ u.
          u.id == user ≡ true
          → (u.disabled_at ≡ some now)
            × (u.email_verified_at ≡ none)
            × (u.media_key_encrypted ≡ none))
        s.db.users
  pub logins :
      All
        (λ l.
          l.user_id == user ≡ true
          → (l.password_enabled ≡ false)
            × (l.totp_secret_encrypted ≡ none)
            × (l.pending_totp_secret_encrypted ≡ none))
        s.logins
  pub grants : All (λ g. g.user_id == user ≡ false) s.grants
  pub albums : All (λ b. b.user_id == user ≡ false) s.albums
  -- a purge takes up each asset from now on
  pub assets :
      All
        (λ a. of_user user a ≡ true → (later : ℕ) → now ≤ later → is_due later a ≡ true)
        s.db.assets

deleted : {A : Type 0} (q : A → Bool) (xs : List A) → All (λ x. q x ≡ false) (delete_rows q xs)
unfolding delete_rows
deleted q xs =
    All-scalars (λ x. q x ≡ false) (λ x. not (q x)) xs (All-every _ xs λ x h. ground (arith, h))

-- What an assignment to the rows that a condition picks makes true of them.
update-hits :
    {A : Type 0} (q : A → Bool) (f : A → A) (P : A → Type 0) (xs : List A)
    → ((x : A) → P (f x))
    → All (λ x. q x ≡ true → P x) (update q f xs)
update-hits q f P xs h =
    All-update {0, 0, 0} (λ x. x ≡ x) (λ x. q x ≡ true → P x) q f xs (λ x r y k. h x)
      (λ x r n k. absurd (ground (arith, n, k))) (All-every _ xs λ x. refl)

prepare_new-IsLockedOut :
    (t : Letters) (c : Pace) (retention now i : ℕ) (user : User) (s : Server)
    → IsLockedOut user.id now (prepare_new t c retention now i user s).1
unfolding prepare_new revoke_grants lock_catalog locked_out erased_login doomed
prepare_new-IsLockedOut t c retention now i user s = record {
  users =
      update-hits (λ (x : User). x.id == user.id) (locked_out t now) _ s.db.users
        λ x. (refl, refl, refl);
  logins =
      update-hits (λ (l : Login). l.user_id == user.id)
        (erased_login (t.token_hex (s.db.next_id + 1))) _ s.logins λ x. (refl, refl, refl);
  grants = deleted (λ g. g.user_id == user.id) s.grants;
  albums = deleted (λ b. b.user_id == user.id) s.albums;
  assets = update-hits (of_user user.id) (doomed now) _ s.db.assets λ a later h. ground (arith, h);
}

-- A request for an account that has no job yet locks it out: its rows are disabled, without a
-- verified address and without the key that its files are encrypted under; no password or second
-- factor is left to sign in with, nor any session, token, device, share or album of its own; and a
-- purge at any later time takes up each of its assets.
pub prepare-IsLockedOut :
    (t : Letters) (c : Pace) (retention now : ℕ) (job_id : Option ℕ) (user : User) (s : Server)
    → scalar (λ j. opt_is j.subject_id user.id) s.jobs ≡ none
    → IsLockedOut user.id now (prepare_account_deletion t c retention now job_id user s).1
unfolding prepare_account_deletion prepare_unless
prepare-IsLockedOut t c retention now job_id user s e =
    rw e (prepare_new-IsLockedOut t c retention now (drawn_id job_id s.db) user s)

scalar-append :
    {A : Type 0} (p : A → Bool) (xs : List A) (x : A)
    → scalar p xs ≡ none
    → p x ≡ true
    → scalar p (xs ++ x ∷ []) ≡ some x
unfolding scalar
scalar-append p [] x e h = rw h refl
scalar-append p (y ∷ xs) x e h = elim (Bool-cases (p y)) [
  | inl k ↦ cc (rw k at e)
  | inr n ↦ rw n (scalar-append p xs x (rw n at e) h)
]

prepared :
    (t : Letters) (c : Pace) (retention now i : ℕ) (user : User) (o : Option Job) (s : Server)
    → scalar (λ j. opt_is j.subject_id user.id) s.jobs ≡ o
    → let (job, after) = prepare_unless t c retention now i user o s in
      scalar (λ j. opt_is j.subject_id user.id) after.jobs ≡ some job
unfolding prepare_unless prepare_new
prepared t c retention now i user (some job) s e = e
prepared t c retention now i user none s e =
    scalar-append (λ (j : Job). opt_is j.subject_id user.id) s.jobs
      (new_job c retention i user.id now) e (==_refl user.id)

-- A second request for an account, at whatever time, with whatever job id and whatever its row says
-- by then, answers the job of the first and changes nothing.
pub prepare_again :
    (t : Letters) (c : Pace) (retention now later : ℕ) (job_id other : Option ℕ) (user again : User)
    (s : Server)
    → again.id ≡ user.id
    → let (job, after) = prepare_account_deletion t c retention now job_id user s in
      prepare_account_deletion t c retention later other again after ≡ (job, after)
unfolding prepare_account_deletion
prepare_again t c retention now later job_id other user again s same =
    let first =
      prepared t c retention now (drawn_id job_id s.db) user
        (scalar (λ j. opt_is j.subject_id user.id) s.jobs) s refl in
    rw (same, first) (unfold prepare_unless in refl)
