-- ===== src/Deletion/Batch/Erased.antt =====
-- What a finished deletion leaves of an account's rows.
use drivebound_storage.Base.{
  ℕ, ◌+◌, ◌≡◌, refl, inl, inr, Bool, true, false, ◌&&◌, not, Option, none, some, List, [], ◌∷◌,
  ◌==◌, is_some, scalar, scalar-none, All, All-every, All-order_by, All-update, All-scalars,
  All-mono, update, delete_rows, count, Row, Row-scalar, order_by-All, order_by, arith, Bool-cases,
  any_row,
}
use drivebound_storage.Catalog.{Audit, Db}
use drivebound_storage.Deletion.Rows.{Server}
use drivebound_storage.Deletion.Batch.{audit_of, anonymous, redacted, asset_of_user, upload_of_user}

-- The answer of a query, after an assignment to rows that include its answers and that leaves its
-- condition alone.
pub scalar-update_other :
    {A : Type 0} (q : A → Bool) (f : A → A) (p : A → Bool) (xs : List A) (t : A)
    → ((x : A) → p (f x) ≡ p x)
    → ((x : A) → p x ≡ true → q x ≡ true)
    → scalar p xs ≡ some t
    → scalar p (update q f xs) ≡ some (f t)
unfolding update scalar
scalar-update_other q f p [] t h k e = absurd (ground arith)
scalar-update_other q f p (x ∷ xs) t h k e = elim (Bool-cases (p x)) [
  | inl y ↦ ground (arith, y, h x, k x)
  | inr n ↦ elim (Bool-cases (q x)) [
    | inl z ↦ ground (arith, n, z, h x, scalar-update_other q f p xs t h k)
    | inr z ↦ ground (arith, n, z, scalar-update_other q f p xs t h k)
  ]
]

-- The rows of an account that are still to be removed.
abbrev pub left : ℕ → Db → ℕ
left user db = count (asset_of_user user) db.assets + count (upload_of_user user) db.uploads

-- Nothing of the account is left but redacted events.
pub record IsErased (user : ℕ) (s : Server) : Type 0 where
  pub assets : All (λ a. asset_of_user user a ≡ false) s.db.assets
  pub uploads : All (λ u. upload_of_user user u ≡ false) s.db.uploads
  pub users : All (λ u. u.id == user ≡ false) s.db.users
  pub audits : All (λ e. audit_of user e ≡ true → e.detail ≡ none) s.db.audits

abbrev pub Redacted : ℕ → Audit → Type 0
Redacted user e = audit_of user e ≡ true → e.detail ≡ none

pub redacted-Redacted :
    (user : ℕ) (es : List Audit) → All (Redacted user) (update (audit_of user) redacted es)
redacted-Redacted user es =
    All-update {0, 0, 0} (λ e. e ≡ e) (Redacted user) (audit_of user) redacted es (λ e h y k. refl)
      (λ e h n k. cc) (All-every _ es λ e. refl)

pub anonymous-Redacted :
    (user : ℕ) (es : List Audit) → All (Redacted user) (update (audit_of user) anonymous es)
anonymous-Redacted user es =
    All-update {0, 0, 0} (λ e. e ≡ e) (Redacted user) (audit_of user) anonymous es (λ e h y k. cc)
      (λ e h n k. cc) (All-every _ es λ e. refl)

pub deleted : {A : Type 0} (q : A → Bool) (xs : List A) → All (λ x. q x ≡ false) (delete_rows q xs)
unfolding delete_rows
deleted q xs =
    All-scalars (λ x. q x ≡ false) (λ x. not (q x)) xs (All-every _ xs λ x h. ground (arith, h))

pub absent : {A : Type 0} (o : Option A) → is_some o ≡ false → o ≡ none
absent none h = refl
absent (some x) h = cc

any_row_none :
    {A : Type 0} (p : A → Bool) (xs : List A) → All (λ x. p x ≡ false) xs → any_row p xs ≡ false
unfolding any_row
any_row_none p [] h = refl
any_row_none p (x ∷ xs) h = rw h.0 (any_row_none p xs h.1)

-- Where nothing is locked, a query that finds none has missed none.
pub none_unlocked :
    {A : Type 0} (p : A → Bool) (id first : A → ℕ) (locked : ℕ → Bool) (xs : List A)
    → ((k : ℕ) → locked k ≡ false)
    → scalar (λ x. p x && not (locked (id x))) (order_by first (order_by id xs)) ≡ none
    → any_row p xs ≡ false
none_unlocked p id first locked xs free e =
    let missed = scalar-none _ (order_by first (order_by id xs)) e in
    any_row_none p xs (
      All-mono _ (λ x. p x ≡ false) xs (λ x h. ground (arith, h, free (id x)))
        (order_by-All id _ xs (order_by-All first _ (order_by id xs) missed)))

-- The row that a sorted query finds is a row of the table, and meets the condition.
pub Row-sorted :
    {A : Type 0} (p : A → Bool) (id first : A → ℕ) (xs : List A) (x : A)
    → scalar p (order_by first (order_by id xs)) ≡ some x
    → Row x xs
Row-sorted p id first xs x e P h =
    Row-scalar p (order_by first (order_by id xs)) x e P
      (All-order_by first P (order_by id xs) (All-order_by id P xs h))
