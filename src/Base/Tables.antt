-- ===== src/Base/Tables.antt =====
-- The queries of an ORM session over a table that is a list of rows: the first row that meets a
-- condition (`session.scalar(select(...))`), all such rows (`session.scalars`), an update in place
-- of the rows that a condition picks, `session.delete`, and the counts that state uniqueness.
use Prim.Native.Nat.{ℕ, zero, suc, ◌+◌, ◌≤◌}
use mathlib.Core.Path.{◌≡◌, refl, subst}
use mathlib.Core.Logic.{inl, inr}
use mathlib.Core.Bool.{◌&&◌, Bool, true, false, not}
use mathlib.Core.Option.{Option, none, some, some-injective}
use mathlib.Core.List.{List, [], ◌∷◌, ◌++◌}
use native.Mathlib.Omega.{arith}
use drivebound_storage.Base.Tests.{if◌then◌else◌, Bool-cases, leb}

module _ {ℓ} {A : Type ℓ} where
  abbrev pub length : List A → ℕ
  length [] = 0
  length (_ ∷ xs) = suc (length xs)

  abbrev pub take : ℕ → List A → List A
  take zero xs = []
  take (suc n) [] = []
  take (suc n) (x ∷ xs) = x ∷ take n xs

  -- `session.scalar(select(T).where(p))`
  unfoldable pub scalar : (A → Bool) → List A → Option A
  scalar p [] = none
  scalar p (x ∷ xs) = if p x then some x else scalar p xs

  -- `session.scalars(select(T).where(p)).all()`
  unfoldable pub scalars : (A → Bool) → List A → List A
  scalars p [] = []
  scalars p (x ∷ xs) = let rest = scalars p xs in if p x then x ∷ rest else rest

  -- Some row meets the condition.
  unfoldable pub any_row : (A → Bool) → List A → Bool
  any_row p [] = false
  any_row p (x ∷ xs) = if p x then true else any_row p xs

  -- An assignment to the fields of the rows that `p` picks.
  unfoldable pub update : (A → Bool) → (A → A) → List A → List A
  update p f [] = []
  update p f (x ∷ xs) = (if p x then f x else x) ∷ update p f xs

  -- `session.delete` of the rows that `p` picks
  unfoldable pub delete_rows : (A → Bool) → List A → List A
  delete_rows p xs = scalars (λ x. not (p x)) xs

  unfoldable pub count : (A → Bool) → List A → ℕ
  count p [] = 0
  count p (x ∷ xs) = (if p x then 1 else 0) + count p xs

  abbrev pub All {κ} : (A → Type κ) → List A → Type κ
  All P [] = Unit
  All P (x ∷ xs) = P x × All P xs

  pub All-mono {κ μ} :
      (P : A → Type κ) (Q : A → Type μ) (xs : List A) → ((x : A) → P x → Q x) → All P xs → All Q xs
  All-mono P Q [] f h = tt
  All-mono P Q (x ∷ xs) f h = (f x h.0, All-mono P Q xs f h.1)

  pub All-zip {κ μ} :
      (P : A → Type κ) (Q : A → Type μ) (xs : List A)
      → All P xs
      → All Q xs
      → All (λ x. P x × Q x) xs
  All-zip P Q [] h k = tt
  All-zip P Q (x ∷ xs) h k = ((h.0, k.0), All-zip P Q xs h.1 k.1)

  pub All-every {κ} : (P : A → Type κ) (xs : List A) → ((x : A) → P x) → All P xs
  All-every P [] h = tt
  All-every P (x ∷ xs) h = (h x, All-every P xs h)

  -- A fact about every row that a query picks, as one about every row of the table.
  pub scalars-All {κ} :
      (P : A → Type κ) (p : A → Bool) (xs : List A)
      → All P (scalars p xs)
      → All (λ x. p x ≡ true → P x) xs
  unfolding scalars
  scalars-All P p [] h = tt
  scalars-All P p (x ∷ xs) h = elim (Bool-cases (p x)) [
    | inl t ↦ let k = (rw t at h) in (λ _. k.0, scalars-All P p xs k.1)
    | inr n ↦ (λ t. cc, scalars-All P p xs (rw n at h))
  ]

  pub All-scalars {κ} :
      (P : A → Type κ) (p : A → Bool) (xs : List A)
      → All (λ x. p x ≡ true → P x) xs
      → All P (scalars p xs)
  unfolding scalars
  All-scalars P p [] h = tt
  All-scalars P p (x ∷ xs) h = elim (Bool-cases (p x)) [
    | inl t ↦ rw t (h.0 t, All-scalars P p xs h.1)
    | inr n ↦ rw n (All-scalars P p xs h.1)
  ]

  pub All-append {κ} : (P : A → Type κ) (xs ys : List A) → All P xs → All P ys → All P (xs ++ ys)
  All-append P [] ys h k = k
  All-append P (x ∷ xs) ys h k = (h.0, All-append P xs ys h.1 k)

  -- The row that a query returns meets its condition.
  pub scalar_sound : (p : A → Bool) (xs : List A) (x : A) → scalar p xs ≡ some x → p x ≡ true
  unfolding scalar
  scalar_sound p [] x e = cc
  scalar_sound p (y ∷ xs) x e = ground (arith, scalar_sound p xs x)

  pub All-scalar {κ} :
      (P : A → Type κ) (p : A → Bool) (xs : List A) (x : A) → All P xs → scalar p xs ≡ some x → P x
  unfolding scalar
  All-scalar P p [] x h e = cc
  All-scalar P p (y ∷ xs) x h e = elim (Bool-cases (p y)) [
    | inl t ↦ subst P (some-injective y x (rw t at e)) h.0
    | inr f ↦ All-scalar P p xs x h.1 (rw f at e)
  ]

  -- No row is found only if none meets the condition.
  pub scalar-none : (p : A → Bool) (xs : List A) → scalar p xs ≡ none → All (λ x. p x ≡ false) xs
  unfolding scalar
  scalar-none p [] e = tt
  scalar-none p (y ∷ xs) e = elim (Bool-cases (p y)) [
    | inl t ↦ cc (rw t at e)
    | inr f ↦ (f, scalar-none p xs (rw f at e))
  ]

  pub any_row-false :
      (p : A → Bool) (xs : List A) → any_row p xs ≡ false → All (λ x. p x ≡ false) xs
  unfolding any_row
  any_row-false p [] e = tt
  any_row-false p (y ∷ xs) e = elim (Bool-cases (p y)) [
    | inl t ↦ cc (rw t at e)
    | inr f ↦ (f, any_row-false p xs (rw f at e))
  ]

  pub count_zero : (p : A → Bool) (xs : List A) → All (λ x. p x ≡ false) xs → count p xs ≡ 0
  unfolding count
  count_zero p [] h = refl
  count_zero p (x ∷ xs) h = rw h.0 (omega (arith, count_zero p xs h.1))

  pub zero_count : (p : A → Bool) (xs : List A) → count p xs ≡ 0 → All (λ x. p x ≡ false) xs
  unfolding count
  zero_count p [] h = tt
  zero_count p (x ∷ xs) h = (ground arith, zero_count p xs (omega arith))

  -- Where `p` implies `q`, `p` picks no more rows.
  pub count_mono :
      (p q : A → Bool) (xs : List A)
      → All (λ x. p x ≡ true → q x ≡ true) xs
      → count p xs ≤ count q xs
  unfolding count
  count_mono p q [] h = omega arith
  count_mono p q (x ∷ xs) h = ground (arith, h.0, count_mono p q xs h.1)

  pub count-append : (p : A → Bool) (xs ys : List A) → count p (xs ++ ys) ≡ count p xs + count p ys
  unfolding count
  count-append p [] ys = omega arith
  count-append p (x ∷ xs) ys = omega (arith, count-append p xs ys)

  pub count-update :
      (p q : A → Bool) (f : A → A) (xs : List A)
      → count p (update q f xs) ≡ count (λ x. p (if q x then f x else x)) xs
  unfolding count update
  count-update p q f [] = refl
  count-update p q f (x ∷ xs) = omega (arith, count-update p q f xs)

  pub count-scalars :
      (p q : A → Bool) (xs : List A) → count p (scalars q xs) ≡ count (λ x. q x && p x) xs
  unfolding count scalars
  count-scalars p q [] = refl
  count-scalars p q (x ∷ xs) = elim (Bool-cases (q x)) [
    | inl y ↦ ground (arith, y, count-scalars p q xs)
    | inr n ↦ ground (arith, n, count-scalars p q xs)
  ]

  pub count-delete_rows : (p q : A → Bool) (xs : List A) → count p (delete_rows q xs) ≤ count p xs
  unfolding count delete_rows scalars
  count-delete_rows p q [] = omega arith
  count-delete_rows p q (x ∷ xs) = ground (arith, count-delete_rows p q xs)

  pub All-update {κ μ} :
      (P : A → Type κ) (Q : A → Type μ) (q : A → Bool) (f : A → A) (xs : List A)
      → ((x : A) → P x → q x ≡ true → Q (f x))
      → ((x : A) → P x → q x ≡ false → Q x)
      → All P xs
      → All Q (update q f xs)
  unfolding update
  All-update P Q q f [] hit miss h = tt
  All-update P Q q f (x ∷ xs) hit miss h = (
    elim (Bool-cases (q x)) [ inl t ↦ rw t (hit x h.0 t) | inr n ↦ rw n (miss x h.0 n) ],
    All-update P Q q f xs hit miss h.1,
  )

  pub All-delete_rows {κ} :
      (P : A → Type κ) (q : A → Bool) (xs : List A) → All P xs → All P (delete_rows q xs)
  unfolding delete_rows scalars
  All-delete_rows P q [] h = tt
  All-delete_rows P q (x ∷ xs) h = elim (Bool-cases (q x)) [
    | inl t ↦ rw t (All-delete_rows P q xs h.1)
    | inr n ↦ rw n (h.0, All-delete_rows P q xs h.1)
  ]

  -- Where the condition picks at most one row, the row that a query returns is the only one.
  pub scalar_unique :
      (p : A → Bool) (xs : List A) (t : A)
      → count p xs ≤ 1
      → scalar p xs ≡ some t
      → All (λ x. p x ≡ true → x ≡ t) xs
  unfolding scalar count
  scalar_unique p [] t c e = tt
  scalar_unique p (x ∷ xs) t c e = elim (Bool-cases (p x)) [
    | inl y ↦ (
      λ _. some-injective x t (rw y at e),
      All-mono (λ z. p z ≡ false) (λ z. p z ≡ true → z ≡ t) xs (λ z f g. cc)
          (zero_count p xs (ground arith)),
    )
    | inr n ↦ (λ g. cc, scalar_unique p xs t (ground arith) (rw n at e))
  ]

module _ {ℓ} {A : Type ℓ} (key : A → ℕ) where
  abbrev insert_by : A → List A → List A
  insert_by a [] = a ∷ []
  insert_by a (x ∷ xs) = if leb (key a) (key x) then a ∷ x ∷ xs else x ∷ insert_by a xs

  -- `ORDER BY key`
  unfoldable pub order_by : List A → List A
  order_by [] = []
  order_by (x ∷ xs) = insert_by x (order_by xs)

  All-insert_by {κ} :
      (P : A → Type κ) (a : A) (xs : List A) → P a → All P xs → All P (insert_by a xs)
  All-insert_by P a [] h k = (h, k)
  All-insert_by P a (x ∷ xs) h k = elim (Bool-cases (leb (key a) (key x))) [
    | inl t ↦ rw t (h, k)
    | inr n ↦ rw n (k.0, All-insert_by P a xs h k.1)
  ]

  pub All-order_by {κ} : (P : A → Type κ) (xs : List A) → All P xs → All P (order_by xs)
  unfolding order_by
  All-order_by P [] h = tt
  All-order_by P (x ∷ xs) h = All-insert_by P x (order_by xs) h.0 (All-order_by P xs h.1)

  insert_by-All {κ} :
      (P : A → Type κ) (a : A) (xs : List A) → All P (insert_by a xs) → P a × All P xs
  insert_by-All P a [] h = h
  insert_by-All P a (x ∷ xs) h = elim (Bool-cases (leb (key a) (key x))) [
    | inl t ↦ (rw t at h)
    | inr n ↦
        let (hx, rest) = (rw n at h) in let (ha, hxs) = insert_by-All P a xs rest in (ha, (hx, hxs))
  ]

  pub order_by-All {κ} : (P : A → Type κ) (xs : List A) → All P (order_by xs) → All P xs
  unfolding order_by
  order_by-All P [] h = tt
  order_by-All P (x ∷ xs) h =
      let (hx, rest) = insert_by-All P x (order_by xs) h in (hx, order_by-All P xs rest)

  count-insert_by :
      (p : A → Bool) (a : A) (xs : List A) → count p (insert_by a xs) ≡ count p (a ∷ xs)
  unfolding count
  count-insert_by p a [] = refl
  count-insert_by p a (x ∷ xs) = elim (Bool-cases (leb (key a) (key x))) [
    | inl t ↦ rw t refl
    | inr n ↦ rw n (ground (arith, count-insert_by p a xs))
  ]

  -- Sorting keeps every row as often as it stood.
  pub count-order_by : (p : A → Bool) (xs : List A) → count p (order_by xs) ≡ count p xs
  unfolding order_by count
  count-order_by p [] = refl
  count-order_by p (x ∷ xs) = ground (arith, count-insert_by p x (order_by xs), count-order_by p xs)
