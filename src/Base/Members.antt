-- ===== src/Base/Members.antt =====
-- Membership of a row in a table, by the facts that hold of every row, and what a query finds.
use mathlib.Core.Path.{◌≡◌, refl, ap₂}
use mathlib.Core.Logic.{inl, inr}
use mathlib.Core.Bool.{Bool, true, false, not, ◌&&◌}
use mathlib.Core.Option.{some}
use mathlib.Core.List.{List, [], ◌∷◌}
use native.Mathlib.Omega.{arith}
use Prim.Native.Nat.{◌+◌, ◌≤◌, ◌<◌}
use drivebound_storage.Base.Tests.{leb, if◌then◌else◌, Bool-cases, Option-cases}
use drivebound_storage.Base.Tables.{
  scalar, scalar_sound, scalar-none, scalar_unique, update, count, All, All-scalar, delete_rows,
  scalars, zero_count, scalars-All,
}

-- What holds of every row holds of this one.
abbrev pub Row : {A : Type 0} → A → List A → Type 1
Row {A} t xs = (P : A → Type 0) → All P xs → P t

module _ {A : Type 0} where
  pub Row-scalar : (p : A → Bool) (xs : List A) (t : A) → scalar p xs ≡ some t → Row t xs
  Row-scalar p xs t e P h = All-scalar P p xs t h e

  pub update-All :
      (P : A → Type 0) (q : A → Bool) (f : A → A) (xs : List A)
      → All P (update q f xs)
      → All (λ x. P (if q x then f x else x)) xs
  unfolding update
  update-All P q f [] h = tt
  update-All P q f (x ∷ xs) h = (h.0, update-All P q f xs h.1)

  pub Row-update :
      (q : A → Bool) (f : A → A) (xs : List A) (t : A)
      → Row t xs
      → Row (if q t then f t else t) (update q f xs)
  Row-update q f xs t r P h = r (λ x. P (if q x then f x else x)) (update-All P q f xs h)

  pub Row-delete_rows :
      (q : A → Bool) (xs : List A) (t : A) → q t ≡ false → Row t xs → Row t (delete_rows q xs)
  unfolding delete_rows
  Row-delete_rows q xs t n r P h =
      r (λ x. not (q x) ≡ true → P x) (scalars-All P (λ x. not (q x)) xs h) (ground (arith, n))

  -- A row that meets a condition which no two rows meet is what the query finds.
  pub scalar-Row :
      (p : A → Bool) (xs : List A) (t : A)
      → Row t xs
      → p t ≡ true
      → count p xs ≤ 1
      → scalar p xs ≡ some t
  scalar-Row p xs t r h c = elim (Option-cases (scalar p xs)) [
    | inl e ↦ cc (r (λ x. p x ≡ false) (scalar-none p xs e))
    | inr (b, e) ↦ cc (e, r (λ x. p x ≡ true → x ≡ b) (scalar_unique p xs b c e) h)
  ]

  -- A row that meets a condition which some query's answer meets, for another way to be unique.
  pub scalar_only :
      (p : A → Bool) (xs : List A) (t : A)
      → Row t xs
      → p t ≡ true
      → All (λ x. p x ≡ true → x ≡ t) xs
      → scalar p xs ≡ some t
  scalar_only p xs t r h only = elim (Option-cases (scalar p xs)) [
    | inl e ↦ cc (r (λ x. p x ≡ false) (scalar-none p xs e))
    | inr (b, e) ↦
        cc (e, All-scalar (λ x. p x ≡ true → x ≡ t) p xs b only e (scalar_sound p xs b e))
  ]

  pub update_same :
      (q : A → Bool) (f : A → A) (xs : List A)
      → All (λ x. q x ≡ true → f x ≡ x) xs
      → update q f xs ≡ xs
  unfolding update
  update_same q f [] h = refl
  update_same q f (x ∷ xs) h = elim (Bool-cases (q x)) [
    | inl y ↦ rw y (ap₂ ◌∷◌ (h.0 y) (update_same q f xs h.1))
    | inr n ↦ rw n (ap₂ ◌∷◌ refl (update_same q f xs h.1))
  ]

  pub update-update :
      (q : A → Bool) (f g : A → A) (xs : List A)
      → ((x : A) → q (f x) ≡ q x)
      → update q g (update q f xs) ≡ update q (λ x. g (f x)) xs
  unfolding update
  update-update q f g [] h = refl
  update-update q f g (x ∷ xs) h = elim (Bool-cases (q x)) [
    | inl y ↦ rw (y, h x, y) (ap₂ ◌∷◌ refl (update-update q f g xs h))
    | inr n ↦ rw (n, n) (ap₂ ◌∷◌ refl (update-update q f g xs h))
  ]

  -- The answer of a query, after an assignment to the rows of the query that leaves its key alone.
  pub scalar-update :
      (q : A → Bool) (f : A → A) (xs : List A) (t : A)
      → ((x : A) → q (f x) ≡ q x)
      → scalar q xs ≡ some t
      → scalar q (update q f xs) ≡ some (f t)
  unfolding update scalar
  scalar-update q f [] t h e = absurd (ground arith)
  scalar-update q f (x ∷ xs) t h e = elim (Bool-cases (q x)) [
    | inl y ↦ ground (arith, y, h x)
    | inr n ↦ ground (arith, n, h x, scalar-update q f xs t h)
  ]

  pub count-split :
      (p q : A → Bool) (xs : List A)
      → count p xs ≡ count p (delete_rows q xs) + count (λ x. q x && p x) xs
  unfolding count delete_rows scalars
  count-split p q [] = refl
  count-split p q (x ∷ xs) = elim (Bool-cases (q x)) [
    | inl y ↦ ground (arith, y, count-split p q xs)
    | inr n ↦ ground (arith, n, count-split p q xs)
  ]

  -- Deleting a row that counts leaves fewer.
  pub count_less :
      (p q : A → Bool) (t : A) (xs : List A)
      → Row t xs
      → p t ≡ true
      → q t ≡ true
      → count p (delete_rows q xs) < count p xs
  count_less p q t xs row h k = elim (Bool-cases (leb 1 (count (λ x. q x && p x) xs))) [
    | inl y ↦ ground (arith, y, count-split p q xs)
    | inr n ↦
        let clear = row _ (zero_count (λ x. q x && p x) xs (ground (arith, n))) in
        absurd (ground (arith, clear, h, k))
  ]
