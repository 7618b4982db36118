-- ===== src/Sync/Journal.antt =====
-- The journal of a root: the operations that a push has recorded for it.
pub mod Push
pub mod Resolve
use drivebound_storage.Base.{
  ℕ, suc, ◌+◌, ◌≤◌, ◌<◌, ◌≡◌, inl, inr, refl, Bool, true, false, ◌&&◌, Option, none, some, List, [],
  ◌∷◌, ◌++◌, Text, ◌==◌, ==_refl, same_text, arith, All, All-mono, All-every, All-update,
  All-append, Bool-cases, if◌then◌else◌, count, count_mono, count-update, count-append, count_zero,
  update,
}
use drivebound_storage.Catalog.{Root, Operation, Db}
use drivebound_storage.Sync.{by_operation_id, by_sequence, operation_row_is}
use drivebound_storage.Sync.Resolution.{republish}

abbrev pub at_cursor : ℕ → ℕ → Operation → Bool
at_cursor root c o = o.root_id == root && o.cursor == c

-- The operations of a root are at or below its cursor, each at a cursor of its own; no row id and no
-- operation id is used twice, nor a sequence number of a client.
pub record IsJournal (root : Root) (next : ℕ) (operations : List Operation) : Type 0 where
  pub drawn : All (λ o. o.id < next) operations
  pub rows : (i : ℕ) → count (operation_row_is i) operations ≤ 1
  pub below : All (λ o. o.root_id == root.id ≡ true → o.cursor ≤ root.cursor) operations
  pub cursors : (c : ℕ) → count (at_cursor root.id c) operations ≤ 1
  pub ids : (i : ℕ) → count (by_operation_id i) operations ≤ 1
  pub sequences : (client : Text) (n : ℕ) → count (by_sequence root.id client n) operations ≤ 1

-- An assignment to the payload or the status.
abbrev pub SameEntry : Operation → Operation → Type 0
SameEntry x y =
    (y.id ≡ x.id)
    × (y.root_id ≡ x.root_id)
    × (y.cursor ≡ x.cursor)
    × (y.operation_id ≡ x.operation_id)
    × (y.client_id ≡ x.client_id)
    × (y.client_sequence ≡ x.client_sequence)

count_kept :
    (p q : Operation → Bool) (f : Operation → Operation) (xs : List Operation)
    → ((x : Operation) → p (f x) ≡ p x)
    → count p xs ≤ 1
    → count p (update q f xs) ≤ 1
count_kept p q f xs same h = rw count-update (
    omega (
      arith,
      count_mono (λ x. p (if q x then f x else x)) p xs
          (All-every _ xs (λ x e. ground (arith, same x))),
      h,
    ))

pub IsJournal-update :
    (root : Root) (next : ℕ) (q : Operation → Bool) (f : Operation → Operation)
    (xs : List Operation)
    → ((x : Operation) → SameEntry x (f x))
    → IsJournal root next xs
    → IsJournal root next (update q f xs)
IsJournal-update root next q f xs same j = record {
  drawn = All-update _ _ q f xs (λ x h e. omega (arith, h, (same x).0)) (λ x h e. h) j.drawn;
  rows = λ i. count_kept (operation_row_is i) q f xs (λ x. ground (arith, same x)) (j.rows i);
  below = All-update _ _ q f xs (λ x h e k. ground (arith, h, same x)) (λ x h e. h) j.below;
  cursors =
      λ c. count_kept (at_cursor root.id c) q f xs (λ x. ground (arith, same x)) (j.cursors c);
  ids = λ i. count_kept (by_operation_id i) q f xs (λ x. ground (arith, same x)) (j.ids i);
  sequences = λ client n.
      count_kept (by_sequence root.id client n) q f xs (λ x. ground (arith, same x))
        (j.sequences client n);
}

pub IsJournal-later :
    (root : Root) (n m : ℕ) (xs : List Operation)
    → n ≤ m
    → IsJournal root n xs
    → IsJournal root m xs
IsJournal-later root n m xs h j = record {
  drawn = All-mono _ _ xs (λ x k. omega (arith, h, k)) j.drawn;
  rows = j.rows;
  below = j.below;
  cursors = j.cursors;
  ids = j.ids;
  sequences = j.sequences;
}

count_added :
    (p : Operation → Bool) (o : Operation) (xs : List Operation)
    → count p xs ≤ 1
    → (p o ≡ true → All (λ x. p x ≡ false) xs)
    → count p (xs ++ o ∷ []) ≤ 1
unfolding count
count_added p o xs h none_else = rw count-append (elim (Bool-cases (p o)) [
  | inl y ↦ ground (arith, count_zero p xs (none_else y))
  | inr n ↦ ground (arith, h)
])

newest :
    (root cursor c i : ℕ) (revision : Text) (x : Operation)
    → c == cursor + 1 ≡ true
    → (x.root_id == root ≡ true → x.cursor ≤ cursor)
    → at_cursor root c (if operation_row_is i x then republish (cursor + 1) revision x else x)
      ≡ true
    → operation_row_is i x ≡ true
newest root cursor c i revision x last below k = elim (Bool-cases (operation_row_is i x)) [
  | inl y ↦ y
  | inr n ↦ absurd (ground (arith, below, n))
]

older :
    (root cursor c i : ℕ) (revision : Text) (x : Operation)
    → c == cursor + 1 ≡ false
    → at_cursor root c (if operation_row_is i x then republish (cursor + 1) revision x else x)
      ≡ true
    → at_cursor root c x ≡ true
older root cursor c i revision x earlier k = elim (Bool-cases (operation_row_is i x)) [
  | inl y ↦ absurd (ground (arith, y))
  | inr n ↦ ground (arith, n)
]

-- An entry that is published again, at the root's next cursor.
pub IsJournal-republish :
    (root : Root) (next : ℕ) (i : ℕ) (revision : Text) (xs : List Operation)
    → IsJournal root next xs
    → IsJournal
        (record root { cursor = root.cursor + 1 })
        next
        (update (operation_row_is i) (republish (root.cursor + 1) revision) xs)
IsJournal-republish root next i revision xs j = record {
  drawn =
      All-update _ _ (operation_row_is i) (republish (root.cursor + 1) revision) xs (λ x h e. h)
        (λ x h e. h) j.drawn;
  rows = λ k.
      count_kept (operation_row_is k) (operation_row_is i) (republish (root.cursor + 1) revision) xs
        (λ x. refl) (j.rows k);
  below =
      All-update _ _ (operation_row_is i) (republish (root.cursor + 1) revision) xs
        (λ x h e k. omega arith) (λ x h e k. omega (arith, h k)) j.below;
  cursors = λ c. rw count-update (elim (Bool-cases (c == root.cursor + 1)) [
    | inl last ↦ omega (
      arith,
      count_mono
          (λ x.
            at_cursor root.id c
              (if operation_row_is i x then republish (root.cursor + 1) revision x else x))
          (operation_row_is i) xs
          (All-mono _ _ xs (λ x h k. newest root.id root.cursor c i revision x last h k) j.below),
      j.rows i,
    )
    | inr earlier ↦ omega (
      arith,
      count_mono
          (λ x.
            at_cursor root.id c
              (if operation_row_is i x then republish (root.cursor + 1) revision x else x))
          (at_cursor root.id c) xs
          (All-every _ xs (λ x k. older root.id root.cursor c i revision x earlier k)),
      j.cursors c,
    )
  ]);
  ids = λ k.
      count_kept (by_operation_id k) (operation_row_is i) (republish (root.cursor + 1) revision) xs
        (λ x. refl) (j.ids k);
  sequences = λ client n.
      count_kept (by_sequence root.id client n) (operation_row_is i)
        (republish (root.cursor + 1) revision) xs (λ x. refl) (j.sequences client n);
}
