-- ===== src/Lifecycle/Invariant.antt =====
-- The constraints of the assets table (the primary key, `uq_assets_active_logical` and
-- `ck_assets_retention_state`), and when an assignment keeps them.
use drivebound_storage.Base.{
  ℕ, ◌≤◌, ◌≡◌, ap, Bool, true, false, ◌&&◌, Option, none, some, List, [], ◌∷◌, ◌++◌, ◌<◌, arith,
  Bool-cases, inl, inr, update, count, count_mono, count-update, count-append, count_zero,
  All-append, All, All-mono, All-zip, All-every, All-update, is_some, if◌then◌else◌,
}
use drivebound_storage.Catalog.{
  LifecycleState, trashed, purging, Asset, is_active, asset_is, revision_of, active_of,
}

-- the constraint on `trashed_at` and `purge_after`
abbrev pub retention_ok : LifecycleState → Option ℕ → Option ℕ → Bool
retention_ok trashed trashed_at purge_after = is_some trashed_at && is_some purge_after
retention_ok purging trashed_at purge_after = is_some trashed_at && is_some purge_after
retention_ok _ trashed_at none = true
retention_ok _ trashed_at (some _) = false

abbrev pub IsRetained : Asset → Type 0
IsRetained a = retention_ok a.lifecycle_state a.trashed_at a.purge_after ≡ true

-- No id is used twice, a file has at most one active revision, and the retention columns agree
-- with the state of every revision.
pub record IsSound (assets : List Asset) : Type 0 where
  pub ids : (i : ℕ) → count (asset_is i) assets ≤ 1
  pub one_active : (user logical : ℕ) → count (active_of user logical) assets ≤ 1
  pub retention : All IsRetained assets

-- An assignment that leaves the identity columns alone.
abbrev pub SameKey : Asset → Asset → Type 0
SameKey a b = (b.id ≡ a.id) × (b.user_id ≡ a.user_id) × (b.logical_id ≡ a.logical_id)

module _ (q : Asset → Bool) (f : Asset → Asset) (key : (a : Asset) → (f a).id ≡ a.id) where
  ids-update :
      (xs : List Asset)
      → ((i : ℕ) → count (asset_is i) xs ≤ 1)
      → (i : ℕ) → count (asset_is i) (update q f xs) ≤ 1
  ids-update xs h i = rw count-update (
      omega (
        arith,
        count_mono (λ x. asset_is i (if q x then f x else x)) (asset_is i) xs
            (All-every _ xs (λ x e. ground (arith, key x))),
        h i,
      ))

module _ (q : Asset → Bool) (f : Asset → Asset) (key : (a : Asset) → SameKey a (f a)) where
  -- Taking rows out of use, or leaving them as active as they were, adds no active revision.
  count-active-update :
      (xs : List Asset)
      → All
          (λ x.
            q x ≡ true
            → is_active (f x).lifecycle_state ≡ true
            → is_active x.lifecycle_state ≡ true)
          xs
      → (user logical : ℕ)
      → count (active_of user logical) (update q f xs) ≤ count (active_of user logical) xs
  count-active-update xs h user logical = rw count-update (
      count_mono (λ x. active_of user logical (if q x then f x else x)) (active_of user logical) xs
        (All-mono _ _ xs (λ x hx e. ground (arith, key x, hx)) h))

  pub IsSound-deactivate :
      (xs : List Asset)
      → IsSound xs
      → All
          (λ x.
            q x ≡ true
            → is_active (f x).lifecycle_state ≡ true
            → is_active x.lifecycle_state ≡ true)
          xs
      → All (λ x. q x ≡ true → IsRetained (f x)) xs
      → IsSound (update q f xs)
  IsSound-deactivate xs s h r = record {
    ids = ids-update q f (λ a. (key a).0) xs s.ids;
    one_active = λ user logical.
        omega (arith, count-active-update xs h user logical, s.one_active user logical);
    retention =
        All-update _ IsRetained q f xs
          (λ x (k : IsRetained x × (q x ≡ true → IsRetained (f x))) t. k.1 t) (λ x k n. k.0)
          (All-zip _ _ xs s.retention r);
  }

-- `f` makes the row `t` active in a file that has no other active row; it may move the row there.
module _ (f : Asset → Asset) (key : (a : Asset) → (f a).id ≡ a.id) (t : Asset) where
  abbrev pub Alone : Asset → Type 0
  Alone x =
      (asset_is t.id x ≡ true → x ≡ t)
      × (revision_of (f t).user_id (f t).logical_id x ≡ true
          → asset_is t.id x ≡ false
          → is_active x.lifecycle_state ≡ false)

  in_file :
      (user logical : ℕ) (x : Asset)
      → revision_of user logical (f t) ≡ true
      → Alone x
      → active_of user logical (if asset_is t.id x then f x else x) ≡ true
      → asset_is t.id x ≡ true
  in_file user logical x e h k = elim (Bool-cases (asset_is t.id x)) [
    | inl same ↦ same
    | inr other ↦ ground (arith, h.1)
  ]

  out_of_file :
      (user logical : ℕ) (x : Asset)
      → revision_of user logical (f t) ≡ false
      → Alone x
      → active_of user logical (if asset_is t.id x then f x else x) ≡ true
      → active_of user logical x ≡ true
  out_of_file user logical x e h k = elim (Bool-cases (asset_is t.id x)) [
    | inl same ↦
        ground
          (arith, key x, h.0 same, ap (λ (z : Asset). revision_of user logical (f z)) (h.0 same))
    | inr other ↦ (rw other at k)
  ]

  pub IsSound-activate :
      (xs : List Asset)
      → IsSound xs
      → All Alone xs
      → All (λ x. asset_is t.id x ≡ true → IsRetained (f x)) xs
      → IsSound (update (asset_is t.id) f xs)
  IsSound-activate xs s alone r = record {
    ids = ids-update (asset_is t.id) f key xs s.ids;
    one_active = λ user logical.
        rw count-update (elim (Bool-cases (revision_of user logical (f t))) [
          | inl e ↦ omega (
            arith,
            count_mono (λ x. active_of user logical (if asset_is t.id x then f x else x))
                (asset_is t.id) xs (All-mono _ _ xs (λ x h. in_file user logical x e h) alone),
            s.ids t.id,
          )
          | inr n ↦ omega (
            arith,
            count_mono (λ x. active_of user logical (if asset_is t.id x then f x else x))
                (active_of user logical) xs
                (All-mono _ _ xs (λ x h. out_of_file user logical x n h) alone),
            s.one_active user logical,
          )
        ]);
    retention =
        All-update _ IsRetained (asset_is t.id) f xs
          (λ x (k : IsRetained x × (asset_is t.id x ≡ true → IsRetained (f x))) e. k.1 e)
          (λ x k n. k.0) (All-zip _ _ xs s.retention r);
  }

free_row :
    (user logical : ℕ) (x c : Asset)
    → revision_of user logical c ≡ true
    → (revision_of c.user_id c.logical_id x ≡ true → is_active x.lifecycle_state ≡ false)
    → active_of user logical x ≡ false
free_row user logical x c y h = elim (Bool-cases (revision_of c.user_id c.logical_id x)) [
  | inl same ↦ ground (arith, h same)
  | inr other ↦ ground arith
]

-- A new row with a new id, whose file has no active row.
pub IsSound-append :
    (c : Asset) (xs : List Asset)
    → IsSound xs
    → All (λ x. x.id < c.id) xs
    → All
        (λ x. revision_of c.user_id c.logical_id x ≡ true → is_active x.lifecycle_state ≡ false)
        xs
    → IsRetained c
    → IsSound (xs ++ c ∷ [])
unfolding count
IsSound-append c xs s fresh free r = record {
  ids = λ i. rw count-append (elim (Bool-cases (asset_is i c)) [
    | inr n ↦ ground (arith, s.ids i)
    | inl y ↦
        ground (arith, count_zero (asset_is i) xs (All-mono _ _ xs (λ x h. ground arith) fresh))
  ]);
  one_active = λ user logical. rw count-append (elim (Bool-cases (revision_of user logical c)) [
    | inr n ↦ ground (arith, s.one_active user logical)
    | inl y ↦ ground (
      arith,
      count_zero (active_of user logical) xs
          (All-mono _ _ xs (λ x h. free_row user logical x c y h) free),
    )
  ]);
  retention = All-append IsRetained xs (c ∷ []) s.retention (r, tt);
}
