-- ===== src/Lifecycle/Trash.antt =====
-- `trash_asset` and `restore_asset_from_trash`: what they do to the revisions of a file.
use drivebound_storage.Base.{
  ℕ, ◌≤◌, ◌≡◌, ◌⊎◌, inl, inr, refl, Bool, true, false, Option, none, some, List, Text, ◌==◌, arith,
  Bool-cases, Option-cases, is_some, scalar, scalar-none, All, All-mono, All-zip, All-every, update,
  leb,
}
use drivebound_storage.Base.Fault.{Result, ok}
use drivebound_storage.Host.{Host}
use drivebound_storage.Catalog.{
  is_trashed, LifecycleState, active, trashed, Asset, Policy, Db, asset_is, revision_of,
}
use drivebound_storage.Lifecycle.{
  policy_or_new, storage_policy, trash_row, days_or, trash_for, trash_active, trash_locked,
  trash_found, trash_asset, activate_row, restore_found, restore_asset_from_trash, active_user,
  revisions_of, another_active,
}
use drivebound_storage.Lifecycle.Invariant.{
  IsSound, IsRetained, SameKey, Alone, IsSound-deactivate, IsSound-activate,
}
use drivebound_storage.Lifecycle.Revisions.{All-revisions_of, found_revision, found_unique}

-- `storage_policy` touches no asset.
pub assets-storage_policy :
    (w : Host) (user : ℕ) (db : Db)
    → (p : Policy) × ((storage_policy w user db).0 ≡ ok p)
      × ((storage_policy w user db).1.assets ≡ db.assets)
unfolding storage_policy
assets-storage_policy w user db = go (scalar (λ p. p.user_id == user) db.policies)
  where
    go :
        (o : Option Policy)
        → (p : Policy) × ((policy_or_new w user o db).0 ≡ ok p)
          × ((policy_or_new w user o db).1.assets ≡ db.assets)
    go none = (_, refl, refl)
    go (some p) = (p, refl, refl)

-- A call leaves the assets as they were, or moves the active revision of that id to trash for at
-- least one day.
abbrev TrashOutcome : ℕ → Text → List Asset → Option Asset → Result Asset × Db → Type 0
TrashOutcome now actor before found (r, db') =
    (db'.assets ≡ before)
    ⊎ ((a : Asset) × (days : ℕ) × (found ≡ some a)
        × (a.lifecycle_state ≡ active)
        × (1 ≤ days)
        × (r ≡ ok (trash_row now days actor a))
        × (db'.assets ≡ update (asset_is a.id) (trash_row now days actor) before))

trash_active-outcome :
    (w : Host) (now : ℕ) (actor : Text) (retention : Option ℕ) (a : Asset) (db : Db)
    → a.lifecycle_state ≡ active
    → TrashOutcome now actor db.assets (some a) (trash_active w now actor retention a db)
unfolding trash_active trash_for
trash_active-outcome w now actor retention a db h =
    let (p, got, same) = assets-storage_policy w a.user_id db in
    elim (Bool-cases (leb 1 (days_or retention p.retention_days))) [
      | inl long ↦ inr (
        a,
        days_or retention p.retention_days,
        refl,
        h,
        ground arith,
        ground (arith, got),
        ground (arith, got, same),
      )
      | inr short ↦ inl (ground (arith, got, same))
    ]

trash_locked-outcome :
    (w : Host) (now : ℕ) (actor : Text) (retention : Option ℕ) (a : Asset) (s : LifecycleState)
    (db : Db)
    → a.lifecycle_state ≡ s
    → TrashOutcome now actor db.assets (some a) (trash_locked w now actor retention a s db)
unfolding trash_locked
trash_locked-outcome w now actor retention a active db h =
    trash_active-outcome w now actor retention a db h
trash_locked-outcome w now actor retention a _ db h = inl refl

trash_asset-outcome :
    (w : Host) (now : ℕ) (actor : Text) (retention : Option ℕ) (i : ℕ) (db : Db)
    → TrashOutcome now actor db.assets
        (scalar (asset_is i) db.assets)
        (trash_asset w now actor retention i db)
unfolding trash_asset
trash_asset-outcome w now actor retention i db = go (scalar (asset_is i) db.assets)
  where
    go :
        (o : Option Asset)
        → TrashOutcome now actor db.assets o (trash_found w now actor retention o db)
    go none = inl refl
    go (some a) = trash_locked-outcome w now actor retention a a.lifecycle_state db refl

trash_row-SameKey :
    (now days : ℕ) (actor : Text) (a : Asset) → SameKey a (trash_row now days actor a)
unfolding trash_row
trash_row-SameKey now days actor a = (refl, refl, refl)

trash_row-IsSound :
    (now days : ℕ) (actor : Text) (p : Asset → Bool) (xs : List Asset)
    → IsSound xs
    → IsSound (update p (trash_row now days actor) xs)
unfolding trash_row
trash_row-IsSound now days actor p xs s =
    IsSound-deactivate p (trash_row now days actor) (trash_row-SameKey now days actor) xs s
      (All-every _ xs (λ x e k. cc)) (All-every _ xs (λ x e. refl))

-- Moving to trash keeps the constraints of the assets table, whether it succeeds or raises.
pub trash_asset-IsSound :
    (w : Host) (now : ℕ) (actor : Text) (retention : Option ℕ) (i : ℕ) (db : Db)
    → IsSound db.assets
    → IsSound (trash_asset w now actor retention i db).1.assets
trash_asset-IsSound w now actor retention i db s =
    elim (trash_asset-outcome w now actor retention i db) [
      | inl same ↦ rw same s
      | inr (a, days, _, _, _, _, changed) ↦
          rw changed (trash_row-IsSound now days actor (asset_is a.id) db.assets s)
    ]

-- A call leaves the assets as they were, or makes the trashed revision active that has that id and
-- belongs to a file with no other active revision.
abbrev RestoreOutcome : Asset → List Asset → List Asset → Result Asset × Db → Type 0
RestoreOutcome asset before revisions (r, db') =
    (db'.assets ≡ before)
    ⊎ ((a : Asset) × (scalar (asset_is asset.id) revisions ≡ some a)
        × (a.lifecycle_state ≡ trashed)
        × (scalar (another_active a.id) revisions ≡ none)
        × (r ≡ ok (activate_row a))
        × (db'.assets ≡ update (asset_is a.id) activate_row before))

trashed-cases : (s : LifecycleState) → (s ≡ trashed) ⊎ (is_trashed s ≡ false)
trashed-cases trashed = inl refl
trashed-cases _ = inr refl

restore_found-outcome :
    (actor : Text) (asset : Asset) (revisions : List Asset) (o : Option Asset) (db : Db)
    → scalar (asset_is asset.id) revisions ≡ o
    → RestoreOutcome asset db.assets revisions (restore_found actor revisions o db)
unfolding restore_found
restore_found-outcome actor asset revisions none db e = inl refl
restore_found-outcome actor asset revisions (some a) db e =
    elim (Option-cases (scalar (another_active a.id) revisions)) [
      | inr (b, other) ↦ inl (ground (arith, other))
      | inl alone ↦ elim (trashed-cases a.lifecycle_state) [
        | inl t ↦ inr (a, e, t, alone, ground (arith, alone, t), ground (arith, alone, t))
        | inr n ↦ inl (ground (arith, n))
      ]
    ]

restore-outcome :
    (actor : Text) (asset : Asset) (db : Db)
    → RestoreOutcome asset db.assets
        (revisions_of asset.user_id asset.logical_id db)
        (restore_asset_from_trash actor asset db)
unfolding restore_asset_from_trash
restore-outcome actor asset db = elim (Bool-cases (is_some (active_user asset.user_id db))) [
  | inl y ↦ rw y (
      restore_found-outcome actor asset (revisions_of asset.user_id asset.logical_id db)
        (scalar (asset_is asset.id) (revisions_of asset.user_id asset.logical_id db)) db refl)
  | inr n ↦ inl (rw n)
]

id-activate_row : (a : Asset) → (activate_row a).id ≡ a.id
unfolding activate_row
id-activate_row a = refl

activate_row-IsRetained : (a : Asset) → IsRetained (activate_row a)
unfolding activate_row
activate_row-IsRetained a = refl

-- Every row of the file but `a` is inactive, and `a` is the only row with its id.
revision-Alone :
    (user logical : ℕ) (p : Asset → Bool) (a : Asset) (db : Db)
    → IsSound db.assets
    → scalar p (revisions_of user logical db) ≡ some a
    → All (λ x. another_active a.id x ≡ false) (revisions_of user logical db)
    → All (Alone activate_row id-activate_row a) db.assets
unfolding activate_row
revision-Alone user logical p a db s found alone =
    let here = found_revision user logical db p a found in
    All-mono _ _ db.assets
      (λ x
          (k : (asset_is a.id x ≡ true → x ≡ a)
            × (revision_of user logical x ≡ true → another_active a.id x ≡ false)).
        (k.0, λ e n. ground (arith, k.1, here)))
      (All-zip _ _ db.assets (found_unique user logical p a db s found)
        (All-revisions_of user logical db _ alone))

-- Restoring from trash keeps the constraints of the assets table: in particular, no file gets a
-- second active revision.
pub restore_asset_from_trash-IsSound :
    (actor : Text) (asset : Asset) (db : Db)
    → IsSound db.assets
    → IsSound (restore_asset_from_trash actor asset db).1.assets
restore_asset_from_trash-IsSound actor asset db s = elim (restore-outcome actor asset db) [
  | inl same ↦ rw same s
  | inr (a, found, _, alone, _, changed) ↦ rw changed (
      IsSound-activate activate_row id-activate_row a db.assets s
        (revision-Alone asset.user_id asset.logical_id (asset_is asset.id) a db s found
          (scalar-none (another_active a.id) _ alone))
        (All-every _ db.assets (λ x _. activate_row-IsRetained x)))
]
