-- ===== src/Lifecycle/Rollback.antt =====
-- `rollback_asset`: what it does to the revisions of a file.
use drivebound_storage.Base.{
  ℕ, ◌≡◌, ◌⊎◌, inl, inr, refl, true, ◌&&◌, Option, none, some, List, [], ◌∷◌, Text, ◌==◌, arith,
  Bool-cases, is_some, scalar, All, All-mono, All-every, All-update, update,
}
use drivebound_storage.Base.Fault.{Result, ok}
use drivebound_storage.Catalog.{LifecycleState, active, superseded, Asset, Db, is_active, asset_is}
use drivebound_storage.Lifecycle.{
  supersede_row, rollback_row, to_supersede, rollback_previous, rollback_allowed, rollback_target,
  rollback_found, rollback_asset, active_user, revisions_of,
}
use drivebound_storage.Lifecycle.Invariant.{
  IsSound, IsRetained, SameKey, Alone, IsSound-deactivate, IsSound-activate,
}
use drivebound_storage.Lifecycle.Revisions.{found_unique}

-- the assets after the rollback to `target`
abbrev pub rolled_back : ℕ → Asset → List Asset → List Asset
rolled_back now target xs =
    update (asset_is target.id) rollback_row (update (to_supersede target) (supersede_row now) xs)

-- A call leaves the assets as they were, or supersedes every other active revision of the file and
-- makes the target active, which was active or superseded.
abbrev RollbackOutcome : ℕ → Asset → List Asset → List Asset → Result Asset × Db → Type 0
RollbackOutcome now wanted before revisions (r, db') =
    (db'.assets ≡ before)
    ⊎ ((target : Asset) × (scalar (asset_is wanted.id) revisions ≡ some target)
        × (r ≡ ok (rollback_row target))
        × (db'.assets ≡ rolled_back now target before))

rollback_previous-outcome :
    (now : ℕ) (actor : Text) (wanted target : Asset) (revisions : List Asset) (previous : List ℕ)
    (db : Db)
    → scalar (asset_is wanted.id) revisions ≡ some target
    → RollbackOutcome now wanted db.assets revisions
        (rollback_previous now actor target previous db)
unfolding rollback_previous
rollback_previous-outcome now actor wanted target revisions [] db found =
    elim (Bool-cases (is_active target.lifecycle_state)) [
      | inl y ↦ inl (rw y)
      | inr n ↦ inr (target, found, rw n, rw n)
    ]
rollback_previous-outcome now actor wanted target revisions (i ∷ is) db found =
    inr (target, found, refl, refl)

rollback_target-outcome :
    (now : ℕ) (actor : Text) (wanted target : Asset) (revisions : List Asset) (s : LifecycleState)
    (db : Db)
    → scalar (asset_is wanted.id) revisions ≡ some target
    → RollbackOutcome now wanted db.assets revisions
        (rollback_target now actor revisions target s db)
unfolding rollback_target rollback_allowed
rollback_target-outcome now actor wanted target revisions active db found =
    rollback_previous-outcome now actor wanted target revisions _ db found
rollback_target-outcome now actor wanted target revisions superseded db found =
    rollback_previous-outcome now actor wanted target revisions _ db found
rollback_target-outcome now actor wanted target revisions _ db found = inl refl

rollback_found-outcome :
    (now : ℕ) (actor : Text) (wanted : Asset) (revisions : List Asset) (c t : Option Asset)
    (db : Db)
    → scalar (asset_is wanted.id) revisions ≡ t
    → RollbackOutcome now wanted db.assets revisions (rollback_found now actor revisions c t db)
unfolding rollback_found
rollback_found-outcome now actor wanted revisions (some current) (some target) db found =
    elim (Bool-cases
      (current.user_id == target.user_id && current.logical_id == target.logical_id)) [
        | inr n ↦ inl (rw n)
        | inl y ↦ rw y (elim (Bool-cases (is_active current.lifecycle_state)) [
          | inr n ↦ inl (rw n)
          | inl a ↦ rw a (
              rollback_target-outcome now actor wanted target revisions target.lifecycle_state db
                found)
        ])
      ]
rollback_found-outcome now actor wanted revisions none t db found = inl refl
rollback_found-outcome now actor wanted revisions (some current) none db found = inl refl

rollback-outcome :
    (now : ℕ) (actor : Text) (current target : Asset) (db : Db)
    → RollbackOutcome now target db.assets
        (revisions_of target.user_id target.logical_id db)
        (rollback_asset now actor current target db)
unfolding rollback_asset
rollback-outcome now actor current target db =
    elim (Bool-cases (is_some (active_user target.user_id db))) [
      | inl y ↦ rw y (
          rollback_found-outcome now actor target (revisions_of target.user_id target.logical_id db)
            _ _ db refl)
      | inr n ↦ inl (rw n)
    ]

supersede_row-SameKey : (now : ℕ) (a : Asset) → SameKey a (supersede_row now a)
unfolding supersede_row
supersede_row-SameKey now a = (refl, refl, refl)

id-rollback_row : (a : Asset) → (rollback_row a).id ≡ a.id
unfolding rollback_row
id-rollback_row a = refl

rollback_row-IsRetained : (a : Asset) → IsRetained (rollback_row a)
unfolding rollback_row
rollback_row-IsRetained a = refl

-- a revision that the rollback supersedes was active, so its retention columns stay right
superseded-IsSound :
    (now : ℕ) (target : Asset) (xs : List Asset)
    → IsSound xs
    → IsSound (update (to_supersede target) (supersede_row now) xs)
unfolding supersede_row
superseded-IsSound now target xs s =
    IsSound-deactivate (to_supersede target) (supersede_row now) (supersede_row-SameKey now) xs s
      (All-every _ xs (λ x e k. cc)) (All-mono _ _ xs (λ x r e. ground (arith, r)) s.retention)

superseded-Alone :
    (now : ℕ) (wanted target : Asset) (db : Db)
    → IsSound db.assets
    → scalar (asset_is wanted.id) (revisions_of wanted.user_id wanted.logical_id db) ≡ some target
    → All
        (Alone rollback_row id-rollback_row target)
        (update (to_supersede target) (supersede_row now) db.assets)
unfolding supersede_row rollback_row
superseded-Alone now wanted target db s found =
    let only =
      found_unique wanted.user_id wanted.logical_id (asset_is wanted.id) target db s found in
    All-update (λ x. asset_is target.id x ≡ true → x ≡ target) _ (to_supersede target)
      (supersede_row now) db.assets (λ x h q. (λ e. absurd (ground arith), λ _ _. refl))
      (λ x h q. (h, λ r n. ground arith)) only

-- A rollback keeps the constraints of the assets table, whether it succeeds or raises.
pub rollback_asset-IsSound :
    (now : ℕ) (actor : Text) (current target : Asset) (db : Db)
    → IsSound db.assets
    → IsSound (rollback_asset now actor current target db).1.assets
rollback_asset-IsSound now actor current wanted db s =
    elim (rollback-outcome now actor current wanted db) [
      | inl same ↦ rw same s
      | inr (target, found, _, changed) ↦ rw changed (
          IsSound-activate rollback_row id-rollback_row target
            (update (to_supersede target) (supersede_row now) db.assets)
            (superseded-IsSound now target db.assets s)
            (superseded-Alone now wanted target db s found)
            (All-every _ _ (λ x _. rollback_row-IsRetained x)))
    ]
