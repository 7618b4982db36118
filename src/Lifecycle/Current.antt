-- ===== src/Lifecycle/Current.antt =====
-- A rollback that is allowed succeeds, and what is then current.
use drivebound_storage.Base.{
  ℕ, ◌≡◌, refl, ap, true, false, ◌&&◌, some, List, [], ◌∷◌, Text, ◌==◌, ==_refl, arith, scalar, Row,
  Row-scalar, Row-update, scalar-Row,
}
use drivebound_storage.Base.Fault.{ok}
use drivebound_storage.Catalog.{
  LifecycleState, active, superseded, trashed, purging, Asset, User, Db, is_active, asset_is,
  active_of,
}
use drivebound_storage.Lifecycle.{
  supersede_row, rollback_row, to_supersede, rollback_previous, rollback_allowed, rollback_target,
  rollback_found, rollback_asset, active_user,
}
use drivebound_storage.Lifecycle.Invariant.{IsSound}
use drivebound_storage.Lifecycle.Revisions.{scalar-revisions_of}
use drivebound_storage.Lifecycle.Rollback.{rolled_back, rollback_asset-IsSound}

-- The situation of an allowed rollback: the account is enabled, and the two rows stand in the table
-- with the current one active and the target superseded.
pub record IsRollback (current target : Asset) (user : User) (db : Db) : Type 0 where
  pub enabled : active_user target.user_id db ≡ some user
  pub sound : IsSound db.assets
  pub current_row : scalar (asset_is current.id) db.assets ≡ some current
  pub target_row : scalar (asset_is target.id) db.assets ≡ some target
  pub same_user : current.user_id ≡ target.user_id
  pub same_file : current.logical_id ≡ target.logical_id
  pub current_active : current.lifecycle_state ≡ active
  pub target_superseded : target.lifecycle_state ≡ superseded

rollback_previous_rows :
    (now : ℕ) (actor : Text) (target : Asset) (previous : List ℕ) (db : Db)
    → is_active target.lifecycle_state ≡ false
    → ((rollback_previous now actor target previous db).0 ≡ ok (rollback_row target))
      × ((rollback_previous now actor target previous db).1.assets
          ≡ rolled_back now target db.assets)
unfolding rollback_previous
rollback_previous_rows now actor target [] db h = (rw h, rw h)
rollback_previous_rows now actor target (i ∷ is) db h = (refl, refl)

rollback_target_rows :
    (now : ℕ) (actor : Text) (revisions : List Asset) (target : Asset) (s : LifecycleState)
    (db : Db)
    → s ≡ superseded
    → is_active target.lifecycle_state ≡ false
    → ((rollback_target now actor revisions target s db).0 ≡ ok (rollback_row target))
      × ((rollback_target now actor revisions target s db).1.assets
          ≡ rolled_back now target db.assets)
unfolding rollback_target rollback_allowed
rollback_target_rows now actor revisions target superseded db e h =
    rollback_previous_rows now actor target _ db h
rollback_target_rows now actor revisions target active db e h = cc
rollback_target_rows now actor revisions target trashed db e h = cc
rollback_target_rows now actor revisions target purging db e h = cc

rollback_found_rows :
    (now : ℕ) (actor : Text) (current target : Asset) (revisions : List Asset) (db : Db)
    → current.user_id == target.user_id && current.logical_id == target.logical_id ≡ true
    → is_active current.lifecycle_state ≡ true
    → target.lifecycle_state ≡ superseded
    → ((rollback_found now actor revisions (some current) (some target) db).0
        ≡ ok (rollback_row target))
      × ((rollback_found now actor revisions (some current) (some target) db).1.assets
          ≡ rolled_back now target db.assets)
unfolding rollback_found
rollback_found_rows now actor current target revisions db same a t =
    rw (same, a)
      (rollback_target_rows now actor revisions target target.lifecycle_state db t
        (ground (arith, t)))

module _ (now : ℕ) (actor : Text) (current target : Asset) (user : User) (db : Db)
    (s : IsRollback current target user db) where
  rollback_asset_rows :
      ((rollback_asset now actor current target db).0 ≡ ok (rollback_row target))
      × ((rollback_asset now actor current target db).1.assets ≡ rolled_back now target db.assets)
  unfolding rollback_asset
  rollback_asset_rows =
      let found_current =
        scalar-revisions_of target.user_id target.logical_id current.id db current
          (s.sound.ids current.id) s.current_row (ground (arith, s.same_user, s.same_file)) in
      let found_target =
        scalar-revisions_of target.user_id target.logical_id target.id db target
          (s.sound.ids target.id) s.target_row (ground arith) in
      rw (s.enabled, found_current, found_target)
        (rollback_found_rows now actor current target _ db
          (ground (arith, s.same_user, s.same_file)) (ap is_active s.current_active)
          s.target_superseded)

  target_not_superseded : to_supersede target target ≡ false
  target_not_superseded = ground arith

  Row-rolled_back : Row (rollback_row target) (rolled_back now target db.assets)
  Row-rolled_back P h =
      let before = Row-scalar (asset_is target.id) db.assets target s.target_row in
      let step1 = Row-update (to_supersede target) (supersede_row now) db.assets target before in
      let step2 = Row-update (asset_is target.id) rollback_row _ _ step1 P h in
      (rw (target_not_superseded, ==_refl target.id) at step2)

  -- A rollback from the active revision of a file to a superseded one of the same file, for an
  -- enabled account and in a table whose constraints hold, returns the target as active; the
  -- constraints hold afterwards, and the target is what the query for the active revision finds.
  pub rollback_asset_current :
      let (r, db') = rollback_asset now actor current target db in
      (r ≡ ok (rollback_row target))
      × IsSound db'.assets
      × (scalar (active_of target.user_id target.logical_id) db'.assets
          ≡ some (rollback_row target))
  unfolding rollback_row
  rollback_asset_current =
      let (result, rows) = rollback_asset_rows in
      let sound = rollback_asset-IsSound now actor current target db s.sound in
      (
        result,
        sound,
        scalar-Row (active_of target.user_id target.logical_id) _ (rollback_row target)
            (rw rows Row-rolled_back) (ground arith)
            (sound.one_active target.user_id target.logical_id),
      )
