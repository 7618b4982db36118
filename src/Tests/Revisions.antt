-- ===== src/Tests/Revisions.antt =====
-- The theorems on the revisions of a file, at the sample database.
use drivebound_storage.Base.{◌≡◌, refl, none, some, codes, scalar}
use drivebound_storage.Base.Fault.{ok}
use drivebound_storage.Catalog.{active_of}
use drivebound_storage.Lifecycle.{
  trash_asset, restore_asset_from_trash, rollback_asset, rollback_row, active_user,
}
use drivebound_storage.Lifecycle.Invariant.{IsSound}
use drivebound_storage.Lifecycle.Trash.{trash_asset-IsSound, restore_asset_from_trash-IsSound}
use drivebound_storage.Lifecycle.Rollback.{rollback_asset-IsSound}
use drivebound_storage.Lifecycle.Current.{IsRollback, rollback_asset_current}
use drivebound_storage.Tests.Samples.{
  plain_host, old_asset, new_asset, gone_asset, user, db, db-IsSound,
}

trash_asset-IsSound_example : IsSound (trash_asset plain_host 100 (codes "ada") none 2 db).1.assets
trash_asset-IsSound_example = trash_asset-IsSound plain_host 100 (codes "ada") none 2 db db-IsSound

restore_asset_from_trash-IsSound_example :
    IsSound (restore_asset_from_trash (codes "ada") gone_asset db).1.assets
restore_asset_from_trash-IsSound_example =
    restore_asset_from_trash-IsSound (codes "ada") gone_asset db db-IsSound

rollback_asset-IsSound_example :
    IsSound (rollback_asset 100 (codes "ada") new_asset old_asset db).1.assets
rollback_asset-IsSound_example =
    rollback_asset-IsSound 100 (codes "ada") new_asset old_asset db db-IsSound

allowed : IsRollback new_asset old_asset user db
unfolding active_user scalar
allowed = record {
  enabled = refl;
  sound = db-IsSound;
  current_row = refl;
  target_row = refl;
  same_user = refl;
  same_file = refl;
  current_active = refl;
  target_superseded = refl;
}

rollback_asset_current_example :
    let (r, after) = rollback_asset 100 (codes "ada") new_asset old_asset db in
    (r ≡ ok (rollback_row old_asset))
    × IsSound after.assets
    × (scalar (active_of old_asset.user_id old_asset.logical_id) after.assets
        ≡ some (rollback_row old_asset))
rollback_asset_current_example =
    rollback_asset_current 100 (codes "ada") new_asset old_asset user db allowed
