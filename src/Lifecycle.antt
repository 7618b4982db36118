-- ===== src/Lifecycle.antt =====
-- backend/app/services/lifecycle.py: trash, restore and rollback of immutable revisions. The row
-- that a caller passes is read again under its lock first, so its id, account and file are what
-- counts. `now` is `datetime.now(timezone.utc)`; a row lock and a flush change no row.
pub mod Drawn
pub mod Purge
pub mod Invariant
pub mod Revisions
pub mod Trash
pub mod Rollback
pub mod Current
use drivebound_storage.Base.{
  ℕ, ◌+◌, ◌*◌, Bool, true, false, ◌&&◌, ◌||◌, not, Option, none, some, List, [], ◌∷◌, ◌++◌, map,
  Text, ◌==◌, ltb, if◌then◌else◌, scalar, scalars, update, order_by, take, is_some,
}
use drivebound_storage.Base.Fault.{
  Fault, Result, ok, err, Exec, pure, raise, ◌>>=◌, ◌>>◌, asset_missing, not_active_revision,
  retention_too_short, account_unavailable, not_in_trash, newer_revision_active, not_in_history,
  current_not_active, restore_trashed_first, target_being_deleted,
}
use drivebound_storage.Host.{Host}
use drivebound_storage.Catalog.{
  is_trashed, LifecycleState, active, superseded, trashed, purging, Asset, User, Policy, Audit,
  AuditDetail, event_of, asset_trashed, asset_restored, asset_rolled_back, Db, is_active, asset_is,
  revision_of,
}

-- one day, in microseconds
abbrev pub day : ℕ
day = 86400000000

policy_or_new : Host → ℕ → Option Policy → Exec Db Policy
policy_or_new w user (some policy) db = (ok policy, db)
policy_or_new w user none db =
    let policy : Policy = record {
      user_id = user;
      desired_replica_count = 1;
      retention_days = w.lifecycle_retention_days;
      balance_threshold_percent = 12;
      backup_retention_days = w.database_backup_retention_days;
    } in
    (ok policy, record db { policies = db.policies ++ policy ∷ [] })

unfoldable pub storage_policy : Host → ℕ → Exec Db Policy
unfolding policy_or_new
storage_policy w user db = policy_or_new w user (scalar (λ p. p.user_id == user) db.policies) db

unfoldable pub audit : ℕ → AuditDetail → Db → Db
audit user detail db = record db {
  audits =
      db.audits
      ++ record { user_id = some user; event_type = event_of detail; detail = some detail } ∷ [];
}

-- An assignment to the fields of the rows that `p` picks.
abbrev pub set_assets : (Asset → Bool) → (Asset → Asset) → Db → Db
set_assets p f db = record db { assets = update p f db.assets }

unfoldable pub trash_row : ℕ → ℕ → Text → Asset → Asset
trash_row now days actor a = record a {
  lifecycle_state = trashed;
  trashed_at = some now;
  purge_after = some (now + days * day);
  deleted_by = some (take 128 actor);
}

abbrev days_or : Option ℕ → ℕ → ℕ
days_or none days = days
days_or (some days) _ = days

-- the part of `trash_asset` behind the policy
trash_for : ℕ → Text → Asset → ℕ → Exec Db Asset
unfolding trash_row audit
trash_for now actor a days db = if ltb days 1 then (err retention_too_short, db) else (
  ok (trash_row now days actor a),
  audit a.user_id (asset_trashed a.id a.logical_id (now + days * day) actor)
      (set_assets (asset_is a.id) (trash_row now days actor) db),
)

trash_active : Host → ℕ → Text → Option ℕ → Asset → Exec Db Asset
unfolding storage_policy trash_for
trash_active w now actor retention a = storage_policy w a.user_id >>= λ policy.
    trash_for now actor a (days_or retention policy.retention_days)

trash_locked : Host → ℕ → Text → Option ℕ → Asset → LifecycleState → Exec Db Asset
unfolding trash_active
trash_locked w now actor retention a trashed = pure a
trash_locked w now actor retention a active = trash_active w now actor retention a
trash_locked w now actor retention a _ = raise not_active_revision

trash_found : Host → ℕ → Text → Option ℕ → Option Asset → Exec Db Asset
unfolding trash_locked
trash_found w now actor retention none = raise asset_missing
trash_found w now actor retention (some a) = trash_locked w now actor retention a a.lifecycle_state

unfoldable pub trash_asset : Host → ℕ → Text → Option ℕ → ℕ → Exec Db Asset
unfolding trash_found
trash_asset w now actor retention asset_id db =
    trash_found w now actor retention (scalar (asset_is asset_id) db.assets) db

-- the query for an account that may be written to
unfoldable pub active_user : ℕ → Db → Option User
active_user user db = scalar (λ u. u.id == user && not (is_some u.disabled_at)) db.users

-- the revisions of a file, in the order in which they are locked
unfoldable pub revisions_of : ℕ → ℕ → Db → List Asset
revisions_of user logical db = order_by (λ a. a.id) (scalars (revision_of user logical) db.assets)

abbrev another_active : ℕ → Asset → Bool
another_active i a = is_active a.lifecycle_state && not (a.id == i)

pub activate_row : Asset → Asset
activate_row a = record a {
  lifecycle_state = active;
  trashed_at = none;
  purge_after = none;
  deleted_by = none;
}

restore_row : Text → Asset → Exec Db Asset
unfolding activate_row audit
restore_row actor a db = (
  ok (activate_row a),
  audit a.user_id (asset_restored a.id a.logical_id actor)
      (set_assets (asset_is a.id) activate_row db),
)

restore_found : Text → List Asset → Option Asset → Exec Db Asset
unfolding restore_row
restore_found actor revisions none = raise asset_missing
restore_found actor revisions (some a) =
    if is_trashed a.lifecycle_state
    then (if is_some (scalar (another_active a.id) revisions)
        then raise newer_revision_active
        else restore_row actor a)
    else raise not_in_trash

unfoldable pub restore_asset_from_trash : Text → Asset → Exec Db Asset
unfolding active_user revisions_of restore_found
restore_asset_from_trash actor asset db =
    if is_some (active_user asset.user_id db)
    then (let revisions = revisions_of asset.user_id asset.logical_id db in
        restore_found actor revisions (scalar (asset_is asset.id) revisions) db)
    else (err account_unavailable, db)

unfoldable pub supersede_row : ℕ → Asset → Asset
supersede_row now a = record a { lifecycle_state = superseded; superseded_at = some now }

pub rollback_row : Asset → Asset
rollback_row a = record a {
  lifecycle_state = active;
  superseded_at = none;
  trashed_at = none;
  purge_after = none;
  deleted_by = none;
}

-- the revisions that the rollback takes out of use
abbrev pub to_supersede : Asset → Asset → Bool
to_supersede target a = revision_of target.user_id target.logical_id a && another_active target.id a

rollback_rows : ℕ → Text → List ℕ → Asset → Exec Db Asset
unfolding supersede_row rollback_row audit
rollback_rows now actor previous target db =
    let superseded_db = set_assets (to_supersede target) (supersede_row now) db in
    (
      ok (rollback_row target),
      audit target.user_id (asset_rolled_back previous target.id target.logical_id actor)
          (set_assets (asset_is target.id) rollback_row superseded_db),
    )

rollback_previous : ℕ → Text → Asset → List ℕ → Exec Db Asset
unfolding rollback_rows
rollback_previous now actor target [] db =
    if is_active target.lifecycle_state
    then (ok target, db)
    else rollback_rows now actor [] target db
rollback_previous now actor target (i ∷ is) db = rollback_rows now actor (i ∷ is) target db

rollback_allowed : ℕ → Text → List Asset → Asset → Exec Db Asset
unfolding rollback_previous
rollback_allowed now actor revisions target =
    rollback_previous now actor target
      (map (λ a. a.id) (scalars (another_active target.id) revisions))

rollback_target : ℕ → Text → List Asset → Asset → LifecycleState → Exec Db Asset
unfolding rollback_allowed
rollback_target now actor revisions target active = rollback_allowed now actor revisions target
rollback_target now actor revisions target superseded = rollback_allowed now actor revisions target
rollback_target now actor revisions target trashed = raise restore_trashed_first
rollback_target now actor revisions target purging = raise target_being_deleted

rollback_found : ℕ → Text → List Asset → Option Asset → Option Asset → Exec Db Asset
unfolding rollback_target
rollback_found now actor revisions (some current) (some target) =
    if current.user_id == target.user_id && current.logical_id == target.logical_id
    then (if is_active current.lifecycle_state
        then rollback_target now actor revisions target target.lifecycle_state
        else raise current_not_active)
    else raise not_in_history
rollback_found now actor revisions _ _ = raise not_in_history

unfoldable pub rollback_asset : ℕ → Text → Asset → Asset → Exec Db Asset
unfolding active_user revisions_of rollback_found
rollback_asset now actor current target db =
    if is_some (active_user target.user_id db)
    then (let revisions = revisions_of target.user_id target.logical_id db in
        rollback_found now actor revisions (scalar (asset_is current.id) revisions)
          (scalar (asset_is target.id) revisions) db)
    else (err account_unavailable, db)
