-- ===== src/Lifecycle/Drawn.antt =====
-- What a move to trash leaves alone: a predicate that its two writes keep, it keeps.
use drivebound_storage.Base.{
  ℕ, ◌+◌, ◌*◌, ◌<◌, Option, none, some, List, Text, Bool-cases, All, All-update, scalar, ltb, inl,
  inr, ◌==◌,
}
use drivebound_storage.Base.Fault.{◌>>=◌}
use drivebound_storage.Host.{Host}
use drivebound_storage.Catalog.{LifecycleState, active, Asset, Policy, Db, asset_is, asset_trashed}
use drivebound_storage.Lifecycle.{
  day, policy_or_new, storage_policy, days_or, trash_row, trash_for, trash_active, trash_locked,
  trash_found, trash_asset, audit, set_assets,
}

-- The ids in use are below the next one to be drawn.
abbrev pub Fresh : Db → Type 0
Fresh db = All (λ a. a.id < db.next_id) db.assets

module _ (w : Host) (now : ℕ) (actor : Text) (retention : Option ℕ) (P : Db → Type 0)
    (policies : (db : Db) (ps : List Policy) → P db → P (record db { policies = ps }))
    (row : (a : Asset) (days : ℕ) (db : Db)
      → P db
      → P (
          audit a.user_id
            (asset_trashed a.id a.logical_id (now + days * day) actor)
            (set_assets (asset_is a.id) (trash_row now days actor) db))) where
  trash_for-keeps : (a : Asset) (days : ℕ) (db : Db) → P db → P (trash_for now actor a days db).1
  unfolding trash_for
  trash_for-keeps a days db h = elim (Bool-cases (ltb days 1)) [
    | inl short ↦ rw short h
    | inr long ↦ rw long (row a days db h)
  ]

  trash_active-keeps : (a : Asset) (db : Db) → P db → P (trash_active w now actor retention a db).1
  unfolding trash_active storage_policy policy_or_new
  trash_active-keeps a db h = go (scalar (λ p. p.user_id == a.user_id) db.policies)
    where
      go :
          (o : Option Policy)
          → P
              ((policy_or_new w a.user_id o >>= λ policy.
                  trash_for now actor a (days_or retention policy.retention_days))
                db).1
      go none = trash_for-keeps a _ _ (policies db _ h)
      go (some p) = trash_for-keeps a _ db h

  trash_locked-keeps :
      (a : Asset) (s : LifecycleState) (db : Db)
      → P db
      → P (trash_locked w now actor retention a s db).1
  unfolding trash_locked
  trash_locked-keeps a active db h = trash_active-keeps a db h
  trash_locked-keeps a _ db h = h

  trash_found-keeps :
      (o : Option Asset) (db : Db) → P db → P (trash_found w now actor retention o db).1
  unfolding trash_found
  trash_found-keeps none db h = h
  trash_found-keeps (some a) db h = trash_locked-keeps a a.lifecycle_state db h

  pub trash_asset-keeps : (i : ℕ) (db : Db) → P db → P (trash_asset w now actor retention i db).1
  unfolding trash_asset
  trash_asset-keeps i db h = trash_found-keeps _ db h

pub trash_asset-Fresh :
    (w : Host) (now : ℕ) (actor : Text) (retention : Option ℕ) (i : ℕ) (db : Db)
    → Fresh db
    → Fresh (trash_asset w now actor retention i db).1
unfolding audit trash_row
trash_asset-Fresh w now actor retention i db h =
    trash_asset-keeps w now actor retention Fresh (λ db ps h. h)
      (λ a days db h.
        All-update _ _ (asset_is a.id) (trash_row now days actor) db.assets (λ x k q. k)
          (λ x k q. k) h)
      i db h
