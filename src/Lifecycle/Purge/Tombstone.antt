-- ===== src/Lifecycle/Purge/Tombstone.antt =====
-- The purged revision's own row: deleted only when every removal went through, kept otherwise.
use drivebound_storage.Base.{
  ℕ, ◌≡◌, ◌⊎◌, inl, inr, refl, ap, sym, ◌∙◌, Bool, true, false, not, Text, ◌==◌, arith, All,
  All-every, All-scalars, Bool-cases, scalars, delete_rows, update,
}
use drivebound_storage.Base.Fault.{Result, ok, err, ok-injective}
use drivebound_storage.Host.{Host, require_storage}
use drivebound_storage.Catalog.{Asset, PathKind, Db, asset_is}
use drivebound_storage.Catalog.References.{Excluding}
use drivebound_storage.Catalog.Unlink.{Area, safely_unlink_catalog_path}
use drivebound_storage.Lifecycle.{audit, set_assets}
use drivebound_storage.Lifecycle.Purge.{
  Attempt, goes_on, stops, Purged, remove_path, remove_bytes, finish_purge, purge_checked,
  purging_row, purge_roles, is_due, safely_purge_asset,
}
use drivebound_storage.Lifecycle.Purge.Steps.{remove_bytes_rule}
use drivebound_storage.Lifecycle.Purge.Safety.{unlink_tables, settle_tables}

-- two states with the same assets
record SameAssets (before after : Db) : Type 1 where
  assets : after.assets ≡ before.assets

remove_path-assets :
    (w : Host) (a : Asset) (kind : PathKind) (collect : Bool) (path : Text) (area : Area)
    (ex : Excluding) (db : Db)
    → (remove_path w a kind collect path area ex db).1.assets ≡ db.assets
unfolding remove_path
remove_path-assets w a kind collect path area ex db =
    let (r, mid) = safely_unlink_catalog_path w path area ex db in
    (settle_tables a kind collect r mid).0 ∙ (unlink_tables w path area ex db).0

pub remove_bytes-assets :
    (w : Host) (a : Asset) (collect : Bool) (db : Db)
    → (remove_bytes w a collect db).1.assets ≡ db.assets
remove_bytes-assets w a collect db =
    (remove_bytes_rule w a (scalars (λ r. r.asset_id == a.id) db.replicas) SameAssets
      (λ x. record { assets = refl }) (λ x y z f g. record { assets = g.assets ∙ f.assets })
      (λ kind collect path area ex d _. record {
        assets = remove_path-assets w a kind collect path area ex d;
      })
      (λ r d _. record { assets = refl }) collect db (λ r row. row)).assets

-- What the answer says about the rows with the id of `a`.
abbrev pub Settled : Asset → Db → Purged × Db → Type 0
Settled a before (p, after) =
    ((p.purged ≡ true) × All (λ x. asset_is a.id x ≡ false) after.assets)
    ⊎ ((p.purged ≡ false) × (after.assets ≡ before.assets))

finish_purge-Settled : (a : Asset) (x : Attempt × Db) → Settled a x.1 (finish_purge a x)
unfolding finish_purge delete_rows audit
finish_purge-Settled a (stops kinds, db) = inr (refl, refl)
finish_purge-Settled a (goes_on, db) = inl (
  refl,
  All-scalars (λ x. asset_is a.id x ≡ false) (λ x. not (asset_is a.id x)) db.assets
      (All-every _ db.assets (λ x h. ground arith)),
)

purge_checked-Settled :
    (w : Host) (collect : Bool) (a : Asset) (r : Result (Unit {0})) (db : Db) (p : Purged)
    → (purge_checked w collect a r db).0 ≡ ok p
    → Settled a (set_assets (asset_is a.id) purging_row db) (p, (purge_checked w collect a r db).1)
unfolding purge_checked
purge_checked-Settled w collect a (err f) db p h = cc
purge_checked-Settled w collect a (ok _) db p h =
    let marked = set_assets (asset_is a.id) purging_row db in
    let x = remove_bytes w a collect marked in
    let same : (finish_purge a x).0 ≡ p = ok-injective (finish_purge a x).0 p h in
    elim (finish_purge-Settled a x) [
      | inl (done, gone) ↦ inl (ap (λ (q : Purged). q.purged) (sym same) ∙ done, gone)
      | inr (failed, kept) ↦ inr (
        ap (λ (q : Purged). q.purged) (sym same) ∙ failed,
        kept ∙ remove_bytes-assets w a collect marked,
      )
    ]

-- A purge that answers True has deleted every row of the revision. One that answers False for a due
-- revision has deleted no asset row and has marked the revision's rows as `purging`, so that a
-- later pass takes it up again. A revision that is not due is left alone with the whole database.
pub safely_purge_asset_answer :
    (w : Host) (now : ℕ) (collect : Bool) (a : Asset) (db : Db) (p : Purged)
    → (safely_purge_asset w now collect a db).0 ≡ ok p
    → let after = (safely_purge_asset w now collect a db).1 in
      ((is_due now a ≡ false) × (p.purged ≡ false) × (after ≡ db))
      ⊎ ((is_due now a ≡ true)
          × (p.purged ≡ true)
          × All (λ x. asset_is a.id x ≡ false) after.assets)
      ⊎ ((is_due now a ≡ true)
          × (p.purged ≡ false)
          × (after.assets ≡ update (asset_is a.id) purging_row db.assets))
unfolding safely_purge_asset
safely_purge_asset_answer w now collect a db p h = elim (Bool-cases (is_due now a)) [
  | inr early ↦
      inl (early, ap (λ (q : Purged). q.purged) (sym (ok-injective _ p (rw early at h))), rw early)
  | inl y ↦
      elim (purge_checked-Settled w collect a (require_storage w purge_roles) db p (rw y at h)) [
        | inl (done, gone) ↦ inr (inl (y, done, rw y gone))
        | inr (failed, kept) ↦ inr (inr (y, failed, rw y kept))
      ]
]
