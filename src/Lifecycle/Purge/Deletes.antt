-- ===== src/Lifecycle/Purge/Deletes.antt =====
-- The tables after a purge that went through, and what a purge does to the uploads.
use drivebound_storage.Base.{
  arith, ℕ, ◌≡◌, ◌∙◌, refl, ap, sym, inl, inr, Bool, true, Bool-cases, delete_rows, update, count,
  count_less, count-update, count_mono, All-every, Row, Row-update, ==_refl, ◌<◌, List,
  if◌then◌else◌, scalars, ◌==◌, Text,
}
use drivebound_storage.Base.Fault.{Result, ok, err, ok-injective}
use drivebound_storage.Host.{Host, require_storage}
use drivebound_storage.Catalog.{Asset, PathKind, Db, asset_is}
use drivebound_storage.Catalog.References.{Excluding}
use drivebound_storage.Catalog.Unlink.{Area, safely_unlink_catalog_path}
use drivebound_storage.Lifecycle.Purge.Steps.{remove_bytes_rule}
use drivebound_storage.Lifecycle.Purge.Safety.{unlink_tables, settle_tables}
use drivebound_storage.Lifecycle.{audit, set_assets}
use drivebound_storage.Lifecycle.Purge.{
  remove_path, Attempt, goes_on, stops, Purged, remove_bytes, finish_purge, purge_checked,
  purging_row, purge_roles, is_due, safely_purge_asset,
}
use drivebound_storage.Lifecycle.Purge.Tombstone.{remove_bytes-assets}

finish_purge-deletes :
    (a : Asset) (x : Attempt × Db)
    → (finish_purge a x).0.purged ≡ true
    → (finish_purge a x).1.assets ≡ delete_rows (asset_is a.id) x.1.assets
unfolding finish_purge audit
finish_purge-deletes a (stops kinds, db) h = cc
finish_purge-deletes a (goes_on, db) h = refl

purge_checked-deletes :
    (w : Host) (collect : Bool) (a : Asset) (r : Result (Unit {0})) (db : Db) (p : Purged)
    → (purge_checked w collect a r db).0 ≡ ok p
    → p.purged ≡ true
    → (purge_checked w collect a r db).1.assets
      ≡ delete_rows (asset_is a.id) (update (asset_is a.id) purging_row db.assets)
unfolding purge_checked
purge_checked-deletes w collect a (err f) db p e done = cc
purge_checked-deletes w collect a (ok _) db p e done =
    let marked = set_assets (asset_is a.id) purging_row db in
    let x = remove_bytes w a collect marked in
    let same : (finish_purge a x).0 ≡ p = ok-injective (finish_purge a x).0 p e in
    finish_purge-deletes a x (ap (λ (q : Purged). q.purged) same ∙ done)
    ∙ ap (delete_rows (asset_is a.id)) (remove_bytes-assets w a collect marked)

-- A purge that answers True deletes the rows with the revision's id, and no other asset.
pub safely_purge_asset-deletes :
    (w : Host) (now : ℕ) (collect : Bool) (a : Asset) (db : Db) (p : Purged)
    → (safely_purge_asset w now collect a db).0 ≡ ok p
    → p.purged ≡ true
    → (safely_purge_asset w now collect a db).1.assets
      ≡ delete_rows (asset_is a.id) (update (asset_is a.id) purging_row db.assets)
unfolding safely_purge_asset
safely_purge_asset-deletes w now collect a db p e done = elim (Bool-cases (is_due now a)) [
  | inl y ↦
      rw y (purge_checked-deletes w collect a (require_storage w purge_roles) db p (rw y at e) done)
  | inr early ↦ cc (ap (λ (q : Purged). q.purged) (sym (ok-injective _ p (rw early at e))), done)
]

-- two states with the same uploads
record SameUploads (before after : Db) : Type 1 where
  uploads : after.uploads ≡ before.uploads

remove_path-uploads :
    (w : Host) (a : Asset) (kind : PathKind) (collect : Bool) (path : Text) (area : Area)
    (ex : Excluding) (db : Db)
    → (remove_path w a kind collect path area ex db).1.uploads ≡ db.uploads
unfolding remove_path
remove_path-uploads w a kind collect path area ex db =
    let (r, mid) = safely_unlink_catalog_path w path area ex db in
    (settle_tables a kind collect r mid).2 ∙ (unlink_tables w path area ex db).2

remove_bytes-uploads :
    (w : Host) (a : Asset) (collect : Bool) (db : Db)
    → (remove_bytes w a collect db).1.uploads ≡ db.uploads
remove_bytes-uploads w a collect db =
    (remove_bytes_rule w a (scalars (λ r. r.asset_id == a.id) db.replicas) SameUploads
      (λ x. record { uploads = refl }) (λ x y z f g. record { uploads = g.uploads ∙ f.uploads })
      (λ kind collect path area ex d _. record {
        uploads = remove_path-uploads w a kind collect path area ex d;
      })
      (λ r d _. record { uploads = refl }) collect db (λ r row. row)).uploads

finish_purge-uploads : (a : Asset) (x : Attempt × Db) → (finish_purge a x).1.uploads ≡ x.1.uploads
unfolding finish_purge audit
finish_purge-uploads a (stops kinds, db) = refl
finish_purge-uploads a (goes_on, db) = refl

purge_checked-uploads :
    (w : Host) (collect : Bool) (a : Asset) (r : Result (Unit {0})) (db : Db)
    → (purge_checked w collect a r db).1.uploads ≡ db.uploads
unfolding purge_checked
purge_checked-uploads w collect a (err f) db = refl
purge_checked-uploads w collect a (ok _) db =
    let marked = set_assets (asset_is a.id) purging_row db in
    finish_purge-uploads a (remove_bytes w a collect marked)
    ∙ remove_bytes-uploads w a collect marked

-- A purge changes no upload.
pub safely_purge_asset-uploads :
    (w : Host) (now : ℕ) (collect : Bool) (a : Asset) (db : Db)
    → (safely_purge_asset w now collect a db).1.uploads ≡ db.uploads
unfolding safely_purge_asset
safely_purge_asset-uploads w now collect a db = elim (Bool-cases (is_due now a)) [
  | inl y ↦ rw y (purge_checked-uploads w collect a (require_storage w purge_roles) db)
  | inr early ↦ rw early refl
]

-- Fewer assets of its account are left.
pub purging-count :
    (user : ℕ) (a : Asset) (xs : List Asset)
    → Row a xs
    → a.user_id == user ≡ true
    → count
        (λ x. x.user_id == user)
        (delete_rows (asset_is a.id) (update (asset_is a.id) purging_row xs))
      < count (λ x. x.user_id == user) xs
unfolding purging_row
purging-count user a xs row mine =
    let marked = update (asset_is a.id) purging_row xs in
    let here : Row (purging_row a) marked =
      (rw (==_refl a.id) at (Row-update (asset_is a.id) purging_row xs a row)) in
    let less =
      count_less (λ x. x.user_id == user) (asset_is a.id) (purging_row a) marked here mine
        (==_refl a.id) in
    let same = count-update (λ (x : Asset). x.user_id == user) (asset_is a.id) purging_row xs in
    let no_more =
      count_mono (λ (x : Asset). (if asset_is a.id x then purging_row x else x).user_id == user)
        (λ x. x.user_id == user) xs
        (All-every _ xs λ x e. elim (Bool-cases (asset_is a.id x)) [
          | inl y ↦ (rw y at e)
          | inr n ↦ (rw n at e)
        ]) in
    omega (arith, less, same, no_more)
