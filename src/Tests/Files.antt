-- ===== src/Tests/Files.antt =====
-- The theorems on storage checks, unlinking and purging, at the sample host and database.
use drivebound_storage.Base.{
  ◌≡◌, ◌⊎◌, inl, refl, true, false, none, some, [], Text, codes, All, Row-scalar, is_some, update,
  scalar, scalars, ◌==◌, any_row, same_text, starts_with,
}
use drivebound_storage.Base.Fault.{ok}
use drivebound_storage.Host.{
  Manifest, load_storage_manifest, require_storage_path, require_storage, approved_import_root,
  configured_owner_email,
}
use drivebound_storage.Host.Guards.{
  IsGuarded, IsApproved, require_storage_path_sound, load_storage_manifest_sound,
  approved_import_root_owner,
}
use drivebound_storage.Catalog.{asset_is}
use drivebound_storage.Catalog.References.{
  Excluding, is_placeholder, physical_path_has_other_reference, canonical_storage_path,
}
use drivebound_storage.Catalog.Unlink.{under, safely_unlink_catalog_path}
use drivebound_storage.Catalog.Unlink.Safety.{Untouched, CatalogUntouched, safely_unlink_safe}
use drivebound_storage.Lifecycle.Purge.{safely_purge_asset, is_due, purging_row, Purged}
use drivebound_storage.Lifecycle.Purge.Spares.{Named}
use drivebound_storage.Lifecycle.Purge.Safety.{safely_purge_asset_spares}
use drivebound_storage.Lifecycle.Purge.Tombstone.{safely_purge_asset_answer}
use drivebound_storage.Tests.Samples.{
  plain_host, bound_host, manifest, owner, new_asset, gone_asset, db, plain_host-resolve,
}

abbrev excluding_gone : Excluding
excluding_gone = record { asset = some 3; replica = none; upload = none }

safely_unlink_safe_example :
    CatalogUntouched plain_host excluding_gone db
      (safely_unlink_catalog_path plain_host
        (codes "/o/3")
        (under (codes "/o"))
        excluding_gone
        db).1
safely_unlink_safe_example =
    safely_unlink_safe plain_host (codes "/o/3") (under (codes "/o")) excluding_gone db
      plain_host-resolve

new_asset-Named : Named gone_asset (scalars (λ r. r.asset_id == 3) db.replicas) db (codes "/o/2")
unfolding scalar
new_asset-Named = inl (new_asset, Row-scalar (asset_is 2) db.assets new_asset refl, refl, inl refl)

real_path : is_placeholder (codes "/o/2") ≡ false
unfolding starts_with
real_path = refl

safely_purge_asset_spares_example :
    Untouched plain_host db (safely_purge_asset plain_host 100 true gone_asset db).1 (codes "/o/2")
safely_purge_asset_spares_example =
    safely_purge_asset_spares plain_host 100 true gone_asset db plain_host-resolve (codes "/o/2")
      real_path new_asset-Named

abbrev done : Purged
done = record { purged = true; retained = [] }

gone_purged : (safely_purge_asset plain_host 100 true gone_asset db).0 ≡ ok done
unfolding safely_purge_asset require_storage scalars safely_unlink_catalog_path starts_with
    require_storage_path same_text canonical_storage_path physical_path_has_other_reference any_row
    update
gone_purged = refl

safely_purge_asset_answer_example :
    let after = (safely_purge_asset plain_host 100 true gone_asset db).1 in
    ((is_due 100 gone_asset ≡ false) × (done.purged ≡ false) × (after ≡ db))
    ⊎ ((is_due 100 gone_asset ≡ true)
        × (done.purged ≡ true)
        × All (λ x. asset_is gone_asset.id x ≡ false) after.assets)
    ⊎ ((is_due 100 gone_asset ≡ true)
        × (done.purged ≡ false)
        × (after.assets ≡ update (asset_is gone_asset.id) purging_row db.assets))
safely_purge_asset_answer_example =
    safely_purge_asset_answer plain_host 100 true gone_asset db done gone_purged

path_passes : require_storage_path bound_host (codes "/o/1") ≡ ok tt
unfolding require_storage_path load_storage_manifest any_row starts_with same_text scalars
path_passes = refl

require_storage_path_sound_example :
    (load_storage_manifest bound_host ≡ ok none)
    ⊎ ((m : Manifest) × (load_storage_manifest bound_host ≡ ok (some m))
        × IsGuarded bound_host (codes "/o/1") m)
require_storage_path_sound_example =
    require_storage_path_sound bound_host (codes "/o/1") path_passes

manifest_loads : load_storage_manifest bound_host ≡ ok (some manifest)
unfolding load_storage_manifest any_row starts_with same_text
manifest_loads = refl

load_storage_manifest_sound_example : IsApproved bound_host manifest
load_storage_manifest_sound_example = load_storage_manifest_sound bound_host manifest manifest_loads

folder_approved : approved_import_root bound_host owner ≡ ok (codes "/i")
unfolding approved_import_root any_row starts_with same_text scalar
folder_approved = refl

approved_import_root_owner_example :
    (o : Text) × (configured_owner_email bound_host ≡ ok (some o))
    × (is_some owner.email_verified_at ≡ true)
    × (owner.disabled_at ≡ none)
    × (bound_host.fold_email owner.email ≡ o)
approved_import_root_owner_example =
    approved_import_root_owner bound_host owner (codes "/i") folder_approved
