-- ===== src/Catalog/References.antt =====
-- `canonical_storage_path` of backend/app/services/storage.py and
-- `physical_path_has_other_reference` of backend/app/services/lifecycle.py.
use drivebound_storage.Base.{
  ℕ, Bool, false, ◌&&◌, ◌||◌, not, Option, none, some, List, Text, codes, same_text, starts_with,
  opt_is, any_row,
}
use drivebound_storage.Host.{Host}
use drivebound_storage.Catalog.{Asset, Replica, Upload, Db, is_external}

-- The rows that the caller is about to remove, and that do not count as references.
pub record Excluding : Type 0 where
  pub asset : Option ℕ
  pub replica : Option ℕ
  pub upload : Option ℕ

unfoldable pub canonical_storage_path : Host → Text → Text
canonical_storage_path w path = w.normcase (w.resolve path)

abbrev pub column_is : Option Text → Text → Bool
column_is none path = false
column_is (some value) path = same_text value path

abbrev pub kept : Option ℕ → ℕ → Bool
kept excluded id = not (opt_is excluded id)

-- the placeholder that a duplicate upload carries in place of a path
abbrev pub is_placeholder : Text → Bool
is_placeholder value = starts_with (codes "duplicate:") value

abbrev external_original : Text → Asset → Bool
external_original path a = is_external a.storage_source && same_text a.original_path path

abbrev asset_names : Option ℕ → Text → Asset → Bool
asset_names excluded path a =
    (same_text a.original_path path
      || column_is a.thumbnail_path path
      || column_is a.preview_path path)
    && kept excluded a.id

abbrev replica_names : Option ℕ → Text → Replica → Bool
replica_names excluded path r =
    (same_text r.path path || column_is r.metadata_path path) && kept excluded r.id

abbrev upload_names : Option ℕ → Text → Upload → Bool
upload_names excluded path u = same_text u.staging_path path && kept excluded u.id

-- the comparison of two physical identities
abbrev pub same_file : Host → Text → Text → Bool
same_file w target value = same_text (canonical_storage_path w value) target

abbrev pub aliased : Host → Text → Option Text → Bool
aliased w target none = false
aliased w target (some value) = not (is_placeholder value) && same_file w target value

-- the inner `aliases`
abbrev pub aliases : {A : Type 0} → Host → Text → (A → Bool) → (A → Option Text) → List A → Bool
aliases w target counts column rows = any_row (λ x. counts x && aliased w target (column x)) rows

abbrev pub asset_aliases : Host → Text → Option ℕ → List Asset → Bool
asset_aliases w target excluded rows =
    aliases w target (λ a. kept excluded a.id) (λ a. some a.original_path) rows
    || aliases w target (λ a. kept excluded a.id) (λ a. a.thumbnail_path) rows
    || aliases w target (λ a. kept excluded a.id) (λ a. a.preview_path) rows

abbrev pub replica_aliases : Host → Text → Option ℕ → List Replica → Bool
replica_aliases w target excluded rows =
    aliases w target (λ r. kept excluded r.id) (λ r. some r.path) rows
    || aliases w target (λ r. kept excluded r.id) (λ r. r.metadata_path) rows

abbrev pub external_aliases : Host → Text → List Asset → Bool
external_aliases w target rows =
    any_row (λ a. is_external a.storage_source && same_file w target a.original_path) rows

-- the exact comparisons by SQL equality
exact_reference : Text → Excluding → Db → Bool
exact_reference path ex db =
    any_row (external_original path) db.assets
    || any_row (asset_names ex.asset path) db.assets
    || any_row (replica_names ex.replica path) db.replicas
    || any_row (upload_names ex.upload path) db.uploads

-- the fallback by canonical identity
alias_reference : Host → Text → Excluding → Db → Bool
alias_reference w target ex db =
    external_aliases w target db.assets
    || asset_aliases w target ex.asset db.assets
    || replica_aliases w target ex.replica db.replicas
    || aliases w target (λ u. kept ex.upload u.id) (λ u. some u.staging_path) db.uploads

unfoldable pub physical_path_has_other_reference : Host → Text → Excluding → Db → Bool
unfolding exact_reference alias_reference
physical_path_has_other_reference w path ex db =
    exact_reference path ex db || alias_reference w (canonical_storage_path w path) ex db
