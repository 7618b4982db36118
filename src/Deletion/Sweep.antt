-- ===== src/Deletion/Sweep.antt =====
-- `sweep_account_namespaces` of backend/app/services/account_deletion.py: what is left in the
-- folders of a deleted account. Removing an empty folder changes no file.
pub mod Safety
use drivebound_storage.Base.{
  ℕ, ◌+◌, Bool, true, false, ◌&&◌, ◌||◌, not, Option, none, some, List, [], ◌∷◌, ◌++◌, map, Text,
  same_text, ltb, if◌then◌else◌, scalars, any_row, order_by,
}
use drivebound_storage.Base.Fault.{Fault, Result, ok, err, Exec, pure, lift, ◌>>=◌}
use drivebound_storage.Host.{Host, require_storage, require_storage_path}
use drivebound_storage.Catalog.{Asset, Replica, Upload, Db}
use drivebound_storage.Catalog.References.{Excluding, canonical_storage_path, is_placeholder}
use drivebound_storage.Catalog.Unlink.{Area, replica_drives, under, safely_unlink_catalog_path}
use drivebound_storage.Lifecycle.Purge.{purge_roles}

-- What pathlib and the operating system answer about folders; `none` is an `OSError`.
pub record Walk : Type 0 where
  pub exists : Text → Bool
  -- `namespace.is_dir()`, of a folder that the host's own checks do not look at
  pub is_folder : Text → Bool
  pub is_symlink : Text → Option Bool
  pub is_junction : Text → Option Bool
  pub is_reparse_point : Text → Option Bool
  pub iterdir : Text → List Text
  -- `namespace.rglob("*")`, and `len(item.parts)`
  pub rglob : (Text → Option (List ℕ)) → Text → List Text
  pub depth : Text → ℕ
  -- `folder / str(subject_id)`, `root / namespace.relative_to(root)`, `os.path.abspath`
  pub account_folder : Text → ℕ → Text
  pub rebased : Text → Text → Text
  pub abspath : Text → Text
  -- `account_root.glob(f"{asset_id}.*")`, its files, each resolved
  pub staged_files : (Text → Option (List ℕ)) → Text → ℕ → List Text

-- the empty text is false
abbrev not_empty : Text → Bool
not_empty [] = false
not_empty (c ∷ s) = true

abbrev present : Option Text → List Text
present none = []
present (some t) = scalars not_empty (t ∷ [])

asset_values : List Asset → List Text
asset_values [] = []
asset_values (a ∷ rows) =
    present (some a.original_path)
    ++ present a.thumbnail_path
    ++ present a.preview_path
    ++ asset_values rows

replica_values : List Replica → List Text
replica_values [] = []
replica_values (r ∷ rs) = present (some r.path) ++ present r.metadata_path ++ replica_values rs

unfoldable pub canonical_live_paths : Host → Db → List Text
unfolding asset_values replica_values
canonical_live_paths w db = map (canonical_storage_path w) (
    scalars (λ v. not (is_placeholder v))
      (asset_values db.assets
        ++ replica_values db.replicas
        ++ map (λ u. u.staging_path) db.uploads))

abbrev or_error : Option Bool → Bool → Bool
or_error none b = true
or_error (some a) b = a || b

-- `_is_link_or_reparse`; whatever cannot be read counts as a link
unfoldable pub is_link_or_reparse : Walk → Text → Bool
is_link_or_reparse k path =
    or_error (k.is_symlink path)
      (or_error (k.is_junction path) (or_error (k.is_reparse_point path) false))

pub record Namespace : Type 0 where
  pub path : Text
  pub root : Text
  pub replica_root : Bool

abbrev pub area_of : Namespace → Area
area_of n = if n.replica_root then replica_drives else under n.root

-- the loop over the kinds of derivatives, and the count of those that are links
kind_namespaces : Walk → Text → ℕ → List Text → List Namespace × ℕ
unfolding is_link_or_reparse
kind_namespaces k root subject [] = ([], 0)
kind_namespaces k root subject (kind ∷ kinds) =
    let (found, links) = kind_namespaces k root subject kinds in
    if not (k.is_folder kind)
    then (found, links)
    else (if is_link_or_reparse k kind then (found, links + 1) else (
      record { path = k.account_folder kind subject; root = root; replica_root = false } ∷ found,
      links,
    ))

abbrev replica_namespaces : Host → Walk → ℕ → List Text → List Namespace
replica_namespaces w k subject [] = []
replica_namespaces w k subject (root ∷ roots) =
    record {
      path = k.account_folder (w.resolve root) subject;
      root = w.resolve root;
      replica_root = true;
    }
    ∷ replica_namespaces w k subject roots

unfoldable pub namespaces : Host → Walk → ℕ → List Namespace × ℕ
unfolding kind_namespaces
namespaces w k subject =
    let originals_root = w.resolve w.originals_path in
    let derivatives_root = w.resolve w.derivatives_path in
    let staging_root = w.resolve w.staging_path in
    let (kinds, links) =
      kind_namespaces k derivatives_root subject
        (if k.is_folder derivatives_root then k.iterdir derivatives_root else []) in
    (
      record {
        path = k.account_folder originals_root subject;
        root = originals_root;
        replica_root = false;
      }
            ∷ kinds
          ++ record {
            path = k.account_folder staging_root subject;
            root = staging_root;
            replica_root = false;
          }
            ∷ replica_namespaces w k subject w.replica_root_list,
      links,
    )

abbrev lexical : Host → Walk → Namespace → Text
lexical w k n = w.normcase (k.abspath (k.rebased n.root n.path))

-- The folder is not the one that its name says.
abbrev pub displaced : Host → Walk → Namespace → Bool
displaced w k n =
    not (same_text n.path (k.rebased n.root n.path))
    || is_link_or_reparse k n.path
    || not (same_text (w.normcase (w.resolve n.path)) (lexical w k n))

abbrev pub escapes : Host → Walk → Namespace → Text → Bool
escapes w k n candidate =
    is_link_or_reparse k candidate
    || not (w.is_relative_to (w.normcase (w.resolve candidate)) (lexical w k n))

abbrev pub no_exclusion : Excluding
no_exclusion = record { asset = none; replica = none; upload = none }

abbrev pub retained_if : Bool → ℕ → ℕ
retained_if true retained = retained
retained_if false retained = retained + 1

-- an unlink of the sweep, and the count after it
pub unlinked : Host → Namespace → Text → ℕ → Exec Db ℕ
unlinked w n canonical retained =
    safely_unlink_catalog_path w canonical (area_of n) no_exclusion >>= λ removed.
    pure (retained_if removed retained)

abbrev pub folder_checked : Result (Unit {0}) → ℕ → Exec Db ℕ
folder_checked (err f) retained db = (err f, db)
folder_checked (ok _) retained db = (ok retained, db)

pub sweep_file : Host → List Text → Namespace → Text → ℕ → Exec Db ℕ
unfolding unlinked
sweep_file w protected n canonical retained db =
    if any_row (same_text canonical) protected
    then (ok (retained + 1), db)
    else unlinked w n canonical retained db

pub sweep_candidate : Host → Walk → List Text → Namespace → Text → ℕ → Exec Db ℕ
unfolding sweep_file
sweep_candidate w k protected n candidate retained db =
    if escapes w k n candidate
    then (ok (retained + 1), db)
    else (if w.is_file candidate
        then sweep_file w protected n (canonical_storage_path w candidate) retained db
        else (if k.is_folder candidate
            then folder_checked (require_storage_path w candidate) retained db
            else (ok retained, db)))

pub sweep_candidates : Host → Walk → List Text → Namespace → List Text → ℕ → Exec Db ℕ
unfolding sweep_candidate
sweep_candidates w k protected n [] retained db = (ok retained, db)
sweep_candidates w k protected n (c ∷ cs) retained db =
    (sweep_candidate w k protected n c retained >>= sweep_candidates w k protected n cs) db

abbrev reversed_onto : List Text → List Text → List Text
reversed_onto [] acc = acc
reversed_onto (x ∷ xs) acc = reversed_onto xs (x ∷ acc)

-- `sorted(…, key=…, reverse=True)`, which keeps the order of equal keys
abbrev pub deepest_first : Walk → List Text → List Text
deepest_first k xs = reversed_onto (order_by k.depth (reversed_onto xs [])) []

-- the `rmdir` at the end: a failed check of the drive is no `OSError`, and goes through
pub sweep_present : Host → Walk → List Text → Namespace → ℕ → Exec Db ℕ
unfolding sweep_candidates
sweep_present w k protected n retained db =
    if not (k.is_folder n.path) || displaced w k n
    then (ok (retained + 1), db)
    else (sweep_candidates w k protected n (deepest_first k (k.rglob db.files n.path)) retained
          >>= folder_checked (require_storage_path w n.path))
        db

pub sweep_existing : Host → Walk → List Text → Namespace → ℕ → Exec Db ℕ
unfolding sweep_present
sweep_existing w k protected n retained db =
    if k.exists n.path then sweep_present w k protected n retained db else (ok retained, db)

pub sweep_namespace : Host → Walk → List Text → Namespace → ℕ → Exec Db ℕ
unfolding sweep_existing
sweep_namespace w k protected n retained =
    lift (require_storage_path w n.path) >>= λ _. sweep_existing w k protected n retained

pub sweep_namespaces : Host → Walk → List Text → List Namespace → ℕ → Exec Db ℕ
unfolding sweep_namespace
sweep_namespaces w k protected [] retained db = (ok retained, db)
sweep_namespaces w k protected (n ∷ ns) retained db =
    (sweep_namespace w k protected n retained >>= sweep_namespaces w k protected ns) db

pub sweep_found : Host → Walk → ℕ → Exec Db ℕ
unfolding sweep_namespaces
sweep_found w k subject db =
    let (found, links) = namespaces w k subject in
    sweep_namespaces w k (canonical_live_paths w db) found links db

unfoldable pub sweep_account_namespaces : Host → Walk → ℕ → Exec Db ℕ
unfolding sweep_found
sweep_account_namespaces w k subject =
    lift (require_storage w purge_roles) >>= λ _. sweep_found w k subject
