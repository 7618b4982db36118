-- ===== src/Deletion/Sweep/Safety.antt =====
-- What the sweep leaves alone: every file that a row of the catalog names.
use drivebound_storage.Base.{
  ℕ, ◌≡◌, ◌⊎◌, ◌∙◌, refl, inl, inr, ap, Bool, true, false, ◌||◌, not, some, List, [], ◌∷◌, Text,
  Row, same_text, any_row, if◌then◌else◌,
}
use drivebound_storage.Base.Fault.{Result, ok, err, Exec, pure, lift, ◌>>=◌}
use drivebound_storage.Host.{Host, require_storage, require_storage_path}
use drivebound_storage.Catalog.{Asset, Replica, Upload, Db}
use drivebound_storage.Catalog.References.{canonical_storage_path, is_placeholder}
use drivebound_storage.Catalog.Unlink.{Area, safely_unlink_catalog_path}
use drivebound_storage.Catalog.Unlink.Safety.{
  Untouched, CatalogUntouched, safely_unlink-Outcome, safely_unlink_safe,
}
use drivebound_storage.Lifecycle.Purge.{purge_roles}
use drivebound_storage.Lifecycle.Purge.Spares.{InAsset, InReplica, at_column, in_asset, in_replica}
use drivebound_storage.Deletion.Sweep.{
  Walk, Namespace, area_of, no_exclusion, retained_if, unlinked, sweep_file, sweep_candidate,
  sweep_candidates, folder_checked, sweep_present, sweep_existing, sweep_namespace, sweep_found,
  sweep_namespaces, sweep_account_namespaces, namespaces, canonical_live_paths, deepest_first,
  escapes, displaced,
}

-- Some row of the catalog names the path.
abbrev pub Cataloged : Db → Text → Type 1
Cataloged db v =
    ((a : Asset) × Row a db.assets × InAsset a v)
    ⊎ ((r : Replica) × Row r db.replicas × InReplica r v)
    ⊎ ((u : Upload) × Row u db.uploads × (u.staging_path ≡ v))

-- A step that changes files only, and none that a row names.
pub record Sweeps (w : Host) (before after : Db) : Type 1 where
  pub tables : after ≡ record before { files = after.files }
  pub files :
      (v : Text) → is_placeholder v ≡ false → Cataloged before v → Untouched w before after v

Sweeps-refl : (w : Host) (db : Db) → Sweeps w db db
Sweeps-refl w db = record { tables = refl; files = λ v real n. refl }

Cataloged-tables :
    (x y : Db) (v : Text) → y ≡ record x { files = y.files } → Cataloged x v → Cataloged y v
Cataloged-tables x y v same (inl n) = rw same (inl n)
Cataloged-tables x y v same (inr (inl n)) = rw same (inr (inl n))
Cataloged-tables x y v same (inr (inr n)) = rw same (inr (inr n))

Sweeps-trans : (w : Host) (x y z : Db) → Sweeps w x y → Sweeps w y z → Sweeps w x z
Sweeps-trans w x y z f g = record {
  tables = g.tables ∙ ap (λ (d : Db). record d { files = z.files }) f.tables;
  files = λ v real n. g.files v real (Cataloged-tables x y v f.tables n) ∙ f.files v real n;
}

CatalogUntouched-files :
    (w : Host) (before after : Db)
    → CatalogUntouched w no_exclusion before after
    → (v : Text) → is_placeholder v ≡ false
    → Cataloged before v
    → Untouched w before after v
CatalogUntouched-files w before after (assets, replicas, uploads) v real (inl (a, row, n)) =
    in_asset w before after no_exclusion.asset a v real (row _ assets) refl n
CatalogUntouched-files w before after (assets, replicas, uploads) v real (inr (inl (r, row, n))) =
    in_replica w before after no_exclusion.replica r v real (row _ replicas) refl n
CatalogUntouched-files w before after (assets, replicas, uploads) v real (inr (inr (u, row, n))) =
    at_column w before after (some u.staging_path) v real (row _ uploads refl) (ap some n)

module _ (w : Host) (k : Walk) (idem : (p : Text) → w.resolve (w.resolve p) ≡ w.resolve p) where
  pub unlink-Sweeps :
      (path : Text) (area : Area) (db : Db)
      → Sweeps w db (safely_unlink_catalog_path w path area no_exclusion db).1
  unlink-Sweeps path area db = record {
    tables = elim (safely_unlink-Outcome w path area no_exclusion db) [
      | inl same ↦ rw same refl
      | inr (_, _, _, removed) ↦ rw removed refl
    ];
    files =
        CatalogUntouched-files w db (safely_unlink_catalog_path w path area no_exclusion db).1
          (safely_unlink_safe w path area no_exclusion db idem);
  }

  bind_pair-Sweeps :
      {A : Type 0} (db : Db) (x : Result A × Db) (f : A → Exec Db ℕ)
      → Sweeps w db x.1
      → ((a : A) (d : Db) → Sweeps w d (f a d).1)
      → Sweeps w db (((λ _. x) >>= f) db).1
  bind_pair-Sweeps db (ok a, d) f h g = Sweeps-trans w db d (f a d).1 h (g a d)
  bind_pair-Sweeps db (err e, d) f h g = h

  bind-Sweeps :
      {A : Type 0} (db : Db) (m : Exec Db A) (f : A → Exec Db ℕ)
      → Sweeps w db (m db).1
      → ((a : A) (d : Db) → Sweeps w d (f a d).1)
      → Sweeps w db ((m >>= f) db).1
  bind-Sweeps db m f = bind_pair-Sweeps db (m db) f

  if-Sweeps :
      (b : Bool) (db : Db) (x y : Result ℕ × Db)
      → Sweeps w db x.1
      → Sweeps w db y.1
      → Sweeps w db (if b then x else y).1
  if-Sweeps true db x y h g = h
  if-Sweeps false db x y h g = g

  folder_checked-Sweeps :
      (r : Result (Unit {0})) (m : ℕ) (db : Db) → Sweeps w db (folder_checked r m db).1
  folder_checked-Sweeps (err f) m db = Sweeps-refl w db
  folder_checked-Sweeps (ok _) m db = Sweeps-refl w db

  sweep_file-Sweeps :
      (protected : List Text) (n : Namespace) (c : Text) (m : ℕ) (db : Db)
      → Sweeps w db (sweep_file w protected n c m db).1
  unfolding sweep_file unlinked
  sweep_file-Sweeps protected n c m db =
      if-Sweeps (any_row (same_text c) protected) db _ _ (Sweeps-refl w db) (
        bind-Sweeps db (safely_unlink_catalog_path w c (area_of n) no_exclusion)
          (λ removed. pure (retained_if removed m)) (unlink-Sweeps c (area_of n) db)
          (λ a d. Sweeps-refl w d))

  sweep_candidate-Sweeps :
      (protected : List Text) (n : Namespace) (c : Text) (m : ℕ) (db : Db)
      → Sweeps w db (sweep_candidate w k protected n c m db).1
  unfolding sweep_candidate
  sweep_candidate-Sweeps protected n c m db =
      if-Sweeps (escapes w k n c) db _ _ (Sweeps-refl w db) (
        if-Sweeps (w.is_file c) db _ _
          (sweep_file-Sweeps protected n (canonical_storage_path w c) m db)
          (if-Sweeps (k.is_folder c) db _ _ (folder_checked-Sweeps (require_storage_path w c) m db)
            (Sweeps-refl w db)))

  sweep_candidates-Sweeps :
      (protected : List Text) (n : Namespace) (cs : List Text) (m : ℕ) (db : Db)
      → Sweeps w db (sweep_candidates w k protected n cs m db).1
  unfolding sweep_candidates
  sweep_candidates-Sweeps protected n [] m db = Sweeps-refl w db
  sweep_candidates-Sweeps protected n (c ∷ cs) m db =
      bind-Sweeps db (sweep_candidate w k protected n c m) (sweep_candidates w k protected n cs)
        (sweep_candidate-Sweeps protected n c m db) (sweep_candidates-Sweeps protected n cs)

  sweep_present-Sweeps :
      (protected : List Text) (n : Namespace) (m : ℕ) (db : Db)
      → Sweeps w db (sweep_present w k protected n m db).1
  unfolding sweep_present
  sweep_present-Sweeps protected n m db =
      let cs = deepest_first k (k.rglob db.files n.path) in
      if-Sweeps (not (k.is_folder n.path) || displaced w k n) db _ _ (Sweeps-refl w db) (
        bind-Sweeps db (sweep_candidates w k protected n cs m)
          (folder_checked (require_storage_path w n.path))
          (sweep_candidates-Sweeps protected n cs m db)
          (folder_checked-Sweeps (require_storage_path w n.path)))

  sweep_existing-Sweeps :
      (protected : List Text) (n : Namespace) (m : ℕ) (db : Db)
      → Sweeps w db (sweep_existing w k protected n m db).1
  unfolding sweep_existing
  sweep_existing-Sweeps protected n m db =
      if-Sweeps (k.exists n.path) db _ _ (sweep_present-Sweeps protected n m db) (Sweeps-refl w db)

  sweep_namespace-Sweeps :
      (protected : List Text) (n : Namespace) (m : ℕ) (db : Db)
      → Sweeps w db (sweep_namespace w k protected n m db).1
  unfolding sweep_namespace
  sweep_namespace-Sweeps protected n m db =
      bind-Sweeps db (lift (require_storage_path w n.path)) (λ _. sweep_existing w k protected n m)
        (Sweeps-refl w db) (λ _. sweep_existing-Sweeps protected n m)

  sweep_namespaces-Sweeps :
      (protected : List Text) (ns : List Namespace) (m : ℕ) (db : Db)
      → Sweeps w db (sweep_namespaces w k protected ns m db).1
  unfolding sweep_namespaces
  sweep_namespaces-Sweeps protected [] m db = Sweeps-refl w db
  sweep_namespaces-Sweeps protected (n ∷ ns) m db =
      bind-Sweeps db (sweep_namespace w k protected n m) (sweep_namespaces w k protected ns)
        (sweep_namespace-Sweeps protected n m db) (sweep_namespaces-Sweeps protected ns)

  sweep_found-Sweeps : (subject : ℕ) (db : Db) → Sweeps w db (sweep_found w k subject db).1
  unfolding sweep_found
  sweep_found-Sweeps subject db =
      sweep_namespaces-Sweeps (canonical_live_paths w db) (namespaces w k subject).0
        (namespaces w k subject).1 db

-- The sweep changes no table, and no file that a row of the catalog names: the original, thumbnail
-- and preview of an asset, the copy and sidecar of a replica, the staged bytes of an upload, under
-- any alias and of any account. `Path.resolve` must be idempotent.
pub sweep_account_namespaces_safe :
    (w : Host) (k : Walk) (subject : ℕ) (db : Db)
    → ((p : Text) → w.resolve (w.resolve p) ≡ w.resolve p)
    → Sweeps w db (sweep_account_namespaces w k subject db).1
unfolding sweep_account_namespaces
sweep_account_namespaces_safe w k subject db idem =
    bind-Sweeps w k idem db (lift (require_storage w purge_roles)) (λ _. sweep_found w k subject)
      (Sweeps-refl w db) (λ _. sweep_found-Sweeps w k idem subject)
