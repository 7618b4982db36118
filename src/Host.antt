-- ===== src/Host.antt =====
-- backend/app/services/host_storage.py: the installer's manifest of drives, the markers on them,
-- and the checks that every access to managed bytes makes first. What the operating system
-- answers, and pydantic's reading of the manifest file, are fields of `Host`.
pub mod Guards
use drivebound_storage.Base.{
  ℕ, ◌*◌, Option, none, some, Bool, true, false, ◌&&◌, ◌||◌, not, List, [], ◌∷◌, Text, same_text,
  starts_with, ◌++◌, leb, ltb, if◌then◌else◌, is_some, length, scalar, scalars, any_row,
}
use drivebound_storage.Base.Fault.{
  Result, ok, err, check, and_then, for_each, storage_unavailable, host_owner_unset, not_host_owner,
  import_root_unselected,
}

-- `StorageRole`
pub data Role : Type 0 where
  imports originals derivatives staging replicas backups : Role

abbrev pub role_index : Role → ℕ
role_index imports = 0
role_index originals = 1
role_index derivatives = 2
role_index staging = 3
role_index replicas = 4
role_index backups = 5

abbrev pub same_role : Role → Role → Bool
same_role a b = leb (role_index a) (role_index b) && leb (role_index b) (role_index a)

abbrev pub storage_roles : List Role
storage_roles = imports ∷ originals ∷ derivatives ∷ staging ∷ replicas ∷ backups ∷ []

-- `StorageBinding`
pub record Binding : Type 0 where
  pub role : Role
  pub path : Text
  pub marker_path : Text
  pub marker : Text

-- `StorageManifest`, the fields that the service reads
pub record Manifest : Type 0 where
  pub owner_email : Text
  pub bindings : List Binding

-- The account fields that the host checks read.
pub record Account : Type 0 where
  pub email : Text
  pub email_verified_at : Option ℕ
  pub disabled_at : Option ℕ

pub record Host : Type 0 where
  -- `Path(p).resolve()`, `os.path.normcase`, and whether the resolved first path lies in the second
  pub resolve : Text → Text
  pub normcase : Text → Text
  pub is_relative_to : Text → Text → Bool
  pub is_absolute : Text → Bool
  pub is_dir : Text → Bool
  pub is_file : Text → Bool
  -- whether removing the file raises no `OSError`
  pub can_unlink : Text → Bool
  -- `stat().st_size`, and the stripped text of a marker; `none` is an `OSError` or a bad encoding
  pub size_of : Text → Option ℕ
  pub marker_of : Text → Option Text
  -- `StorageManifest.model_validate_json` of the file's text; `none` is a validation error
  pub parse_manifest : Text → Option Manifest
  -- `email.strip().casefold()`
  pub fold_email : Text → Text
  -- `settings`
  pub storage_manifest_path : Option Text
  pub originals_path : Text
  pub derivatives_path : Text
  pub staging_path : Text
  pub replica_path : Text
  pub backups_path : Text
  pub external_root_list : List Text
  pub replica_root_list : List Text
  pub host_owner_email : Option Text
  pub lifecycle_retention_days : ℕ
  pub database_backup_retention_days : ℕ

abbrev pub expected_path : Host → Role → Text
expected_path w imports = []
expected_path w originals = w.originals_path
expected_path w derivatives = w.derivatives_path
expected_path w staging = w.staging_path
expected_path w replicas = w.replica_path
expected_path w backups = w.backups_path

abbrev pub only_root_is : Host → Text → List Text → Bool
only_root_is w path (root ∷ []) = same_text (w.resolve path) root
only_root_is w path _ = false

abbrev pub is_imports : Role → Bool
is_imports imports = true
is_imports _ = false

-- The configured path that a binding must name.
abbrev pub binding_matches : Host → Binding → Bool
binding_matches w b =
    if is_imports b.role
    then only_root_is w b.path w.external_root_list
    else same_text (w.resolve b.path) (w.resolve (expected_path w b.role))

-- the loop over `manifest.bindings`
check_binding : Host → Binding → Result (Unit {0})
check_binding w b =
    check (w.is_absolute b.path && w.is_absolute b.marker_path && binding_matches w b)
      storage_unavailable

abbrev pub has_role : List Binding → Role → Bool
has_role bs r = any_row (λ b. same_role b.role r) bs

abbrev pub covers_roles : List Binding → List Role → Bool
covers_roles bs [] = true
covers_roles bs (r ∷ rs) = has_role bs r && covers_roles bs rs

abbrev pub small_enough : Option ℕ → ℕ → Bool
small_enough none limit = false
small_enough (some n) limit = leb n limit

abbrev validated : Host → Option Manifest → Result (Option Manifest)
validated w none = err storage_unavailable
validated w (some m) =
    and_then (check (covers_roles m.bindings storage_roles) storage_unavailable)
      λ _. and_then (for_each (check_binding w) m.bindings) λ _. ok (some m)

load_from : Host → Option Text → Result (Option Manifest)
unfolding check_binding
load_from w none = ok none
load_from w (some source) =
    if small_enough (w.size_of source) 65536
    then validated w (w.parse_manifest source)
    else err storage_unavailable

-- `none` where no manifest is configured; every failure is a `StorageUnavailableError`
unfoldable pub load_storage_manifest : Host → Result (Option Manifest)
unfolding load_from
load_storage_manifest w = load_from w w.storage_manifest_path

abbrev pub marker_is : Option Text → Text → Bool
marker_is none marker = false
marker_is (some t) marker = same_text t marker

abbrev pub binding_ok : Host → Binding → Bool
binding_ok w b =
    w.is_dir b.path
    && w.is_file b.marker_path
    && small_enough (w.size_of b.marker_path) 1024
    && marker_is (w.marker_of b.marker_path) b.marker

unfoldable pub verify_binding : Host → Binding → Result (Unit {0})
verify_binding w b = check (binding_ok w b) storage_unavailable

abbrev wanted : List Role → Role → Bool
wanted [] r = true
wanted roles r = any_row (same_role r) roles

-- `require_storage(*roles)`; no role means every role
unfoldable pub require_storage : Host → List Role → Result (Unit {0})
unfolding load_storage_manifest verify_binding
require_storage w roles = and_then (load_storage_manifest w) λ m. elim m [
  | none ↦ ok tt
  | some manifest ↦
      for_each (verify_binding w) (scalars (λ b. wanted roles b.role) manifest.bindings)
]

abbrev pub owning : Host → Text → List Binding → List Binding
owning w path bs = scalars (λ b. w.is_relative_to (w.resolve path) (w.resolve b.path)) bs

abbrev verify_all : Host → List Binding → Result (Unit {0})
verify_all w [] = err storage_unavailable
verify_all w bs = for_each (verify_binding w) bs

path_check : Host → Text → Result (Option Manifest) → Result (Unit {0})
unfolding verify_binding
path_check w path (err f) = err f
path_check w path (ok none) = ok tt
path_check w path (ok (some m)) = verify_all w (owning w path m.bindings)

unfoldable pub require_storage_path : Host → Text → Result (Unit {0})
unfolding load_storage_manifest path_check
require_storage_path w path = path_check w path (load_storage_manifest w)

pub data Readiness : Type 0 where
  ready unavailable : Readiness

abbrev readiness_of : Result (Unit {0}) → Readiness
readiness_of (ok _) = ready
readiness_of (err _) = unavailable

abbrev role_readiness : Host → Binding → Role × Readiness
role_readiness w b = (b.role, readiness_of (verify_binding w b))

abbrev each_binding : Host → List Binding → List (Role × Readiness)
each_binding w [] = []
each_binding w (b ∷ bs) = role_readiness w b ∷ each_binding w bs

abbrev all_unavailable : List Role → List (Role × Readiness)
all_unavailable [] = []
all_unavailable (r ∷ rs) = (r, unavailable) ∷ all_unavailable rs

-- `none` is the answer `{"identity": "not_configured"}`
unfoldable pub storage_readiness : Host → Option (List (Role × Readiness))
unfolding load_storage_manifest verify_binding
storage_readiness w = elim (load_storage_manifest w) [
  | err _ ↦ some (all_unavailable storage_roles)
  | ok none ↦ none
  | ok (some m) ↦ some (each_binding w m.bindings)
]

abbrev folded : Host → Option Text → Option Text
folded w none = none
folded w (some email) = elim (w.fold_email email) [ [] ↦ none | c ∷ s ↦ some (c ∷ s) ]

unfoldable pub configured_owner_email : Host → Result (Option Text)
unfolding load_storage_manifest
configured_owner_email w =
    and_then (load_storage_manifest w) λ m.
      ok (elim m [ none ↦ folded w w.host_owner_email | some x ↦ folded w (some x.owner_email) ])

abbrev owner_matches : Host → Account → Option Text → Bool
owner_matches w user none = false
owner_matches w user (some owner) =
    is_some user.email_verified_at
    && not (is_some user.disabled_at)
    && same_text (w.fold_email user.email) owner

unfoldable pub is_host_owner : Host → Account → Result Bool
unfolding configured_owner_email
is_host_owner w user = and_then (configured_owner_email w) λ owner. ok (owner_matches w user owner)

unfoldable pub require_host_owner : Host → Account → Result (Unit {0})
unfolding configured_owner_email is_host_owner
require_host_owner w user = and_then (configured_owner_email w) λ owner.
    and_then (check (is_some owner) host_owner_unset)
      λ _. and_then (is_host_owner w user) λ mine. check mine not_host_owner

abbrev imports_root : Host → Option Binding → Result Text
imports_root w none = err storage_unavailable
imports_root w (some b) = and_then (verify_binding w b) λ _. ok (w.resolve b.path)

abbrev single_root : Host → List Text → Result Text
single_root w (root ∷ []) = and_then (check (w.is_dir root) storage_unavailable) λ _. ok root
single_root w _ = err import_root_unselected

unfoldable pub approved_import_root : Host → Account → Result Text
unfolding require_host_owner load_storage_manifest verify_binding
approved_import_root w user = and_then (require_host_owner w user) λ _.
    and_then (load_storage_manifest w) λ m. elim m [
      | none ↦ single_root w w.external_root_list
      | some x ↦ imports_root w (scalar (λ b. is_imports b.role) x.bindings)
    ]
