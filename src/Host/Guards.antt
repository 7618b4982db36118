-- ===== src/Host/Guards.antt =====
-- What a passed check of host_storage.py says about the drives and the account.
use drivebound_storage.Base.{
  ℕ, zero, suc, ◌≤◌, ◌≡◌, ◌≢◌, ◌⊎◌, ◌∙◌, inl, inr, refl, sym, ap, Bool, Option, none, some, true,
  ◌&&◌, List, [], ◌∷◌, Text, same_text, same_text_sound, arith, All, is_some, Row, scalars,
  scalars-All, Bool-cases, any_row, if◌then◌else◌,
}
use drivebound_storage.Base.Fault.{Result, ok, err, for_each, for_each_sound, and_then_ok}
use drivebound_storage.Host.{
  Role, imports, originals, derivatives, staging, replicas, backups, role_index, same_role,
  is_imports, Binding, Manifest, Account, Host, binding_ok, binding_matches, has_role, covers_roles,
  storage_roles, check_binding, load_from, load_storage_manifest, verify_binding,
  require_storage_path, owning, owner_matches, configured_owner_email, is_host_owner,
  require_host_owner, approved_import_root, validated, verify_all, path_check, small_enough,
  marker_is, only_root_is, expected_path,
}

-- The drive is mounted, and its marker file, of a kilobyte at most, has the installer's text.
pub record IsVerified (w : Host) (b : Binding) : Type 0 where
  pub mounted : w.is_dir b.path ≡ true
  pub marker_file : w.is_file b.marker_path ≡ true
  pub small : (n : ℕ) × (w.size_of b.marker_path ≡ some n) × (n ≤ 1024)
  pub approved : w.marker_of b.marker_path ≡ some b.marker

small_sound :
    (o : Option ℕ) (limit : ℕ) → small_enough o limit ≡ true → (n : ℕ) × (o ≡ some n) × (n ≤ limit)
small_sound none limit h = cc
small_sound (some n) limit h = (n, refl, ground (arith, h))

marker_sound : (o : Option Text) (marker : Text) → marker_is o marker ≡ true → o ≡ some marker
marker_sound none marker h = cc
marker_sound (some t) marker h = ap some (same_text_sound t marker h)

binding_ok-IsVerified : (w : Host) (b : Binding) → binding_ok w b ≡ true → IsVerified w b
binding_ok-IsVerified w b h = record {
  mounted = ground arith;
  marker_file = ground arith;
  small = small_sound (w.size_of b.marker_path) 1024 (ground arith);
  approved = marker_sound (w.marker_of b.marker_path) b.marker (ground arith);
}

for_each-verify_binding :
    (w : Host) (bs : List Binding) → for_each (verify_binding w) bs ≡ ok tt → All (IsVerified w) bs
for_each-verify_binding w [] h = tt
for_each-verify_binding w (b ∷ bs) h =
    let (here, later) = for_each_sound (verify_binding w) b bs h in
    (
      binding_ok-IsVerified w b (unfold verify_binding in ground (arith, here)),
      for_each-verify_binding w bs later,
    )

-- A drive of the manifest holds the path, and every drive that holds it has been verified.
abbrev pub IsGuarded : Host → Text → Manifest → Type 1
IsGuarded w path m =
    ((b : Binding) × Row b m.bindings
      × (w.is_relative_to (w.resolve path) (w.resolve b.path) ≡ true))
    × All (λ b. w.is_relative_to (w.resolve path) (w.resolve b.path) ≡ true → IsVerified w b)
        m.bindings

scalars-Row :
    {A : Type 0} (p : A → Bool) (xs : List A)
    → scalars p xs ≢ []
    → (x : A) × Row x xs × (p x ≡ true)
unfolding scalars
scalars-Row p [] h = absurd (h refl)
scalars-Row p (x ∷ xs) h = elim (Bool-cases (p x)) [
  | inl y ↦ (x, λ P k. k.0, y)
  | inr n ↦ let (t, row, y) = scalars-Row p xs (rw n at h) in (t, λ P k. row P k.1, y)
]

verify_all_sound :
    (w : Host) (bs : List Binding) → verify_all w bs ≡ ok tt → (bs ≢ []) × All (IsVerified w) bs
verify_all_sound w [] h = cc
verify_all_sound w (b ∷ bs) h = (λ e. cc, for_each-verify_binding w (b ∷ bs) h)

path_check_sound :
    (w : Host) (path : Text) (m : Result (Option Manifest))
    → path_check w path m ≡ ok tt
    → (m ≡ ok none) ⊎ ((x : Manifest) × (m ≡ ok (some x)) × IsGuarded w path x)
unfolding path_check
path_check_sound w path (err f) h = cc
path_check_sound w path (ok none) h = inl refl
path_check_sound w path (ok (some x)) h =
    let (one, verified) = verify_all_sound w (owning w path x.bindings) h in
    inr (x, refl, (scalars-Row _ x.bindings one, scalars-All (IsVerified w) _ x.bindings verified))

-- A path passes only where no manifest is configured, or where some approved drive holds it and
-- every drive that holds it is mounted and carries the installer's marker.
pub require_storage_path_sound :
    (w : Host) (path : Text)
    → require_storage_path w path ≡ ok tt
    → (load_storage_manifest w ≡ ok none)
      ⊎ ((m : Manifest) × (load_storage_manifest w ≡ ok (some m)) × IsGuarded w path m)
unfolding require_storage_path
require_storage_path_sound w path h = path_check_sound w path (load_storage_manifest w) h

-- The binding names the folder that the settings give its role.
abbrev pub Names : Host → Binding → Role → Type 0
Names w b imports = w.external_root_list ≡ w.resolve b.path ∷ []
Names w b originals = w.resolve b.path ≡ w.resolve w.originals_path
Names w b derivatives = w.resolve b.path ≡ w.resolve w.derivatives_path
Names w b staging = w.resolve b.path ≡ w.resolve w.staging_path
Names w b replicas = w.resolve b.path ≡ w.resolve w.replica_path
Names w b backups = w.resolve b.path ≡ w.resolve w.backups_path

abbrev pub IsConfigured : Host → Binding → Type 0
IsConfigured w b =
    (w.is_absolute b.path ≡ true) × (w.is_absolute b.marker_path ≡ true) × Names w b b.role

only_root_sound :
    (w : Host) (path : Text) (roots : List Text)
    → only_root_is w path roots ≡ true
    → roots ≡ w.resolve path ∷ []
only_root_sound w path [] h = cc
only_root_sound w path (root ∷ []) h =
    ap (λ t. t ∷ []) (sym (same_text_sound (w.resolve path) root h))
only_root_sound w path (root ∷ other ∷ roots) h = cc

matches-Names :
    (w : Host) (b : Binding) (r : Role)
    → (if is_imports r
        then only_root_is w b.path w.external_root_list
        else same_text (w.resolve b.path) (w.resolve (expected_path w r)))
      ≡ true
    → Names w b r
matches-Names w b imports h = only_root_sound w b.path w.external_root_list h
matches-Names w b originals h = same_text_sound _ _ h
matches-Names w b derivatives h = same_text_sound _ _ h
matches-Names w b staging h = same_text_sound _ _ h
matches-Names w b replicas h = same_text_sound _ _ h
matches-Names w b backups h = same_text_sound _ _ h

for_each-check_binding :
    (w : Host) (bs : List Binding) → for_each (check_binding w) bs ≡ ok tt → All (IsConfigured w) bs
for_each-check_binding w [] h = tt
for_each-check_binding w (b ∷ bs) h =
    let (here, later) = for_each_sound (check_binding w) b bs h in
    let passed : (w.is_absolute b.path && w.is_absolute b.marker_path && binding_matches w b)
        ≡ true =
      (unfold check_binding in ground (arith, here)) in
    (
      (
        ground (arith, passed),
        ground (arith, passed),
        matches-Names w b b.role (ground (arith, passed)),
      ),
      for_each-check_binding w bs later,
    )

role_at : ℕ → Role
role_at zero = imports
role_at (suc zero) = originals
role_at (suc (suc zero)) = derivatives
role_at (suc (suc (suc zero))) = staging
role_at (suc (suc (suc (suc zero)))) = replicas
role_at _ = backups

role_at-role_index : (r : Role) → role_at (role_index r) ≡ r
unfolding role_at
role_at-role_index imports = refl
role_at-role_index originals = refl
role_at-role_index derivatives = refl
role_at-role_index staging = refl
role_at-role_index replicas = refl
role_at-role_index backups = refl

same_role_sound : (a b : Role) → same_role a b ≡ true → a ≡ b
same_role_sound a b h =
    sym (role_at-role_index a) ∙ ap role_at (ground (arith, h)) ∙ role_at-role_index b

has_role_sound :
    (bs : List Binding) (r : Role) → has_role bs r ≡ true → (b : Binding) × Row b bs × (b.role ≡ r)
unfolding any_row
has_role_sound [] r h = cc
has_role_sound (b ∷ bs) r h = elim (Bool-cases (same_role b.role r)) [
  | inl y ↦ (b, λ P k. k.0, same_role_sound b.role r y)
  | inr n ↦ let (t, row, y) = has_role_sound bs r (ground (arith, n, h)) in (t, λ P k. row P k.1, y)
]

covers_roles_sound :
    (bs : List Binding) (roles : List Role)
    → covers_roles bs roles ≡ true
    → All (λ r. (b : Binding) × Row b bs × (b.role ≡ r)) roles
covers_roles_sound bs [] h = tt
covers_roles_sound bs (r ∷ rs) h =
    (has_role_sound bs r (ground (arith, h)), covers_roles_sound bs rs (ground (arith, h)))

-- Every role has a drive, and every drive of the manifest is the configured one.
abbrev pub IsApproved : Host → Manifest → Type 1
IsApproved w m =
    All (λ r. (b : Binding) × Row b m.bindings × (b.role ≡ r))
      (imports ∷ originals ∷ derivatives ∷ staging ∷ replicas ∷ backups ∷ [])
    × All (IsConfigured w) m.bindings

validated_sound :
    (w : Host) (o : Option Manifest) (m : Manifest)
    → validated w o ≡ ok (some m)
    → (covers_roles m.bindings storage_roles ≡ true)
      × (for_each (check_binding w) m.bindings ≡ ok tt)
validated_sound w none m h = cc
validated_sound w (some x) m h = ground arith

load_from_sound :
    (w : Host) (source : Option Text) (m : Manifest)
    → load_from w source ≡ ok (some m)
    → (covers_roles m.bindings storage_roles ≡ true)
      × (for_each (check_binding w) m.bindings ≡ ok tt)
unfolding load_from
load_from_sound w none m h = cc
load_from_sound w (some source) m h = ground (arith, validated_sound w (w.parse_manifest source) m)

-- A manifest that loads has a drive for each of the six storage roles; each of its drives has
-- absolute paths and is the folder that the settings give its role, where the import folder must be
-- the only external root.
pub load_storage_manifest_sound :
    (w : Host) (m : Manifest) → load_storage_manifest w ≡ ok (some m) → IsApproved w m
unfolding load_storage_manifest
load_storage_manifest_sound w m h =
    let (covers, checked) = load_from_sound w w.storage_manifest_path m h in
    (
      covers_roles_sound m.bindings storage_roles covers,
      for_each-check_binding w m.bindings checked,
    )

owner_matches_sound :
    (w : Host) (user : Account) (o : Option Text)
    → owner_matches w user o ≡ true
    → (owner : Text) × (o ≡ some owner)
      × (is_some user.email_verified_at ≡ true)
      × (user.disabled_at ≡ none)
      × (w.fold_email user.email ≡ owner)
owner_matches_sound w user none h = cc
owner_matches_sound w user (some x) h =
    let same = same_text_sound (w.fold_email user.email) x in
    (x, refl, ground arith, ground arith, same (ground arith))

is_host_owner_sound :
    (w : Host) (user : Account) (o : Option Text)
    → configured_owner_email w ≡ ok o
    → is_host_owner w user ≡ ok true
    → owner_matches w user o ≡ true
unfolding is_host_owner
is_host_owner_sound w user o e h = ground arith

require_host_owner_sound :
    (w : Host) (user : Account) (o : Option Text)
    → configured_owner_email w ≡ ok o
    → require_host_owner w user ≡ ok tt
    → is_host_owner w user ≡ ok true
unfolding require_host_owner
require_host_owner_sound w user o e h = ground arith

-- A host photo folder is handed out only to a verified, enabled account whose address is the
-- configured owner's.
pub approved_import_root_owner :
    (w : Host) (user : Account) (root : Text)
    → approved_import_root w user ≡ ok root
    → (owner : Text) × (configured_owner_email w ≡ ok (some owner))
      × (is_some user.email_verified_at ≡ true)
      × (user.disabled_at ≡ none)
      × (w.fold_email user.email ≡ owner)
unfolding approved_import_root
approved_import_root_owner w user root h =
    let (_, passed, _) = and_then_ok (require_host_owner w user) _ root h in
    let (o, e, _) =
      and_then_ok (configured_owner_email w) _ tt (unfold require_host_owner in passed) in
    let mine = is_host_owner_sound w user o e (require_host_owner_sound w user o e passed) in
    let (owner, found, verified, enabled, same) = owner_matches_sound w user o mine in
    (owner, rw found at e, verified, enabled, same)
