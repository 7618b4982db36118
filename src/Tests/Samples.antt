-- ===== src/Tests/Samples.antt =====
-- A host with no manifest, one with a manifest of six drives, and a small database.
use drivebound_storage.Base.{
  ℕ, ◌≡◌, refl, true, Option, none, some, [], ◌∷◌, Text, codes, starts_with, count, arith,
}
use drivebound_storage.Host.{
  Host, Manifest, Binding, Role, imports, originals, derivatives, staging, replicas, backups,
  Account,
}
use drivebound_storage.Catalog.{
  LifecycleState, active, superseded, trashed, managed, unprotected, not_requested, Asset, User,
  Root, root_active, Item, Db,
}
use drivebound_storage.Lifecycle.Invariant.{IsSound}
use drivebound_storage.Sync.Items.{Input}
use drivebound_storage.Sync.Items.Upsert.{AssetsOk}
use drivebound_storage.Catalog.{upsert}

-- Paths are canonical, and every file can be removed.
abbrev pub plain_host : Host
plain_host = record {
  resolve = λ p. p;
  normcase = λ p. p;
  is_relative_to = λ p root. starts_with root p;
  is_absolute = λ p. starts_with (codes "/") p;
  is_dir = λ p. true;
  is_file = λ p. true;
  can_unlink = λ p. true;
  size_of = λ p. some 20;
  marker_of = λ p. some (codes "mark");
  parse_manifest = λ p. none;
  fold_email = λ e. e;
  storage_manifest_path = none;
  originals_path = codes "/o";
  derivatives_path = codes "/d";
  staging_path = codes "/s";
  replica_path = codes "/r";
  backups_path = codes "/b";
  external_root_list = codes "/i" ∷ [];
  replica_root_list = codes "/r" ∷ [];
  host_owner_email = none;
  lifecycle_retention_days = 30;
  database_backup_retention_days = 30;
}

abbrev binding : Role → Text → Binding
binding role path = record { role = role; path = path; marker_path = path; marker = codes "mark" }

abbrev pub manifest : Manifest
manifest = record {
  owner_email = codes "ada@home";
  bindings =
      binding imports (codes "/i")
      ∷ binding originals (codes "/o")
      ∷ binding derivatives (codes "/d")
      ∷ binding staging (codes "/s")
      ∷ binding replicas (codes "/r")
      ∷ binding backups (codes "/b")
      ∷ [];
}

abbrev pub bound_host : Host
bound_host = record plain_host {
  storage_manifest_path = some (codes "/m");
  parse_manifest = λ p. some manifest;
}

abbrev pub owner : Account
owner = record { email = codes "ada@home"; email_verified_at = some 1; disabled_at = none }

abbrev asset : ℕ → ℕ → ℕ → LifecycleState → Option ℕ → Text → Asset
asset id logical version state since path = record {
  id = id;
  user_id = 1;
  logical_id = logical;
  version = version;
  lifecycle_state = state;
  superseded_at = none;
  trashed_at = since;
  purge_after = since;
  deleted_by = none;
  original_path = path;
  checksum = [];
  storage_checksum = [];
  encryption_version = 1;
  file_size = 3;
  mime_type = [];
  thumbnail_path = none;
  preview_path = none;
  storage_source = managed;
  original_filename = none;
  protection_status = unprotected;
  restore_status = not_requested;
  restored_at = none;
  created_at = 0;
}

abbrev pub old_asset : Asset
old_asset = asset 1 7 1 superseded none (codes "/o/1")

abbrev pub new_asset : Asset
new_asset = asset 2 7 2 active none (codes "/o/2")

abbrev pub gone_asset : Asset
gone_asset = asset 3 8 1 trashed (some 5) (codes "/o/3")

abbrev pub user : User
user = record {
  id = 1;
  email = codes "ada@home";
  email_verified_at = some 1;
  disabled_at = none;
  media_key_encrypted = none;
  media_key_version = 0;
}

abbrev pub root : Root
root = record {
  id = 4;
  user_id = 1;
  client_id = codes "pc";
  cursor = 1;
  status = root_active;
  last_seen_at = none;
}

abbrev pub item : Item
item = record {
  root_id = 4;
  logical_id = 7;
  asset_id = some 2;
  relative_path = codes "a.jpg";
  revision = codes "r1";
  deleted_at = none;
}

abbrev pub db : Db
db = record {
  users = user ∷ [];
  assets = old_asset ∷ new_asset ∷ gone_asset ∷ [];
  replicas = [];
  uploads = [];
  policies = [];
  audits = [];
  roots = root ∷ [];
  items = item ∷ [];
  operations = [];
  conflicts = [];
  files = λ p. some (1 ∷ []);
  next_id = 10;
}

-- an upsert of the file of the item, made against the given revision
abbrev pub input : Option Text → Input
input base = record {
  operation_id = 77;
  client_sequence = 1;
  kind = upsert;
  logical_id = 7;
  base_revision = base;
  relative_path = some (codes "b.jpg");
  asset_id = some 2;
}

pub db-IsSound : IsSound db.assets
unfolding count
db-IsSound = record {
  ids = λ i. ground arith;
  one_active = λ u l. ground arith;
  retention = (refl, (refl, (refl, tt)));
}

pub db-AssetsOk : AssetsOk db
db-AssetsOk = (db-IsSound, (omega arith, (omega arith, (omega arith, tt))))

pub plain_host-resolve :
    (p : Text) → plain_host.resolve (plain_host.resolve p) ≡ plain_host.resolve p
plain_host-resolve p = refl
