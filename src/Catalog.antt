-- ===== src/Catalog.antt =====
-- The state that a database session and the file system hold: a list for each table, and the bytes
-- of each file by its canonical path.
mod Rows
mod SyncRows
pub mod References
pub mod Unlink
pub use Rows.*
pub use SyncRows.*
use drivebound_storage.Base.{ℕ, Bool, true, false, Option, List, Text, ◌==◌, ◌&&◌}

pub record Db : Type 0 where
  pub users : List User
  pub assets : List Asset
  pub replicas : List Replica
  pub uploads : List Upload
  pub policies : List Policy
  pub audits : List Audit
  pub roots : List Root
  pub items : List Item
  pub operations : List Operation
  pub conflicts : List Conflict
  pub files : Text → Option (List ℕ)
  -- the next value that `uuid.uuid4()` draws; drawn values are never drawn again
  pub next_id : ℕ

abbrev pub is_active : LifecycleState → Bool
is_active active = true
is_active _ = false

abbrev pub is_superseded : LifecycleState → Bool
is_superseded superseded = true
is_superseded _ = false

abbrev pub is_trashed : LifecycleState → Bool
is_trashed trashed = true
is_trashed _ = false

abbrev pub is_purging : LifecycleState → Bool
is_purging purging = true
is_purging _ = false

abbrev pub is_external : StorageSource → Bool
is_external external = true
is_external managed = false

abbrev pub asset_is : ℕ → Asset → Bool
asset_is i a = a.id == i

-- the revisions of one file
abbrev pub revision_of : ℕ → ℕ → Asset → Bool
revision_of user logical a = a.user_id == user && a.logical_id == logical

abbrev pub active_of : ℕ → ℕ → Asset → Bool
active_of user logical a = revision_of user logical a && is_active a.lifecycle_state
