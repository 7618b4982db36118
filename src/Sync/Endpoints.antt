-- ===== src/Sync/Endpoints.antt =====
-- backend/app/api/v1/sync.py: the requests on roots, their journals and their conflicts. A fault of
-- a service becomes a response and the transaction of the request is rolled back. Conflicts are listed
-- in the order of the table, which is that of their creation.
use drivebound_storage.Base.{
  ℕ, suc, Bool, ◌&&◌, Option, none, some, List, [], ◌∷◌, ◌++◌, Text, same_text, ◌==◌, ltb, scalar,
  scalars, take, order_by, any_row,
}
use drivebound_storage.Base.Fault.{Result, ok, err, Exec, root_missing, conflict_missing}
use drivebound_storage.Host.{Host}
use drivebound_storage.Catalog.{Root, root_active, Operation, Conflict, Choice, Db}
use drivebound_storage.Sync.{Pushed, apply_operations}
use drivebound_storage.Sync.Items.{Input}
use drivebound_storage.Sync.Resolution.{resolve_conflict, is_open}

abbrev pub owned : ℕ → ℕ → Root → Bool
owned i user r = r.id == i && r.user_id == user

unfoldable pub owned_root : ℕ → ℕ → Db → Result Root
owned_root user root_id db = elim (scalar (owned root_id user) db.roots) [
  | none ↦ err root_missing
  | some r ↦ ok r
]

abbrev of_client : ℕ → Text → Root → Bool
of_client user client r = r.user_id == user && same_text r.client_id client

register_new : ℕ → Text → Option Root → Db → Root × Db
register_new user client (some r) db = (r, db)
register_new user client none db =
    let r : Root = record {
      id = db.next_id;
      user_id = user;
      client_id = client;
      cursor = 0;
      status = root_active;
      last_seen_at = none;
    } in
    (r, record db { roots = db.roots ++ r ∷ []; next_id = suc db.next_id })

-- The name of a root is not modelled.
unfoldable pub register_root : ℕ → Text → Db → Root × Db
unfolding register_new
register_root user client db = register_new user client (scalar (of_client user client) db.roots) db

-- `SyncPushResponse`
pub record Response : Type 0 where
  pub cursor : ℕ
  pub operations : List Operation
  pub conflicts : List Conflict

abbrev pub newer_than : ℕ → ℕ → Operation → Bool
newer_than root cursor o = o.root_id == root && ltb cursor o.cursor

abbrev open_in : ℕ → Conflict → Bool
open_in root c = c.root_id == root && is_open c.status

abbrev pub page : Root → ℕ → ℕ → Db → Response
page r cursor limit db = record {
  cursor = r.cursor;
  operations =
      take limit (order_by (λ o. o.cursor) (scalars (newer_than r.id cursor) db.operations));
  conflicts = scalars (open_in r.id) db.conflicts;
}

unfoldable pub pull_operations : ℕ → ℕ → ℕ → ℕ → Db → Result Response
unfolding owned_root
pull_operations user root_id cursor limit db = elim (owned_root user root_id db) [
  | err f ↦ err f
  | ok r ↦ ok (page r cursor limit db)
]

unfoldable pub list_conflicts : ℕ → ℕ → Db → Result (List Conflict)
unfolding owned_root
list_conflicts user root_id db = elim (owned_root user root_id db) [
  | err f ↦ err f
  | ok r ↦ ok (scalars (open_in r.id) db.conflicts)
]

-- the commit, or the rollback to the state before the request
abbrev pub commit_or_rollback : {A : Type 0} → Db → Result A × Db → Result A × Db
commit_or_rollback before (ok a, after) = (ok a, after)
commit_or_rollback before (err f, after) = (err f, before)

push_to_root : Host → ℕ → Text → List Input → Result Root → Exec Db Pushed
push_to_root w now client inputs (err f) db = (err f, db)
push_to_root w now client inputs (ok r) db =
    commit_or_rollback db (apply_operations w now r client inputs db)

unfoldable pub push_operations : Host → ℕ → ℕ → ℕ → Text → List Input → Exec Db Pushed
unfolding push_to_root owned_root
push_operations w now user root_id client inputs db =
    push_to_root w now client inputs (owned_root user root_id db) db

abbrev owner_of : ℕ → Conflict → Root → Bool
owner_of user c r = r.id == c.root_id && r.user_id == user

-- the join of a conflict with its root
abbrev conflict_of_user : ℕ → ℕ → List Root → Conflict → Bool
conflict_of_user i user roots c = c.id == i && any_row (owner_of user c) roots

resolve_found : Host → ℕ → Choice → Option Conflict → Exec Db Conflict
resolve_found w now choice none db = (err conflict_missing, db)
resolve_found w now choice (some c) db = commit_or_rollback db (resolve_conflict w now c choice db)

unfoldable pub resolve_sync_conflict : Host → ℕ → ℕ → ℕ → Choice → Exec Db Conflict
unfolding resolve_found
resolve_sync_conflict w now user conflict_id choice db =
    resolve_found w now choice (scalar (conflict_of_user conflict_id user db.roots) db.conflicts) db
