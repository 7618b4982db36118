-- ===== src/Sync.antt =====
-- backend/app/services/sync.py, the server's journal of folder operations: the push of a batch and
-- the resolution of a conflict. `_apply_item_operation` stands in the child Items. A row that the
-- source holds as an object is passed beside the table that holds it, and both change together.
pub mod Items
pub mod Resolution
pub mod Journal
pub mod Replay
pub mod Stale
pub mod Paths
pub mod Endpoints
use drivebound_storage.Base.{
  ℕ, suc, ◌+◌, Bool, true, false, ◌&&◌, ◌||◌, not, Option, none, some, List, [], ◌∷◌, ◌++◌, Text,
  ◌==◌, opt_text_is, same_text, if◌then◌else◌, is_some, scalar, scalars, update, order_by,
}
use drivebound_storage.Base.Fault.{
  Fault, Result, ok, err, Exec, account_unavailable, root_unavailable, conflict_incomplete,
}
use drivebound_storage.Host.{Host}
use drivebound_storage.Catalog.{
  Root, RootStatus, root_active, root_suspended, Item, Kind, upsert, move, delete, OperationStatus,
  applied, conflicted, rejected, Payload, no_payload, content, tombstone, invalid, unresolved,
  Operation, ConflictKind, delete_vs_change, concurrent_change, invalid_transition, Choice,
  keep_local, keep_remote, ConflictStatus, open_conflict, resolved_conflict, Conflict,
  sync_operation_applied, sync_conflict_detected, sync_conflict_resolved, Db,
}
use drivebound_storage.Lifecycle.{audit, active_user}
use Items.{Input, apply_item_operation, next_revision, item_is}

abbrev pub root_is : ℕ → Root → Bool
root_is i r = r.id == i

abbrev pub operation_row_is : ℕ → Operation → Bool
operation_row_is i o = o.id == i

abbrev is_root_active : RootStatus → Bool
is_root_active root_active = true
is_root_active root_suspended = false

abbrev pub is_applied : OperationStatus → Bool
is_applied applied = true
is_applied _ = false

abbrev pub is_delete : Kind → Bool
is_delete delete = true
is_delete _ = false

-- a change of a root, in the object and in its row
abbrev pub set_cursor : ℕ → Root → Root
set_cursor n r = record r { cursor = n }

abbrev pub set_roots : ℕ → (Root → Root) → Db → Db
set_roots i f db = record db { roots = update (root_is i) f db.roots }

abbrev pub set_operations : ℕ → (Operation → Operation) → Db → Db
set_operations i f db = record db { operations = update (operation_row_is i) f db.operations }

abbrev pub find_item : ℕ → ℕ → Db → Option Item
find_item root logical db = scalar (item_is root logical) db.items

-- the operation that a retried input repeats
abbrev pub by_operation_id : ℕ → Operation → Bool
by_operation_id i o = o.operation_id == i

abbrev pub by_sequence : ℕ → Text → ℕ → Operation → Bool
by_sequence root client sequence o =
    o.root_id == root && same_text o.client_id client && o.client_sequence == sequence

-- Whether the input was made against another revision than the item has.
pub conflict_of : Input → Option Item → Option ConflictKind
conflict_of input none = none
conflict_of input (some item) =
    if opt_text_is input.base_revision (some item.revision)
    then none
    else if is_delete input.kind || is_some item.deleted_at
    then some delete_vs_change
    else some concurrent_change

abbrev pub new_operation : ℕ → Root → Text → Input → Operation
new_operation id root client input = record {
  id = id;
  root_id = root.id;
  cursor = root.cursor;
  client_id = client;
  client_sequence = input.client_sequence;
  operation_id = input.operation_id;
  kind = input.kind;
  logical_id = input.logical_id;
  base_revision = input.base_revision;
  revision = some (next_revision root.cursor input.operation_id);
  payload = no_payload;
  status = applied;
}

abbrev pub set_payload : Payload → Operation → Operation
set_payload p o = record o { payload = p }

abbrev pub mark_conflicted : Payload → Operation → Operation
mark_conflicted p o = record o { status = conflicted; payload = p }

-- what the `try` does with the outcome of the item operation: the kind of conflict that a fault makes
unfoldable pub settle : Root → Operation → Input → Result Payload × Db → Option ConflictKind × Db
settle root operation input (ok payload, db) = (
  none,
  audit root.user_id
      (sync_operation_applied root.id operation.operation_id input.kind input.logical_id
        operation.cursor)
      (set_operations operation.id (set_payload payload) db),
)
settle root operation input (err f, db) = (
  some invalid_transition,
  set_operations operation.id (set_payload (invalid input.relative_path input.asset_id f)) db,
)

unfoldable pub try_apply :
    Host → ℕ → Root → Operation → Input → Option Item → Db → Option ConflictKind × Db
unfolding settle
try_apply w now root operation input item db =
    settle root operation input (apply_item_operation w now root operation input item db)

abbrev pub last_of : {A : Type 0} → List A → Option A
last_of [] = none
last_of (x ∷ []) = some x
last_of (x ∷ y ∷ xs) = last_of (y ∷ xs)

abbrev applied_to : ℕ → ℕ → Operation → Bool
applied_to root logical o = o.root_id == root && o.logical_id == logical && is_applied o.status

-- the newest applied operation on the same file
abbrev pub previous_operation : ℕ → ℕ → Db → Option Operation
previous_operation root logical db =
    last_of (order_by (λ o. o.cursor) (scalars (applied_to root logical) db.operations))

abbrev operation_key : Operation → ℕ
operation_key o = o.id

abbrev option_map : {A B : Type 0} → (A → B) → Option A → Option B
option_map f none = none
option_map f (some a) = some (f a)

abbrev item_revision : Item → Text
item_revision item = item.revision

unfoldable pub new_conflict :
    ℕ → Root → Operation → Input → Option Item → ConflictKind → Option Operation → Conflict
new_conflict id root operation input item kind previous = record {
  id = id;
  root_id = root.id;
  logical_id = input.logical_id;
  local_operation_id = operation.id;
  conflicting_operation_id = option_map operation_key previous;
  kind = kind;
  expected_revision = input.base_revision;
  actual_revision = option_map item_revision item;
  status = open_conflict;
  resolution = none;
  resolved_at = none;
}

-- what the source does where `conflict_kind is not None`; the conflict's id is drawn
unfoldable pub record_conflict : Root → Operation → Input → Option Item → ConflictKind → Db → ℕ × Db
unfolding new_conflict
record_conflict root operation input item kind db =
    let marked =
      set_operations operation.id
        (mark_conflicted (unresolved input.relative_path input.asset_id input.kind)) db in
    let conflict =
      new_conflict marked.next_id root operation input item kind
        (previous_operation root.id input.logical_id marked) in
    (
      conflict.id,
      audit root.user_id
          (sync_conflict_detected root.id operation.operation_id kind input.logical_id)
          (record marked {
            conflicts = marked.conflicts ++ conflict ∷ [];
            next_id = suc marked.next_id;
          }),
    )

-- The answer for one input: the root object, the operation's row and the conflict's row, if any.
pub record Answer : Type 0 where
  pub root : Root
  pub operation : ℕ
  pub conflict : Option ℕ

unfoldable pub finish_input :
    Root → Operation → Input → Option Item → Option ConflictKind → Db → Answer × Db
unfolding record_conflict
finish_input root operation input item none db =
    (record { root = root; operation = operation.id; conflict = none }, db)
finish_input root operation input item (some kind) db =
    let (id, after) = record_conflict root operation input item kind db in
    (record { root = root; operation = operation.id; conflict = some id }, after)

-- the item operation is tried only where no revision conflict was found
unfoldable pub apply_or_conflict :
    Host → ℕ → Root → Operation → Input → Option Item → Option ConflictKind → Db → Answer × Db
unfolding finish_input try_apply
apply_or_conflict w now root operation input item (some kind) db =
    finish_input root operation input item (some kind) db
apply_or_conflict w now root operation input item none db =
    let (kind, after) = try_apply w now root operation input item db in
    finish_input root operation input item kind after

-- A new input: the cursor advances, the operation is recorded, and the item is changed.
unfoldable pub apply_new : Host → ℕ → Text → Root → Input → Db → Answer × Db
unfolding apply_or_conflict
apply_new w now client root input db =
    let advanced = set_cursor (root.cursor + 1) root in
    let operation = new_operation db.next_id advanced client input in
    let item = find_item root.id input.logical_id db in
    apply_or_conflict w now advanced operation input item (conflict_of input item)
      (record (set_roots root.id (set_cursor (root.cursor + 1)) db) {
        operations = db.operations ++ operation ∷ [];
        next_id = suc db.next_id;
      })

abbrev pub repeated : Root → Operation → Answer
repeated root o = record { root = root; operation = o.id; conflict = none }

unfoldable pub apply_unless_repeated :
    Host → ℕ → Text → Root → Input → Option Operation → Option Operation → Db → Answer × Db
unfolding apply_new
apply_unless_repeated w now client root input (some o) p db = (repeated root o, db)
apply_unless_repeated w now client root input none (some o) db = (repeated root o, db)
apply_unless_repeated w now client root input none none db = apply_new w now client root input db

-- the body of the loop in `apply_operations`
unfoldable pub apply_input : Host → ℕ → Text → Root → Input → Db → Answer × Db
unfolding apply_unless_repeated
apply_input w now client root input db =
    apply_unless_repeated w now client root input
      (scalar (by_operation_id input.operation_id) db.operations)
      (scalar (by_sequence root.id client input.client_sequence) db.operations) db

abbrev pub cons_some : Option ℕ → List ℕ → List ℕ
cons_some none xs = xs
cons_some (some x) xs = x ∷ xs

-- the rows of the answered operations and of the new conflicts
pub record Pushed : Type 0 where
  pub root : Root
  pub operations : List ℕ
  pub conflicts : List ℕ

unfoldable pub apply_inputs : Host → ℕ → Text → Root → List Input → Db → Pushed × Db
apply_inputs w now client root [] db = (record { root = root; operations = []; conflicts = [] }, db)
apply_inputs w now client root (input ∷ inputs) db =
    let (a, mid) = apply_input w now client root input db in
    let (p, after) = apply_inputs w now client a.root inputs mid in
    (
      record {
        root = p.root;
        operations = a.operation ∷ p.operations;
        conflicts = cons_some a.conflict p.conflicts;
      },
      after,
    )

abbrev pub usable_root : ℕ → ℕ → Root → Bool
usable_root i user r = r.id == i && r.user_id == user && is_root_active r.status

abbrev pub saw : ℕ → Root → Root
saw now r = record r { last_seen_at = some now }

unfoldable pub push_to : Host → ℕ → Text → List Input → Option Root → Exec Db Pushed
push_to w now client inputs none db = (err root_unavailable, db)
push_to w now client inputs (some root) db =
    let (p, after) = apply_inputs w now client root inputs db in
    (ok (record p { root = saw now p.root }), set_roots p.root.id (saw now) after)

unfoldable pub apply_operations : Host → ℕ → Root → Text → List Input → Exec Db Pushed
unfolding push_to
apply_operations w now root client inputs db =
    if is_some (active_user root.user_id db)
    then push_to w now client inputs (scalar (usable_root root.id root.user_id) db.roots) db
    else (err account_unavailable, db)
