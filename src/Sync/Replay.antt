-- ===== src/Sync/Replay.antt =====
-- What a push keeps of the operations, in support of a batch that a client pushes again.
pub mod Answers
pub mod Again
use drivebound_storage.Base.{ℕ, refl, sym, subst, Bool, Option, none, some, List, update}
use drivebound_storage.Base.Fault.{Result, ok, err}
use drivebound_storage.Host.{Host}
use drivebound_storage.Catalog.{Root, Item, Operation, Payload, ConflictKind, Db}
use drivebound_storage.Lifecycle.{audit}
use drivebound_storage.Sync.Items.{Input, apply_item_operation}
use drivebound_storage.Sync.Items.Frame.{apply_item_operation-Framed}
use drivebound_storage.Sync.Journal.{SameEntry}
use drivebound_storage.Sync.{
  operation_row_is, settle, try_apply, record_conflict, finish_input, apply_or_conflict,
}

-- A fact about the operations that no assignment to their payload or status changes.
module _ (P : List Operation → Type 0)
    (same : (q : Operation → Bool) (f : Operation → Operation) (xs : List Operation)
      → ((x : Operation) → SameEntry x (f x))
      → P xs
      → P (update q f xs)) where
  settle-keeps :
      (root : Root) (operation : Operation) (input : Input) (p : Result Payload × Db)
      → P p.1.operations
      → P (settle root operation input p).1.operations
  unfolding settle audit
  settle-keeps root operation input (ok _, db) h =
      same (operation_row_is operation.id) _ db.operations
        (λ x. (refl, refl, refl, refl, refl, refl)) h
  settle-keeps root operation input (err e, db) h =
      same (operation_row_is operation.id) _ db.operations
        (λ x. (refl, refl, refl, refl, refl, refl)) h

  finish_input-keeps :
      (root : Root) (operation : Operation) (input : Input) (item : Option Item)
      (k : Option ConflictKind) (db : Db)
      → P db.operations
      → P (finish_input root operation input item k db).1.operations
  unfolding finish_input record_conflict audit
  finish_input-keeps root operation input item none db h = h
  finish_input-keeps root operation input item (some k) db h =
      same (operation_row_is operation.id) _ db.operations
        (λ x. (refl, refl, refl, refl, refl, refl)) h

  pub apply_or_conflict-keeps :
      (w : Host) (now : ℕ) (root : Root) (operation : Operation) (input : Input)
      (item : Option Item) (k : Option ConflictKind) (db : Db)
      → P db.operations
      → P (apply_or_conflict w now root operation input item k db).1.operations
  unfolding apply_or_conflict try_apply
  apply_or_conflict-keeps w now root operation input item (some k) db h =
      finish_input-keeps root operation input item (some k) db h
  apply_or_conflict-keeps w now root operation input item none db h =
      finish_input-keeps root operation input item _ _ (
        settle-keeps root operation input (apply_item_operation w now root operation input item db)
          (subst P (sym (apply_item_operation-Framed db now root operation input item w).0) h))
