-- ===== src/Sync/Stale.antt =====
-- An input that was made against another revision than the item has.
use drivebound_storage.Base.{
  ℕ, ◌+◌, ◌≡◌, inl, inr, refl, false, ◌||◌, none, some, [], ◌∷◌, ◌++◌, Text, opt_text_is, is_some,
  Bool-cases, scalar,
}
use drivebound_storage.Host.{Host}
use drivebound_storage.Catalog.{
  Root, Item, Conflict, ConflictKind, delete_vs_change, concurrent_change, open_conflict, Db,
}
use drivebound_storage.Lifecycle.{audit}
use drivebound_storage.Sync.Items.{Input}
use drivebound_storage.Sync.{
  by_operation_id, by_sequence, record_conflict, new_conflict, finish_input, apply_or_conflict,
  apply_new, apply_unless_repeated, apply_input, find_item, conflict_of, is_delete,
}

conflict_of-stale :
    (input : Input) (item : Item)
    → opt_text_is input.base_revision (some item.revision) ≡ false
    → (k : ConflictKind) × (conflict_of input (some item) ≡ some k)
unfolding conflict_of
conflict_of-stale input item stale =
    elim (Bool-cases (is_delete input.kind || is_some item.deleted_at)) [
      | inl y ↦ (delete_vs_change, rw (stale, y) refl)
      | inr n ↦ (concurrent_change, rw (stale, n) refl)
    ]

-- A new input whose base revision is not the item's changes no item, no asset and no stored file:
-- it advances the cursor by one and opens a conflict of the input's base revision with the item's,
-- under the id that it answers.
pub stale_input :
    (w : Host) (now : ℕ) (client : Text) (root : Root) (input : Input) (item : Item) (db : Db)
    → scalar (by_operation_id input.operation_id) db.operations ≡ none
    → scalar (by_sequence root.id client input.client_sequence) db.operations ≡ none
    → find_item root.id input.logical_id db ≡ some item
    → opt_text_is input.base_revision (some item.revision) ≡ false
    → let (a, after) = apply_input w now client root input db in
      (after.items ≡ db.items)
      × (after.assets ≡ db.assets)
      × (after.files ≡ db.files)
      × (a.root.cursor ≡ root.cursor + 1)
      × ((c : Conflict) × (after.conflicts ≡ db.conflicts ++ c ∷ [])
          × (a.conflict ≡ some c.id)
          × (c.status ≡ open_conflict)
          × (c.expected_revision ≡ input.base_revision)
          × (c.actual_revision ≡ some item.revision))
unfolding apply_input apply_unless_repeated apply_new apply_or_conflict finish_input record_conflict
    new_conflict audit
stale_input w now client root input item db new_id new_sequence found stale =
    let (k, e) = conflict_of-stale input item stale in
    rw (new_id, new_sequence, found, e) (refl, refl, refl, refl, (_, refl, refl, refl, refl, refl))
