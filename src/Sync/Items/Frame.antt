-- ===== src/Sync/Items/Frame.antt =====
-- The tables that an item operation leaves alone.
use drivebound_storage.Base.{
  ℕ, ◌≤◌, ◌≡◌, inl, inr, refl, Option, none, some, Text, arith, Bool-cases, is_some,
}
use drivebound_storage.Base.Fault.{Result, ok, err}
use drivebound_storage.Host.{Host}
use drivebound_storage.Catalog.{Asset, Root, Item, Operation, Db, Kind, upsert, move, delete}
use drivebound_storage.Lifecycle.{audit}
use drivebound_storage.Lifecycle.Drawn.{trash_asset-keeps}
use drivebound_storage.Sync.Items.{
  Input, Place, stay, attach, clone, place_asset, add_clone, supersede_target, finish_upsert,
  write_item, upsert_asset, apply_upsert, move_asset, move_found, move_item, apply_move, bury,
  bury_trashed, delete_found, delete_item, apply_delete, apply_kind, apply_item_operation,
}

-- The journal's tables and the accounts are the same, and no drawn id is given back.
abbrev pub Framed : Db → Db → Type 0
Framed db after =
    (after.operations ≡ db.operations)
    × (after.roots ≡ db.roots)
    × (after.conflicts ≡ db.conflicts)
    × (db.next_id ≤ after.next_id)
    × (after.users ≡ db.users)

abbrev pub Framed-refl : (db : Db) → Framed db db
Framed-refl db = (refl, refl, refl, omega arith, refl)

module _ (db : Db) (now : ℕ) where
  supersede_target-Framed :
      (asset : Asset) (t : Option Asset) → Framed db (supersede_target now asset t db)
  unfolding supersede_target
  supersede_target-Framed asset none = Framed-refl db
  supersede_target-Framed asset (some t) = ground arith

  add_clone-Framed : (r : Result Asset) (mid : Db) → Framed db mid → Framed db (add_clone r mid).1
  unfolding add_clone
  add_clone-Framed (err f) mid h = h
  add_clone-Framed (ok c) mid h = (h.0, h.1, h.2, omega (arith, h.3), h.4)

  place_asset-Framed :
      (logical version : ℕ) (asset : Asset) (p : Place) (mid : Db)
      → Framed db mid
      → Framed db (place_asset now logical version asset p mid).1
  unfolding place_asset
  place_asset-Framed logical version asset stay mid h = h
  place_asset-Framed logical version asset attach mid h = h
  place_asset-Framed logical version asset clone mid h = add_clone-Framed _ mid h

  module _ (root : Root) (operation : Operation) (input : Input) (item : Option Item) where
    finish_upsert-Framed :
        (o : Option Item) (path : Text) (p : Result Asset × Db)
        → Framed db p.1
        → Framed db (finish_upsert root operation input o path p).1
    unfolding finish_upsert write_item
    finish_upsert-Framed o path (err f, mid) h = h
    finish_upsert-Framed none path (ok a, mid) h = h
    finish_upsert-Framed (some _) path (ok a, mid) h = h

    upsert_asset-Framed :
        (path : Text) (a : Option Asset)
        → Framed db (upsert_asset now root operation input item path a db).1
    unfolding upsert_asset
    upsert_asset-Framed path none = Framed-refl db
    upsert_asset-Framed path (some a) =
        finish_upsert-Framed item path _
          (place_asset-Framed _ _ a _ _ (supersede_target-Framed a _))

    apply_upsert-Framed :
        (i : Option ℕ) (path : Option Text)
        → Framed db (apply_upsert now root operation input item i path db).1
    unfolding apply_upsert
    apply_upsert-Framed none path = Framed-refl db
    apply_upsert-Framed (some i) none = Framed-refl db
    apply_upsert-Framed (some i) (some path) = upsert_asset-Framed path _

    move_found-Framed :
        (path : Text) (a : Option Asset) → Framed db (move_found root operation input path a db).1
    unfolding move_found move_asset
    move_found-Framed path none = Framed-refl db
    move_found-Framed path (some a) = Framed-refl db

    move_item-Framed :
        (path : Text) (i : Option ℕ) → Framed db (move_item root operation input path i db).1
    unfolding move_item move_asset
    move_item-Framed path none = Framed-refl db
    move_item-Framed path (some i) = move_found-Framed path _

    apply_move-Framed :
        (o : Option Item) (path : Option Text)
        → Framed db (apply_move root operation input o path db).1
    unfolding apply_move
    apply_move-Framed none path = Framed-refl db
    apply_move-Framed (some o) none = Framed-refl db
    apply_move-Framed (some o) (some path) = elim (Bool-cases (is_some o.deleted_at)) [
      | inl gone ↦ rw gone (Framed-refl db)
      | inr here ↦ rw here (move_item-Framed path o.asset_id)
    ]

    bury_trashed-Framed :
        (o : Item) (t : Result Asset × Db)
        → Framed db t.1
        → Framed db (bury_trashed now root operation input o t).1
    unfolding bury_trashed bury
    bury_trashed-Framed o (err f, after) h = h
    bury_trashed-Framed o (ok _, after) h = h

    module _ (w : Host) where
      delete_found-Framed :
          (o : Item) (a : Option Asset)
          → Framed db (delete_found w now root operation input o a db).1
      unfolding delete_found audit
      delete_found-Framed o none = Framed-refl db
      delete_found-Framed o (some a) = bury_trashed-Framed o _ (
          trash_asset-keeps w now _ none (Framed db) (λ mid ps h. h) (λ x days mid h. h) a.id db
            (Framed-refl db))

      delete_item-Framed :
          (o : Item) (i : Option ℕ) → Framed db (delete_item w now root operation input o i db).1
      unfolding delete_item bury
      delete_item-Framed o none = Framed-refl db
      delete_item-Framed o (some i) = delete_found-Framed o _

      apply_delete-Framed :
          (o : Option Item) → Framed db (apply_delete w now root operation input o db).1
      unfolding apply_delete
      apply_delete-Framed none = Framed-refl db
      apply_delete-Framed (some o) = delete_item-Framed o o.asset_id

      apply_kind-Framed : (k : Kind) → Framed db (apply_kind w now root operation input item k db).1
      unfolding apply_kind
      apply_kind-Framed upsert = apply_upsert-Framed input.asset_id input.relative_path
      apply_kind-Framed move = apply_move-Framed item input.relative_path
      apply_kind-Framed delete = apply_delete-Framed item

      pub apply_item_operation-Framed :
          Framed db (apply_item_operation w now root operation input item db).1
      unfolding apply_item_operation
      apply_item_operation-Framed = apply_kind-Framed input.kind
