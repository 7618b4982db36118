-- ===== src/Sync/Items/Keeps.antt =====
-- The item operations against the constraints of the assets table.
use drivebound_storage.Base.{
  ℕ, ◌+◌, ◌≡◌, inl, inr, refl, Option, none, some, Text, arith, Bool-cases, scalar, scalar_sound,
  subst, is_some,
}
use drivebound_storage.Base.Fault.{Result, ok, err}
use drivebound_storage.Catalog.{Kind, upsert, move, delete, Asset, Root, Item, Operation, Db}
use drivebound_storage.Lifecycle.Drawn.{trash_asset-Fresh}
use drivebound_storage.Lifecycle.Trash.{trash_asset-IsSound}
use drivebound_storage.Host.{Host}
use drivebound_storage.Sync.Items.{
  Input, usable, highest_version, upsert_asset, apply_upsert, move_asset, move_found, move_item,
  apply_move, bury, bury_trashed, delete_found, delete_item, apply_delete, apply_kind,
  apply_item_operation,
}
use drivebound_storage.Sync.Items.Placing.{place_of-Placed, finish_upsert-AssetsOk}
use drivebound_storage.Sync.Items.Upsert.{AssetsOk}

module _ (now : ℕ) (root : Root) (operation : Operation) (input : Input) (item : Option Item)
    (db : Db) (good : AssetsOk db) where
  upsert_asset-AssetsOk :
      (path : Text) (i : ℕ) (a : Option Asset)
      → scalar (usable i root.user_id) db.assets ≡ a
      → AssetsOk (upsert_asset now root operation input item path a db).1
  unfolding upsert_asset
  upsert_asset-AssetsOk path i none e = good
  upsert_asset-AssetsOk path i (some a) e =
      let same : i ≡ a.id = ground (arith, scalar_sound (usable i root.user_id) db.assets a e) in
      finish_upsert-AssetsOk root operation input item path _ (
        place_of-Placed now root operation input item path a db good
          (subst (λ k. scalar (usable k root.user_id) db.assets ≡ some a) same e)
          (highest_version root.user_id input.logical_id db.assets + 1))

  apply_upsert-AssetsOk :
      (i : Option ℕ) (path : Option Text)
      → AssetsOk (apply_upsert now root operation input item i path db).1
  unfolding apply_upsert
  apply_upsert-AssetsOk none path = good
  apply_upsert-AssetsOk (some i) none = good
  apply_upsert-AssetsOk (some i) (some path) = upsert_asset-AssetsOk path i _ refl

  move_item-AssetsOk :
      (path : Text) (i : Option ℕ) → AssetsOk (move_item root operation input path i db).1
  unfolding move_item move_found move_asset
  move_item-AssetsOk path none = good
  move_item-AssetsOk path (some i) = go (scalar (usable i root.user_id) db.assets)
    where
      go : (a : Option Asset) → AssetsOk (move_found root operation input path a db).1
      go none = good
      go (some a) = good

  apply_move-AssetsOk :
      (o : Option Item) (path : Option Text)
      → AssetsOk (apply_move root operation input o path db).1
  unfolding apply_move
  apply_move-AssetsOk none path = good
  apply_move-AssetsOk (some o) none = good
  apply_move-AssetsOk (some o) (some path) = elim (Bool-cases (is_some o.deleted_at)) [
    | inl gone ↦ rw gone good
    | inr here ↦ rw here (move_item-AssetsOk path o.asset_id)
  ]

  module _ (w : Host) where
    bury_trashed-AssetsOk :
        (o : Item) (t : Result Asset × Db)
        → AssetsOk t.1
        → AssetsOk (bury_trashed now root operation input o t).1
    unfolding bury_trashed bury
    bury_trashed-AssetsOk o (err f, after) h = h
    bury_trashed-AssetsOk o (ok _, after) h = h

    delete_found-AssetsOk :
        (o : Item) (a : Option Asset) → AssetsOk (delete_found w now root operation input o a db).1
    unfolding delete_found
    delete_found-AssetsOk o none = good
    delete_found-AssetsOk o (some a) = bury_trashed-AssetsOk o _ (
      trash_asset-IsSound w now _ none a.id db good.0,
      trash_asset-Fresh w now _ none a.id db good.1,
    )

    delete_item-AssetsOk :
        (o : Item) (i : Option ℕ) → AssetsOk (delete_item w now root operation input o i db).1
    unfolding delete_item bury
    delete_item-AssetsOk o none = good
    delete_item-AssetsOk o (some i) = delete_found-AssetsOk o _

    apply_delete-AssetsOk :
        (o : Option Item) → AssetsOk (apply_delete w now root operation input o db).1
    unfolding apply_delete
    apply_delete-AssetsOk none = good
    apply_delete-AssetsOk (some o) = delete_item-AssetsOk o o.asset_id

    apply_kind-AssetsOk : (k : Kind) → AssetsOk (apply_kind w now root operation input item k db).1
    unfolding apply_kind
    apply_kind-AssetsOk upsert = apply_upsert-AssetsOk input.asset_id input.relative_path
    apply_kind-AssetsOk move = apply_move-AssetsOk item input.relative_path
    apply_kind-AssetsOk delete = apply_delete-AssetsOk item

    -- Whatever it does, an item operation keeps the constraints of the assets table and draws its ids
    -- from the counter: no id twice, one active revision for each file of an account at most.
    pub apply_item_operation-AssetsOk :
        AssetsOk (apply_item_operation w now root operation input item db).1
    unfolding apply_item_operation
    apply_item_operation-AssetsOk = apply_kind-AssetsOk input.kind
