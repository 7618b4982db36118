-- ===== src/Sync/Items/Versions/Kept.antt =====
-- Every item operation keeps the version numbers.
use drivebound_storage.Base.{
  ℕ, ◌+◌, ◌≤◌, ◌≡◌, inl, inr, refl, Bool, true, false, ◌==◌, Option, none, some, Text, arith,
  Bool-cases, scalar, scalar_sound, subst, is_some, if◌then◌else◌,
}
use drivebound_storage.Base.Fault.{Result, ok, err, clone_of_deleting}
use drivebound_storage.Catalog.{
  Kind, upsert, move, delete, Asset, Root, Item, Operation, Db, asset_is, active_of,
}
use drivebound_storage.Lifecycle.{supersede_row, trash_row, trash_asset, audit}
use drivebound_storage.Lifecycle.Drawn.{trash_asset-keeps}
use drivebound_storage.Host.{Host}
use drivebound_storage.Sync.Items.{
  Input, Place, stay, attach, clone, usable, highest_version, upsert_asset, apply_upsert,
  move_asset, move_found, move_item, apply_move, bury, bury_trashed, delete_found, delete_item,
  apply_delete, apply_kind, apply_item_operation, place_asset, add_clone, clone_asset_revision,
  cloneable, clone_row, supersede_target, make_current, finish_upsert, write_item, place_of,
}
use drivebound_storage.Sync.Items.Upsert.{AssetsOk, Ready, gives_way}
use drivebound_storage.Sync.Items.Keeps.{apply_item_operation-AssetsOk}
use drivebound_storage.Sync.Items.Versions.{
  AreVersioned, SameVersion, AreBelow, update-AreVersioned, update-AreBelow,
  highest_version-AreBelow, attached, added,
}

supersede_row-SameVersion : (now : ℕ) (a : Asset) → SameVersion a (supersede_row now a)
unfolding supersede_row
supersede_row-SameVersion now a = (refl, refl, refl)

make_current-SameVersion : (a : Asset) → SameVersion a (make_current a)
unfolding make_current
make_current-SameVersion a = (refl, refl, refl)

trash_row-SameVersion :
    (now days : ℕ) (actor : Text) (a : Asset) → SameVersion a (trash_row now days actor a)
unfolding trash_row
trash_row-SameVersion now days actor a = (refl, refl, refl)

supersede_target-AreVersioned :
    (now user logical version : ℕ) (asset : Asset) (t : Option Asset) (db : Db)
    → AreVersioned db.assets
    → AreBelow user logical version db.assets
    → let after = supersede_target now asset t db in
      AreVersioned after.assets × AreBelow user logical version after.assets
unfolding supersede_target
supersede_target-AreVersioned now user logical version asset none db h below = (h, below)
supersede_target-AreVersioned now user logical version asset (some t) db h below =
    elim (Bool-cases (t.id == asset.id)) [
      | inl same ↦ rw same (h, below)
      | inr other ↦ rw other (
        update-AreVersioned (asset_is t.id) (supersede_row now) (supersede_row-SameVersion now)
            db.assets h,
        update-AreBelow (asset_is t.id) (supersede_row now) (supersede_row-SameVersion now) user
            logical version db.assets below,
      )
    ]

module _ (now user logical version : ℕ) (asset : Asset) (mine : asset.user_id ≡ user)
    (pos : 1 ≤ version) (db : Db) (below : AreBelow user logical version db.assets)
    (good : AreVersioned db.assets) where
  cloned :
      (b : Bool)
      → AreVersioned
          (add_clone
            (if b
              then ok (clone_row db.next_id now asset logical version)
              else err clone_of_deleting)
            db).1.assets
  unfolding add_clone
  cloned false = good
  cloned true =
      added now user logical version asset mine pos (clone_row db.next_id now asset logical version)
        db.assets mine refl refl below good

  placed :
      (place : Place)
      → Ready user logical asset db
      → AreVersioned (place_asset now logical version asset place db).1.assets
  unfolding place_asset clone_asset_revision
  placed stay ready = good
  placed attach ready =
      attached now user logical version asset mine pos db.assets ready.0.0.ids ready.1 below good
  placed clone ready = cloned (cloneable asset.lifecycle_state)

finish_upsert-AreVersioned :
    (root : Root) (operation : Operation) (input : Input) (item : Option Item) (path : Text)
    (p : Result Asset × Db)
    → AreVersioned p.1.assets
    → AreVersioned (finish_upsert root operation input item path p).1.assets
unfolding finish_upsert write_item
finish_upsert-AreVersioned root operation input item path (err f, db) h = h
finish_upsert-AreVersioned root operation input none path (ok a, db) h =
    update-AreVersioned (asset_is a.id) make_current make_current-SameVersion db.assets h
finish_upsert-AreVersioned root operation input (some _) path (ok a, db) h =
    update-AreVersioned (asset_is a.id) make_current make_current-SameVersion db.assets h

trash_asset-AreVersioned :
    (w : Host) (now : ℕ) (actor : Text) (retention : Option ℕ) (i : ℕ) (db : Db)
    → AreVersioned db.assets
    → AreVersioned (trash_asset w now actor retention i db).1.assets
unfolding audit
trash_asset-AreVersioned w now actor retention i db h =
    trash_asset-keeps w now actor retention (λ d. AreVersioned d.assets) (λ d ps k. k)
      (λ a days d k.
        update-AreVersioned (asset_is a.id) (trash_row now days actor)
          (trash_row-SameVersion now days actor) d.assets k)
      i db h

module _ (now : ℕ) (root : Root) (operation : Operation) (input : Input) (item : Option Item)
    (db : Db) (sound : AssetsOk db) (good : AreVersioned db.assets) where
  upsert_asset-AreVersioned :
      (path : Text) (i : ℕ) (a : Option Asset)
      → scalar (usable i root.user_id) db.assets ≡ a
      → AreVersioned (upsert_asset now root operation input item path a db).1.assets
  unfolding upsert_asset
  upsert_asset-AreVersioned path i none e = good
  upsert_asset-AreVersioned path i (some a) e =
      let fits = scalar_sound (usable i root.user_id) db.assets a e in
      let same : i ≡ a.id = ground (arith, fits) in
      let mine : a.user_id ≡ root.user_id = ground (arith, fits) in
      let version = highest_version root.user_id input.logical_id db.assets + 1 in
      let target = scalar (active_of root.user_id input.logical_id) db.assets in
      let given_way = supersede_target now a target db in
      let (h, below) =
        supersede_target-AreVersioned now root.user_id input.logical_id version a target db good
          (highest_version-AreBelow root.user_id input.logical_id db.assets) in
      finish_upsert-AreVersioned root operation input item path _ (
        placed now root.user_id input.logical_id version a mine (omega arith) given_way below h
          (place_of root input item a target given_way)
          (gives_way now root.user_id input.logical_id a db sound
            (subst (λ k. scalar (usable k root.user_id) db.assets ≡ some a) same e) target refl))

  apply_upsert-AreVersioned :
      (i : Option ℕ) (path : Option Text)
      → AreVersioned (apply_upsert now root operation input item i path db).1.assets
  unfolding apply_upsert
  apply_upsert-AreVersioned none path = good
  apply_upsert-AreVersioned (some i) none = good
  apply_upsert-AreVersioned (some i) (some path) = upsert_asset-AreVersioned path i _ refl

  move_item-AreVersioned :
      (path : Text) (i : Option ℕ)
      → AreVersioned (move_item root operation input path i db).1.assets
  unfolding move_item move_found move_asset
  move_item-AreVersioned path none = good
  move_item-AreVersioned path (some i) = go (scalar (usable i root.user_id) db.assets)
    where
      go : (a : Option Asset) → AreVersioned (move_found root operation input path a db).1.assets
      go none = good
      go (some a) = good

  apply_move-AreVersioned :
      (o : Option Item) (path : Option Text)
      → AreVersioned (apply_move root operation input o path db).1.assets
  unfolding apply_move
  apply_move-AreVersioned none path = good
  apply_move-AreVersioned (some o) none = good
  apply_move-AreVersioned (some o) (some path) = elim (Bool-cases (is_some o.deleted_at)) [
    | inl gone ↦ rw gone good
    | inr here ↦ rw here (move_item-AreVersioned path o.asset_id)
  ]

  module _ (w : Host) where
    bury_trashed-AreVersioned :
        (o : Item) (t : Result Asset × Db)
        → AreVersioned t.1.assets
        → AreVersioned (bury_trashed now root operation input o t).1.assets
    unfolding bury_trashed bury
    bury_trashed-AreVersioned o (err f, after) h = h
    bury_trashed-AreVersioned o (ok _, after) h = h

    delete_found-AreVersioned :
        (o : Item) (a : Option Asset)
        → AreVersioned (delete_found w now root operation input o a db).1.assets
    unfolding delete_found
    delete_found-AreVersioned o none = good
    delete_found-AreVersioned o (some a) =
        bury_trashed-AreVersioned o _ (trash_asset-AreVersioned w now _ none a.id db good)

    delete_item-AreVersioned :
        (o : Item) (i : Option ℕ)
        → AreVersioned (delete_item w now root operation input o i db).1.assets
    unfolding delete_item bury
    delete_item-AreVersioned o none = good
    delete_item-AreVersioned o (some i) = delete_found-AreVersioned o _

    apply_delete-AreVersioned :
        (o : Option Item) → AreVersioned (apply_delete w now root operation input o db).1.assets
    unfolding apply_delete
    apply_delete-AreVersioned none = good
    apply_delete-AreVersioned (some o) = delete_item-AreVersioned o o.asset_id

    apply_kind-AreVersioned :
        (k : Kind) → AreVersioned (apply_kind w now root operation input item k db).1.assets
    unfolding apply_kind
    apply_kind-AreVersioned upsert = apply_upsert-AreVersioned input.asset_id input.relative_path
    apply_kind-AreVersioned move = apply_move-AreVersioned item input.relative_path
    apply_kind-AreVersioned delete = apply_delete-AreVersioned item

    -- Whatever it does, an item operation keeps the constraints of the assets table and draws its ids
    -- from the counter: no id twice, one active revision for each file of an account at most, no
    -- version number twice in a file, and none that is not positive.
    pub apply_item_operation-AreVersioned :
        let after = (apply_item_operation w now root operation input item db).1 in
        AssetsOk after × AreVersioned after.assets
    unfolding apply_item_operation
    apply_item_operation-AreVersioned = (
      apply_item_operation-AssetsOk now root operation input item db sound w,
      apply_kind-AreVersioned input.kind,
    )
