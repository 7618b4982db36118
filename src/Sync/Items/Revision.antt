-- ===== src/Sync/Items/Revision.antt =====
-- The revision of an item, once an operation on it has been applied.
use drivebound_storage.Base.{
  ℕ, ◌≡◌, inl, inr, refl, ap, ◌∙◌, Bool, true, Option, none, some, List, [], ◌∷◌, ◌++◌, Text,
  ==_refl, arith, Bool-cases, scalar, is_some, update, scalar-update,
}
use drivebound_storage.Base.Fault.{Result, ok, err}
use drivebound_storage.Host.{Host}
use drivebound_storage.Catalog.{
  Asset, Root, Item, Operation, Payload, Db, Kind, upsert, move, delete,
}
use drivebound_storage.Lifecycle.{audit}
use drivebound_storage.Lifecycle.Drawn.{trash_asset-keeps}
use drivebound_storage.Sync.Items.{
  Input, Place, stay, attach, clone, place_asset, add_clone, supersede_target, finish_upsert,
  write_item, item_is, revision_text, upsert_asset, apply_upsert, move_asset, move_found, move_item,
  apply_move, bury, bury_trashed, delete_found, delete_item, apply_delete, apply_kind,
  apply_item_operation,
}

scalar_added :
    (p : Item → Bool) (xs : List Item) (i : Item)
    → scalar p xs ≡ none
    → p i ≡ true
    → scalar p (xs ++ i ∷ []) ≡ some i
unfolding scalar
scalar_added p [] i e y = ground (arith, y)
scalar_added p (x ∷ xs) i e y = ground (arith, scalar_added p xs i)

-- Where it succeeds, the row of the root and the file has the given revision.
abbrev pub Revised : ℕ → ℕ → Text → Result Payload × Db → Type 0
Revised root logical revision (err f, db) = Unit
Revised root logical revision (ok _, db) =
    (i : Item) × (scalar (item_is root logical) db.items ≡ some i) × (i.revision ≡ revision)

module _ (db : Db) (now : ℕ) where
  items-supersede_target :
      (asset : Asset) (t : Option Asset) → (supersede_target now asset t db).items ≡ db.items
  unfolding supersede_target
  items-supersede_target asset none = refl
  items-supersede_target asset (some t) = ground arith

  items-add_clone :
      (r : Result Asset) (mid : Db) → mid.items ≡ db.items → (add_clone r mid).1.items ≡ db.items
  unfolding add_clone
  items-add_clone (err f) mid h = h
  items-add_clone (ok c) mid h = h

  items-place_asset :
      (logical version : ℕ) (asset : Asset) (p : Place) (mid : Db)
      → mid.items ≡ db.items
      → (place_asset now logical version asset p mid).1.items ≡ db.items
  unfolding place_asset
  items-place_asset logical version asset stay mid h = h
  items-place_asset logical version asset attach mid h = h
  items-place_asset logical version asset clone mid h = items-add_clone _ mid h

module _ (now : ℕ) (root : Root) (operation : Operation) (input : Input) where
  rewritten :
      (f : Item → Item) (o : Item) (mid db : Db)
      → mid.items ≡ db.items
      → scalar (item_is root.id input.logical_id) db.items ≡ some o
      → ((x : Item) → item_is root.id input.logical_id (f x) ≡ item_is root.id input.logical_id x)
      → scalar
          (item_is root.id input.logical_id)
          (update (item_is root.id input.logical_id) f mid.items)
        ≡ some (f o)
  rewritten f o mid db same e key =
      rw same (scalar-update (item_is root.id input.logical_id) f db.items o key e)

  finish_upsert-Revised :
      (db : Db) (o : Option Item) (path : Text) (p : Result Asset × Db)
      → scalar (item_is root.id input.logical_id) db.items ≡ o
      → p.1.items ≡ db.items
      → Revised root.id input.logical_id
          (revision_text operation.revision)
          (finish_upsert root operation input o path p)
  unfolding finish_upsert write_item
  finish_upsert-Revised db o path (err f, mid) e h = tt
  finish_upsert-Revised db none path (ok a, mid) e h = (
    _,
    scalar_added (item_is root.id input.logical_id) mid.items _ (ap (scalar _) h ∙ e)
        (ground (arith, ==_refl root.id, ==_refl input.logical_id)),
    refl,
  )
  finish_upsert-Revised db (some o) path (ok a, mid) e h =
      (_, rewritten _ o mid db h e (λ x. refl), refl)

  module _ (db : Db) (item : Option Item)
      (e : scalar (item_is root.id input.logical_id) db.items ≡ item) where
    upsert_asset-Revised :
        (path : Text) (a : Option Asset)
        → Revised root.id input.logical_id
            (revision_text operation.revision)
            (upsert_asset now root operation input item path a db)
    unfolding upsert_asset
    upsert_asset-Revised path none = tt
    upsert_asset-Revised path (some a) =
        finish_upsert-Revised db item path _ e
          (items-place_asset db now _ _ a _ _ (items-supersede_target db now a _))

    apply_upsert-Revised :
        (i : Option ℕ) (path : Option Text)
        → Revised root.id input.logical_id
            (revision_text operation.revision)
            (apply_upsert now root operation input item i path db)
    unfolding apply_upsert
    apply_upsert-Revised none path = tt
    apply_upsert-Revised (some i) none = tt
    apply_upsert-Revised (some i) (some path) = upsert_asset-Revised path _

  module _ (db : Db) (o : Item)
      (e : scalar (item_is root.id input.logical_id) db.items ≡ some o) where
    move_found-Revised :
        (path : Text) (a : Option Asset)
        → Revised root.id input.logical_id
            (revision_text operation.revision)
            (move_found root operation input path a db)
    unfolding move_found move_asset
    move_found-Revised path none = tt
    move_found-Revised path (some a) = (_, rewritten _ o db db refl e (λ x. refl), refl)

    move_item-Revised :
        (path : Text) (i : Option ℕ)
        → Revised root.id input.logical_id
            (revision_text operation.revision)
            (move_item root operation input path i db)
    unfolding move_item move_asset
    move_item-Revised path none = (_, rewritten _ o db db refl e (λ x. refl), refl)
    move_item-Revised path (some i) = move_found-Revised path _

    bury_trashed-Revised :
        (t : Result Asset × Db)
        → t.1.items ≡ db.items
        → Revised root.id input.logical_id
            (revision_text operation.revision)
            (bury_trashed now root operation input o t)
    unfolding bury_trashed bury
    bury_trashed-Revised (err f, mid) h = tt
    bury_trashed-Revised (ok _, mid) h = (_, rewritten _ o mid db h e (λ x. refl), refl)

    delete_found-Revised :
        (w : Host) (a : Option Asset)
        → Revised root.id input.logical_id
            (revision_text operation.revision)
            (delete_found w now root operation input o a db)
    unfolding delete_found audit
    delete_found-Revised w none = tt
    delete_found-Revised w (some a) = bury_trashed-Revised _ (
        trash_asset-keeps w now _ none (λ d. d.items ≡ db.items) (λ mid ps h. h) (λ x days mid h. h)
          a.id db refl)

    delete_item-Revised :
        (w : Host) (i : Option ℕ)
        → Revised root.id input.logical_id
            (revision_text operation.revision)
            (delete_item w now root operation input o i db)
    unfolding delete_item bury
    delete_item-Revised w none = (_, rewritten _ o db db refl e (λ x. refl), refl)
    delete_item-Revised w (some i) = delete_found-Revised w _

  apply_move-Revised :
      (db : Db) (o : Option Item) (path : Option Text)
      → scalar (item_is root.id input.logical_id) db.items ≡ o
      → Revised root.id input.logical_id
          (revision_text operation.revision)
          (apply_move root operation input o path db)
  unfolding apply_move
  apply_move-Revised db none path e = tt
  apply_move-Revised db (some o) none e = tt
  apply_move-Revised db (some o) (some path) e = elim (Bool-cases (is_some o.deleted_at)) [
    | inl gone ↦ rw (Revised, gone) tt
    | inr here ↦ rw (Revised, here) (move_item-Revised db o e path o.asset_id)
  ]

  apply_delete-Revised :
      (w : Host) (db : Db) (o : Option Item)
      → scalar (item_is root.id input.logical_id) db.items ≡ o
      → Revised root.id input.logical_id
          (revision_text operation.revision)
          (apply_delete w now root operation input o db)
  unfolding apply_delete
  apply_delete-Revised w db none e = (
    _,
    scalar_added (item_is root.id input.logical_id) db.items _ e
        (ground (arith, ==_refl root.id, ==_refl input.logical_id)),
    refl,
  )
  apply_delete-Revised w db (some o) e = delete_item-Revised db o e w o.asset_id

  apply_kind-Revised :
      (w : Host) (db : Db) (item : Option Item) (k : Kind)
      → scalar (item_is root.id input.logical_id) db.items ≡ item
      → Revised root.id input.logical_id
          (revision_text operation.revision)
          (apply_kind w now root operation input item k db)
  unfolding apply_kind
  apply_kind-Revised w db item upsert e =
      apply_upsert-Revised db item e input.asset_id input.relative_path
  apply_kind-Revised w db item move e = apply_move-Revised db item input.relative_path e
  apply_kind-Revised w db item delete e = apply_delete-Revised w db item e

-- Every item operation that succeeds, of whatever kind, leaves a row of its root and file, and the
-- revision of that row is the operation's.
pub apply_item_operation-Revised :
    (w : Host) (now : ℕ) (root : Root) (operation : Operation) (input : Input) (db : Db)
    → Revised root.id input.logical_id (revision_text operation.revision) (
        apply_item_operation w now root operation input
          (scalar (item_is root.id input.logical_id) db.items)
          db)
unfolding apply_item_operation
apply_item_operation-Revised w now root operation input db =
    apply_kind-Revised now root operation input w db _ input.kind refl
