-- ===== src/Sync/Items/Placing.antt =====
-- The row of an upsert against the constraints of the assets table.
use drivebound_storage.Base.{
  ℕ, suc, ◌<◌, ◌≡◌, inl, inr, refl, ap, Bool, true, false, Option, none, some, [], ◌∷◌, ◌++◌, Text,
  ◌==◌, ==_refl, arith, All, All-mono, All-zip, All-every, All-update, All-append, Row-scalar,
  Bool-cases, if◌then◌else◌, scalar, scalar_sound, scalar-Row, subst,
}
use drivebound_storage.Base.Fault.{Result, ok, err, clone_of_deleting}
use drivebound_storage.Catalog.{
  Asset, Root, Item, Operation, Db, is_active, asset_is, revision_of, active_of,
}
use drivebound_storage.Lifecycle.Invariant.{IsSound, IsRetained, IsSound-append, IsSound-activate}
use drivebound_storage.Sync.Items.{
  Input, Place, stay, attach, clone, place_of, reused, place_asset, add_clone, clone_row,
  make_current, supersede_target, clone_asset_revision, cloneable, finish_upsert, write_item,
  usable,
}
use drivebound_storage.Sync.Items.Upsert.{
  AssetsOk, Ready, Placed, stay-Placed, attach-Placed, gives_way, id-make_current,
}

free_of :
    (user logical : ℕ) (asset x : Asset)
    → asset.logical_id == logical ≡ false
    → (asset_is asset.id x ≡ true → x ≡ asset)
    → (revision_of user logical x ≡ true
        → asset_is asset.id x ≡ false
        → is_active x.lifecycle_state ≡ false)
    → revision_of user logical x ≡ true
    → is_active x.lifecycle_state ≡ false
free_of user logical asset x away only free r = elim (Bool-cases (asset_is asset.id x)) [
  | inl same ↦ absurd (ground (arith, ap (λ (z : Asset). z.logical_id) (only same)))
  | inr other ↦ free r other
]

-- The row of a new asset, in a file with no active row.
module _ (user logical : ℕ) (c : Asset) (db : Db) (good : AssetsOk db) (new : c.id ≡ db.next_id)
    (kept : IsRetained c)
    (free : All
      (λ x. revision_of c.user_id c.logical_id x ≡ true → is_active x.lifecycle_state ≡ false)
      db.assets) where
  append-Placed :
      Placed (ok c, record db { assets = db.assets ++ c ∷ []; next_id = suc db.next_id })
  unfolding make_current
  append-Placed = (
    (
      IsSound-append c db.assets good.0
          (All-mono _ _ db.assets (λ x h. omega (arith, h, new)) good.1) free kept,
      All-append _ db.assets (c ∷ []) (All-mono _ _ db.assets (λ x h. omega (arith, h)) good.1)
          (omega (arith, new), tt),
    ),
    All-append _ db.assets (c ∷ [])
        (All-mono _ _ db.assets
          (λ x
              (k : (x.id < db.next_id)
                × (revision_of c.user_id c.logical_id x ≡ true
                    → is_active x.lifecycle_state ≡ false)).
            (λ e. absurd (ground (arith, k.0, new)), λ r n. k.1 r))
          (All-zip _ _ db.assets good.1 free))
        ((λ _. refl, λ r n. absurd (ground (arith, ==_refl c.id))), tt),
  )

clone_cases :
    (now user logical version : ℕ) (asset : Asset) (db : Db)
    → Ready user logical asset db
    → asset.user_id ≡ user
    → asset.logical_id == logical ≡ false
    → (b : Bool)
    → Placed (
        add_clone
          (if b then ok (clone_row db.next_id now asset logical version) else err clone_of_deleting)
          db)
unfolding add_clone
clone_cases now user logical version asset db ready mine away false = ready.0
clone_cases now user logical version asset db ready mine away true =
    append-Placed user logical (clone_row db.next_id now asset logical version) db ready.0 refl refl
      (All-mono _ _ db.assets
        (λ x
            (k : (asset_is asset.id x ≡ true → x ≡ asset)
              × (revision_of user logical x ≡ true
                  → asset_is asset.id x ≡ false
                  → is_active x.lifecycle_state ≡ false))
            r.
          free_of user logical asset x away k.0 k.1 (ground (arith, r, mine)))
        (All-zip _ _ db.assets ready.1 ready.2))

-- An active asset of the file is the file's active revision.
pub target_of_file :
    (user logical : ℕ) (asset : Asset) (db : Db)
    → IsSound db.assets
    → scalar (usable asset.id user) db.assets ≡ some asset
    → asset.logical_id == logical ≡ true
    → scalar (active_of user logical) db.assets ≡ some asset
target_of_file user logical asset db s found here =
    scalar-Row (active_of user logical) db.assets asset
      (Row-scalar (usable asset.id user) db.assets asset found)
      (ground (arith, here, scalar_sound (usable asset.id user) db.assets asset found))
      (s.one_active user logical)

pub reused_never : (item : Option Item) (asset : Asset) → reused item asset.id (some asset) ≡ false
reused_never none asset = refl
reused_never (some item) asset = ground (arith, ==_refl asset.id)

module _ (now : ℕ) (root : Root) (operation : Operation) (input : Input) (item : Option Item)
    (path : Text) (asset : Asset) (db : Db) (good : AssetsOk db)
    (found : scalar (usable asset.id root.user_id) db.assets ≡ some asset) where
  mine : asset.user_id ≡ root.user_id
  mine = ground (arith, scalar_sound (usable asset.id root.user_id) db.assets asset found)

  place_asset-Placed :
      (version : ℕ) (t : Option Asset) (place : Place)
      → scalar (active_of root.user_id input.logical_id) db.assets ≡ t
      → (place ≡ stay → asset.logical_id ≡ input.logical_id)
      → (place ≡ clone → asset.logical_id == input.logical_id ≡ false)
      → Placed
          (place_asset now input.logical_id version asset place (supersede_target now asset t db))
  unfolding place_asset clone_asset_revision
  place_asset-Placed version t stay e h k =
      stay-Placed now root.user_id input.logical_id version asset (supersede_target now asset t db)
        (gives_way now root.user_id input.logical_id asset db good found t e) mine (h refl)
  place_asset-Placed version t attach e h k =
      attach-Placed now root.user_id input.logical_id version asset
        (supersede_target now asset t db)
        (gives_way now root.user_id input.logical_id asset db good found t e) mine
  place_asset-Placed version t clone e h k =
      clone_cases now root.user_id input.logical_id version asset (supersede_target now asset t db)
        (gives_way now root.user_id input.logical_id asset db good found t e) mine (k refl)
        (cloneable asset.lifecycle_state)

  place_of-stay :
      (t : Option Asset) (after : Db)
      → place_of root input item asset t after ≡ stay
      → asset.logical_id ≡ input.logical_id
  unfolding place_of
  place_of-stay t after e = ground arith

  place_of-clone :
      (after : Db)
      → place_of root input item asset
          (scalar (active_of root.user_id input.logical_id) db.assets)
          after
        ≡ clone
      → asset.logical_id == input.logical_id ≡ false
  unfolding place_of
  place_of-clone after e = elim (Bool-cases (asset.logical_id == input.logical_id)) [
    | inr away ↦ away
    | inl here ↦
        let e' =
          subst (λ t. place_of root input item asset t after ≡ clone)
            (target_of_file root.user_id input.logical_id asset db good.0 found here) e in
        absurd (ground (arith, reused_never item asset))
  ]

  pub place_of-Placed :
      (version : ℕ)
      → let t = scalar (active_of root.user_id input.logical_id) db.assets in
        let given_way = supersede_target now asset t db in
        Placed (
          place_asset now input.logical_id version asset
            (place_of root input item asset t given_way)
            given_way)
  place_of-Placed version =
      place_asset-Placed version _ _ refl (place_of-stay _ _) (place_of-clone _)

pub finish_upsert-AssetsOk :
    (root : Root) (operation : Operation) (input : Input) (item : Option Item) (path : Text)
    (p : Result Asset × Db)
    → Placed p
    → AssetsOk (finish_upsert root operation input item path p).1
unfolding finish_upsert write_item make_current
finish_upsert-AssetsOk root operation input item path (err f, db) good = good
finish_upsert-AssetsOk root operation input none path (ok a, db) good = (
  IsSound-activate make_current id-make_current a db.assets good.0.0 good.1
      (All-every _ db.assets (λ x e. refl)),
  All-update _ _ (asset_is a.id) make_current db.assets (λ x h q. h) (λ x h q. h) good.0.1,
)
finish_upsert-AssetsOk root operation input (some _) path (ok a, db) good = (
  IsSound-activate make_current id-make_current a db.assets good.0.0 good.1
      (All-every _ db.assets (λ x e. refl)),
  All-update _ _ (asset_is a.id) make_current db.assets (λ x h q. h) (λ x h q. h) good.0.1,
)
