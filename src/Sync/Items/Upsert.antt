-- ===== src/Sync/Items/Upsert.antt =====
-- An upsert against the constraints of the assets table.
use drivebound_storage.Base.{
  ℕ, ◌≡◌, inl, inr, refl, ap, Bool, true, false, Option, none, some, ◌==◌, ==_refl, arith, All,
  All-mono, All-zip, All-every, All-update, Row, Row-scalar, Bool-cases, scalar, scalar_sound,
  scalar-none, scalar_unique, scalar-Row,
}
use drivebound_storage.Base.Fault.{Result, ok, err}
use drivebound_storage.Catalog.{Asset, Db, is_active, asset_is, revision_of, active_of}
use drivebound_storage.Lifecycle.{supersede_row}
use drivebound_storage.Lifecycle.Invariant.{
  IsSound, IsRetained, SameKey, Alone, IsSound-deactivate, IsSound-activate,
}
use drivebound_storage.Lifecycle.Drawn.{Fresh}
use drivebound_storage.Sync.Items.{
  stay, attach, attach_row, place_asset, make_current, supersede_target, usable,
}

-- The assets table is sound and its ids have been drawn.
abbrev pub AssetsOk : Db → Type 0
AssetsOk db = IsSound db.assets × Fresh db

-- The file has no active row but those of the asset, whose row is the only one with its id.
abbrev pub Ready : ℕ → ℕ → Asset → Db → Type 0
Ready user logical asset db =
    AssetsOk db
    × All (λ x. asset_is asset.id x ≡ true → x ≡ asset) db.assets
    × All
        (λ x.
          revision_of user logical x ≡ true
          → asset_is asset.id x ≡ false
          → is_active x.lifecycle_state ≡ false)
        db.assets

supersede_row-SameKey : (now : ℕ) (a : Asset) → SameKey a (supersede_row now a)
unfolding supersede_row
supersede_row-SameKey now a = (refl, refl, refl)

not_active :
    (user logical : ℕ) (asset t x : Asset)
    → t.id == asset.id ≡ true
    → (active_of user logical x ≡ true → x ≡ t)
    → revision_of user logical x ≡ true
    → asset_is asset.id x ≡ false
    → is_active x.lifecycle_state ≡ false
not_active user logical asset t x same h r n = elim (Bool-cases (is_active x.lifecycle_state)) [
  | inr i ↦ i
  | inl y ↦ absurd (ground (arith, ap (λ (z : Asset). z.id) (h (ground arith))))
]

not_target :
    (user logical : ℕ) (t x : Asset)
    → asset_is t.id x ≡ false
    → (active_of user logical x ≡ true → x ≡ t)
    → revision_of user logical x ≡ true
    → is_active x.lifecycle_state ≡ false
not_target user logical t x n h r = elim (Bool-cases (is_active x.lifecycle_state)) [
  | inr i ↦ i
  | inl y ↦ absurd (ground (arith, ap (λ (z : Asset). z.id) (h (ground arith))))
]

-- The row that a query finds is the only one with its id.
only_row :
    (p : Asset → Bool) (t : Asset) (db : Db)
    → IsSound db.assets
    → scalar p db.assets ≡ some t
    → All (λ x. asset_is t.id x ≡ true → x ≡ t) db.assets
only_row p t db s e = scalar_unique (asset_is t.id) db.assets t (s.ids t.id) (
    scalar-Row (asset_is t.id) db.assets t (Row-scalar p db.assets t e) (==_refl t.id) (s.ids t.id))

-- an active row may be superseded
supersede_row-IsRetained :
    (now : ℕ) (t x : Asset)
    → is_active t.lifecycle_state ≡ true
    → IsRetained x
    → x ≡ t
    → IsRetained (supersede_row now x)
unfolding supersede_row
supersede_row-IsRetained now t x a r e =
    ground (arith, r, ap (λ (z : Asset). is_active z.lifecycle_state) e)

module _ (now user logical : ℕ) (asset : Asset) (db : Db) (good : AssetsOk db)
    (found : scalar (usable asset.id user) db.assets ≡ some asset) where
  the_asset : Row asset db.assets
  the_asset = Row-scalar (usable asset.id user) db.assets asset found

  only_asset : All (λ x. asset_is asset.id x ≡ true → x ≡ asset) db.assets
  only_asset = only_row (usable asset.id user) asset db good.0 found

  -- no active row of the file is left beside the asset's
  pub gives_way :
      (t : Option Asset)
      → scalar (active_of user logical) db.assets ≡ t
      → Ready user logical asset (supersede_target now asset t db)
  unfolding supersede_target supersede_row
  gives_way none e = (
    good,
    only_asset,
    All-mono _ _ db.assets (λ x h r n. ground (arith, h))
        (scalar-none (active_of user logical) db.assets e),
  )
  gives_way (some t) e =
      let one =
        scalar_unique (active_of user logical) db.assets t (good.0.one_active user logical) e in
      let target_active : is_active t.lifecycle_state ≡ true =
        ground (arith, scalar_sound (active_of user logical) db.assets t e) in
      elim (Bool-cases (t.id == asset.id)) [
        | inl same ↦ rw same (
          good,
          only_asset,
          All-mono _ _ db.assets (λ x h r n. not_active user logical asset t x same h r n) one,
        )
        | inr other ↦ rw other (
          (
            IsSound-deactivate (asset_is t.id) (supersede_row now) (supersede_row-SameKey now)
                db.assets good.0 (All-every _ db.assets (λ x e k. cc))
                (All-mono _ _ db.assets
                  (λ x (k : IsRetained x × (asset_is t.id x ≡ true → x ≡ t)) q.
                    supersede_row-IsRetained now t x target_active k.0 (k.1 q))
                  (All-zip _ _ db.assets good.0.retention
                    (only_row (active_of user logical) t db good.0 e))),
            All-update _ _ (asset_is t.id) (supersede_row now) db.assets (λ x h q. h) (λ x h q. h)
                good.1,
          ),
          All-update _ _ (asset_is t.id) (supersede_row now) db.assets
              (λ x h q same. absurd (ground arith)) (λ x h q. h) only_asset,
          All-update _ _ (asset_is t.id) (supersede_row now) db.assets (λ x h q r n. refl)
              (λ x h q r n. not_target user logical t x q h r) one,
        )
      ]

pub id-make_current : (a : Asset) → (make_current a).id ≡ a.id
unfolding make_current
id-make_current a = refl

id-attach_row : (logical version : ℕ) (a : Asset) → (attach_row logical version a).id ≡ a.id
id-attach_row logical version a = refl

-- An answer that may be made the current row of its file.
abbrev pub Placed : Result Asset × Db → Type 0
Placed (err f, after) = AssetsOk after
Placed (ok a, after) = AssetsOk after × All (Alone make_current id-make_current a) after.assets

-- The asset's place in the file, once the file has no other active row.
module _ (now user logical version : ℕ) (asset : Asset) (db : Db)
    (ready : Ready user logical asset db) (mine : asset.user_id ≡ user) where
  pub stay-Placed :
      asset.logical_id ≡ logical → Placed (place_asset now logical version asset stay db)
  unfolding place_asset make_current
  stay-Placed here = (
    ready.0,
    All-mono _ _ db.assets
        (λ x
            (k : (asset_is asset.id x ≡ true → x ≡ asset)
              × (revision_of user logical x ≡ true
                  → asset_is asset.id x ≡ false
                  → is_active x.lifecycle_state ≡ false)).
          (k.0, λ r n. k.1 (ground (arith, mine, here)) n))
        (All-zip _ _ db.assets ready.1 ready.2),
  )

  pub attach-Placed : Placed (place_asset now logical version asset attach db)
  unfolding place_asset make_current
  attach-Placed =
      let rows : All
          (λ x.
            (asset_is asset.id x ≡ true → x ≡ asset)
            × (revision_of user logical x ≡ true
                → asset_is asset.id x ≡ false
                → is_active x.lifecycle_state ≡ false))
          db.assets =
        All-zip _ _ db.assets ready.1 ready.2 in
      (
        (
          IsSound-activate (attach_row logical version) (id-attach_row logical version) asset
              db.assets ready.0.0
              (All-mono _ _ db.assets (λ x k. (k.0, λ r n. k.1 (ground (arith, mine)) n)) rows)
              (All-mono _ _ db.assets (λ x r e. r) ready.0.0.retention),
          All-update _ _ (asset_is asset.id) (attach_row logical version) db.assets (λ x h q. h)
              (λ x h q. h) ready.0.1,
        ),
        All-update _ _ (asset_is asset.id) (attach_row logical version) db.assets
            (λ x k q. (λ e. ap (attach_row logical version) (k.0 q), λ r n. absurd (ground arith)))
            (λ x k q. (λ e. absurd (ground arith), λ r n. k.1 (ground (arith, mine)) q)) rows,
      )
