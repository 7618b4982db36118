-- ===== src/Sync/Items/Versions.antt =====
-- The item operations against `uq_assets_logical_version` and `ck_assets_version_positive`.
pub mod Kept
use drivebound_storage.Base.{
  ℕ, ◌+◌, ◌≤◌, ◌<◌, ◌≡◌, inl, inr, ap, Bool, true, false, ◌&&◌, ◌==◌, List, [], ◌∷◌, ◌++◌, arith,
  Bool-cases, All, All-mono, All-every, All-update, All-append, count, count_mono, count-update,
  count-append, count_zero, update, if◌then◌else◌,
}
use drivebound_storage.Catalog.{Asset, asset_is, revision_of}
use drivebound_storage.Sync.Items.{highest_version, attach_row}

abbrev pub version_is : ℕ → ℕ → ℕ → Asset → Bool
version_is user logical version a = revision_of user logical a && a.version == version

-- No version number is used twice in a file, and each is positive.
pub record AreVersioned (assets : List Asset) : Type 0 where
  pub unique : (user logical version : ℕ) → count (version_is user logical version) assets ≤ 1
  pub positive : All (λ a. 1 ≤ a.version) assets

abbrev pub SameVersion : Asset → Asset → Type 0
SameVersion a b = (b.user_id ≡ a.user_id) × (b.logical_id ≡ a.logical_id) × (b.version ≡ a.version)

-- The versions of the file are below the number.
abbrev pub AreBelow : ℕ → ℕ → ℕ → List Asset → Type 0
AreBelow user logical version xs =
    All (λ x. revision_of user logical x ≡ true → x.version < version) xs

module _ (q : Asset → Bool) (f : Asset → Asset) (same : (a : Asset) → SameVersion a (f a)) where
  pub update-AreVersioned : (xs : List Asset) → AreVersioned xs → AreVersioned (update q f xs)
  update-AreVersioned xs h = record {
    unique = λ user logical version. rw count-update (
        omega (
          arith,
          count_mono (λ x. version_is user logical version (if q x then f x else x))
              (version_is user logical version) xs (All-every _ xs (λ x e. ground (arith, same x))),
          h.unique user logical version,
        ));
    positive =
        All-update _ _ q f xs (λ x k e. omega (arith, k, (same x).2)) (λ x k e. k) h.positive;
  }

  pub update-AreBelow :
      (user logical version : ℕ) (xs : List Asset)
      → AreBelow user logical version xs
      → AreBelow user logical version (update q f xs)
  update-AreBelow user logical version xs h =
      All-update _ _ q f xs
        (λ x (k : revision_of user logical x ≡ true → x.version < version) e r.
          ground (arith, k, same x))
        (λ x k e. k) h

pub highest_version-AreBelow :
    (user logical : ℕ) (xs : List Asset)
    → AreBelow user logical (highest_version user logical xs + 1) xs
unfolding highest_version
highest_version-AreBelow user logical [] = tt
highest_version-AreBelow user logical (x ∷ xs) =
    let ih = highest_version-AreBelow user logical xs in
    (λ r. ground (arith, r), All-mono _ _ xs (λ y k r. ground (arith, k r)) ih)

module _ (now user logical version : ℕ) (asset : Asset) (mine : asset.user_id ≡ user)
    (pos : 1 ≤ version) where
  pub attached :
      (xs : List Asset)
      → ((i : ℕ) → count (asset_is i) xs ≤ 1)
      → All (λ x. asset_is asset.id x ≡ true → x ≡ asset) xs
      → AreBelow user logical version xs
      → AreVersioned xs
      → AreVersioned (update (asset_is asset.id) (attach_row logical version) xs)
  attached xs ids only below h = record {
    unique = λ u l v.
        rw count-update (elim (Bool-cases (version_is u l v (attach_row logical version asset))) [
          | inl y ↦ omega (
            arith,
            count_mono
                (λ x.
                  version_is u l v
                    (if asset_is asset.id x then attach_row logical version x else x))
                (asset_is asset.id) xs
                (All-mono _ _ xs
                  (λ x (k : revision_of user logical x ≡ true → x.version < version) e.
                    new_version u l v x y k e)
                  below),
            ids asset.id,
          )
          | inr n ↦ omega (
            arith,
            count_mono
                (λ x.
                  version_is u l v
                    (if asset_is asset.id x then attach_row logical version x else x))
                (version_is u l v) xs
                (All-mono _ _ xs
                  (λ x (k : asset_is asset.id x ≡ true → x ≡ asset) e. old_version u l v x n k e)
                  only),
            h.unique u l v,
          )
        ]);
    positive =
        All-update _ _ (asset_is asset.id) (attach_row logical version) xs (λ x k e. pos)
          (λ x k e. k) h.positive;
  }
    where
      new_version :
          (u l v : ℕ) (x : Asset)
          → version_is u l v (attach_row logical version asset) ≡ true
          → (revision_of user logical x ≡ true → x.version < version)
          → version_is u l v (if asset_is asset.id x then attach_row logical version x else x)
            ≡ true
          → asset_is asset.id x ≡ true
      new_version u l v x y k e = elim (Bool-cases (asset_is asset.id x)) [
        | inl same ↦ same
        | inr other ↦ ground (arith, mine, k, rw other at e)
      ]

      old_version :
          (u l v : ℕ) (x : Asset)
          → version_is u l v (attach_row logical version asset) ≡ false
          → (asset_is asset.id x ≡ true → x ≡ asset)
          → version_is u l v (if asset_is asset.id x then attach_row logical version x else x)
            ≡ true
          → version_is u l v x ≡ true
      old_version u l v x n k e = elim (Bool-cases (asset_is asset.id x)) [
        | inl same ↦
            absurd (ground (arith, n, rw same at e, ap (λ (z : Asset). z.user_id) (k same)))
        | inr other ↦ (rw other at e)
      ]

  pub added :
      (c : Asset) (xs : List Asset)
      → c.user_id ≡ user
      → c.logical_id ≡ logical
      → c.version ≡ version
      → AreBelow user logical version xs
      → AreVersioned xs
      → AreVersioned (xs ++ c ∷ [])
  unfolding count
  added c xs own here new below h = record {
    unique = λ u l v. rw count-append (elim (Bool-cases (version_is u l v c)) [
      | inr n ↦ ground (arith, h.unique u l v)
      | inl y ↦ ground (
        arith,
        count_zero (version_is u l v) xs (
            All-mono _ _ xs
              (λ x (k : revision_of user logical x ≡ true → x.version < version).
                free_version u l v x y k)
              below),
      )
    ]);
    positive = All-append _ xs (c ∷ []) h.positive (omega (arith, new, pos), tt);
  }
    where
      free_version :
          (u l v : ℕ) (x : Asset)
          → version_is u l v c ≡ true
          → (revision_of user logical x ≡ true → x.version < version)
          → version_is u l v x ≡ false
      free_version u l v x y k = elim (Bool-cases (version_is u l v x)) [
        | inl same ↦ absurd (ground (arith, k, own, here, new, y))
        | inr other ↦ other
      ]
