-- ===== src/Intake/Ingestion/Invariants.antt =====
-- Ingestion keeps the catalog's constraints and the other files, and stores no content twice.
use drivebound_storage.Base.{
  ℕ, ◌+◌, ◌≡◌, ◌≢◌, ◌≤◌, ◌<◌, refl, sym, ap, ==_sound, Bool, true, false, Option, none, some, List,
  [], ◌∷◌, ◌++◌, Text, same_text, same_text_sound, if◌then◌else◌, Bool-cases, inl, inr, scalar-none,
  any_row, any_row-false, count, count-append, count_zero, All, All-append, All-mono, arith,
}
use drivebound_storage.Base.Fault.{Result, ok, err, if-leads, integrity_error}
use drivebound_storage.Catalog.{Asset, Db, active, asset_is, active_of}
use drivebound_storage.Catalog.References.{canonical_storage_path}
use drivebound_storage.Lifecycle.Invariant.{IsRetained}
use drivebound_storage.Sync.Items.Upsert.{AssetsOk}
use drivebound_storage.Encryption.{Bytes, put_file}
use drivebound_storage.Intake.Publish.{Kit, discard}
use drivebound_storage.Intake.Ingestion.{
  Staged, same_content, existing_asset, new_asset, next_version, collides, draw_two, adopted,
  insert_asset, insert_stored, persist_managed_asset,
}
use drivebound_storage.Intake.Ingestion.Keeps.{persist_managed_asset-Keeps}

-- The row goes in, or the assets stay as they are; either way, the draws are used up.
insert_asset-cases :
    (x : Staged) (a : Asset) (db : Db) (P : Db → Type 0)
    → P (draw_two db)
    → (any_row (collides a) db.assets ≡ false
        → P (record (draw_two db) { assets = db.assets ++ a ∷ [] }))
    → P (insert_asset x a db).1
unfolding insert_asset
insert_asset-cases x a db P same added =
    if-leads (λ (r : Result (Asset × Bool) × Db). P r.1) (any_row (collides a) db.assets)
      (if x.force_new_version
        then (err integrity_error, draw_two db)
        else adopted (existing_asset x db) (draw_two db))
      (ok (a, false), record (draw_two db) { assets = db.assets ++ a ∷ [] })
      (λ _.
        if-leads (λ (r : Result (Asset × Bool) × Db). P r.1) x.force_new_version
          (err integrity_error, draw_two db) (adopted (existing_asset x db) (draw_two db))
          (λ _. same) (λ _. adopted-keeps (existing_asset x db)))
      added
  where
    adopted-keeps : (o : Option Asset) → P (adopted o (draw_two db)).1
    adopted-keeps none = same
    adopted-keeps (some b) = same

one_more :
    (p : Asset → Bool) (a : Asset) (xs : List Asset)
    → count p xs ≤ 1
    → (p a ≡ true → All (λ b. p b ≡ false) xs)
    → count p (xs ++ a ∷ []) ≤ 1
unfolding count
one_more p a xs h apart = elim (Bool-cases (p a)) [
  | inl y ↦ rw (count-append p xs (a ∷ []), y) (omega (arith, count_zero p xs (apart y)))
  | inr n ↦ rw (count-append p xs (a ∷ []), n) (omega (arith, h))
]

inserted-AssetsOk :
    (a : Asset) (db : Db)
    → AssetsOk db
    → a.id ≡ db.next_id
    → a.lifecycle_state ≡ active
    → IsRetained a
    → any_row (collides a) db.assets ≡ false
    → AssetsOk (record (draw_two db) { assets = db.assets ++ a ∷ [] })
inserted-AssetsOk a db (sound, fresh) own state retained free = (
  record {
    ids = λ i. one_more (asset_is i) a db.assets (sound.ids i) λ e.
        All-mono (λ b. b.id < db.next_id) (λ b. asset_is i b ≡ false) db.assets
          (λ b h. ground (arith, h, e, own)) fresh;
    one_active = λ u l. one_more (active_of u l) a db.assets (sound.one_active u l) λ e.
        All-mono (λ b. collides a b ≡ false) (λ b. active_of u l b ≡ false) db.assets
          (λ b h. ground (arith, h, e, state)) (any_row-false (collides a) db.assets free);
    retention = All-append IsRetained db.assets (a ∷ []) sound.retention (retained, tt);
  },
  All-append (λ (b : Asset). b.id < db.next_id + 2) db.assets (a ∷ [])
      (All-mono (λ b. b.id < db.next_id) (λ b. b.id < db.next_id + 2) db.assets
        (λ b h. omega (arith, h)) fresh)
      (omega (arith, own), tt),
)

-- Ingestion keeps the constraints of the assets table and draws its ids from the counter, whether it
-- stores a new revision, finds the content stored already, or raises.
pub persist_managed_asset-AssetsOk :
    (k : Kit) (x : Staged) (db : Db) → AssetsOk db → AssetsOk (persist_managed_asset k x db).1
unfolding insert_stored
persist_managed_asset-AssetsOk k x =
    persist_managed_asset-Keeps k x AssetsOk (λ path bytes d e h. h) (λ d h. h)
      (λ users d h. (h.0, All-mono _ _ d.assets (λ b g. omega (arith, g)) h.1))
      (λ final file d h _. insert_stored-AssetsOk final file d h)
  where
    insert_stored-AssetsOk :
        (final : Text) (file : Bytes) (d : Db)
        → AssetsOk d
        → AssetsOk (insert_stored k x final file d).1
    insert_stored-AssetsOk final file d h =
        insert_asset-cases x _ d AssetsOk (h.0, All-mono _ _ d.assets (λ b g. omega (arith, g)) h.1)
          (λ free. inserted-AssetsOk _ d h refl refl refl free)

-- A row of one content lets no row of another through.
pub same_content_key :
    (u : ℕ) (c : Text) (a : Asset) → same_content u c a ≡ true → (a.user_id ≡ u) × (a.checksum ≡ c)
same_content_key u c a e =
    (==_sound a.user_id u (ground (arith, e)), same_text_sound a.checksum c (ground (arith, e)))

other_content :
    (user : ℕ) (checksum : Text) (u : ℕ) (c : Text) (a b : Asset)
    → same_content u c a ≡ true
    → same_content user checksum b ≡ false
    → a.user_id ≡ user
    → a.checksum ≡ checksum
    → same_content u c b ≡ false
other_content user checksum u c a b e g own same =
    let (mine, text) = same_content_key u c a e in rw (sym mine, own, sym text, same) g

added-file :
    (path new : Text) (content bytes : Bytes) (d : Db)
    → d.files new ≡ none
    → d.files path ≡ some bytes
    → (put_file new content d).files path ≡ some bytes
added-file path new content bytes d e h = elim (Bool-cases (same_text path new)) [
  | inl y ↦ cc (ap d.files (same_text_sound path new y), e, h)
  | inr n ↦ rw n h
]

discarded-file :
    (k : Kit) (path staged : Text) (bytes : Bytes) (d : Db)
    → path ≢ canonical_storage_path k.host staged
    → d.files path ≡ some bytes
    → (discard k.host staged d).files path ≡ some bytes
discarded-file k path staged bytes d other h =
    let target = canonical_storage_path k.host staged in
    elim (Bool-cases (same_text path target)) [
      | inl y ↦ absurd (other (same_text_sound path target y))
      | inr n ↦ rw n h
    ]

-- No content is active twice in an account.
abbrev pub AreDistinct : Db → Type 0
AreDistinct db = (user : ℕ) (checksum : Text) → count (same_content user checksum) db.assets ≤ 1

-- Ingestion that forces no new version stores no content twice: where no account has two active
-- revisions with the same checksum, none has afterwards.
pub persist_managed_asset-AreDistinct :
    (k : Kit) (x : Staged) (db : Db)
    → x.force_new_version ≡ false
    → AreDistinct db
    → AreDistinct (persist_managed_asset k x db).1
unfolding insert_stored
persist_managed_asset-AreDistinct k x db plain =
    persist_managed_asset-Keeps k x AreDistinct (λ path bytes d e h. h) (λ d h. h) (λ users d h. h)
      (λ final file d h new. insert_stored-AreDistinct final file d h (new plain)) db
  where
    insert_stored-AreDistinct :
        (final : Text) (file : Bytes) (d : Db)
        → AreDistinct d
        → existing_asset x d ≡ none
        → AreDistinct (insert_stored k x final file d).1
    insert_stored-AreDistinct final file d h new =
        insert_asset-cases x _ d AreDistinct h λ free u c.
          one_more (same_content u c) _ d.assets (h u c) λ e.
            All-mono (λ b. same_content x.user_id x.checksum b ≡ false)
              (λ b. same_content u c b ≡ false) d.assets
              (λ b g.
                other_content x.user_id x.checksum u c
                  (new_asset k x final (next_version x.user_id x.logical_id d) (k.sha256 file) d) b
                  e g refl refl)
              (scalar-none (same_content x.user_id x.checksum) d.assets new)

-- Ingestion overwrites and removes no file but the staged one: a file at any other path keeps its
-- bytes, whatever the call returns.
pub persist_managed_asset_files :
    (k : Kit) (x : Staged) (db : Db) (path : Text) (bytes : Bytes)
    → path ≢ canonical_storage_path k.host x.staged_path
    → db.files path ≡ some bytes
    → (persist_managed_asset k x db).1.files path ≡ some bytes
unfolding insert_stored
persist_managed_asset_files k x db path bytes other =
    persist_managed_asset-Keeps k x (λ d. d.files path ≡ some bytes)
      (λ new content d e h. added-file path new content bytes d e h)
      (λ d h. discarded-file k path x.staged_path bytes d other h) (λ users d h. h)
      (λ final file d h _. insert_stored-files final file d h) db
  where
    insert_stored-files :
        (final : Text) (file : Bytes) (d : Db)
        → d.files path ≡ some bytes
        → (insert_stored k x final file d).1.files path ≡ some bytes
    insert_stored-files final file d h =
        insert_asset-cases x _ d (λ e. e.files path ≡ some bytes) h (λ free. h)
