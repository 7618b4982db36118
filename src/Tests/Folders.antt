-- ===== src/Tests/Folders.antt =====
-- The theorems on synchronised folders, at the sample database.
use drivebound_storage.Base.{
  ◌≤◌, ◌≡◌, refl, true, false, none, some, [], ◌∷◌, ◌++◌, codes, scalar, is_some, length, count,
  opt_text_is, same_text, arith,
}
use drivebound_storage.Base.Fault.{ok}
use drivebound_storage.Catalog.{Conflict, Operation, open_conflict}
use drivebound_storage.Lifecycle.{active_user}
use drivebound_storage.Sync.{
  root_is, apply_operations, apply_input, usable_root, Pushed, find_item, by_operation_id,
  by_sequence, new_operation, set_roots, saw,
}
use drivebound_storage.Sync.Items.{Input, apply_item_operation, item_is, revision_text}
use drivebound_storage.Sync.Items.Upsert.{AssetsOk}
use drivebound_storage.Sync.Items.Versions.{AreVersioned}
use drivebound_storage.Sync.Items.Versions.Kept.{apply_item_operation-AreVersioned}
use drivebound_storage.Sync.Items.Revision.{Revised, apply_item_operation-Revised}
use drivebound_storage.Sync.Journal.Push.{IsJournaled, apply_operations-IsJournaled}
use drivebound_storage.Sync.Journal.Resolve.{resolve_conflict-IsJournaled}
use drivebound_storage.Sync.Resolution.{resolve_conflict}
use drivebound_storage.Catalog.{
  Root, Db, concurrent_change, keep_local, conflicted, upsert, unresolved,
}
use drivebound_storage.Sync.Paths.{relative_path_only, plain, climbs, relative_path_only_sound}
use drivebound_storage.Base.{starts_with}
use drivebound_storage.Sync.Replay.Again.{apply_operations_replay}
use drivebound_storage.Sync.Stale.{stale_input}
use drivebound_storage.Tests.Samples.{plain_host, root, item, db, input, db-AssetsOk}

root-IsJournaled : IsJournaled root db
unfolding scalar count
root-IsJournaled = record {
  assets = db-AssetsOk;
  row = refl;
  journal = record {
    drawn = tt;
    rows = λ i. omega arith;
    below = tt;
    cursors = λ c. omega arith;
    ids = λ i. omega arith;
    sequences = λ c n. omega arith;
  };
}

enabled : is_some (active_user 1 db) ≡ true
unfolding active_user scalar
enabled = refl

root_found : scalar (usable_root 4 1) db.roots ≡ some root
unfolding scalar
root_found = refl

apply_operations-IsJournaled_example :
    let (result, after) =
      apply_operations plain_host 100 root (codes "pc") (input (some (codes "r1")) ∷ []) db in
    (p : Pushed) × (result ≡ ok p)
    × IsJournaled p.root after
    × (p.root.id ≡ root.id)
    × (root.cursor ≤ p.root.cursor)
    × (length p.operations ≡ 1)
apply_operations-IsJournaled_example =
    apply_operations-IsJournaled plain_host 100 root root (codes "pc")
      (input (some (codes "r1")) ∷ []) db enabled root_found root-IsJournaled

apply_operations_replay_example :
    let batch = input (some (codes "r1")) ∷ [] in
    (p again : Pushed) × (after : Db) × (apply_operations plain_host 100 root (codes "pc") batch db
      ≡ (ok p, after))
    × (apply_operations plain_host 200 root (codes "pc") batch after
        ≡ (ok again, set_roots 4 (saw 200) after))
    × (again.operations ≡ p.operations)
    × (again.conflicts ≡ [])
unfolding scalar active_user
apply_operations_replay_example =
    apply_operations_replay plain_host 100 200 root (codes "pc") (input (some (codes "r1")) ∷ []) db
      (refl, refl) (tt, tt)

new_id : scalar (by_operation_id 77) db.operations ≡ none
unfolding scalar
new_id = refl

new_sequence : scalar (by_sequence 4 (codes "pc") 1) db.operations ≡ none
unfolding scalar
new_sequence = refl

item_found : find_item 4 7 db ≡ some item
unfolding scalar
item_found = refl

stale : opt_text_is (some (codes "r0")) (some item.revision) ≡ false
unfolding same_text
stale = refl

stale_input_example :
    let (a, after) = apply_input plain_host 100 (codes "pc") root (input (some (codes "r0"))) db in
    (after.items ≡ db.items)
    × (after.assets ≡ db.assets)
    × (after.files ≡ db.files)
    × (a.root.cursor ≡ 2)
    × ((c : Conflict) × (after.conflicts ≡ db.conflicts ++ c ∷ [])
        × (a.conflict ≡ some c.id)
        × (c.status ≡ open_conflict)
        × (c.expected_revision ≡ some (codes "r0"))
        × (c.actual_revision ≡ some item.revision))
stale_input_example =
    stale_input plain_host 100 (codes "pc") root (input (some (codes "r0"))) item db new_id
      new_sequence item_found stale

abbrev operation : Operation
operation = new_operation 9 root (codes "pc") (input (some (codes "r1")))

apply_item_operation-Revised_example : Revised 4 7 (revision_text operation.revision) (
    apply_item_operation plain_host 100 root operation
      (input (some (codes "r1")))
      (scalar (item_is 4 7) db.items)
      db)
apply_item_operation-Revised_example =
    apply_item_operation-Revised plain_host 100 root operation (input (some (codes "r1"))) db

db-AreVersioned : AreVersioned db.assets
unfolding count
db-AreVersioned = record {
  unique = λ u l v. ground arith;
  positive = (omega arith, (omega arith, (omega arith, tt)));
}

-- the asset of one file for another, which has a revision in the trash
abbrev elsewhere_input : Input
elsewhere_input = record (input none) { logical_id = 8 }

apply_item_operation-AreVersioned_example :
    let after =
      (apply_item_operation plain_host 100 root
        (new_operation 9 root (codes "pc") elsewhere_input)
        elsewhere_input
        none
        db).1 in
    AssetsOk after × AreVersioned after.assets
apply_item_operation-AreVersioned_example =
    apply_item_operation-AreVersioned 100 root (new_operation 9 root (codes "pc") elsewhere_input)
      elsewhere_input none db db-AssetsOk db-AreVersioned plain_host

-- the operation above, in conflict
abbrev lost : Operation
lost = record operation {
  status = conflicted;
  payload = unresolved (some (codes "b.jpg")) (some 2) upsert;
}

abbrev conflict : Conflict
conflict = record {
  id = 8;
  root_id = 4;
  logical_id = 7;
  local_operation_id = 9;
  conflicting_operation_id = none;
  kind = concurrent_change;
  expected_revision = none;
  actual_revision = some (codes "r1");
  status = open_conflict;
  resolution = none;
  resolved_at = none;
}

abbrev conflict_db : Db
conflict_db = record db { operations = lost ∷ []; conflicts = conflict ∷ [] }

one_root : count (root_is 4) conflict_db.roots ≤ 1
unfolding count
one_root = omega arith

conflict_root : scalar (root_is 4) conflict_db.roots ≡ some root
unfolding scalar
conflict_root = refl

conflict_db-IsJournaled : IsJournaled root conflict_db
unfolding scalar count
conflict_db-IsJournaled = record {
  assets = db-AssetsOk;
  row = refl;
  journal = record {
    drawn = (omega arith, tt);
    rows = λ i. ground arith;
    below = ((λ _. omega arith), tt);
    cursors = λ c. ground arith;
    ids = λ i. ground arith;
    sequences = λ c n. ground arith;
  };
}

resolve_conflict-IsJournaled_example :
    (r : Root) × (r.id ≡ 4)
    × (1 ≤ r.cursor)
    × IsJournaled r (resolve_conflict plain_host 100 conflict keep_local conflict_db).1
resolve_conflict-IsJournaled_example =
    resolve_conflict-IsJournaled plain_host 100 conflict keep_local root conflict_db one_root
      conflict_root conflict_db-IsJournaled

path_accepted : relative_path_only (some (codes "/a\\b.jpg")) ≡ ok (some (codes "a/b.jpg"))
unfolding relative_path_only starts_with
path_accepted = refl

relative_path_only_sound_example :
    (plain (codes "a/b.jpg") ≡ true) × (climbs (codes "a/b.jpg") ≡ false)
relative_path_only_sound_example =
    relative_path_only_sound (codes "/a\\b.jpg") (codes "a/b.jpg") path_accepted
