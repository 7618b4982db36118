-- ===== src/Sync/Journal/Resolve.antt =====
-- The resolution of a conflict against the journal of its root.
use drivebound_storage.Base.{
  ℕ, ◌+◌, ◌≤◌, ◌≡◌, inl, inr, refl, true, Option, none, some, arith, All, All-scalar, Bool-cases,
  count, scalar, scalar_sound, scalar_unique, scalar-update, is_some,
}
use drivebound_storage.Base.Fault.{Result, ok, err}
use drivebound_storage.Host.{Host}
use drivebound_storage.Catalog.{
  Root, Operation, Payload, Conflict, Choice, keep_local, keep_remote, Db,
}
use drivebound_storage.Lifecycle.{audit, active_user}
use drivebound_storage.Sync.Items.{apply_item_operation, next_revision}
use drivebound_storage.Sync.Items.Upsert.{AssetsOk}
use drivebound_storage.Sync.Items.Keeps.{apply_item_operation-AssetsOk}
use drivebound_storage.Sync.Items.Frame.{Framed, apply_item_operation-Framed}
use drivebound_storage.Sync.Journal.{IsJournal-update, IsJournal-later, IsJournal-republish}
use drivebound_storage.Sync.Journal.Push.{IsJournaled}
use drivebound_storage.Sync.{root_is, usable_root, operation_row_is, set_payload, find_item}
use drivebound_storage.Sync.Resolution.{
  retried_input, publish_resolved, publish_kept, keep_local_copy, reject_row, settle_choice,
  close_conflict, resolve_operation, resolve_locked, is_open, resolve_in_root, conflict_in,
  resolve_owned, resolve_conflict,
}

-- The state is that of the same root, whose cursor has not gone back.
abbrev pub Advanced : Root → Db → Type 0
Advanced root db = (r : Root) × (r.id ≡ root.id) × (root.cursor ≤ r.cursor) × IsJournaled r db

at_root : (root : Root) (db : Db) → IsJournaled root db → Advanced root db
at_root root db j = (root, refl, omega arith, j)

module _ (root : Root) (o : Operation) where
  publish_resolved-Advanced :
      (payload : Payload) (db : Db)
      → IsJournaled root db
      → Advanced root (publish_resolved root o payload db)
  unfolding publish_resolved
  publish_resolved-Advanced payload db j = (
    record root { cursor = root.cursor + 1 },
    refl,
    omega arith,
    record {
      assets = j.assets;
      row =
          scalar-update (root_is root.id) (λ r. record r { cursor = root.cursor + 1 }) db.roots root
            (λ x. refl) j.row;
      journal =
          IsJournal-republish root db.next_id o.id (next_revision (root.cursor + 1) o.operation_id)
            _
            (IsJournal-update root db.next_id (operation_row_is o.id) (set_payload payload)
              db.operations (λ x. (refl, refl, refl, refl, refl, refl)) j.journal);
    },
  )

  publish_kept-Advanced :
      (p : Result Payload × Db) → IsJournaled root p.1 → Advanced root (publish_kept root o p).1
  unfolding publish_kept
  publish_kept-Advanced (err f, db) j = at_root root db j
  publish_kept-Advanced (ok payload, db) j = publish_resolved-Advanced payload db j

  framed-IsJournaled :
      (before after : Db)
      → IsJournaled root before
      → AssetsOk after
      → Framed before after
      → IsJournaled root after
  framed-IsJournaled before after j a f = record {
    assets = a;
    row = rw f.1 j.row;
    journal =
        rw f.0 (IsJournal-later root before.next_id after.next_id before.operations f.3 j.journal);
  }

  settle_choice-Advanced :
      (w : Host) (now : ℕ) (choice : Choice) (db : Db)
      → IsJournaled root db
      → Advanced root (settle_choice w now root o choice db).1
  unfolding settle_choice keep_local_copy
  settle_choice-Advanced w now keep_local db j =
      publish_kept-Advanced
        (apply_item_operation w now root o (retried_input o) (find_item root.id o.logical_id db) db)
        (framed-IsJournaled db _ j
          (apply_item_operation-AssetsOk now root o (retried_input o) _ db j.assets w)
          (apply_item_operation-Framed db now root o (retried_input o) _ w))
  settle_choice-Advanced w now keep_remote db j = at_root root _ record {
    assets = j.assets;
    row = j.row;
    journal =
        IsJournal-update root db.next_id (operation_row_is o.id) reject_row db.operations
          (λ x. (refl, refl, refl, refl, refl, refl)) j.journal;
  }

module _ (w : Host) (now : ℕ) (root : Root) where
  close_conflict-Advanced :
      (o : Operation) (c : Conflict) (choice : Choice) (p : Result (Unit {0}) × Db)
      → Advanced root p.1
      → Advanced root (close_conflict now root o c choice p).1
  unfolding close_conflict audit
  close_conflict-Advanced o c choice (err f, db) h = h
  close_conflict-Advanced o c choice (ok _, db) (r, same, later, j) =
      (r, same, later, record { assets = j.assets; row = j.row; journal = j.journal })

  resolve_operation-Advanced :
      (c : Conflict) (choice : Choice) (o : Option Operation) (db : Db)
      → IsJournaled root db
      → Advanced root (resolve_operation w now root c choice o db).1
  unfolding resolve_operation
  resolve_operation-Advanced c choice none db j = at_root root db j
  resolve_operation-Advanced c choice (some o) db j =
      close_conflict-Advanced o c choice (settle_choice w now root o choice db)
        (settle_choice-Advanced root o w now choice db j)

  resolve_locked-Advanced :
      (choice : Choice) (c : Option Conflict) (db : Db)
      → IsJournaled root db
      → Advanced root (resolve_locked w now root choice c db).1
  unfolding resolve_locked
  resolve_locked-Advanced choice none db j = at_root root db j
  resolve_locked-Advanced choice (some c) db j = elim (Bool-cases (is_open c.status)) [
    | inl y ↦ rw y (resolve_operation-Advanced c choice _ db j)
    | inr n ↦ rw n (at_root root db j)
  ]

  resolve_in_root-Advanced :
      (i : ℕ) (choice : Choice) (r : Option Root) (db : Db)
      → IsJournaled root db
      → ((x : Root) → r ≡ some x → x ≡ root)
      → Advanced root (resolve_in_root w now i choice r db).1
  unfolding resolve_in_root
  resolve_in_root-Advanced i choice none db j h = at_root root db j
  resolve_in_root-Advanced i choice (some r) db j h =
      rw (h r refl)
        (resolve_locked-Advanced choice (scalar (conflict_in i root.id) db.conflicts) db j)

  resolve_owned-Advanced :
      (conflict : Conflict) (choice : Choice) (owned : Option Root) (db : Db)
      → IsJournaled root db
      → All (λ x. root_is conflict.root_id x ≡ true → x ≡ root) db.roots
      → Advanced root (resolve_owned w now conflict choice owned db).1
  unfolding resolve_owned
  resolve_owned-Advanced conflict choice none db j only = at_root root db j
  resolve_owned-Advanced conflict choice (some owned) db j only =
      elim (Bool-cases (is_some (active_user owned.user_id db))) [
        | inr n ↦ rw n (at_root root db j)
        | inl y ↦ rw y (
            resolve_in_root-Advanced conflict.id choice _ db j (λ x e.
              All-scalar _ (usable_root conflict.root_id owned.user_id) db.roots x only e (
                ground
                  (arith, scalar_sound (usable_root conflict.root_id owned.user_id) db.roots x e))))
      ]

-- Where the root of a conflict is the only row with its id and its journal is well formed, a
-- resolution leaves a well-formed journal and the constraints of the assets table, whichever side
-- is kept and whether it succeeds or raises. The root is the same one; its cursor has not gone back.
pub resolve_conflict-IsJournaled :
    (w : Host) (now : ℕ) (conflict : Conflict) (choice : Choice) (root : Root) (db : Db)
    → count (root_is conflict.root_id) db.roots ≤ 1
    → scalar (root_is conflict.root_id) db.roots ≡ some root
    → IsJournaled root db
    → (r : Root) × (r.id ≡ root.id)
      × (root.cursor ≤ r.cursor)
      × IsJournaled r (resolve_conflict w now conflict choice db).1
unfolding resolve_conflict
resolve_conflict-IsJournaled w now conflict choice root db one found j =
    resolve_owned-Advanced w now root conflict choice _ db j
      (scalar_unique (root_is conflict.root_id) db.roots root one found)
