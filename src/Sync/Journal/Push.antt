-- ===== src/Sync/Journal/Push.antt =====
-- The push of a batch against the journal of its root.
use drivebound_storage.Base.{
  ℕ, suc, ◌+◌, ◌≤◌, ◌≡◌, refl, ap, sym, subst, ◌∙◌, length, is_some, true, false, Option, none,
  some, List, [], ◌∷◌, ◌++◌, Text, same_text_sound, arith, All-mono, All-append, scalar,
  scalar-none, scalar-update,
}
use drivebound_storage.Base.Fault.{Result, ok, err}
use drivebound_storage.Host.{Host}
use drivebound_storage.Catalog.{Root, Item, Operation, Payload, ConflictKind, Db}
use drivebound_storage.Lifecycle.{audit, active_user}
use drivebound_storage.Sync.Items.{Input, apply_item_operation}
use drivebound_storage.Sync.Items.Upsert.{AssetsOk}
use drivebound_storage.Sync.Items.Keeps.{apply_item_operation-AssetsOk}
use drivebound_storage.Sync.Items.Frame.{Framed, apply_item_operation-Framed}
use drivebound_storage.Sync.Journal.{
  IsJournal, IsJournal-update, IsJournal-later, count_added, at_cursor,
}
use drivebound_storage.Sync.{
  by_operation_id, by_sequence, set_cursor, new_operation, root_is, operation_row_is, set_payload,
  Pushed, settle, try_apply, record_conflict, new_conflict, finish_input, apply_or_conflict,
  apply_new, apply_unless_repeated, apply_input, apply_inputs, apply_operations, push_to,
  usable_root, saw,
}

-- The object of a root is its row, and the database keeps its constraints.
pub record IsJournaled (root : Root) (db : Db) : Type 0 where
  pub assets : AssetsOk db
  pub row : scalar (root_is root.id) db.roots ≡ some root
  pub journal : IsJournal root db.next_id db.operations

module _ (root : Root) (client : Text) (input : Input) (id : ℕ) (xs : List Operation) where
  other_entry :
      (c : Text) (n : ℕ) (x : Operation)
      → by_sequence root.id c n (new_operation id (set_cursor (root.cursor + 1) root) client input)
        ≡ true
      → by_sequence root.id client input.client_sequence x ≡ false
      → by_sequence root.id c n x ≡ false
  other_entry c n x y h =
      let same : client ≡ c = same_text_sound client c (ground arith) in ground (arith, same)

  -- A new entry, with an operation id and a sequence number that no entry has.
  IsJournal-added :
      IsJournal root id xs
      → scalar (by_operation_id input.operation_id) xs ≡ none
      → scalar (by_sequence root.id client input.client_sequence) xs ≡ none
      → IsJournal
          (set_cursor (root.cursor + 1) root)
          (suc id)
          (xs ++ new_operation id (set_cursor (root.cursor + 1) root) client input ∷ [])
  IsJournal-added j new_id new_sequence = record {
    drawn = All-append _ xs _ (All-mono _ _ xs (λ x h. omega (arith, h)) j.drawn) (omega arith, tt);
    rows = λ i.
        count_added (operation_row_is i) _ xs (j.rows i)
          (λ y. All-mono _ _ xs (λ x h. ground arith) j.drawn);
    below =
        All-append _ xs _ (All-mono _ _ xs (λ x h k. omega (arith, h k)) j.below)
          ((λ _. omega arith), tt);
    cursors = λ c.
        count_added (at_cursor root.id c) _ xs (j.cursors c)
          (λ y. All-mono _ _ xs (λ x h. ground arith) j.below);
    ids = λ i. count_added (by_operation_id i) _ xs (j.ids i) (λ y.
        All-mono _ _ xs (λ x h. ground arith)
          (scalar-none (by_operation_id input.operation_id) xs new_id));
    sequences = λ c n. count_added (by_sequence root.id c n) _ xs (j.sequences c n) (λ y.
        All-mono _ _ xs (λ x h. other_entry c n x y h)
          (scalar-none (by_sequence root.id client input.client_sequence) xs new_sequence));
  }

module _ (root : Root) (operation : Operation) (input : Input) where
  settle-IsJournaled :
      (db : Db) (p : Result Payload × Db)
      → IsJournaled root db
      → AssetsOk p.1
      → Framed db p.1
      → IsJournaled root (settle root operation input p).1
  unfolding settle audit
  settle-IsJournaled db (ok payload, mid) j a f = record {
    assets = a;
    row = rw f.1 j.row;
    journal =
        IsJournal-update root mid.next_id (operation_row_is operation.id) (set_payload payload) _
          (λ x. (refl, refl, refl, refl, refl, refl))
          (rw f.0 (IsJournal-later root db.next_id mid.next_id db.operations f.3 j.journal));
  }
  settle-IsJournaled db (err e, mid) j a f = record {
    assets = a;
    row = rw f.1 j.row;
    journal =
        IsJournal-update root mid.next_id (operation_row_is operation.id) _ _
          (λ x. (refl, refl, refl, refl, refl, refl))
          (rw f.0 (IsJournal-later root db.next_id mid.next_id db.operations f.3 j.journal));
  }

  finish_input-IsJournaled :
      (item : Option Item) (k : Option ConflictKind) (db : Db)
      → IsJournaled root db
      → IsJournaled root (finish_input root operation input item k db).1
  unfolding finish_input record_conflict new_conflict audit
  finish_input-IsJournaled item none db j = j
  finish_input-IsJournaled item (some k) db j = record {
    assets = (j.assets.0, All-mono _ _ db.assets (λ x h. omega (arith, h)) j.assets.1);
    row = j.row;
    journal =
        IsJournal-update root (suc db.next_id) (operation_row_is operation.id) _ _
          (λ x. (refl, refl, refl, refl, refl, refl))
          (IsJournal-later root db.next_id (suc db.next_id) db.operations (omega arith) j.journal);
  }

  module _ (w : Host) (now : ℕ) (item : Option Item) where
    try_apply-IsJournaled :
        (db : Db)
        → IsJournaled root db
        → IsJournaled root (try_apply w now root operation input item db).1
    unfolding try_apply
    try_apply-IsJournaled db j =
        settle-IsJournaled db (apply_item_operation w now root operation input item db) j
          (apply_item_operation-AssetsOk now root operation input item db j.assets w)
          (apply_item_operation-Framed db now root operation input item w)

    apply_or_conflict-IsJournaled :
        (k : Option ConflictKind) (db : Db)
        → IsJournaled root db
        → IsJournaled root (apply_or_conflict w now root operation input item k db).1
    unfolding apply_or_conflict
    apply_or_conflict-IsJournaled (some k) db j = finish_input-IsJournaled item (some k) db j
    apply_or_conflict-IsJournaled none db j =
        finish_input-IsJournaled item _ _ (try_apply-IsJournaled db j)

-- the root of an answer is the root that was pushed to
finish_input-root :
    (root : Root) (operation : Operation) (input : Input) (item : Option Item)
    (k : Option ConflictKind) (db : Db)
    → (finish_input root operation input item k db).0.root ≡ root
unfolding finish_input
finish_input-root root operation input item none db = refl
finish_input-root root operation input item (some k) db = refl

apply_or_conflict-root :
    (w : Host) (now : ℕ) (root : Root) (operation : Operation) (input : Input) (item : Option Item)
    (k : Option ConflictKind) (db : Db)
    → (apply_or_conflict w now root operation input item k db).0.root ≡ root
unfolding apply_or_conflict
apply_or_conflict-root w now root operation input item none db =
    finish_input-root root operation input item _ _
apply_or_conflict-root w now root operation input item (some k) db =
    finish_input-root root operation input item (some k) db

module _ (w : Host) (now : ℕ) (client : Text) where
  apply_new-IsJournaled :
      (root : Root) (input : Input) (db : Db)
      → IsJournaled root db
      → scalar (by_operation_id input.operation_id) db.operations ≡ none
      → scalar (by_sequence root.id client input.client_sequence) db.operations ≡ none
      → let (a, after) = apply_new w now client root input db in IsJournaled a.root after
  unfolding apply_new
  apply_new-IsJournaled root input db j new_id new_sequence =
      subst (λ r. IsJournaled r (apply_new w now client root input db).1)
        (sym (apply_or_conflict-root w now _ _ input _ _ _))
        (apply_or_conflict-IsJournaled _ _ input w now _ _ _ record {
          assets = (j.assets.0, All-mono _ _ db.assets (λ x h. omega (arith, h)) j.assets.1);
          row =
              scalar-update (root_is root.id) (set_cursor (root.cursor + 1)) db.roots root
                (λ x. refl) j.row;
          journal =
              IsJournal-added root client input db.next_id db.operations j.journal new_id
                new_sequence;
        })

  apply_unless_repeated-IsJournaled :
      (root : Root) (input : Input) (o p : Option Operation) (db : Db)
      → IsJournaled root db
      → scalar (by_operation_id input.operation_id) db.operations ≡ o
      → scalar (by_sequence root.id client input.client_sequence) db.operations ≡ p
      → let (a, after) = apply_unless_repeated w now client root input o p db in
        IsJournaled a.root after
  unfolding apply_unless_repeated
  apply_unless_repeated-IsJournaled root input (some o) p db j e f = j
  apply_unless_repeated-IsJournaled root input none (some p) db j e f = j
  apply_unless_repeated-IsJournaled root input none none db j e f =
      apply_new-IsJournaled root input db j e f

  pub apply_input-IsJournaled :
      (root : Root) (input : Input) (db : Db)
      → IsJournaled root db
      → let (a, after) = apply_input w now client root input db in IsJournaled a.root after
  unfolding apply_input
  apply_input-IsJournaled root input db j =
      apply_unless_repeated-IsJournaled root input _ _ db j refl refl

  apply_inputs-IsJournaled :
      (root : Root) (inputs : List Input) (db : Db)
      → IsJournaled root db
      → let (p, after) = apply_inputs w now client root inputs db in IsJournaled p.root after
  unfolding apply_inputs
  apply_inputs-IsJournaled root [] db j = j
  apply_inputs-IsJournaled root (input ∷ inputs) db j =
      apply_inputs-IsJournaled (apply_input w now client root input db).0.root inputs
        (apply_input w now client root input db).1 (apply_input-IsJournaled root input db j)

  -- The root that an answer carries: the same root, with its cursor advanced by at most one.
  abbrev Follows : Root → Root → Type 0
  Follows root r = (r.id ≡ root.id) × (root.cursor ≤ r.cursor)

  apply_unless_repeated-root :
      (root : Root) (input : Input) (o p : Option Operation) (db : Db)
      → Follows root (apply_unless_repeated w now client root input o p db).0.root
  unfolding apply_unless_repeated apply_new
  apply_unless_repeated-root root input (some o) p db = (refl, omega arith)
  apply_unless_repeated-root root input none (some p) db = (refl, omega arith)
  apply_unless_repeated-root root input none none db =
      subst (Follows root) (sym (apply_or_conflict-root w now _ _ input _ _ _)) (refl, omega arith)

  pub apply_input-root :
      (root : Root) (input : Input) (db : Db)
      → Follows root (apply_input w now client root input db).0.root
  unfolding apply_input
  apply_input-root root input db = apply_unless_repeated-root root input _ _ db

  pub apply_inputs-root :
      (root : Root) (inputs : List Input) (db : Db)
      → Follows root (apply_inputs w now client root inputs db).0.root
  unfolding apply_inputs
  apply_inputs-root root [] db = (refl, omega arith)
  apply_inputs-root root (input ∷ inputs) db =
      let (a, mid) = apply_input w now client root input db in
      let h = apply_input-root root input db in
      let k = apply_inputs-root a.root inputs mid in (k.0 ∙ h.0, omega (arith, h.1, k.1))

  length-apply_inputs :
      (root : Root) (inputs : List Input) (db : Db)
      → length (apply_inputs w now client root inputs db).0.operations ≡ length inputs
  unfolding apply_inputs
  length-apply_inputs root [] db = refl
  length-apply_inputs root (input ∷ inputs) db = ap suc (
      length-apply_inputs (apply_input w now client root input db).0.root inputs
        (apply_input w now client root input db).1)

-- For an account that is not disabled and an active root whose object agrees with its row, in a
-- database whose constraints hold, a push of any inputs returns, with one operation for each input.
-- The root has the same id and no smaller a cursor, and it is its row; its operations stand at
-- cursors of their own, none above the root's; no operation id and no sequence number of a client
-- is used twice; and of each file at most one revision is active.
pub apply_operations-IsJournaled :
    (w : Host) (now : ℕ) (root r : Root) (client : Text) (inputs : List Input) (db : Db)
    → is_some (active_user root.user_id db) ≡ true
    → scalar (usable_root root.id root.user_id) db.roots ≡ some r
    → IsJournaled r db
    → let (result, after) = apply_operations w now root client inputs db in
      (p : Pushed) × (result ≡ ok p)
      × IsJournaled p.root after
      × (p.root.id ≡ r.id)
      × (r.cursor ≤ p.root.cursor)
      × (length p.operations ≡ length inputs)
unfolding apply_operations push_to
apply_operations-IsJournaled w now root r client inputs db here found j =
    let (p, after) = apply_inputs w now client r inputs db in
    let k = apply_inputs-IsJournaled w now client r inputs db j in
    let h = apply_inputs-root w now client r inputs db in
    rw (here, found)
      (
        record p { root = saw now p.root },
        refl,
        record {
          assets = k.assets;
          row = scalar-update (root_is p.root.id) (saw now) after.roots p.root (λ x. refl) k.row;
          journal = record {
            drawn = k.journal.drawn;
            rows = k.journal.rows;
            below = k.journal.below;
            cursors = k.journal.cursors;
            ids = k.journal.ids;
            sequences = k.journal.sequences;
          };
        },
        h.0,
        h.1,
        length-apply_inputs w now client r inputs db,
      )
