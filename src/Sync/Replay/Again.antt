-- ===== src/Sync/Replay/Again.antt =====
-- The second push of a batch.
use drivebound_storage.Base.{
  ℕ, ◌≡◌, refl, ap, ap₂, sym, subst, ◌∙◌, Bool, true, Option, none, some, List, [], ◌∷◌, ◌+◌, ◌++◌,
  ◌==◌, ◌&&◌, not, suc, scalar_sound, Text, arith, Bool-cases, inl, inr, update, scalar, is_some,
}
use drivebound_storage.Base.Fault.{Result, ok, err}
use drivebound_storage.Host.{Host}
use drivebound_storage.Catalog.{Root, User, Item, Operation, Payload, ConflictKind, Db}
use drivebound_storage.Lifecycle.{audit, active_user}
use drivebound_storage.Sync.Items.{Input, apply_item_operation}
use drivebound_storage.Sync.Items.Frame.{apply_item_operation-Framed}
use drivebound_storage.Sync.Replay.Answers.{
  answered, AreDistinct, AreAnswers, apply_inputs-AreAnswers,
}
use drivebound_storage.Sync.{
  by_operation_id, by_sequence, root_is, Pushed, settle, try_apply, record_conflict, finish_input,
  apply_or_conflict, apply_new, apply_unless_repeated, apply_input, apply_inputs, cons_some,
  set_roots, set_cursor, new_operation, find_item, conflict_of, saw, usable_root, push_to,
  apply_operations,
}

-- The push of a batch that the server has: no row changes, and the rows it has are answered.
abbrev IsAgain : Root → Db → List ℕ → Pushed × Db → Type 0
IsAgain root db ids (p, after) =
    (after ≡ db) × (p.root ≡ root) × (p.operations ≡ ids) × (p.conflicts ≡ [])

module _ (w : Host) (now : ℕ) (client : Text) where
  apply_input-again :
      (root : Root) (input : Input) (o p : Option Operation) (i : ℕ) (db : Db)
      → scalar (by_operation_id input.operation_id) db.operations ≡ o
      → scalar (by_sequence root.id client input.client_sequence) db.operations ≡ p
      → answered root.id client db.operations input ≡ some i
      → let (a, after) = apply_unless_repeated w now client root input o p db in
        (after ≡ db) × (a.root ≡ root) × (a.operation ≡ i) × (a.conflict ≡ none)
  unfolding apply_unless_repeated
  apply_input-again root input (some o) p i db e f h =
      let h' = (rw e at h) in (refl, refl, ground (arith, h'), refl)
  apply_input-again root input none (some p) i db e f h =
      let h' = (rw (e, f) at h) in (refl, refl, ground (arith, h'), refl)
  apply_input-again root input none none i db e f h =
      let h' = (rw (e, f) at h) in absurd (ground (arith, h'))

  apply_inputs-IsAgain :
      (root : Root) (inputs : List Input) (ids : List ℕ) (db : Db)
      → AreAnswers root.id client db.operations inputs ids
      → IsAgain root db ids (apply_inputs w now client root inputs db)
  unfolding apply_inputs apply_input
  apply_inputs-IsAgain root [] [] db h = (refl, refl, refl, refl)
  apply_inputs-IsAgain root [] (i ∷ ids) db h = absurd h
  apply_inputs-IsAgain root (input ∷ inputs) [] db h = absurd h
  apply_inputs-IsAgain root (input ∷ inputs) (i ∷ ids) db h =
      let same = apply_input-again root input _ _ i db refl refl h.0 in
      let (a, mid) = apply_input w now client root input db in
      let ih = apply_inputs-IsAgain root inputs ids db h.1 in
      let e : apply_inputs w now client a.root inputs mid
          ≡ apply_inputs w now client root inputs db =
        ap₂ (λ r d. apply_inputs w now client r inputs d) same.1 same.0 in
      (
        ap (λ z. z.1) e ∙ ih.0,
        ap (λ z. z.0.root) e ∙ ih.1,
        ap₂ (λ j js. j ∷ js) same.2 (ap (λ z. z.0.operations) e ∙ ih.2),
        ap₂ cons_some same.3 (ap (λ z. z.0.conflicts) e ∙ ih.3),
      )

-- The account is enabled, and the root is one of its active roots.
abbrev pub IsOpen : ℕ → ℕ → Db → Type 0
IsOpen i user db =
    (is_some (active_user user db) ≡ true) × (is_some (scalar (usable_root i user) db.roots) ≡ true)

usable-update :
    (i user : ℕ) (q : Root → Bool) (f : Root → Root) (xs : List Root)
    → ((r : Root) → usable_root i user (f r) ≡ usable_root i user r)
    → is_some (scalar (usable_root i user) (update q f xs))
      ≡ is_some (scalar (usable_root i user) xs)
unfolding scalar update
usable-update i user q f [] same = refl
usable-update i user q f (x ∷ xs) same = elim (Bool-cases (usable_root i user x)) [
  | inl y ↦ elim (Bool-cases (q x)) [ inl z ↦ rw (z, same x, y) refl | inr z ↦ rw (z, y) refl ]
  | inr n ↦ elim (Bool-cases (q x)) [
    | inl z ↦ rw (z, same x, n) (usable-update i user q f xs same)
    | inr z ↦ rw (z, n) (usable-update i user q f xs same)
  ]
]

-- The accounts and the roots are the same.
abbrev SameRoots : Db → Db → Type 0
SameRoots db after = (after.users ≡ db.users) × (after.roots ≡ db.roots)

module _ (w : Host) (now : ℕ) (client : Text) where
  settle-SameRoots :
      (r : Root) (o : Operation) (input : Input) (p : Result Payload × Db)
      → SameRoots p.1 (settle r o input p).1
  unfolding settle audit
  settle-SameRoots r o input (ok _, db) = (refl, refl)
  settle-SameRoots r o input (err f, db) = (refl, refl)

  finish_input-SameRoots :
      (r : Root) (o : Operation) (input : Input) (item : Option Item) (k : Option ConflictKind)
      (db : Db)
      → SameRoots db (finish_input r o input item k db).1
  unfolding finish_input record_conflict audit
  finish_input-SameRoots r o input item none db = (refl, refl)
  finish_input-SameRoots r o input item (some k) db = (refl, refl)

  apply_or_conflict-SameRoots :
      (r : Root) (o : Operation) (input : Input) (item : Option Item) (k : Option ConflictKind)
      (db : Db)
      → SameRoots db (apply_or_conflict w now r o input item k db).1
  unfolding apply_or_conflict try_apply
  apply_or_conflict-SameRoots r o input item (some k) db =
      finish_input-SameRoots r o input item (some k) db
  apply_or_conflict-SameRoots r o input item none db =
      let x = apply_item_operation w now r o input item db in
      let framed = apply_item_operation-Framed db now r o input item w in
      let settled = settle-SameRoots r o input x in
      let y = settle r o input x in
      let done = finish_input-SameRoots r o input item y.0 y.1 in
      (done.0 ∙ settled.0 ∙ framed.4, done.1 ∙ settled.1 ∙ framed.1)

  module _ (i user : ℕ) where
    apply_unless_repeated-IsOpen :
        (r : Root) (input : Input) (o p : Option Operation) (db : Db)
        → IsOpen i user db
        → IsOpen i user (apply_unless_repeated w now client r input o p db).1
    unfolding apply_unless_repeated apply_new active_user
    apply_unless_repeated-IsOpen r input (some o) p db h = h
    apply_unless_repeated-IsOpen r input none (some p) db h = h
    apply_unless_repeated-IsOpen r input none none db h =
        let advanced = set_cursor (r.cursor + 1) r in
        let operation = new_operation db.next_id advanced client input in
        let item = find_item r.id input.logical_id db in
        let same =
          apply_or_conflict-SameRoots advanced operation input item (conflict_of input item)
            (record (set_roots r.id (set_cursor (r.cursor + 1)) db) {
              operations = db.operations ++ operation ∷ [];
              next_id = suc db.next_id;
            }) in
        (
          ap (λ us. is_some (scalar (λ (u : User). u.id == user && not (is_some u.disabled_at)) us))
                same.0
              ∙ h.0,
          ap (λ rs. is_some (scalar (usable_root i user) rs)) same.1
              ∙ usable-update i user (root_is r.id) (set_cursor (r.cursor + 1)) db.roots (λ x. refl)
              ∙ h.1,
        )

    apply_inputs-IsOpen :
        (r : Root) (inputs : List Input) (db : Db)
        → IsOpen i user db
        → IsOpen i user (apply_inputs w now client r inputs db).1
    unfolding apply_inputs apply_input
    apply_inputs-IsOpen r [] db h = h
    apply_inputs-IsOpen r (input ∷ inputs) db h =
        apply_inputs-IsOpen (apply_input w now client r input db).0.root inputs
          (apply_input w now client r input db).1 (apply_unless_repeated-IsOpen r input _ _ db h)

the_root :
    (i user : ℕ) (db : Db)
    → IsOpen i user db
    → (r : Root) × (scalar (usable_root i user) db.roots ≡ some r) × (r.id ≡ i)
the_root i user db h = go (scalar (usable_root i user) db.roots) refl
  where
    go :
        (o : Option Root)
        → scalar (usable_root i user) db.roots ≡ o
        → (r : Root) × (scalar (usable_root i user) db.roots ≡ some r) × (r.id ≡ i)
    go none e = absurd (ground (arith, e, h.1))
    go (some r) e = (r, e, ground (arith, scalar_sound (usable_root i user) db.roots r e))

-- What a push of an open root answers and leaves.
pushed :
    (w : Host) (now : ℕ) (root r : Root) (client : Text) (inputs : List Input) (db : Db)
    → IsOpen root.id root.user_id db
    → scalar (usable_root root.id root.user_id) db.roots ≡ some r
    → apply_operations w now root client inputs db ≡ (
        let (p, after) = apply_inputs w now client r inputs db in
        (ok (record p { root = saw now p.root }), set_roots p.root.id (saw now) after))
unfolding apply_operations push_to
pushed w now root r client inputs db ready found = rw (ready.0, found) refl

-- Where the account is enabled, the root is active, and no two operations of the batch have the same
-- id, a batch that is pushed again, at whatever time, is answered the same operations and no conflict,
-- and changes nothing but the time at which the root was last seen.
pub apply_operations_replay :
    (w : Host) (now later : ℕ) (root : Root) (client : Text) (inputs : List Input) (db : Db)
    → IsOpen root.id root.user_id db
    → AreDistinct inputs
    → (p again : Pushed) × (after : Db) × (apply_operations w now root client inputs db
        ≡ (ok p, after))
      × (apply_operations w later root client inputs after
          ≡ (ok again, set_roots root.id (saw later) after))
      × (again.operations ≡ p.operations)
      × (again.conflicts ≡ [])
apply_operations_replay w now later root client inputs db ready distinct =
    let (r, found, same) = the_root root.id root.user_id db ready in
    let (p, mid) = apply_inputs w now client r inputs db in
    let after = set_roots p.root.id (saw now) mid in
    let known = apply_inputs-AreAnswers w now client r inputs db distinct in
    let kept = apply_inputs-IsOpen w now client root.id root.user_id r inputs db ready in
    let still : IsOpen root.id root.user_id after = (
      unfold active_user in kept.0,
      usable-update root.id root.user_id (root_is p.root.id) (saw now) mid.roots (λ x. refl)
          ∙ kept.1,
    ) in
    let (s, there, it) = the_root root.id root.user_id after still in
    let (q, last) = apply_inputs w later client s inputs after in
    let again =
      apply_inputs-IsAgain w later client s inputs p.operations after (
        subst (λ i. AreAnswers i client mid.operations inputs p.operations) (same ∙ sym it)
          known) in
    (
      record p { root = saw now p.root },
      record q { root = saw later q.root },
      after,
      pushed w now root r client inputs db ready found,
      pushed w later root s client inputs after still there
          ∙ ap₂ (λ i d. (ok (record q { root = saw later q.root }), set_roots i (saw later) d))
              (ap (λ (x : Root). x.id) again.1 ∙ it) again.0,
      again.2,
      again.3,
    )
