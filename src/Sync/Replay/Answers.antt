-- ===== src/Sync/Replay/Answers.antt =====
-- What a push answers for each operation, and that a second push answers the same.
use drivebound_storage.Base.{
  ℕ, ◌≡◌, inl, inr, refl, ap, subst, Bool, false, Option, none, some, List, [], ◌∷◌, ◌==◌,
  if◌then◌else◌, ◌++◌, Text, ==_refl, arith, All, Bool-cases, update, scalar,
}
use drivebound_storage.Host.{Host}
use drivebound_storage.Catalog.{Root, Item, Operation, ConflictKind, Db}
use drivebound_storage.Sync.Items.{Input}
use drivebound_storage.Sync.Journal.{SameEntry}
use drivebound_storage.Sync.Journal.Push.{apply_input-root}
use drivebound_storage.Sync.Replay.{apply_or_conflict-keeps}
use drivebound_storage.Sync.{
  by_operation_id, by_sequence, finish_input, apply_or_conflict, apply_new, apply_unless_repeated,
  apply_input, apply_inputs,
}

abbrev id_of : Option Operation → Option ℕ
id_of none = none
id_of (some o) = some o.id

abbrev or_else : Option ℕ → Option ℕ → Option ℕ
or_else (some i) o = some i
or_else none o = o

-- The id of the row that the server has for an input: the one with its operation id, or else the one
-- with its sequence number.
abbrev pub answered : ℕ → Text → List Operation → Input → Option ℕ
answered root client xs input =
    or_else (id_of (scalar (by_operation_id input.operation_id) xs))
      (id_of (scalar (by_sequence root client input.client_sequence) xs))

module _ (p : Operation → Bool) where
  scalar-update_id :
      (q : Operation → Bool) (f : Operation → Operation) (xs : List Operation)
      → ((x : Operation) → p (f x) ≡ p x)
      → ((x : Operation) → (f x).id ≡ x.id)
      → id_of (scalar p (update q f xs)) ≡ id_of (scalar p xs)
  unfolding scalar update
  scalar-update_id q f [] h k = refl
  scalar-update_id q f (x ∷ xs) h k = elim (Bool-cases (q x)) [
    | inl y ↦ elim (Bool-cases (p x)) [
      | inl z ↦ rw (y, h x, z) (ap some (k x))
      | inr z ↦ rw (y, h x, z) (scalar-update_id q f xs h k)
    ]
    | inr n ↦ elim (Bool-cases (p x)) [
      | inl z ↦ rw (n, z) refl
      | inr z ↦ rw (n, z) (scalar-update_id q f xs h k)
    ]
  ]

  scalar-append_id :
      (xs ys : List Operation) (i : ℕ)
      → id_of (scalar p xs) ≡ some i
      → id_of (scalar p (xs ++ ys)) ≡ some i
  unfolding scalar
  scalar-append_id [] ys i e = cc
  scalar-append_id (x ∷ xs) ys i e = elim (Bool-cases (p x)) [
    | inl z ↦ rw z (rw z at e)
    | inr z ↦ rw z (scalar-append_id xs ys i (rw z at e))
  ]

  scalar-append_new :
      (xs : List Operation) (o : Operation)
      → scalar p xs ≡ none
      → id_of (scalar p (xs ++ o ∷ [])) ≡ (if p o then some o.id else none)
  unfolding scalar
  scalar-append_new [] o e = elim (Bool-cases (p o)) [ inl z ↦ rw z refl | inr z ↦ rw z refl ]
  scalar-append_new (x ∷ xs) o e = elim (Bool-cases (p x)) [
    | inl z ↦ absurd (ground (arith, z, e))
    | inr z ↦ rw z (scalar-append_new xs o (rw z at e))
  ]

-- No other input of the batch has the operation id.
abbrev pub AreDistinct : List Input → Type 0
AreDistinct [] = Unit
AreDistinct (x ∷ xs) = All (λ y. y.operation_id == x.operation_id ≡ false) xs × AreDistinct xs

-- The rows of the operations, in the order of the inputs.
abbrev pub AreAnswers : ℕ → Text → List Operation → List Input → List ℕ → Type 0
AreAnswers root client xs [] [] = Unit
AreAnswers root client xs (x ∷ inputs) (i ∷ ids) =
    (answered root client xs x ≡ some i) × AreAnswers root client xs inputs ids
AreAnswers root client xs _ _ = ⊥

module _ (client : Text) (root : ℕ) (known : Input) (i : ℕ) where
  answered-update :
      (q : Operation → Bool) (f : Operation → Operation) (xs : List Operation)
      → ((x : Operation) → SameEntry x (f x))
      → answered root client xs known ≡ some i
      → answered root client (update q f xs) known ≡ some i
  answered-update q f xs same h =
      rw
        (
          scalar-update_id (by_operation_id known.operation_id) q f xs (λ x. ground (arith, same x))
              (λ x. (same x).0),
          scalar-update_id (by_sequence root client known.client_sequence) q f xs
              (λ x. ground (arith, same x)) (λ x. (same x).0),
        )
        h

  answered-append :
      (xs : List Operation) (o : Operation) (m : Option Operation)
      → scalar (by_operation_id known.operation_id) xs ≡ m
      → o.operation_id == known.operation_id ≡ false
      → answered root client xs known ≡ some i
      → answered root client (xs ++ o ∷ []) known ≡ some i
  answered-append xs o (some m) e other h =
      let found =
        scalar-append_id (by_operation_id known.operation_id) xs (o ∷ []) m.id (ap id_of e) in
      rw found (rw e at h)
  answered-append xs o none e other h =
      let found = scalar-append_new (by_operation_id known.operation_id) xs o e in
      rw (found, other)
        (scalar-append_id (by_sequence root client known.client_sequence) xs (o ∷ []) i (rw e at h))

  -- Another input does not change what an input is answered.
  apply_unless_repeated-answered :
      (w : Host) (now : ℕ) (r : Root) (input : Input) (o p : Option Operation) (db : Db)
      → input.operation_id == known.operation_id ≡ false
      → answered root client db.operations known ≡ some i
      → answered root client (apply_unless_repeated w now client r input o p db).1.operations known
        ≡ some i
  unfolding apply_unless_repeated apply_new
  apply_unless_repeated-answered w now r input (some o) p db other h = h
  apply_unless_repeated-answered w now r input none (some p) db other h = h
  apply_unless_repeated-answered w now r input none none db other h =
      apply_or_conflict-keeps (λ xs. answered root client xs known ≡ some i) answered-update w now _
        _ input _ _ _ (answered-append db.operations _ _ refl other h)

  apply_inputs-answered :
      (w : Host) (now : ℕ) (r : Root) (inputs : List Input) (db : Db)
      → All (λ y. y.operation_id == known.operation_id ≡ false) inputs
      → answered root client db.operations known ≡ some i
      → answered root client (apply_inputs w now client r inputs db).1.operations known ≡ some i
  unfolding apply_inputs apply_input
  apply_inputs-answered w now r [] db other h = h
  apply_inputs-answered w now r (input ∷ inputs) db other h =
      apply_inputs-answered w now (apply_input w now client r input db).0.root inputs
        (apply_input w now client r input db).1 other.1
        (apply_unless_repeated-answered w now r input _ _ db other.0 h)

module _ (w : Host) (now : ℕ) (client : Text) where
  finish_input-operation :
      (r : Root) (o : Operation) (input : Input) (item : Option Item) (k : Option ConflictKind)
      (db : Db)
      → (finish_input r o input item k db).0.operation ≡ o.id
  unfolding finish_input
  finish_input-operation r o input item none db = refl
  finish_input-operation r o input item (some k) db = refl

  apply_or_conflict-operation :
      (r : Root) (o : Operation) (input : Input) (item : Option Item) (k : Option ConflictKind)
      (db : Db)
      → (apply_or_conflict w now r o input item k db).0.operation ≡ o.id
  unfolding apply_or_conflict
  apply_or_conflict-operation r o input item (some k) db =
      finish_input-operation r o input item (some k) db
  apply_or_conflict-operation r o input item none db = finish_input-operation r o input item _ _

  -- An input is answered the row that the server has for it afterwards.
  new_answered :
      (r : Root) (input : Input) (o p : Option Operation) (db : Db)
      → scalar (by_operation_id input.operation_id) db.operations ≡ o
      → scalar (by_sequence r.id client input.client_sequence) db.operations ≡ p
      → let (a, after) = apply_unless_repeated w now client r input o p db in
        answered r.id client after.operations input ≡ some a.operation
  unfolding apply_unless_repeated apply_new
  new_answered r input (some o) p db e f = rw e refl
  new_answered r input none (some p) db e f = rw (e, f) refl
  new_answered r input none none db e f = rw (apply_or_conflict-operation _ _ input _ _ _) (
      apply_or_conflict-keeps (λ xs. answered r.id client xs input ≡ some db.next_id)
        (answered-update client r.id input db.next_id) w now _ _ input _ _ _
        (rw
          (
            scalar-append_new (by_operation_id input.operation_id) db.operations _ e,
            ==_refl input.operation_id,
          )
          refl))

  pub apply_inputs-AreAnswers :
      (r : Root) (inputs : List Input) (db : Db)
      → AreDistinct inputs
      → let (p, after) = apply_inputs w now client r inputs db in
        AreAnswers r.id client after.operations inputs p.operations
  unfolding apply_inputs apply_input
  apply_inputs-AreAnswers r [] db h = tt
  apply_inputs-AreAnswers r (input ∷ inputs) db h =
      let (a, mid) = apply_input w now client r input db in
      (
        apply_inputs-answered client r.id input a.operation w now a.root inputs mid h.0
            (new_answered r input _ _ db refl refl),
        subst
            (λ i.
              AreAnswers i client (apply_inputs w now client a.root inputs mid).1.operations inputs
                (apply_inputs w now client a.root inputs mid).0.operations)
            (apply_input-root w now client r input db).0
            (apply_inputs-AreAnswers a.root inputs mid h.1),
      )
