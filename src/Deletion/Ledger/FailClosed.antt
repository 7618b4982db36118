-- ===== src/Deletion/Ledger/FailClosed.antt =====
-- A marker in the ledger denies its account whatever else the ledger holds.
use drivebound_storage.Base.{
  ℕ, ◌≡◌, ◌≢◌, ◌⊎◌, ◌&&◌, not, inl, inr, refl, sym, ap, ◌∙◌, Bool, true, false, Option, none, some,
  List, [], ◌∷◌, Text, Bool-cases, same_text, same_text_sound, any_row, scalar, subst, arith,
}
use drivebound_storage.Base.Fault.{
  ok, check, and_then_ok, ok-injective, marker_conflict, ledger_invalid, ledger_unreadable,
  ledger_not_a_directory,
}
use drivebound_storage.Host.{backups, require_storage}
use drivebound_storage.Deletion.Ledger.{
  Document, Seal, Marker, Ledger, Deployment, marker_named, same_content, put_marker, document_of,
  insert_marker, write_suppression_marker, ensure_suppression_ledger_ready, ledger_ready,
  parsed_marker, read_marker, read_markers, read_suppression_markers, denies, authentic, other_job,
  suppression_subject_is_denied,
}

-- The file reads as a marker of the subject.
abbrev Marks : Seal → ℕ → Marker → Type 0
Marks k subject m =
    (c : Text) × (m.content ≡ some c)
    × (x : Document) × (supplied : Text) × (k.parse c ≡ some (x, supplied))
    × (x.subject_fingerprint ≡ k.fingerprint subject)

abbrev Some : (Marker → Type 0) → List Marker → Type 0
Some P [] = ⊥
Some P (m ∷ ms) = P m ⊎ Some P ms

abbrev IsMarked : Seal → ℕ → Ledger → Type 0
IsMarked k subject l = (l.exists ≡ true) × Some (Marks k subject) l.markers

-- A marker as it is written reads as its document and its tag.
abbrev pub ReadsBack : Seal → Type 0
ReadsBack k =
    (job subject requested_at : ℕ)
    → let x = document_of k job subject requested_at in
      k.parse (k.encode x (k.tag x)) ≡ some (x, k.tag x)

-- The ledgers that follow by markers written for whatever accounts.
pub data Later (d : Deployment) (l : Ledger) : Ledger → Type 0 where
  here : Later d l l
  next :
      {m n : Ledger} (job subject requested_at : ℕ)
      → Later d l m
      → write_suppression_marker d job subject requested_at m ≡ ok n
      → Later d l n

module _ (k : Seal) (P : Marker → Type 0) where
  insert_marker-here : (m : Marker) (ms : List Marker) → P m → Some P (insert_marker k m ms)
  insert_marker-here m [] h = inl h
  insert_marker-here m (x ∷ xs) h = elim (Bool-cases (k.before m.name x.name)) [
    | inl y ↦ rw y (inl h)
    | inr n ↦ rw n (inr (insert_marker-here m xs h))
  ]

  insert_marker-there : (m : Marker) (ms : List Marker) → Some P ms → Some P (insert_marker k m ms)
  insert_marker-there m [] h = elim h [ ]
  insert_marker-there m (x ∷ xs) h = elim (Bool-cases (k.before m.name x.name)) [
    | inl y ↦ rw y (inr h)
    | inr n ↦ rw n (elim h [ inl p ↦ inl p | inr q ↦ inr (insert_marker-there m xs q) ])
  ]

  Some-scalar :
      (p : Marker → Bool) (m : Marker) (ms : List Marker) → scalar p ms ≡ some m → P m → Some P ms
  unfolding scalar
  Some-scalar p m [] e h = absurd (ground arith)
  Some-scalar p m (x ∷ xs) e h = elim (Bool-cases (p x)) [
    | inl y ↦ inl (rw (some_eq x m (rw y at e)) h)
    | inr n ↦ inr (Some-scalar p m xs (rw n at e) h)
  ]
    where
      some_eq : (a b : Marker) → some a ≡ some b → a ≡ b
      some_eq a b q = cc

same_content_sound : (o : Option Text) (t : Text) → same_content o t ≡ true → o ≡ some t
same_content_sound none t h = cc
same_content_sound (some s) t h = ap some (same_text_sound s t h)

same_text_refl : (t : Text) → same_text t t ≡ true
unfolding same_text
same_text_refl [] = refl
same_text_refl (c ∷ t) = ground (arith, same_text_refl t)

-- A successful write of whatever marker keeps the marks.
module _ (d : Deployment) (subject : ℕ) where
  ledger_ready-exists : (l n : Ledger) → ledger_ready d l ≡ ok n → n.exists ≡ true
  ledger_ready-exists l n e = ground arith

  ledger_ready-same : (l n : Ledger) → l.exists ≡ true → ledger_ready d l ≡ ok n → n ≡ l
  ledger_ready-same l n there e = ground arith

  ensure-ready :
      (l n : Ledger) → ensure_suppression_ledger_ready d l ≡ ok n → ledger_ready d l ≡ ok n
  unfolding ensure_suppression_ledger_ready
  ensure-ready l n e = (and_then_ok (require_storage d.host (backups ∷ [])) _ n e).2

  put_marker-keeps :
      (name t : Text) (o : Option Marker) (l n : Ledger)
      → put_marker d.seal name t o l ≡ ok n
      → IsMarked d.seal subject l
      → IsMarked d.seal subject n
  unfolding put_marker
  put_marker-keeps name t none l n e (there, marks) =
      subst (IsMarked d.seal subject) (ok-injective _ n e) (
        there,
        insert_marker-there d.seal (Marks d.seal subject) (record { name = name; content = some t })
            l.markers marks,
      )
  put_marker-keeps name t (some m) l n e (there, marks) =
      let (_, _, same) = and_then_ok (check (same_content m.content t) marker_conflict) _ n e in
      subst (IsMarked d.seal subject) (ok-injective l n same) (there, marks)

  put_marker-marks :
      (name t : Text) (o : Option Marker) (x : Document) (l n : Ledger)
      → scalar (marker_named name) l.markers ≡ o
      → d.seal.parse t ≡ some (x, d.seal.tag x)
      → x.subject_fingerprint ≡ d.seal.fingerprint subject
      → l.exists ≡ true
      → put_marker d.seal name t o l ≡ ok n
      → IsMarked d.seal subject n
  unfolding put_marker
  put_marker-marks name t none x l n o parses same there e =
      subst (IsMarked d.seal subject) (ok-injective _ n e) (
        there,
        insert_marker-here d.seal (Marks d.seal subject) (record { name = name; content = some t })
            l.markers (t, refl, x, d.seal.tag x, parses, same),
      )
  put_marker-marks name t (some m) x l n o parses same there e =
      let (_, passed, kept) =
        and_then_ok (check (same_content m.content t) marker_conflict) _ n e in
      subst (IsMarked d.seal subject) (ok-injective l n kept) (
        there,
        Some-scalar d.seal (Marks d.seal subject) (marker_named name) m l.markers o
            (t, same_content_sound m.content t (ground arith), x, d.seal.tag x, parses, same),
      )

  parsed_marker-denies :
      (seen : List Document) (o : Option (Document × Text)) (x y : Document) (supplied : Text)
      → parsed_marker d.seal seen o ≡ ok x
      → o ≡ some (y, supplied)
      → x ≡ y
  unfolding parsed_marker
  parsed_marker-denies seen none x y supplied e o = cc
  parsed_marker-denies seen (some (z, u)) x y supplied e o =
      let (_, _, same) =
        and_then_ok (check (authentic d.seal z u && not (other_job seen z)) ledger_invalid) _ x e in
      cc (ok-injective z x same, o)

  read_marker-denies :
      (seen : List Document) (m : Marker) (x : Document)
      → read_marker d.seal seen m.content ≡ ok x
      → Marks d.seal subject m
      → denies (d.seal.fingerprint subject) x ≡ true
  unfolding read_marker
  read_marker-denies seen m x e (c, content, y, supplied, parses, same) =
      let same_document =
        parsed_marker-denies seen (d.seal.parse c) x y supplied (rw content at e) parses in
      rw (same_document, same) (same_text_refl (d.seal.fingerprint subject))

  any_row-here :
      (p : Document → Bool) (x : Document) (xs : List Document)
      → p x ≡ true
      → any_row p (x ∷ xs) ≡ true
  unfolding any_row
  any_row-here p x xs h = ground arith

  any_row-there :
      (p : Document → Bool) (x : Document) (xs : List Document)
      → any_row p xs ≡ true
      → any_row p (x ∷ xs) ≡ true
  unfolding any_row
  any_row-there p x xs h = ground arith

  read_markers-denies :
      (seen xs : List Document) (ms : List Marker)
      → Some (Marks d.seal subject) ms
      → read_markers d.seal seen ms ≡ ok xs
      → any_row (denies (d.seal.fingerprint subject)) xs ≡ true
  unfolding read_markers
  read_markers-denies seen xs [] h e = elim h [ ]
  read_markers-denies seen xs (m ∷ ms) h e =
      let (x, first, rest) = and_then_ok (read_marker d.seal seen m.content) _ xs e in
      let (ys, later, eq) = and_then_ok (read_markers d.seal (x ∷ seen) ms) _ xs rest in
      subst (λ zs. any_row (denies (d.seal.fingerprint subject)) zs ≡ true)
        (ok-injective (x ∷ ys) xs eq)
        (elim h [
          | inl mark ↦ any_row-here _ x ys (read_marker-denies seen m x first mark)
          | inr marks ↦ any_row-there _ x ys (read_markers-denies (x ∷ seen) ys ms marks later)
        ])

  write-IsMarked :
      (job other requested_at : ℕ) (l n : Ledger)
      → write_suppression_marker d job other requested_at l ≡ ok n
      → IsMarked d.seal subject l
      → IsMarked d.seal subject n
  unfolding write_suppression_marker
  write-IsMarked job other requested_at l n e marked =
      let (m, ready, put) = and_then_ok (ensure_suppression_ledger_ready d l) _ n e in
      put_marker-keeps _ _ _ m n put (
        subst (IsMarked d.seal subject)
          (sym (ledger_ready-same l m marked.0 (ensure-ready l m ready))) marked)

  pub Later-IsMarked :
      {l n : Ledger} → Later d l n → IsMarked d.seal subject l → IsMarked d.seal subject n
  Later-IsMarked here h = h
  Later-IsMarked (next job other requested_at r e) h =
      write-IsMarked job other requested_at _ _ e (Later-IsMarked r h)

  marks-after_write :
      (job requested_at : ℕ) (l n : Ledger)
      → ReadsBack d.seal
      → write_suppression_marker d job subject requested_at l ≡ ok n
      → IsMarked d.seal subject n
  unfolding write_suppression_marker
  marks-after_write job requested_at l n parses e =
      let (m, ready, put) = and_then_ok (ensure_suppression_ledger_ready d l) _ n e in
      let x = document_of d.seal job subject requested_at in
      put_marker-marks (d.seal.file_name job) (d.seal.encode x (d.seal.tag x))
        (scalar (marker_named (d.seal.file_name job)) m.markers) x m n refl
        (parses job subject requested_at) refl (ledger_ready-exists l m (ensure-ready l m ready))
        put

  read-denies :
      (l : Ledger) (b : Bool)
      → IsMarked d.seal subject l
      → suppression_subject_is_denied d subject l ≡ ok b
      → b ≡ true
  unfolding suppression_subject_is_denied read_suppression_markers
  read-denies l b (there, marks) e =
      let (xs, read, answer) = and_then_ok (read_suppression_markers d l) _ b e in
      let (_, _, more) =
        and_then_ok (check l.is_dir ledger_not_a_directory) _ xs (rw there at read) in
      let (_, _, all) = and_then_ok (check l.can_list ledger_unreadable) _ xs more in
      sym (ok-injective _ b answer) ∙ read_markers-denies [] xs l.markers marks all

-- Once a marker of an account has been written, and whatever markers of this and other accounts are
-- written later, the account is denied or the ledger cannot be read: no later state of the ledger
-- answers that the account may go on. JSON must read back a
-- marker that it wrote.
pub denied_after_write :
    (d : Deployment) (job subject requested_at : ℕ) (l m n : Ledger)
    → ReadsBack d.seal
    → write_suppression_marker d job subject requested_at l ≡ ok m
    → Later d m n
    → suppression_subject_is_denied d subject n ≢ ok false
denied_after_write d job subject requested_at l m n parses written later allowed =
    let marked = marks-after_write d subject job requested_at l m parses written in
    cc (read-denies d subject n false (Later-IsMarked d subject later marked) allowed)
