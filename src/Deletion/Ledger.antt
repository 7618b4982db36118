-- ===== src/Deletion/Ledger.antt =====
-- The suppression ledger of backend/app/services/account_deletion.py: a folder apart from the
-- database with a signed marker for each account whose deletion was requested. The keyed hashes,
-- JSON and the order of file names are parameters.
pub mod FailClosed
use drivebound_storage.Base.{
  ℕ, Bool, true, false, ◌&&◌, ◌||◌, not, Option, none, some, List, [], ◌∷◌, Text, same_text, ◌==◌,
  if◌then◌else◌, any_row, length, scalar, opt_is,
}
use drivebound_storage.Base.Fault.{
  Result, ok, err, check, and_then, ledger_missing, ledger_not_a_directory, ledger_unreadable,
  ledger_invalid, marker_conflict,
}
use drivebound_storage.Host.{Host, backups, require_storage}

-- The JSON document of a marker, without its tag.
pub record Document : Type 0 where
  pub schema : Option ℕ
  pub job_id : ℕ
  pub subject_fingerprint : Text
  pub requested_at : ℕ

pub record Seal : Type 0 where
  -- `suppression_fingerprint` and `_marker_tag`, keyed hashes in hexadecimal
  pub fingerprint : ℕ → Text
  pub tag : Document → Text
  -- the text of a document with its tag, and the reading of one; `none` is any exception caught
  pub encode : Document → Text → Text
  pub parse : Text → Option (Document × Text)
  pub file_name : ℕ → Text
  -- the order in which `sorted` puts two names
  pub before : Text → Text → Bool

-- A `*.json` file of the ledger; no content is one that cannot be read.
pub record Marker : Type 0 where
  pub name : Text
  pub content : Option Text

pub record Ledger : Type 0 where
  pub exists : Bool
  pub is_dir : Bool
  -- whether `directory.glob` raises no `OSError`
  pub can_list : Bool
  pub markers : List Marker

-- `remote_access_enabled or production_like`
pub record Deployment : Type 0 where
  pub host : Host
  pub seal : Seal
  pub public_install : Bool

abbrev pub ledger_ready : Deployment → Ledger → Result Ledger
ledger_ready d l =
    if l.exists
    then and_then (check l.is_dir ledger_not_a_directory) (λ _. ok l)
    else and_then (check (not d.public_install) ledger_missing)
        (λ _. ok (record l { exists = true; is_dir = true; markers = [] }))

-- `ensure_suppression_ledger_ready()`
unfoldable pub ensure_suppression_ledger_ready : Deployment → Ledger → Result Ledger
ensure_suppression_ledger_ready d l =
    and_then (require_storage d.host (backups ∷ [])) λ _. ledger_ready d l

abbrev pub insert_marker : Seal → Marker → List Marker → List Marker
insert_marker k m [] = m ∷ []
insert_marker k m (x ∷ xs) = if k.before m.name x.name then m ∷ x ∷ xs else x ∷ insert_marker k m xs

abbrev pub marker_named : Text → Marker → Bool
marker_named name m = same_text m.name name

abbrev pub same_content : Option Text → Text → Bool
same_content none t = false
same_content (some s) t = same_text s t

pub put_marker : Seal → Text → Text → Option Marker → Ledger → Result Ledger
put_marker k name encoded none l = ok (record l {
  markers = insert_marker k (record { name = name; content = some encoded }) l.markers;
})
put_marker k name encoded (some m) l =
    and_then (check (same_content m.content encoded) marker_conflict) λ _. ok l

abbrev pub document_of : Seal → ℕ → ℕ → ℕ → Document
document_of k job subject requested_at = record {
  schema = some 1;
  job_id = job;
  subject_fingerprint = k.fingerprint subject;
  requested_at = requested_at;
}

unfoldable pub write_suppression_marker : Deployment → ℕ → ℕ → ℕ → Ledger → Result Ledger
unfolding ensure_suppression_ledger_ready put_marker
write_suppression_marker d job subject requested_at l =
    and_then (ensure_suppression_ledger_ready d l) λ l'.
      let k = d.seal in
      let document = document_of k job subject requested_at in
      let name = k.file_name job in
      put_marker k name (k.encode document (k.tag document)) (scalar (marker_named name) l'.markers)
        l'

-- `seen_subjects.setdefault(fingerprint, job_id)`; the newest entry stands first
abbrev pub other_job : List Document → Document → Bool
other_job seen x =
    any_row
      (λ y. same_text y.subject_fingerprint x.subject_fingerprint && not (y.job_id == x.job_id))
      seen

abbrev pub authentic : Seal → Document → Text → Bool
authentic k x supplied =
    opt_is x.schema 1 && length x.subject_fingerprint == 64 && same_text supplied (k.tag x)

pub parsed_marker : Seal → List Document → Option (Document × Text) → Result Document
parsed_marker k seen none = err ledger_invalid
parsed_marker k seen (some (x, supplied)) =
    and_then (check (authentic k x supplied && not (other_job seen x)) ledger_invalid) λ _. ok x

pub read_marker : Seal → List Document → Option Text → Result Document
unfolding parsed_marker
read_marker k seen none = err ledger_invalid
read_marker k seen (some content) = parsed_marker k seen (k.parse content)

-- The loop; `seen` has the documents of the earlier files.
pub read_markers : Seal → List Document → List Marker → Result (List Document)
unfolding read_marker
read_markers k seen [] = ok []
read_markers k seen (m ∷ ms) =
    and_then (read_marker k seen m.content)
      λ x. and_then (read_markers k (x ∷ seen) ms) λ xs. ok (x ∷ xs)

unfoldable pub read_suppression_markers : Deployment → Ledger → Result (List Document)
unfolding read_markers
read_suppression_markers d l =
    if l.exists
    then and_then (check l.is_dir ledger_not_a_directory)
        (λ _. and_then (check l.can_list ledger_unreadable) λ _. read_markers d.seal [] l.markers)
    else and_then (check (not d.public_install) ledger_missing) (λ _. ok [])

abbrev pub denies : Text → Document → Bool
denies fingerprint x = same_text x.subject_fingerprint fingerprint

unfoldable pub suppression_subject_is_denied : Deployment → ℕ → Ledger → Result Bool
unfolding read_suppression_markers
suppression_subject_is_denied d subject l =
    and_then (read_suppression_markers d l)
      λ xs. ok (any_row (denies (d.seal.fingerprint subject)) xs)
