-- ===== src/Base/Fault.antt =====
-- What the services raise, and the two kinds of computation that may raise: a pure check
-- (`Result`), and a step on a state that stays written when the step raises (`Exec`).
use mathlib.Core.Path.{◌≡◌, refl}
use mathlib.Core.Bool.{Bool, true, false}
use mathlib.Core.List.{List, [], ◌∷◌}
use native.Mathlib.Omega.{arith}
use drivebound_storage.Base.Tests.{if◌then◌else◌}

-- One constructor for each `raise` of the modelled services.
pub data Fault : Type 0 where
  storage_unavailable invalid_storage_path outside_external_roots outside_replica_roots : Fault
  noncanonical_catalog_path os_error : Fault
  host_owner_unset not_host_owner import_root_unselected : Fault
  asset_missing not_active_revision retention_too_short : Fault
  account_unavailable not_in_trash newer_revision_active : Fault
  not_in_history current_not_active restore_trashed_first target_being_deleted : Fault
  clone_of_deleting upsert_incomplete uploaded_asset_unavailable : Fault
  move_incomplete synchronized_asset_deleted : Fault
  root_unavailable conflict_incomplete : Fault
  bad_encoding bad_length unsupported_json stale_timestamp future_timestamp used_timestamp : Fault
  bad_signature pairing_invalid https_required node_already_paired : Fault
  node_token_required node_token_invalid node_unverified node_mismatch node_missing : Fault
  root_missing conflict_missing path_outside_root unsupported_disposition : Fault
  authorization_unavailable account_suppressed : Fault
  account_disabled media_key_missing media_key_unreadable unexpected_size : Fault
  adoption_refused integrity_error upload_too_large upload_missing upload_not_active : Fault
  upload_is_expired offset_mismatch staged_missing chunk_too_large empty_chunk : Fault
  checksum_mismatch finalization_failed : Fault
  unknown_format truncated_media unauthentic_media file_exists : Fault
  ledger_missing ledger_not_a_directory ledger_unreadable ledger_invalid marker_conflict : Fault

pub data Result {ℓ} (A : Type ℓ) : Type ℓ where
  ok : A → Result A
  err : Fault → Result A

-- `raise` unless the test passes.
abbrev pub check : Bool → Fault → Result (Unit {0})
check true f = ok tt
check false f = err f

abbrev pub and_then {ℓ κ} : {A : Type ℓ} {B : Type κ} → Result A → (A → Result B) → Result B
and_then (ok a) k = k a
and_then (err f) k = err f

-- The first fault of a loop that checks every element.
abbrev pub for_each {ℓ} : {A : Type ℓ} → (A → Result (Unit {0})) → List A → Result (Unit {0})
for_each c [] = ok tt
for_each c (x ∷ xs) = and_then (c x) (λ _. for_each c xs)

abbrev pub Exec : Type 0 → Type 0 → Type 0
Exec S A = S → Result A × S

abbrev pub pure : {S A : Type 0} → A → Exec S A
pure a s = (ok a, s)

abbrev pub raise : {S A : Type 0} → Fault → Exec S A
raise f s = (err f, s)

infixl 5 ◌>>=◌ ◌>>◌
abbrev pub ◌>>=◌ : {S A B : Type 0} → Exec S A → (A → Exec S B) → Exec S B
◌>>=◌ m k s = let (r, s') = m s in elim r [ ok a ↦ k a s' | err f ↦ (err f, s') ]

abbrev pub ◌>>◌ : {S A B : Type 0} → Exec S A → Exec S B → Exec S B
m >> k = m >>= λ _. k

abbrev pub lift : {S A : Type 0} → Result A → Exec S A
lift r s = (r, s)

-- A check before a computation.
abbrev pub guard : {S A : Type 0} → Result (Unit {0}) → Exec S A → Exec S A
guard r m = lift r >>= λ _. m

-- A loop of checks passes only if each check does.
pub for_each_sound {ℓ} :
    {A : Type ℓ} (c : A → Result (Unit {0})) (x : A) (xs : List A)
    → for_each c (x ∷ xs) ≡ ok tt
    → (c x ≡ ok tt) × (for_each c xs ≡ ok tt)
for_each_sound c x xs h = ground arith

-- Inversion of a computation that has passed its first part.
pub and_then_ok {ℓ κ} :
    {A : Type ℓ} {B : Type κ} (r : Result A) (k : A → Result B) (b : B)
    → and_then r k ≡ ok b
    → (a : A) × (r ≡ ok a) × (k a ≡ ok b)
and_then_ok (ok a) k b h = (a, refl, h)
and_then_ok (err f) k b h = cc

pub ok-injective {ℓ} : {A : Type ℓ} (a b : A) → ok a ≡ ok b → a ≡ b
ok-injective a b h = cc

-- A computation that leaves a fact about the state as it was, whether it succeeds or raises.
abbrev pub Keeps : {S A : Type 0} → (S → Type 0) → Exec S A → Type 0
Keeps {S} P m = (s : S) → P s → P (m s).1

bind_pair-Keeps :
    {S A B : Type 0} (P : S → Type 0) (x : Result A × S) (k : A → Exec S B) (s : S)
    → P x.1
    → ((a : A) → Keeps P (k a))
    → P (((λ _. x) >>= k) s).1
bind_pair-Keeps P (ok a, t) k s h rest = rest a t h
bind_pair-Keeps P (err f, t) k s h rest = h

pub bind-Keeps :
    {S A B : Type 0} (P : S → Type 0) (m : Exec S A) (k : A → Exec S B)
    → Keeps P m
    → ((a : A) → Keeps P (k a))
    → Keeps P (m >>= k)
bind-Keeps P m k h rest s p = bind_pair-Keeps P (m s) k s (h s p) rest

bind_pair-leads :
    {S A B : Type 0} (Q P : S → Type 0) (x : Result A × S) (k : A → Exec S B) (s : S)
    → Q x.1
    → ((t : S) → Q t → P t)
    → ((a : A) (t : S) → Q t → P (k a t).1)
    → P (((λ _. x) >>= k) s).1
bind_pair-leads Q P (ok a, t) k s h weaker rest = rest a t h
bind_pair-leads Q P (err f, t) k s h weaker rest = weaker t h

-- What the first computation establishes, the second may use.
pub bind-leads :
    {S A B : Type 0} (Q P : S → Type 0) (m : Exec S A) (k : A → Exec S B) (s : S)
    → Q (m s).1
    → ((t : S) → Q t → P t)
    → ((a : A) (t : S) → Q t → P (k a t).1)
    → P ((m >>= k) s).1
bind-leads Q P m k s = bind_pair-leads Q P (m s) k s

pub guard-Keeps :
    {S A : Type 0} (P : S → Type 0) (r : Result (Unit {0})) (m : Exec S A)
    → Keeps P m
    → Keeps P (guard r m)
guard-Keeps P (ok _) m h s p = h s p
guard-Keeps P (err f) m h s p = p

pub lift_bind-Keeps :
    {S A B : Type 0} (P : S → Type 0) (r : Result A) (m : A → Exec S B)
    → ((a : A) → Keeps P (m a))
    → Keeps P (lift r >>= m)
lift_bind-Keeps P (ok a) m h s p = h a s p
lift_bind-Keeps P (err f) m h s p = p

-- A computation that reads the state and may raise.
abbrev pub asks : {S A : Type 0} → (S → Result A) → Exec S A
asks r s = (r s, s)

asked-Keeps :
    {S A B : Type 0} (P : S → Type 0) (r : Result A) (m : A → Exec S B) (s : S)
    → P s
    → ((a : A) → P (m a s).1)
    → P (((λ _. (r, s)) >>= m) s).1
asked-Keeps P (ok a) m s h rest = rest a
asked-Keeps P (err f) m s h rest = h

pub asks-Keeps :
    {S A B : Type 0} (P : S → Type 0) (r : S → Result A) (m : A → Exec S B) (s : S)
    → P s
    → ((a : A) → P (m a s).1)
    → P ((asks r >>= m) s).1
asks-Keeps P r m s = asked-Keeps P (r s) m s

pub if-Keeps :
    {S A : Type 0} (P : S → Type 0) (b : Bool) (m n : Exec S A)
    → Keeps P m
    → Keeps P n
    → (s : S) → P s
    → P (if b then m s else n s).1
if-Keeps P true m n h g s p = h s p
if-Keeps P false m n h g s p = g s p

-- The same for two results, each under its side of the test.
pub if-leads :
    {X : Type 0} (P : X → Type 0) (b : Bool) (x y : X)
    → (b ≡ true → P x)
    → (b ≡ false → P y)
    → P (if b then x else y)
if-leads P true x y h g = h refl
if-leads P false x y h g = g refl

-- What every answer of a computation is like, whatever the state.
abbrev pub Yields : {S A : Type 0} → (A → Type 0) → Exec S A → Type 0
Yields {S} {A} Q m = (s : S) (a : A) → (m s).0 ≡ ok a → Q a

bind_pair-yields :
    {S A B : Type 0} (Q : B → Type 0) (x : Result A × S) (k : A → Exec S B) (s : S)
    → ((a : A) → Yields Q (k a))
    → (b : B) → (((λ _. x) >>= k) s).0 ≡ ok b
    → Q b
bind_pair-yields Q (ok a, t) k s h b e = h a t b e
bind_pair-yields Q (err f, t) k s h b e = cc

pub bind-Yields :
    {S A B : Type 0} (Q : B → Type 0) (m : Exec S A) (k : A → Exec S B)
    → ((a : A) → Yields Q (k a))
    → Yields Q (m >>= k)
bind-Yields Q m k h s b e = bind_pair-yields Q (m s) k s h b e

pub guard-Yields :
    {S A : Type 0} (Q : A → Type 0) (r : Result (Unit {0})) (m : Exec S A)
    → Yields Q m
    → Yields Q (guard r m)
guard-Yields Q (ok _) m h s a e = h s a e
guard-Yields Q (err f) m h s a e = cc
