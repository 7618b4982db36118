-- ===== src/Sync/Paths.antt =====
-- `relative_path_only` of backend/app/schemas/sync.py: the validation of a path that a client sends.
use drivebound_storage.Base.{
  ℕ, ◌≡◌, refl, ap, sym, ◌∙◌, Bool, true, false, ◌&&◌, ◌||◌, not, Option, none, some, [], ◌∷◌, Text,
  codes, starts_with, ◌==◌, if◌then◌else◌, arith, Bool-cases, inl, inr,
}
use drivebound_storage.Base.Fault.{Result, ok, err, path_outside_root}

-- `value.replace("\\", "/")`
abbrev forward : Text → Text
forward [] = []
forward (x ∷ xs) = (if x == b'\\' then b'/' else x) ∷ forward xs

abbrev strip_left : Text → Text
strip_left [] = []
strip_left (x ∷ xs) = let rest = strip_left xs in if x == b'/' then rest else x ∷ xs

-- a slash goes where nothing is left behind it
abbrev keep_before : ℕ → Text → Text
keep_before x [] = if x == b'/' then [] else x ∷ []
keep_before x (y ∷ ys) = x ∷ y ∷ ys

abbrev strip_right : Text → Text
strip_right [] = []
strip_right (x ∷ xs) = keep_before x (strip_right xs)

-- `part in text`
abbrev pub contains : Text → Text → Bool
contains part [] = starts_with part []
contains part (x ∷ xs) = starts_with part (x ∷ xs) || contains part xs

abbrev pub climbs : Text → Bool
climbs path = starts_with (codes "../") path || contains (codes "/../") path

abbrev checked : Text → Result (Option Text)
checked [] = err path_outside_root
checked (x ∷ xs) = if climbs (x ∷ xs) then err path_outside_root else ok (some (x ∷ xs))

unfoldable pub relative_path_only : Option Text → Result (Option Text)
relative_path_only none = ok none
relative_path_only (some value) = checked (strip_right (strip_left (forward value)))

-- no backslash is left
abbrev pub plain : Text → Bool
plain [] = true
plain (x ∷ xs) = not (x == b'\\') && plain xs

plain-forward : (t : Text) → plain (forward t) ≡ true
plain-forward [] = refl
plain-forward (x ∷ xs) = ground (arith, plain-forward xs)

plain-strip_left : (t : Text) → plain t ≡ true → plain (strip_left t) ≡ true
plain-strip_left [] h = refl
plain-strip_left (x ∷ xs) h = elim (Bool-cases (x == b'/')) [
  | inl y ↦ rw y (plain-strip_left xs (ground arith))
  | inr n ↦ rw n h
]

plain-keep_before :
    (x : ℕ) (t : Text) → not (x == b'\\') ≡ true → plain t ≡ true → plain (keep_before x t) ≡ true
plain-keep_before x [] n h = ground arith
plain-keep_before x (y ∷ ys) n h = ground arith

plain-strip_right : (t : Text) → plain t ≡ true → plain (strip_right t) ≡ true
plain-strip_right [] h = refl
plain-strip_right (x ∷ xs) h =
    plain-keep_before x (strip_right xs) (ground arith) (plain-strip_right xs (ground arith))

checked_sound :
    (t path : Text)
    → checked t ≡ ok (some path)
    → plain t ≡ true
    → (plain path ≡ true) × (climbs path ≡ false)
checked_sound [] path h k = cc
checked_sound (x ∷ xs) path h k = elim (Bool-cases (climbs (x ∷ xs))) [
  | inl y ↦ absurd (cc (rw y at h))
  | inr n ↦
      let same : x ∷ xs ≡ path = ground (arith, n) in
      (ap plain (sym same) ∙ k, ap climbs (sym same) ∙ n)
]

-- A path that is accepted has no backslash, does not begin with "../" and does not contain "/../".
pub relative_path_only_sound :
    (value path : Text)
    → relative_path_only (some value) ≡ ok (some path)
    → (plain path ≡ true) × (climbs path ≡ false)
unfolding relative_path_only
relative_path_only_sound value path h =
    checked_sound (strip_right (strip_left (forward value))) path h (
      plain-strip_right (strip_left (forward value))
        (plain-strip_left (forward value) (plain-forward value)))

-- `..` is accepted
parent_accepted : relative_path_only (some (codes "..")) ≡ ok (some (codes ".."))
unfolding relative_path_only starts_with
parent_accepted = refl
