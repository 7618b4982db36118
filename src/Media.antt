-- ===== src/Media.antt =====
-- `_content_disposition` of backend/app/services/media_delivery.py: the header under which a download
-- is named. `urllib.parse.quote` is a parameter.
use drivebound_storage.Base.{
  ℕ, ◌≡◌, refl, ap, sym, ◌∙◌, Bool, true, ◌&&◌, ◌||◌, not, [], ◌∷◌, ◌++◌, Text, codes, same_text,
  same_text_sound, ◌==◌, leb, if◌then◌else◌, arith, Bool-cases, inl, inr,
}
use drivebound_storage.Base.Fault.{Result, ok, err, unsupported_disposition}

-- `ord(character) >= 32 and ord(character) != 127`
abbrev pub printed : ℕ → Bool
printed x = leb 32 x && not (x == 127)

abbrev pub printable : Text → Bool
printable [] = true
printable (x ∷ xs) = printed x && printable xs

abbrev without_controls : Text → Text
without_controls [] = []
without_controls (x ∷ xs) = let rest = without_controls xs in if printed x then x ∷ rest else rest

-- `filename or "download"`
abbrev or_download : Text → Text
or_download [] = codes "download"
or_download (x ∷ xs) = x ∷ xs

abbrev known_disposition : Text → Bool
known_disposition d = same_text d (codes "attachment") || same_text d (codes "inline")

abbrev named_header : Text → Text → Text → Text
named_header disposition filename encoded =
    if same_text encoded filename
    then disposition ++ (codes "; filename=\"" ++ (filename ++ codes "\""))
    else disposition ++ (codes "; filename*=utf-8''" ++ encoded)

unfoldable pub content_disposition : (Text → Text) → Text → Text → Result Text
content_disposition quote filename disposition =
    if known_disposition disposition
    then (let name = or_download (without_controls filename) in
        ok (named_header disposition name (quote name)))
    else err unsupported_disposition

printable-append :
    (s t : Text) → printable s ≡ true → printable t ≡ true → printable (s ++ t) ≡ true
printable-append [] t h k = k
printable-append (x ∷ xs) t h k = ground (arith, printable-append xs t (ground arith) k)

printable-without_controls : (t : Text) → printable (without_controls t) ≡ true
printable-without_controls [] = refl
printable-without_controls (x ∷ xs) = ground (arith, printable-without_controls xs)

printable-or_download : (t : Text) → printable t ≡ true → printable (or_download t) ≡ true
printable-or_download [] h = refl
printable-or_download (x ∷ xs) h = h

printable-known_disposition : (d : Text) → known_disposition d ≡ true → printable d ≡ true
printable-known_disposition d h = elim (Bool-cases (same_text d (codes "attachment"))) [
  | inl y ↦ ap printable (same_text_sound d (codes "attachment") y)
  | inr n ↦ ap printable (same_text_sound d (codes "inline") (ground (arith, n)))
]

printable-named_header :
    (d f e : Text)
    → printable d ≡ true
    → printable f ≡ true
    → printable e ≡ true
    → printable (named_header d f e) ≡ true
printable-named_header d f e hd hf he = elim (Bool-cases (same_text e f)) [
  | inl y ↦ rw y (
      printable-append d (codes "; filename=\"" ++ (f ++ codes "\"")) hd (
        printable-append (codes "; filename=\"") (f ++ codes "\"") refl
          (printable-append f (codes "\"") hf refl)))
  | inr n ↦ rw n (
      printable-append d (codes "; filename*=utf-8''" ++ e) hd
        (printable-append (codes "; filename*=utf-8''") e refl he))
]

-- Where percent-encoding a printable text gives a printable text, a header that is made has no
-- control character, in particular no line break, whatever the name of the file.
pub content_disposition-printable :
    (quote : Text → Text) (filename disposition header : Text)
    → ((t : Text) → printable t ≡ true → printable (quote t) ≡ true)
    → content_disposition quote filename disposition ≡ ok header
    → printable header ≡ true
unfolding content_disposition
content_disposition-printable quote filename disposition header encodes h =
    let name = or_download (without_controls filename) in
    let clean =
      printable-or_download (without_controls filename) (printable-without_controls filename) in
    elim (Bool-cases (known_disposition disposition)) [
      | inl y ↦
          let same : named_header disposition name (quote name) ≡ header = ground (arith, y) in
          ap printable (sym same)
          ∙ printable-named_header disposition name (quote name)
              (printable-known_disposition disposition y) clean (encodes name clean)
      | inr n ↦ absurd (ground (arith, n))
    ]
