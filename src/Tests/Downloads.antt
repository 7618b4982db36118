-- ===== src/Tests/Downloads.antt =====
-- The theorem on download headers, with a name that needs no encoding.
use drivebound_storage.Base.{◌≡◌, refl, true, Text, codes, same_text}
use drivebound_storage.Base.Fault.{ok}
use drivebound_storage.Media.{content_disposition, content_disposition-printable, printable}

abbrev header : Text
header = codes "inline; filename=\"a.jpg\""

kept_printable : (t : Text) → printable t ≡ true → printable t ≡ true
kept_printable t h = h

made : content_disposition (λ t. t) (codes "a.jpg") (codes "inline") ≡ ok header
unfolding content_disposition same_text
made = refl

content_disposition-printable_example : printable header ≡ true
content_disposition-printable_example =
    content_disposition-printable (λ t. t) (codes "a.jpg") (codes "inline") header kept_printable
      made
