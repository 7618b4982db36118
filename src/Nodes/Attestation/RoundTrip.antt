-- ===== src/Nodes/Attestation/RoundTrip.antt =====
-- Keys and signatures in the unpadded base64 of backend/app/services/node_attestation.py.
use drivebound_storage.Base.{
  ℕ, zero, suc, ◌+◌, ◌-◌, ◌%◌, ◌<◌, ◌≡◌, ◌∙◌, refl, ap, false, some, [], ◌∷◌, ◌++◌, Text, length,
  same_text_refl, ◌==◌, ==_refl, any_row, arith, Bool-cases, inl, inr,
}
use drivebound_storage.Base.Fault.{ok}
use drivebound_storage.Nodes.Attestation.{
  Crypto, is_empty, strip_end, repeat, padding, encode_base64url, decode_base64url,
}

-- What RFC 4648 says of the base64 of the bytes: digits, at least one, and "=" up to a multiple of
-- four characters, which decode to the bytes.
pub record IsBase64 (c : Crypto) (raw digits : Text) (pads : ℕ) : Type 0 where
  pub encodes : c.urlsafe_b64encode raw ≡ digits ++ repeat b'=' pads
  pub no_pad : any_row (λ x. x == b'=') digits ≡ false
  pub some_digit : is_empty digits ≡ false
  pub few_pads : pads < 4
  pub whole_groups : (length digits + pads) % 4 ≡ 0
  pub decodes : c.b64decode (digits ++ repeat b'=' pads) ≡ some raw

strip_end-repeat : (c n : ℕ) → strip_end c (repeat c n) ≡ []
strip_end-repeat c zero = refl
strip_end-repeat c (suc n) = ground (arith, strip_end-repeat c n, ==_refl c)

strip_end-append :
    (c n : ℕ) (xs : Text) → any_row (λ x. x == c) xs ≡ false → strip_end c (xs ++ repeat c n) ≡ xs
unfolding any_row
strip_end-append c n [] h = strip_end-repeat c n
strip_end-append c n (x ∷ xs) h = elim (Bool-cases (x == c)) [
  | inl y ↦ absurd (ground (arith, y, h))
  | inr other ↦ rw (other, strip_end-append c n xs (rw other at h)) refl
]

missing_pads : (m n : ℕ) → n < 4 → (m + n) % 4 ≡ 0 → (4 - m % 4) % 4 ≡ n
missing_pads m n small whole = omega (arith, small, whole)

-- What the server writes of some bytes it reads back as those bytes, where the base64 library does
-- what RFC 4648 says: the "=" that is dropped is what is put back.
pub decode-encode :
    (c : Crypto) (raw digits : Text) (pads : ℕ)
    → IsBase64 c raw digits pads
    → decode_base64url c (encode_base64url c raw) (length raw) ≡ ok raw
unfolding decode_base64url encode_base64url
decode-encode c raw digits pads law =
    let written : encode_base64url c raw ≡ digits =
      ap (strip_end b'=') law.encodes ∙ strip_end-append b'=' pads digits law.no_pad in
    let padded : c.b64decode (digits ++ padding digits) ≡ some raw =
      ap (λ n. c.b64decode (digits ++ repeat b'=' n))
        (missing_pads (length digits) pads law.few_pads law.whole_groups)
      ∙ law.decodes in
    rw (written, law.some_digit, law.no_pad, padded)
      (rw (==_refl (length raw), written, same_text_refl digits) refl)
