-- ===== src/Nodes/Attestation.antt =====
-- backend/app/services/node_attestation.py: the encodings of keys and signatures, the window of a
-- timestamp, and the check of a signed message. The base64, JSON and Ed25519 libraries are fields
-- of `Crypto`.
pub mod RoundTrip
use drivebound_storage.Base.{
  ℕ, zero, suc, ◌+◌, ◌-◌, ◌%◌, Bool, true, false, ◌&&◌, ◌||◌, not, Option, none, some, [], ◌∷◌,
  ◌++◌, Text, length, same_text, ◌==◌, ltb, leb, any_row, if◌then◌else◌,
}
use drivebound_storage.Base.Fault.{
  Result, ok, err, check, and_then, bad_encoding, bad_length, unsupported_json, stale_timestamp,
  future_timestamp, used_timestamp, bad_signature,
}

-- What a node reports of itself: the address that the server reads, and the rest unread.
pub record Capabilities : Type 0 where
  pub endpoint_url : Option Text
  pub others : Text

-- The documents that are signed, a constructor for each action, with the fields as they are passed.
pub data Document : Type 0 where
  heartbeat_document : ℕ → ℕ → Option Text → Capabilities → Document
  claim_document : Text → Text → Text → ℕ → Option Text → Document
  rotation_document : ℕ → ℕ → Document

pub record Crypto : Type 0 where
  -- `base64.b64decode(…, altchars=b"-_", validate=True)`; `none` is an error
  pub b64decode : Text → Option Text
  pub urlsafe_b64encode : Text → Text
  -- `json.dumps` with sorted keys; `none` is an error
  pub json_dumps : Document → Option Text
  -- `Ed25519PublicKey.from_public_bytes(key).verify(signature, message)` raises nothing
  pub ed25519_verify : Text → Text → Text → Bool
  -- `token_digest`, a keyed hash, and the random token that a call draws, by the draw's number
  pub token_digest : Text → Text
  pub opaque_token : ℕ → Text
  pub upper : Text → Text
  -- whether the address has another scheme than https
  pub is_plain : Text → Bool
  -- `suppression_subject_is_denied`; `none` is a `RuntimeError`
  pub subject_is_denied : ℕ → Option Bool
  pub remote_access_enabled : Bool

-- `rstrip`
abbrev pub is_empty : Text → Bool
is_empty [] = true
is_empty (x ∷ xs) = false

abbrev pub strip_end : ℕ → Text → Text
strip_end c [] = []
strip_end c (x ∷ xs) = let rest = strip_end c xs in if x == c && is_empty rest then [] else x ∷ rest

unfoldable pub encode_base64url : Crypto → Text → Text
encode_base64url c raw = strip_end b'=' (c.urlsafe_b64encode raw)

abbrev pub repeat : ℕ → ℕ → Text
repeat c zero = []
repeat c (suc n) = c ∷ repeat c n

-- `"=" * (-len(value) % 4)`
abbrev pub padding : Text → Text
padding value = repeat b'=' ((4 - length value % 4) % 4)

decoded : Crypto → Text → ℕ → Option Text → Result Text
unfolding encode_base64url
decoded c value expected none = err bad_encoding
decoded c value expected (some raw) =
    if not (length raw == expected) || not (same_text (encode_base64url c raw) value)
    then err bad_length
    else ok raw

unfoldable pub decode_base64url : Crypto → Text → ℕ → Result Text
unfolding decoded
decode_base64url c value expected =
    if is_empty value || any_row (λ x. x == b'=') value
    then err bad_encoding
    else decoded c value expected (c.b64decode (value ++ padding value))

unfoldable pub canonical_payload : Crypto → Document → Result Text
canonical_payload c d = elim (c.json_dumps d) [ none ↦ err unsupported_json | some t ↦ ok t ]

abbrev pub max_attestation_age_ms : ℕ
max_attestation_age_ms = 300000

abbrev pub max_attestation_future_ms : ℕ
max_attestation_future_ms = 30000

abbrev used : Option ℕ → ℕ → Bool
used none t = false
used (some last) t = leb t last

-- `timestamp_ms < current - MAX_ATTESTATION_AGE_MS` is written with the sum on the other side
unfoldable pub validate_timestamp : ℕ → Option ℕ → ℕ → Result (Unit {0})
validate_timestamp timestamp last now_ms =
    if ltb (timestamp + max_attestation_age_ms) now_ms
    then err stale_timestamp
    else if ltb (now_ms + max_attestation_future_ms) timestamp
    then err future_timestamp
    else if used last timestamp
    then err used_timestamp
    else ok tt

unfoldable pub verify_signature : Crypto → Text → Text → Text → Result (Unit {0})
unfolding decode_base64url
verify_signature c public_key signature message = and_then (decode_base64url c public_key 32) λ key.
    and_then (decode_base64url c signature 64)
      λ raw. check (c.ed25519_verify key raw message) bad_signature

unfoldable pub validate_public_key : Crypto → Text → Result Text
unfolding decode_base64url encode_base64url
validate_public_key c public_key =
    and_then (decode_base64url c public_key 32) λ raw. ok (encode_base64url c raw)
