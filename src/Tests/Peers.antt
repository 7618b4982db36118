-- ===== src/Tests/Peers.antt =====
-- The theorems on drive nodes, with a sample node and sample libraries.
use drivebound_storage.Base.{
  ℕ, ◌≤◌, ◌≡◌, refl, true, false, if◌then◌else◌, none, some, [], ◌∷◌, Text, codes, count, same_text,
  scalar, any_row, arith,
}
use drivebound_storage.Base.Fault.{Fault, ok, err}
use drivebound_storage.Nodes.Attestation.{
  Crypto, Capabilities, encode_base64url, decode_base64url, validate_public_key, verify_signature,
  validate_timestamp, canonical_payload,
}
use drivebound_storage.Nodes.Attestation.RoundTrip.{IsBase64, decode-encode}
use drivebound_storage.Nodes.{
  Pairing, Node, NodeDb, Claim, Beat, node_online, attestation_verified, heartbeat, claim_node,
  node_from_secret, beat_row, set_node,
}
use drivebound_storage.Nodes.Replay.{IsAttested, heartbeat_sound, heartbeat_once}
use drivebound_storage.Nodes.Claims.{claim_once}

-- Texts stand for their own bytes, and every signature is good.
abbrev crypto : Crypto
crypto = record {
  b64decode = λ v. some v;
  urlsafe_b64encode = λ raw. raw;
  json_dumps = λ d. some [];
  ed25519_verify = λ key signature message. true;
  token_digest = λ t. t;
  opaque_token = λ n. n ∷ [];
  upper = λ t. t;
  is_plain = λ t. false;
  subject_is_denied = λ u. some false;
  remote_access_enabled = true;
}

abbrev key : Text
key = codes "0123456789abcdef0123456789abcdef"

abbrev signature : Text
signature = codes "0123456789abcdef0123456789abcdef0123456789abcdef0123456789abcdef"

abbrev capabilities : Capabilities
capabilities = record { endpoint_url = none; others = [] }

abbrev node : Node
node = record {
  id = 1;
  user_id = 1;
  name = codes "attic";
  public_key = key;
  endpoint_url = none;
  secret_hash = codes "secret";
  status = node_online;
  version = none;
  capabilities = none;
  attestation_state = attestation_verified;
  last_attested_at = none;
  last_attestation_timestamp_ms = some 5;
  secret_rotated_at = none;
  last_seen_at = none;
  revoked_at = none;
}

abbrev pairing : Pairing
pairing = record {
  id = 2;
  user_id = 1;
  code_hash = codes "CODE1234";
  expires_at = 900000;
  claimed_at = none;
}

abbrev nodes_db : NodeDb
nodes_db = record { pairings = pairing ∷ []; nodes = node ∷ []; next_id = 10 }

abbrev beat : ℕ → Beat
beat t = record {
  node_id = 1;
  timestamp_ms = t;
  version = none;
  capabilities = capabilities;
  signature = signature;
}

abbrev claim : Claim
claim = record {
  code = codes "CODE1234";
  name = codes "shed";
  public_key = codes "fedcba9876543210fedcba9876543210";
  timestamp_ms = 20;
  signature = signature;
  endpoint_url = none;
}

beat_passes : (heartbeat crypto 8000 (beat 7) (some (codes "secret")) nodes_db).0 ≡ ok tt
unfolding heartbeat scalar same_text validate_timestamp verify_signature any_row
beat_passes = refl

heartbeat_sound_example :
    (n : Node) × (node_from_secret crypto (some (codes "secret")) nodes_db ≡ ok n)
    × IsAttested crypto 8000 (beat 7) n
    × ((heartbeat crypto 8000 (beat 7) (some (codes "secret")) nodes_db).1
        ≡ set_node n.id (beat_row 8000 (beat 7)) nodes_db)
heartbeat_sound_example =
    heartbeat_sound crypto 8000 (beat 7) (some (codes "secret")) nodes_db beat_passes

not_newer : 7 ≤ 7
not_newer = omega arith

heartbeat_once_example :
    let after = (heartbeat crypto 8000 (beat 7) (some (codes "secret")) nodes_db).1 in
    (f : Fault) × (heartbeat crypto 9000 (beat 7) (some (codes "secret")) after ≡ (err f, after))
heartbeat_once_example =
    heartbeat_once crypto 8000 9000 (beat 7) (beat 7) (some (codes "secret")) nodes_db beat_passes
      not_newer

one_pairing : count (λ p. same_text p.code_hash (codes "CODE1234")) nodes_db.pairings ≤ 1
unfolding count same_text
one_pairing = omega arith

same_code : claim.code ≡ claim.code
same_code = refl

claim_passes : (claim_node crypto 9000 claim nodes_db).0 ≡ ok 10
unfolding claim_node validate_public_key any_row same_text validate_timestamp canonical_payload
    verify_signature scalar
claim_passes = refl

claim_once_example :
    let after = (claim_node crypto 9000 claim nodes_db).1 in
    (f : Fault) × (claim_node crypto 9001 claim after ≡ (err f, after))
claim_once_example =
    claim_once crypto 9000 9001 10 claim claim nodes_db one_pairing same_code claim_passes

-- A library that knows the base64 of the bytes "hi".
abbrev base64 : Crypto
base64 = record crypto {
  urlsafe_b64encode = λ raw. codes "aGk=";
  b64decode = λ value. if same_text value (codes "aGk=") then some (codes "hi") else none;
}

base64-IsBase64 : IsBase64 base64 (codes "hi") (codes "aGk") 1
unfolding any_row same_text
base64-IsBase64 = record {
  encodes = refl;
  no_pad = refl;
  some_digit = refl;
  few_pads = omega arith;
  whole_groups = refl;
  decodes = refl;
}

decode-encode_example :
    decode_base64url base64 (encode_base64url base64 (codes "hi")) 2 ≡ ok (codes "hi")
decode-encode_example = decode-encode base64 (codes "hi") (codes "aGk") 1 base64-IsBase64
