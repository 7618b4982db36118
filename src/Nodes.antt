-- ===== src/Nodes.antt =====
-- backend/app/api/v1/nodes.py and backend/app/models/node.py: the drive nodes of an account, how one
-- is claimed with a pairing code, and its signed requests. A time is in microseconds.
pub mod Attestation
pub mod Replay
pub mod Claims
use drivebound_storage.Base.{
  map, scalars, ◌*◌, ◌+◌, ℕ, suc, ◌+◌, ◌*◌, ◌/◌, Bool, true, false, ◌&&◌, ◌||◌, not, Option, none,
  some, List, [], ◌∷◌, ◌++◌, Text, same_text, ◌==◌, ltb, is_some, any_row, scalar, update,
  if◌then◌else◌,
}
use drivebound_storage.Base.Fault.{
  Fault, Result, ok, err, check, and_then, Exec, pairing_invalid, https_required,
  node_already_paired, node_token_required, node_token_invalid, node_unverified, node_mismatch,
  node_missing, authorization_unavailable, account_suppressed,
}
use Attestation.{
  Crypto, Capabilities, Document, heartbeat_document, claim_document, rotation_document,
  canonical_payload, validate_timestamp, verify_signature, validate_public_key,
}

-- `NodePairingCode`
pub record Pairing : Type 0 where
  pub id : ℕ
  pub user_id : ℕ
  pub code_hash : Text
  pub expires_at : ℕ
  pub claimed_at : Option ℕ

pub data NodeStatus : Type 0 where
  node_online node_offline node_revoked : NodeStatus

pub data AttestationState : Type 0 where
  attestation_verified legacy_repair_required : AttestationState

-- `PairedNode`
pub record Node : Type 0 where
  pub id : ℕ
  pub user_id : ℕ
  pub name : Text
  pub public_key : Text
  pub endpoint_url : Option Text
  pub secret_hash : Text
  pub status : NodeStatus
  pub version : Option Text
  pub capabilities : Option Capabilities
  pub attestation_state : AttestationState
  pub last_attested_at : Option ℕ
  pub last_attestation_timestamp_ms : Option ℕ
  pub secret_rotated_at : Option ℕ
  pub last_seen_at : Option ℕ
  pub revoked_at : Option ℕ

pub record NodeDb : Type 0 where
  pub pairings : List Pairing
  pub nodes : List Node
  pub next_id : ℕ

-- `NodeClaim`, `NodeHeartbeat`, `NodeSecretRotation`
pub record Claim : Type 0 where
  pub code : Text
  pub name : Text
  pub public_key : Text
  pub timestamp_ms : ℕ
  pub signature : Text
  pub endpoint_url : Option Text

pub record Beat : Type 0 where
  pub node_id : ℕ
  pub timestamp_ms : ℕ
  pub version : Option Text
  pub capabilities : Capabilities
  pub signature : Text

pub record Rotation : Type 0 where
  pub node_id : ℕ
  pub timestamp_ms : ℕ
  pub signature : Text

-- `reject_suppressed_account`
abbrev pub denied : Option Bool → Result (Unit {0})
denied none = err authorization_unavailable
denied (some b) = check (not b) account_suppressed

abbrev pub node_is : ℕ → Node → Bool
node_is i n = n.id == i

-- a node that its secret opens
abbrev pub opens : Text → Node → Bool
opens hash n = same_text n.secret_hash hash && not (is_some n.revoked_at)

abbrev pub set_node : ℕ → (Node → Node) → NodeDb → NodeDb
set_node i f db = record db { nodes = update (node_is i) f db.nodes }

abbrev pub known_node : Crypto → Option Node → Result Node
known_node c none = err node_token_invalid
known_node c (some n) = and_then (denied (c.subject_is_denied n.user_id)) λ _. ok n

unfoldable pub node_from_secret : Crypto → Option Text → NodeDb → Result Node
node_from_secret c none db = err node_token_required
node_from_secret c (some []) db = err node_token_required
node_from_secret c (some (x ∷ s)) db =
    known_node c (scalar (opens (c.token_digest (x ∷ s))) db.nodes)

abbrev pub is_verified : AttestationState → Bool
is_verified attestation_verified = true
is_verified legacy_repair_required = false

unfoldable pub verify_attested_request : Crypto → Node → ℕ → ℕ → Text → Text → ℕ → Result (Unit {0})
verify_attested_request c node node_id timestamp signature message now =
    and_then (check (is_verified node.attestation_state) node_unverified) λ _.
      and_then (check (node_id == node.id) node_mismatch) λ _.
        and_then (validate_timestamp timestamp node.last_attestation_timestamp_ms (now / 1000))
          λ _. verify_signature c node.public_key signature message

-- `if isinstance(endpoint_url, str) and endpoint_url:`
abbrev new_endpoint : Option Text → Option Text → Option Text
new_endpoint none old = old
new_endpoint (some []) old = old
new_endpoint (some (x ∷ s)) old = some (x ∷ s)

abbrev pub beat_row : ℕ → Beat → Node → Node
beat_row now b n = record n {
  last_seen_at = some now;
  last_attested_at = some now;
  last_attestation_timestamp_ms = some b.timestamp_ms;
  status = node_online;
  version = b.version;
  capabilities = some b.capabilities;
  endpoint_url = new_endpoint b.capabilities.endpoint_url n.endpoint_url;
}

-- the checks of a heartbeat, which answer the node; the message is built before the others are made
unfoldable pub attested_beat : Crypto → ℕ → Beat → Result Node → Result Node
unfolding verify_attested_request canonical_payload
attested_beat c now b found = and_then found λ node.
    and_then
      (canonical_payload c (heartbeat_document b.node_id b.timestamp_ms b.version b.capabilities))
      λ message.
        and_then (verify_attested_request c node b.node_id b.timestamp_ms b.signature message now)
          λ _. ok node

abbrev pub write_beat : ℕ → Beat → Result Node → Exec NodeDb (Unit {0})
write_beat now b (err f) db = (err f, db)
write_beat now b (ok node) db = (ok tt, set_node node.id (beat_row now b) db)

unfoldable pub heartbeat : Crypto → ℕ → Beat → Option Text → Exec NodeDb (Unit {0})
unfolding attested_beat node_from_secret
heartbeat c now b token db =
    write_beat now b (attested_beat c now b (node_from_secret c token db)) db

abbrev pub rotate_row : ℕ → ℕ → Text → Node → Node
rotate_row now timestamp hash n = record n {
  secret_hash = hash;
  secret_rotated_at = some now;
  last_attested_at = some now;
  last_attestation_timestamp_ms = some timestamp;
}

unfoldable pub attested_rotation : Crypto → ℕ → Rotation → Result Node → Result Node
unfolding verify_attested_request canonical_payload
attested_rotation c now r found = and_then found λ node.
    and_then (canonical_payload c (rotation_document r.node_id r.timestamp_ms)) λ message.
      and_then (verify_attested_request c node r.node_id r.timestamp_ms r.signature message now)
        λ _. ok node

abbrev write_rotation : Crypto → ℕ → Rotation → Result Node → Exec NodeDb Text
write_rotation c now r (err f) db = (err f, db)
write_rotation c now r (ok node) db =
    let replacement = c.opaque_token db.next_id in
    (
      ok replacement,
      record (set_node node.id (rotate_row now r.timestamp_ms (c.token_digest replacement)) db) {
        next_id = suc db.next_id;
      },
    )

unfoldable pub rotate_node_secret : Crypto → ℕ → Rotation → Option Text → Exec NodeDb Text
unfolding attested_rotation node_from_secret
rotate_node_secret c now r token db =
    write_rotation c now r (attested_rotation c now r (node_from_secret c token db)) db

-- a pairing code that can still be claimed
abbrev pub claimable : Text → ℕ → Pairing → Bool
claimable hash now p =
    same_text p.code_hash hash && not (is_some p.claimed_at) && ltb now p.expires_at

-- the unique index on the public keys of verified nodes that are not revoked
abbrev pub holds_key : Text → Node → Bool
holds_key key n =
    same_text n.public_key key && not (is_some n.revoked_at) && is_verified n.attestation_state

abbrev pub pairing_is : ℕ → Pairing → Bool
pairing_is i p = p.id == i

abbrev pub claim_pairing : ℕ → Pairing → Pairing
claim_pairing now p = record p { claimed_at = some now }

abbrev paired_node : ℕ → ℕ → Pairing → Claim → Text → Text → Node
paired_node id now p claim key hash = record {
  id = id;
  user_id = p.user_id;
  name = claim.name;
  public_key = key;
  endpoint_url = claim.endpoint_url;
  secret_hash = hash;
  status = node_online;
  version = none;
  capabilities = none;
  attestation_state = attestation_verified;
  last_attested_at = some now;
  last_attestation_timestamp_ms = some claim.timestamp_ms;
  secret_rotated_at = none;
  last_seen_at = some now;
  revoked_at = none;
}

abbrev plain_endpoint : Crypto → Option Text → Bool
plain_endpoint c none = false
plain_endpoint c (some url) = c.remote_access_enabled && c.is_plain url

-- the checks that need no row, which answer the key to store
unfoldable pub attested_claim : Crypto → ℕ → Claim → Result Text
attested_claim c now claim = and_then (validate_public_key c claim.public_key) λ key.
    and_then (validate_timestamp claim.timestamp_ms none (now / 1000)) λ _.
      and_then
        (canonical_payload c (
          claim_document (c.upper (c.upper claim.code)) claim.name key claim.timestamp_ms
            claim.endpoint_url))
        λ message. and_then (verify_signature c key claim.signature message) λ _. ok key

-- the node that a pairing code pays for; a key that is already paired rolls the transaction back
unfoldable pub pair_node : Crypto → ℕ → Claim → Text → Pairing → Exec NodeDb ℕ
pair_node c now claim key p db =
    if any_row (holds_key key) db.nodes then (err node_already_paired, db) else (
      ok db.next_id,
      record db {
        pairings = update (pairing_is p.id) (claim_pairing now) db.pairings;
        nodes =
            db.nodes
            ++ paired_node db.next_id now p claim key
                (c.token_digest (c.opaque_token (suc db.next_id)))
              ∷ [];
        next_id = suc (suc db.next_id);
      },
    )

-- the checks between the pairing code and the new node
abbrev pub allowed_pairing : Crypto → Claim → Pairing → Result (Unit {0})
allowed_pairing c claim p =
    and_then (denied (c.subject_is_denied p.user_id))
      λ _. check (not (plain_endpoint c claim.endpoint_url)) https_required

unfoldable pub pair_allowed :
    Crypto → ℕ → Claim → Text → Pairing → Result (Unit {0}) → Exec NodeDb ℕ
unfolding pair_node
pair_allowed c now claim key p (err f) db = (err f, db)
pair_allowed c now claim key p (ok _) db = pair_node c now claim key p db

unfoldable pub claim_with : Crypto → ℕ → Claim → Text → Option Pairing → Exec NodeDb ℕ
unfolding pair_allowed
claim_with c now claim key none db = (err pairing_invalid, db)
claim_with c now claim key (some p) db =
    pair_allowed c now claim key p (allowed_pairing c claim p) db

unfoldable pub claim_attested : Crypto → ℕ → Claim → Result Text → Exec NodeDb ℕ
unfolding claim_with
claim_attested c now claim (err f) db = (err f, db)
claim_attested c now claim (ok key) db =
    claim_with c now claim key
      (scalar (claimable (c.token_digest (c.upper claim.code)) now) db.pairings) db

-- It answers the id of the node; the secret that the source also returns is the draw after it.
unfoldable pub claim_node : Crypto → ℕ → Claim → Exec NodeDb ℕ
unfolding attested_claim claim_attested
claim_node c now claim db = claim_attested c now claim (attested_claim c now claim) db

abbrev pub owned_node : ℕ → ℕ → Node → Bool
owned_node i user n = n.id == i && n.user_id == user

abbrev pub revoke_row : ℕ → Node → Node
revoke_row now n = record n { revoked_at = some now; status = node_revoked }

abbrev revoke_found : ℕ → Option Node → Exec NodeDb (Unit {0})
revoke_found now none db = (err node_missing, db)
revoke_found now (some n) db = (ok tt, set_node n.id (revoke_row now) db)

unfoldable pub revoke_node : ℕ → ℕ → ℕ → Exec NodeDb (Unit {0})
revoke_node now node_id user db = revoke_found now (scalar (owned_node node_id user) db.nodes) db

-- A pairing code of 8 characters that the call draws is answered; its hash is stored.
unfoldable pub create_pairing_code : Crypto → ℕ → ℕ → ℕ → Text → NodeDb → Text × NodeDb
create_pairing_code c now node_pairing_minutes user code db = (
  code,
  record db {
    pairings =
        db.pairings
        ++ record {
          id = db.next_id;
          user_id = user;
          code_hash = c.token_digest code;
          expires_at = now + node_pairing_minutes * 60000000;
          claimed_at = none;
        }
          ∷ [];
    next_id = suc db.next_id;
  },
)

-- whether a node has not been seen for five minutes
abbrev unseen : ℕ → Option ℕ → Bool
unseen now none = true
unseen now (some seen) = ltb (seen + 300000000) now

abbrev listed_row : ℕ → Node → Node
listed_row now n = if unseen now n.last_seen_at then record n { status = node_offline } else n

abbrev listed : ℕ → Node → Bool
listed user n = n.user_id == user && not (is_some n.revoked_at)

abbrev newest_first : List Node → List Node
newest_first [] = []
newest_first (x ∷ xs) = newest_first xs ++ x ∷ []

-- The request ends without a commit, so the rows are not changed. The order of the table is that of
-- creation.
unfoldable pub list_nodes : ℕ → ℕ → NodeDb → List Node
list_nodes now user db = map (listed_row now) (newest_first (scalars (listed user) db.nodes))
