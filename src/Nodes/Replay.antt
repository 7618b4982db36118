-- ===== src/Nodes/Replay.antt =====
-- Signed requests of nodes that are sent again.
use drivebound_storage.Base.{
  ℕ, ◌+◌, ◌/◌, ◌≤◌, ◌≡◌, inl, inr, refl, ap, sym, ◌∙◌, Bool, true, false, Option, none, some, List,
  [], ◌∷◌, Text, ◌==◌, ==_refl, arith, Bool-cases, update, scalar,
}
use drivebound_storage.Base.Fault.{Fault, Result, ok, err, check, and_then_ok, ok-injective}
use drivebound_storage.Nodes.Attestation.{
  Crypto, heartbeat_document, canonical_payload, validate_timestamp, max_attestation_age_ms,
  max_attestation_future_ms, verify_signature,
}
use drivebound_storage.Nodes.{
  Node, AttestationState, attestation_verified, NodeDb, Beat, node_is, opens, set_node, known_node,
  denied, node_from_secret, is_verified, verify_attested_request, beat_row, attested_beat,
  write_beat, heartbeat,
}

module _ {A : Type 0} (p q : A → Bool) (f : A → A) where
  -- the answer of a query, after an assignment to its row that the query does not see
  scalar-update_found :
      (xs : List A) (t : A)
      → ((x : A) → p (f x) ≡ p x)
      → q t ≡ true
      → scalar p xs ≡ some t
      → scalar p (update q f xs) ≡ some (f t)
  unfolding scalar update
  scalar-update_found [] t same y e = absurd (ground arith)
  scalar-update_found (x ∷ xs) t same y e = elim (Bool-cases (p x)) [
    | inl here ↦ let is_t : x ≡ t = ground (arith, here) in ground (arith, here, is_t, y, same t)
    | inr later ↦ elim (Bool-cases (q x)) [
      | inl a ↦ ground (arith, a, later, same x, scalar-update_found xs t same y)
      | inr b ↦ ground (arith, b, later, scalar-update_found xs t same y)
    ]
  ]

validate_timestamp_sound :
    (t now : ℕ) (last : Option ℕ)
    → validate_timestamp t last now ≡ ok tt
    → (now ≤ t + max_attestation_age_ms)
      × (t ≤ now + max_attestation_future_ms)
      × ((n : ℕ) → last ≡ some n → n + 1 ≤ t)
unfolding validate_timestamp
validate_timestamp_sound t now none h = (ground arith, ground arith, λ n e. absurd (ground arith))
validate_timestamp_sound t now (some m) h = (ground arith, ground arith, λ n e. ground arith)

-- The signed message of a heartbeat, and what its acceptance establishes of the node.
abbrev pub IsAttested : Crypto → ℕ → Beat → Node → Type 0
IsAttested c now b node =
    (node.attestation_state ≡ attestation_verified)
    × (b.node_id ≡ node.id)
    × (now / 1000 ≤ b.timestamp_ms + max_attestation_age_ms)
    × (b.timestamp_ms ≤ now / 1000 + max_attestation_future_ms)
    × ((last : ℕ) → node.last_attestation_timestamp_ms ≡ some last → last + 1 ≤ b.timestamp_ms)
    × ((message : Text) × (canonical_payload c
            (heartbeat_document b.node_id b.timestamp_ms b.version b.capabilities)
          ≡ ok message)
        × (verify_signature c node.public_key b.signature message ≡ ok tt))

check_sound : (b : Bool) (f : Fault) (u : Unit {0}) → check b f ≡ ok u → b ≡ true
check_sound true f u h = refl
check_sound false f u h = cc

verified_state : (s : AttestationState) → is_verified s ≡ true → s ≡ attestation_verified
verified_state attestation_verified h = refl
verified_state _ h = cc

attested_beat_sound :
    (c : Crypto) (now : ℕ) (b : Beat) (found : Result Node) (node : Node)
    → attested_beat c now b found ≡ ok node
    → (found ≡ ok node) × IsAttested c now b node
unfolding attested_beat verify_attested_request
attested_beat_sound c now b found node h =
    let (n, is_found, e1) = and_then_ok found _ node h in
    let (message, signed, e2) =
      and_then_ok
        (canonical_payload c (heartbeat_document b.node_id b.timestamp_ms b.version b.capabilities))
        _ node e1 in
    let (_, passed, e3) =
      and_then_ok (verify_attested_request c n b.node_id b.timestamp_ms b.signature message now) _
        node e2 in
    let (_, v, e4) = and_then_ok (check (is_verified n.attestation_state) _) _ tt passed in
    let (_, own, e5) = and_then_ok (check (b.node_id == n.id) _) _ tt e4 in
    let (_, t, e6) =
      and_then_ok (validate_timestamp b.timestamp_ms n.last_attestation_timestamp_ms (now / 1000)) _
        tt e5 in
    let window =
      validate_timestamp_sound b.timestamp_ms (now / 1000) n.last_attestation_timestamp_ms t in
    let same : n ≡ node = ground arith in
    rw⁻¹ same (
      is_found,
      (
        verified_state n.attestation_state (check_sound _ _ _ v),
        ground (arith, check_sound (b.node_id == n.id) _ _ own),
        window.0,
        window.1,
        window.2,
        (message, signed, e6),
      ),
    )

write_beat_sound :
    (now : ℕ) (b : Beat) (r : Result Node) (db : NodeDb)
    → (write_beat now b r db).0 ≡ ok tt
    → (node : Node) × (r ≡ ok node)
      × ((write_beat now b r db).1 ≡ set_node node.id (beat_row now b) db)
write_beat_sound now b (err f) db h = cc
write_beat_sound now b (ok node) db h = (node, refl, refl)

-- A heartbeat that succeeds comes from the node that its token opens: the node is in the verified
-- state, the request names it, carries a signature of its own document that the node's key verifies,
-- is at most 5 minutes old and 30 seconds early, and is newer than the last time recorded for the
-- node. It assigns to the rows with that node's id and changes nothing else.
pub heartbeat_sound :
    (c : Crypto) (now : ℕ) (b : Beat) (token : Option Text) (db : NodeDb)
    → (heartbeat c now b token db).0 ≡ ok tt
    → (node : Node) × (node_from_secret c token db ≡ ok node)
      × IsAttested c now b node
      × ((heartbeat c now b token db).1 ≡ set_node node.id (beat_row now b) db)
unfolding heartbeat
heartbeat_sound c now b token db h =
    let (node, passed, written) =
      write_beat_sound now b (attested_beat c now b (node_from_secret c token db)) db h in
    let (found, attested) = attested_beat_sound c now b (node_from_secret c token db) node passed in
    (node, found, attested, written)

known_node_sound :
    (c : Crypto) (o : Option Node) (node : Node)
    → known_node c o ≡ ok node
    → (o ≡ some node) × (denied (c.subject_is_denied node.user_id) ≡ ok tt)
known_node_sound c none node h = cc
known_node_sound c (some n) node h =
    let (_, d, e) = and_then_ok (denied (c.subject_is_denied n.user_id)) _ node h in
    ground (arith, d)

-- The node that a token opens, once its row has changed where the token is not read.
node_from_secret-set_node :
    (c : Crypto) (token : Option Text) (f : Node → Node) (node : Node) (db : NodeDb)
    → ((x : Node) → (f x).secret_hash ≡ x.secret_hash)
    → ((x : Node) → (f x).revoked_at ≡ x.revoked_at)
    → ((x : Node) → (f x).user_id ≡ x.user_id)
    → node_from_secret c token db ≡ ok node
    → node_from_secret c token (set_node node.id f db) ≡ ok (f node)
unfolding node_from_secret
node_from_secret-set_node c none f node db k1 k2 k3 h = cc
node_from_secret-set_node c (some []) f node db k1 k2 k3 h = cc
node_from_secret-set_node c (some (x ∷ s)) f node db k1 k2 k3 h =
    let (found, allowed) =
      known_node_sound c (scalar (opens (c.token_digest (x ∷ s))) db.nodes) node h in
    let again =
      scalar-update_found (opens (c.token_digest (x ∷ s))) (node_is node.id) f db.nodes node
        (λ y. ground (arith, k1 y, k2 y)) (==_refl node.id) found in
    ground (arith, again, k3 node, allowed)

write_beat_refused :
    (now : ℕ) (b : Beat) (r : Result Node) (db : NodeDb)
    → ((node : Node) → r ≡ ok node → ⊥)
    → (f : Fault) × (write_beat now b r db ≡ (err f, db))
write_beat_refused now b (err f) db h = (f, refl)
write_beat_refused now b (ok node) db h = absurd (h node refl)

-- Once a heartbeat has succeeded, a heartbeat with the same token and the same or an earlier time is
-- refused, whenever it is sent and whatever else it says, and changes nothing: an accepted request
-- cannot be replayed.
pub heartbeat_once :
    (c : Crypto) (now later : ℕ) (first again : Beat) (token : Option Text) (db : NodeDb)
    → (heartbeat c now first token db).0 ≡ ok tt
    → again.timestamp_ms ≤ first.timestamp_ms
    → let after = (heartbeat c now first token db).1 in
      (f : Fault) × (heartbeat c later again token after ≡ (err f, after))
heartbeat_once c now later first again token db h old =
    let (node, found, attested, written) = heartbeat_sound c now first token db h in
    let after = (heartbeat c now first token db).1 in
    let opened : node_from_secret c token after ≡ ok (beat_row now first node) = rw written (
      node_from_secret-set_node c token (beat_row now first) node db (λ x. refl) (λ x. refl)
        (λ x. refl) found) in
    unfold heartbeat in
    write_beat_refused later again (attested_beat c later again (node_from_secret c token after))
      after
      (λ n e.
        let (same, a) = attested_beat_sound c later again (node_from_secret c token after) n e in
        let is_n : beat_row now first node ≡ n = ok-injective _ n (sym opened ∙ same) in
        absurd (
          omega (
            arith,
            old,
            a.4 first.timestamp_ms (ap (λ (z : Node). z.last_attestation_timestamp_ms) (sym is_n)),
          )))
