-- ===== src/Nodes/Claims.antt =====
-- Pairing codes that are used again.
use drivebound_storage.Base.{
  ℕ, ◌≤◌, ◌≡◌, inl, inr, refl, ap, Bool, true, false, Option, none, some, List, [], ◌∷◌, Text,
  same_text, arith, Row-scalar, scalar-Row, All, All-update, Bool-cases, count, update, scalar,
  scalar_sound, scalar_unique, any_row,
}
use drivebound_storage.Base.Fault.{Fault, Result, ok, err, pairing_invalid}
use drivebound_storage.Nodes.Attestation.{Crypto}
use drivebound_storage.Nodes.{
  Pairing, NodeDb, Claim, holds_key, claimable, pairing_is, claim_pairing, pair_node, pair_allowed,
  claim_with, claim_attested, claim_node, attested_claim,
}

module _ {A : Type 0} (p : A → Bool) where
  none-scalar : (xs : List A) → All (λ x. p x ≡ false) xs → scalar p xs ≡ none
  unfolding scalar
  none-scalar [] h = refl
  none-scalar (x ∷ xs) h = ground (arith, h.0, none-scalar xs h.1)

-- A pairing that has been claimed is not claimable, and no other has its code.
claimed_not_claimable :
    (hash : Text) (now later : ℕ) (p : Pairing) (xs : List Pairing)
    → All (λ x. same_text x.code_hash hash ≡ true → x ≡ p) xs
    → scalar (claimable hash later) (update (pairing_is p.id) (claim_pairing now) xs) ≡ none
claimed_not_claimable hash now later p xs only =
    none-scalar (claimable hash later) (update (pairing_is p.id) (claim_pairing now) xs) (
      All-update _ _ (pairing_is p.id) (claim_pairing now) xs (λ x h q. ground arith)
        (λ x h q. elim (Bool-cases (same_text x.code_hash hash)) [
          | inr n ↦ ground (arith, n)
          | inl y ↦ absurd (ground (arith, ap (λ (z : Pairing). z.id) (h y)))
        ])
        only)

-- A claim that succeeds has used a code: its row was claimable and is now claimed.
abbrev Used : Text → ℕ → NodeDb → Result ℕ × NodeDb → Type 0
Used hash now db (err f, after) = Unit
Used hash now db (ok i, after) =
    (p : Pairing) × (scalar (claimable hash now) db.pairings ≡ some p)
    × (after.pairings ≡ update (pairing_is p.id) (claim_pairing now) db.pairings)

pair_node-Used :
    (c : Crypto) (now : ℕ) (claim : Claim) (key hash : Text) (p : Pairing) (db : NodeDb)
    → scalar (claimable hash now) db.pairings ≡ some p
    → Used hash now db (pair_node c now claim key p db)
unfolding pair_node
pair_node-Used c now claim key hash p db e =
    elim (Bool-cases (any_row (λ n. holds_key key n) db.nodes)) [
      | inl y ↦ rw (Used, y) tt
      | inr n ↦ rw (Used, n) (p, e, refl)
    ]

pair_allowed-Used :
    (c : Crypto) (now : ℕ) (claim : Claim) (key hash : Text) (p : Pairing) (r : Result (Unit {0}))
    (db : NodeDb)
    → scalar (claimable hash now) db.pairings ≡ some p
    → Used hash now db (pair_allowed c now claim key p r db)
unfolding pair_allowed
pair_allowed-Used c now claim key hash p (err f) db e = tt
pair_allowed-Used c now claim key hash p (ok _) db e = pair_node-Used c now claim key hash p db e

claim_with-Used :
    (c : Crypto) (now : ℕ) (claim : Claim) (key hash : Text) (o : Option Pairing) (db : NodeDb)
    → scalar (claimable hash now) db.pairings ≡ o
    → Used hash now db (claim_with c now claim key o db)
unfolding claim_with
claim_with-Used c now claim key hash none db e = tt
claim_with-Used c now claim key hash (some p) db e = pair_allowed-Used c now claim key hash p _ db e

claim_attested-Used :
    (c : Crypto) (now : ℕ) (claim : Claim) (r : Result Text) (db : NodeDb)
    → Used (c.token_digest (c.upper claim.code)) now db (claim_attested c now claim r db)
unfolding claim_attested
claim_attested-Used c now claim (err f) db = tt
claim_attested-Used c now claim (ok key) db = claim_with-Used c now claim key _ _ db refl

Used-Pairing :
    (hash : Text) (now : ℕ) (db : NodeDb) (r : Result ℕ × NodeDb) (i : ℕ)
    → r.0 ≡ ok i
    → Used hash now db r
    → (p : Pairing) × (scalar (claimable hash now) db.pairings ≡ some p)
      × (r.1.pairings ≡ update (pairing_is p.id) (claim_pairing now) db.pairings)
Used-Pairing hash now db (err f, after) i h u = cc
Used-Pairing hash now db (ok j, after) i h u = u

claim_attested_refused :
    (c : Crypto) (now : ℕ) (claim : Claim) (r : Result Text) (db : NodeDb)
    → scalar (claimable (c.token_digest (c.upper claim.code)) now) db.pairings ≡ none
    → (f : Fault) × (claim_attested c now claim r db ≡ (err f, db))
unfolding claim_attested claim_with
claim_attested_refused c now claim (err f) db e = (f, refl)
claim_attested_refused c now claim (ok key) db e = (pairing_invalid, rw e refl)

-- Where no two pairings have the hash of the code, a claim that succeeds uses the code up: a claim
-- with the same code, whenever it is made and whoever signs it, is refused and changes nothing.
pub claim_once :
    (c : Crypto) (now later i : ℕ) (claim again : Claim) (db : NodeDb)
    → count (λ p. same_text p.code_hash (c.token_digest (c.upper claim.code))) db.pairings ≤ 1
    → c.upper again.code ≡ c.upper claim.code
    → (claim_node c now claim db).0 ≡ ok i
    → let after = (claim_node c now claim db).1 in
      (f : Fault) × (claim_node c later again after ≡ (err f, after))
unfolding claim_node
claim_once c now later i claim again db one same h =
    let hash = c.token_digest (c.upper claim.code) in
    let (p, found, changed) =
      Used-Pairing hash now db (claim_node c now claim db) i h
        (claim_attested-Used c now claim (attested_claim c now claim) db) in
    let coded : same_text p.code_hash hash ≡ true =
      ground (arith, scalar_sound (claimable hash now) db.pairings p found) in
    let only =
      scalar_unique (λ x. same_text x.code_hash hash) db.pairings p one
        (scalar-Row (λ x. same_text x.code_hash hash) db.pairings p
          (Row-scalar (claimable hash now) db.pairings p found) coded one) in
    claim_attested_refused c later again (attested_claim c later again)
      (claim_node c now claim db).1
      (rw (same, changed) (claimed_not_claimable hash now later p db.pairings only))
