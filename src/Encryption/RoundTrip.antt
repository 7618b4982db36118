-- ===== src/Encryption/RoundTrip.antt =====
-- Decryption gives back what was encrypted.
use drivebound_storage.Base.{
  ℕ, zero, suc, ◌+◌, ◌-◌, ◌≤◌, ◌≡◌, refl, sym, ap, ◌∙◌, List, [], ◌∷◌, ◌++◌, length, take, arith,
  some, true, false, ltb, starts_with,
}
use mathlib.Core.List.{append_assoc, append-nil}
use drivebound_storage.Base.Fault.{Result, ok, err, ok-injective}
use drivebound_storage.Encryption.{
  Bytes, Gcm, format_magic, nonce_size, tag_size, header_size, drop, chunks, joined, encrypt_loop,
  encrypted, finished, yielding, decrypt_loop, good_header, decrypt_parts, decrypted_chunks, whole,
}

-- What AES-GCM is documented to do: it is a stream cipher whose output does not depend on how its
-- input is cut, a decryptor turns the ciphertext back, and it accepts the tag of the plaintext.
pub record IsGcm (g : Gcm) (key nonce : Bytes) (cipher plain : Bytes → Bytes) : Type 0 where
  pub cipher_starts : cipher [] ≡ []
  pub encrypts : (s c : Bytes) → cipher (s ++ c) ≡ cipher s ++ g.enc_update key nonce s c
  pub encrypted_end : (s : Bytes) → g.enc_finalize key nonce s ≡ []
  pub tag_length : (s : Bytes) → length (g.enc_tag key nonce s) ≡ tag_size
  pub plain_starts : plain [] ≡ []
  pub decrypts : (s c : Bytes) → plain (s ++ c) ≡ plain s ++ g.dec_update key nonce s c
  pub inverse : (s : Bytes) → plain (cipher s) ≡ s
  pub accepts : (s : Bytes) → g.dec_finalize key nonce (g.enc_tag key nonce s) (cipher s) ≡ some []

pub length-append : (xs ys : Bytes) → length (xs ++ ys) ≡ length xs + length ys
length-append [] ys = omega arith
length-append (x ∷ xs) ys = omega (arith, length-append xs ys)

pub take-append : (n : ℕ) (xs ys : Bytes) → length xs ≡ n → take n (xs ++ ys) ≡ xs
take-append zero [] ys e = refl
take-append zero (x ∷ xs) ys e = absurd (omega (arith, e))
take-append (suc n) [] ys e = absurd (omega (arith, e))
take-append (suc n) (x ∷ xs) ys e = ap (λ r. x ∷ r) (take-append n xs ys (omega (arith, e)))

drop-append : (n : ℕ) (xs ys : Bytes) → length xs ≡ n → drop n (xs ++ ys) ≡ ys
drop-append zero [] ys e = refl
drop-append zero (x ∷ xs) ys e = absurd (omega (arith, e))
drop-append (suc n) [] ys e = absurd (omega (arith, e))
drop-append (suc n) (x ∷ xs) ys e = drop-append n xs ys (omega (arith, e))

pub take-drop : (n : ℕ) (xs : Bytes) → take n xs ++ drop n xs ≡ xs
take-drop zero xs = refl
take-drop (suc n) [] = refl
take-drop (suc n) (x ∷ xs) = ap (λ r. x ∷ r) (take-drop n xs)

length-drop : (n : ℕ) (xs : Bytes) → length (drop n xs) ≡ length xs - n
length-drop zero xs = omega arith
length-drop (suc n) [] = omega arith
length-drop (suc n) (x ∷ xs) = omega (arith, length-drop n xs)

-- Reading in chunks misses no byte.
joined-chunks :
    (fuel size : ℕ) (xs : Bytes) → 1 ≤ size → length xs ≤ fuel → joined (chunks fuel size xs) ≡ xs
unfolding chunks
joined-chunks zero size [] pos h = refl
joined-chunks zero size (x ∷ xs) pos h = absurd (omega (arith, h))
joined-chunks (suc fuel) size [] pos h = refl
joined-chunks (suc fuel) size (x ∷ xs) pos h =
    let shorter = length-drop size (x ∷ xs) in
    ap (λ r. take size (x ∷ xs) ++ r)
      (joined-chunks fuel size (drop size (x ∷ xs)) pos (omega (arith, shorter, pos, h)))
    ∙ take-drop size (x ∷ xs)

whole-yielding :
    (x : Bytes) (d : List Bytes × Result (Unit {0})) (out : Bytes)
    → whole d ≡ ok out
    → whole (yielding x d) ≡ ok (x ++ out)
whole-yielding [] (o, r) out e = e
whole-yielding (b ∷ bs) (o, ok u) out e =
    ap (λ z. ok ((b ∷ bs) ++ z)) (ok-injective (joined o) out e)
whole-yielding (b ∷ bs) (o, err f) out e = cc

module _ (g : Gcm) (key nonce : Bytes) (cipher plain : Bytes → Bytes)
    (law : IsGcm g key nonce cipher plain) where
  encrypt_loop-cipher :
      (s : Bytes) (cs : List Bytes)
      → cipher s ++ encrypt_loop g key nonce s cs
        ≡ cipher (s ++ joined cs) ++ g.enc_tag key nonce (s ++ joined cs)
  unfolding encrypt_loop
  encrypt_loop-cipher s [] = rw (append-nil s, law.encrypted_end s) refl
  encrypt_loop-cipher s (c ∷ cs) =
      sym (
        append_assoc (cipher s) (g.enc_update key nonce s c) (encrypt_loop g key nonce (s ++ c) cs))
      ∙ ap (λ r. r ++ encrypt_loop g key nonce (s ++ c) cs) (sym (law.encrypts s c))
      ∙ encrypt_loop-cipher (s ++ c) cs
      ∙ ap (λ r. cipher r ++ g.enc_tag key nonce r) (append_assoc s c (joined cs))

  -- The encrypted file, without its loop.
  encrypted-parts :
      (size : ℕ) (content : Bytes)
      → 1 ≤ size
      → encrypted g size key nonce content
        ≡ (format_magic ++ nonce) ++ (cipher content ++ g.enc_tag key nonce content)
  unfolding encrypted
  encrypted-parts size content pos =
      let cs = chunks (length content) size content in
      let all = joined-chunks (length content) size content pos (omega arith) in
      let loop : encrypt_loop g key nonce [] cs ≡ cipher content ++ g.enc_tag key nonce content =
        sym (ap (λ r. r ++ encrypt_loop g key nonce [] cs) law.cipher_starts)
        ∙ encrypt_loop-cipher [] cs
        ∙ ap (λ r. cipher r ++ g.enc_tag key nonce r) all in
      ap (λ r. (format_magic ++ nonce) ++ r) loop

  whole_accepted :
      (tag s : Bytes)
      → g.dec_finalize key nonce tag s ≡ some []
      → whole (finished (g.dec_finalize key nonce tag s)) ≡ ok []
  whole_accepted tag s e = rw e refl

  decrypt_loop-plain :
      (tag : Bytes) (s : Bytes) (cs : List Bytes)
      → g.dec_finalize key nonce tag (s ++ joined cs) ≡ some []
      → (out : Bytes) × (whole (decrypt_loop g key nonce tag s cs) ≡ ok out)
        × (plain s ++ out ≡ plain (s ++ joined cs))
  unfolding decrypt_loop
  decrypt_loop-plain tag s [] e = (
    [],
    whole_accepted tag s (rw (sym (append-nil s)) e),
    rw (append-nil (plain s), append-nil s) refl,
  )
  decrypt_loop-plain tag s (c ∷ cs) e =
      let (out, r, same) =
        decrypt_loop-plain tag (s ++ c) cs (rw (append_assoc s c (joined cs)) e) in
      (
        g.dec_update key nonce s c ++ out,
        whole-yielding (g.dec_update key nonce s c) (decrypt_loop g key nonce tag (s ++ c) cs) out
            r,
        sym (append_assoc (plain s) (g.dec_update key nonce s c) out)
            ∙ ap (λ z. z ++ out) (sym (law.decrypts s c))
            ∙ same
            ∙ ap plain (append_assoc s c (joined cs)),
      )

  parts-content :
      (size total : ℕ) (content : Bytes)
      → 1 ≤ size
      → good_header (format_magic ++ nonce) ≡ true
      → ltb total (header_size + tag_size) ≡ false
      → whole (
          decrypt_parts g size key
            (format_magic ++ nonce)
            total
            (cipher content)
            (g.enc_tag key nonce content))
        ≡ ok content
  unfolding decrypt_parts
  parts-content size total content pos good long =
      let cs = chunks (length (cipher content)) size (cipher content) in
      let all = joined-chunks (length (cipher content)) size (cipher content) pos (omega arith) in
      let (out, r, same) =
        decrypt_loop-plain (g.enc_tag key nonce content) [] cs (rw all (law.accepts content)) in
      let found : out ≡ content =
        sym (ap (λ z. z ++ out) law.plain_starts) ∙ same ∙ ap plain all ∙ law.inverse content in
      rw (good, long) (r ∙ ap ok found)

-- Cutting a file at the header and at the tag.
file-parts :
    (g : Gcm) (size : ℕ) (key a b c : Bytes)
    → length a ≡ header_size
    → length c ≡ tag_size
    → decrypted_chunks g size key (a ++ (b ++ c))
      ≡ decrypt_parts g size key a (length (a ++ (b ++ c))) b c
unfolding decrypted_chunks
file-parts g size key a b c ha hc =
    let la = length-append a (b ++ c) in
    let lb = length-append b c in
    let short : length (a ++ (b ++ c)) - header_size - tag_size ≡ length b =
      omega (arith, la, lb, ha, hc) in
    let tail : length (a ++ (b ++ c)) - tag_size ≡ length (a ++ b) =
      omega (arith, la, lb, ha, hc, length-append a b) in
    rw
      (
        take-append header_size a (b ++ c) ha,
        drop-append header_size a (b ++ c) ha,
        short,
        take-append (length b) b c refl,
        tail,
        sym (append_assoc a b c),
        drop-append (length (a ++ b)) (a ++ b) c refl,
      )
      refl

not_less : (a b : ℕ) → b ≤ a → ltb a b ≡ false
not_less a b h = ground (arith, h)

magic-good_header :
    (nonce : Bytes) → length nonce ≡ nonce_size → good_header (format_magic ++ nonce) ≡ true
unfolding starts_with
magic-good_header nonce e = ground (arith, e)

-- Where AES-GCM does what it is documented to do, the bytes that an encryption writes decrypt to
-- what was encrypted, whatever the sizes of the chunks that the two read, with no more and no less.
pub decrypted-encrypted :
    (g : Gcm) (size other : ℕ) (key nonce content : Bytes) (cipher plain : Bytes → Bytes)
    → IsGcm g key nonce cipher plain
    → 1 ≤ size
    → 1 ≤ other
    → length nonce ≡ nonce_size
    → whole (decrypted_chunks g other key (encrypted g size key nonce content)) ≡ ok content
decrypted-encrypted g size other key nonce content cipher plain law pos also sized =
    let tag = g.enc_tag key nonce content in
    let header = format_magic ++ nonce in
    let file = header ++ (cipher content ++ tag) in
    let head : length header ≡ header_size =
      length-append format_magic nonce ∙ ap (λ n. length format_magic + n) sized in
    let total = length-append header (cipher content ++ tag) in
    let rest = length-append (cipher content) tag in
    let long : ltb (length file) (header_size + tag_size) ≡ false =
      not_less (length file) (header_size + tag_size)
        (omega (arith, total, head, rest, law.tag_length content)) in
    ap whole (
      ap (decrypted_chunks g other key)
        (encrypted-parts g key nonce cipher plain law size content pos)
      ∙ file-parts g other key header (cipher content) tag head (law.tag_length content))
    ∙ parts-content g key nonce cipher plain law other (length file) content also
        (magic-good_header nonce sized) long
