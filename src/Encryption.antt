-- ===== src/Encryption.antt =====
-- backend/app/services/encryption.py: the format of an encrypted file, and the loops that write and
-- read it chunk by chunk. AES-GCM is a parameter. A temporary file is gone when its function
-- returns, and is left out.
pub mod RoundTrip
pub mod Frame
use drivebound_storage.Base.{
  ℕ, zero, suc, ◌+◌, ◌*◌, ◌-◌, Bool, true, false, ◌&&◌, not, Option, none, some, List, [], ◌∷◌,
  ◌++◌, ◌==◌, ltb, leb, if◌then◌else◌, length, take, same_text, starts_with, is_some, Text,
}
use drivebound_storage.Base.Fault.{
  Result, ok, err, check, and_then, Exec, pure, raise, lift, guard, ◌>>=◌, unknown_format,
  truncated_media, unauthentic_media, os_error, file_exists,
}
use drivebound_storage.Host.{Host, require_storage_path}
use drivebound_storage.Catalog.{Db}
use drivebound_storage.Catalog.References.{canonical_storage_path}

abbrev pub Bytes : Type 0
Bytes = List ℕ

-- `Cipher(algorithms.AES(key), modes.GCM(nonce))`: what an encryptor or decryptor that has been
-- given some bytes returns for the next ones, and at the end; `none` is `InvalidTag`.
pub record Gcm : Type 0 where
  pub enc_update : Bytes → Bytes → Bytes → Bytes → Bytes
  pub enc_finalize : Bytes → Bytes → Bytes → Bytes
  pub enc_tag : Bytes → Bytes → Bytes → Bytes
  pub dec_update : Bytes → Bytes → Bytes → Bytes → Bytes
  pub dec_finalize : Bytes → Bytes → Bytes → Bytes → Option Bytes

-- `b"DRIVEBOUND-ENC-V1\x00"`
abbrev pub format_magic : Bytes
format_magic =
    68 ∷ 82 ∷ 73 ∷ 86 ∷ 69 ∷ 66 ∷ 79 ∷ 85 ∷ 78 ∷ 68 ∷ 45 ∷ 69 ∷ 78 ∷ 67 ∷ 45 ∷ 86 ∷ 49 ∷ 0 ∷ []

abbrev pub nonce_size : ℕ
nonce_size = 12

abbrev pub tag_size : ℕ
tag_size = 16

abbrev pub chunk_size : ℕ
chunk_size = 4 * 1024 * 1024

abbrev pub header_size : ℕ
header_size = length format_magic + nonce_size

abbrev pub drop : ℕ → Bytes → Bytes
drop zero xs = xs
drop (suc n) [] = []
drop (suc n) (x ∷ xs) = drop n xs

-- `while chunk := input_file.read(size)`: the chunks, each at most `size` long. The fuel is the
-- length of the file, as each round reads at least one byte.
unfoldable pub chunks : ℕ → ℕ → Bytes → List Bytes
chunks zero size xs = []
chunks (suc fuel) size [] = []
chunks (suc fuel) size (x ∷ xs) = take size (x ∷ xs) ∷ chunks fuel size (drop size (x ∷ xs))

abbrev pub joined : List Bytes → Bytes
joined [] = []
joined (x ∷ xs) = x ++ joined xs

-- the writes of the encryption loop, after `seen` has been given to the encryptor
unfoldable pub encrypt_loop : Gcm → Bytes → Bytes → Bytes → List Bytes → Bytes
encrypt_loop g key nonce seen [] = g.enc_finalize key nonce seen ++ g.enc_tag key nonce seen
encrypt_loop g key nonce seen (c ∷ cs) =
    g.enc_update key nonce seen c ++ encrypt_loop g key nonce (seen ++ c) cs

-- The bytes of the encrypted file, read in chunks of at most `size`.
unfoldable pub encrypted : Gcm → ℕ → Bytes → Bytes → Bytes → Bytes
encrypted g size key nonce content =
    format_magic ++ nonce ++ encrypt_loop g key nonce [] (chunks (length content) size content)

abbrev pub finished : Option Bytes → List Bytes × Result (Unit {0})
finished none = ([], err unauthentic_media)
finished (some []) = ([], ok tt)
finished (some (b ∷ bs)) = ((b ∷ bs) ∷ [], ok tt)

-- `if plaintext: yield plaintext`
abbrev pub yielding : Bytes → List Bytes × Result (Unit {0}) → List Bytes × Result (Unit {0})
yielding [] rest = rest
yielding (b ∷ bs) (out, r) = ((b ∷ bs) ∷ out, r)

-- What the decryption loop yields, and how it ends.
unfoldable pub decrypt_loop :
    Gcm → Bytes → Bytes → Bytes → Bytes → List Bytes → List Bytes × Result (Unit {0})
decrypt_loop g key nonce tag seen [] = finished (g.dec_finalize key nonce tag seen)
decrypt_loop g key nonce tag seen (c ∷ cs) =
    yielding (g.dec_update key nonce seen c) (decrypt_loop g key nonce tag (seen ++ c) cs)

abbrev pub good_header : Bytes → Bool
good_header header = length header == header_size && starts_with format_magic header

-- the checks of the header and of the total size, and the loop
unfoldable pub decrypt_parts :
    Gcm → ℕ → Bytes → Bytes → ℕ → Bytes → Bytes → List Bytes × Result (Unit {0})
decrypt_parts g size key header total body tag =
    if not (good_header header)
    then ([], err unknown_format)
    else (if ltb total (header_size + tag_size)
        then ([], err truncated_media)
        else decrypt_loop g key (drop (length format_magic) header) tag []
            (chunks (length body) size body))

-- `iter_decrypted_chunks` on the bytes of a file; a file that does not change while it is read ends
-- no chunk early
unfoldable pub decrypted_chunks : Gcm → ℕ → Bytes → Bytes → List Bytes × Result (Unit {0})
decrypted_chunks g size key file =
    let total = length file in
    decrypt_parts g size key (take header_size file) total
      (take (total - header_size - tag_size) (drop header_size file)) (drop (total - tag_size) file)

abbrev pub whole : List Bytes × Result (Unit {0}) → Result Bytes
whole (out, r) = and_then r λ _. ok (joined out)

-- The bytes of a file; a missing file is an `OSError`.
pub read_file : Host → Text → Exec Db Bytes
read_file w path db = elim (db.files (canonical_storage_path w path)) [
  | none ↦ (err os_error, db)
  | some bytes ↦ (ok bytes, db)
]

abbrev pub put_file : Text → Bytes → Db → Db
put_file path bytes db = record db {
  files = λ q. if same_text q path then some bytes else db.files q;
}

-- `os.link(temporary, destination)`, which raises `FileExistsError`
pub publish : Host → Text → Bytes → Exec Db (Unit {0})
publish w destination bytes db =
    if is_some (db.files (canonical_storage_path w destination))
    then (err file_exists, db)
    else (ok tt, put_file (canonical_storage_path w destination) bytes db)

-- the check of the drive before each chunk and before the publication
abbrev pub checked_each : Host → Text → List Bytes → Result (Unit {0})
checked_each w destination [] = require_storage_path w destination
checked_each w destination (c ∷ cs) =
    and_then (require_storage_path w destination) λ _. checked_each w destination cs

pub encrypt_content : Host → Gcm → Bytes → Text → Bytes → Bytes → Exec Db (Unit {0})
unfolding publish
encrypt_content w g nonce destination key content =
    guard (checked_each w destination (chunks (length content) chunk_size content))
      (publish w destination (encrypted g chunk_size key nonce content))

pub encrypt_source : Host → Gcm → Bytes → Text → Text → Bytes → Exec Db (Unit {0})
unfolding read_file encrypt_content
encrypt_source w g nonce source destination key =
    read_file w source >>= encrypt_content w g nonce destination key

-- `nonce` is what `os.urandom(NONCE_SIZE)` draws.
unfoldable pub encrypt_file : Host → Gcm → Bytes → Text → Text → Bytes → Exec Db (Unit {0})
unfolding encrypt_source
encrypt_file w g nonce source destination key =
    guard (require_storage_path w source)
      (guard (require_storage_path w destination) (encrypt_source w g nonce source destination key))

-- the decryption, the check before the publication, and the publication
pub publish_decrypted : Host → Text → Result Bytes → Exec Db (Unit {0})
unfolding publish
publish_decrypted w destination r =
    lift r >>= λ content. guard (require_storage_path w destination) (publish w destination content)

pub decrypt_source : Host → Gcm → Text → Text → Bytes → Exec Db (Unit {0})
unfolding read_file publish_decrypted
decrypt_source w g source destination key = read_file w source >>= λ file.
    publish_decrypted w destination (whole (decrypted_chunks g chunk_size key file))

unfoldable pub decrypt_file : Host → Gcm → Text → Text → Bytes → Exec Db (Unit {0})
unfolding decrypt_source
decrypt_file w g source destination key =
    guard (require_storage_path w source)
      (guard (require_storage_path w destination) (decrypt_source w g source destination key))
