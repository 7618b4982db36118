-- ===== src/Lib.antt =====
-- Drivebound storage: the server's handling of revisions, files and synchronised folders.
--
-- The program keeps the photos and files of several accounts on drives of a household PC. A
-- catalogue in PostgreSQL has a row for each immutable revision of a file (an asset), for each copy
-- of its bytes on another drive (a replica), for each upload in progress, and for each synchronised
-- folder (a root) its items, its journal of operations and its conflicts. The parts modelled here
-- are the services that every request and background task goes through:
--
--   Host       backend/app/services/host_storage.py: the installer's manifest of drives, the markers
--              on them, the owner of the host.
--   Catalog    backend/app/models/{asset,replica,upload_session,user,storage_policy,sync,auth}.py, the
--              rows; the path validation of backend/app/services/storage.py; and, in References and
--              Unlink, the reference check and the unlink of backend/app/services/lifecycle.py.
--   Lifecycle  backend/app/services/lifecycle.py: trash, restore, rollback, and in Purge the permanent
--              deletion. Lifecycle calls Catalog.Unlink, which calls Host before it touches a drive.
--   Sync       backend/app/services/sync.py and the input of backend/app/schemas/sync.py: the push of a
--              batch, in Items the operation on one item, in Resolution the resolution of a conflict,
--              in Endpoints the requests of backend/app/api/v1/sync.py, in Paths the validation of a
--              client's path.
--              A delete that a client pushes goes through Lifecycle.trash_asset.
--   Nodes      backend/app/api/v1/nodes.py, backend/app/models/node.py and the messages of
--              backend/app/schemas/node.py: the drive nodes of an account; in Attestation,
--              backend/app/services/node_attestation.py. Its tables are a state of their own, NodeDb.
--   Media      the download header of backend/app/services/media_delivery.py.
--   Deletion   backend/app/services/account_deletion.py and backend/app/models/account_deletion.py: in
--              Lockout the request that locks an account, in Ledger the suppression ledger outside the
--              database, in Jobs the leases of workers, in Batch the work of one, which removes files
--              through Lifecycle.Purge and Catalog.Unlink, and in Sweep what is left in the folders.
--              Its state, Deletion.Rows, holds Db and the tables of sign-in and sharing. History is the
--              relation of one state to the next by any request, claim, publication or batch.
--   Encryption backend/app/services/encryption.py: the format of an encrypted file and its chunks.
--   Intake     backend/app/services/storage.py and backend/app/services/ingestion.py: in Publish the
--              commits of a staged file, in Ingestion the new asset; in Uploads the resumable sessions
--              of backend/app/api/v1/uploads.py, which store a complete file through Ingestion.
--   Base       lists as tables, texts as code points, results, and the lemmas that the parts share.
--   Tests      the theorems at a sample host and database.
--
-- A database session with the file system is one record, Db: a list of rows for each table, the
-- bytes of each file by canonical path, and the next id to be drawn in place of uuid4. A function of
-- the source is a function of the same name from the arguments, the time and the state to a result
-- and the next state. A fault keeps the state at the point where it was raised, as the session
-- does; whether the request rolls back is up to its caller. Where a function is long, its steps are
-- functions of their own, named for what they do. A query that takes at most one row is `scalar`,
-- `scalars` the list of all; an assignment to a row is `update`. Row locks and advisory locks order
-- concurrent transactions; each function is modelled as run under the locks that it takes.
-- Loops are recursion on lists but for two: the rounds of a deletion batch count down from the batch
-- size, as the range of the source does, and the chunks of a file recurse on the file's length, which
-- is enough because a chunk has a byte at least. Ids, times (in microseconds) and counters are natural
-- numbers, as Python's integers do not wrap.
--
-- What the operating system answers (`Path.resolve`, `normcase`, `is_dir`, the text of a marker,
-- whether a file can be removed), pydantic's reading of the manifest, and the settings are fields of
-- the record Host. The theorems on unlinking assume of them only that resolving a path twice is
-- resolving it once.
--
-- For Nodes, the record Crypto holds what the base64, JSON and Ed25519 libraries, the keyed hash of
-- tokens and the marker of deleted accounts answer; the round trip of an encoded key assumes of the
-- base64 library what RFC 4648 says of its digits and padding, and nothing else is assumed of them.
--
-- For Deletion, the records of its modules hold what the listing of a folder, the keyed hash and the
-- JSON of a marker, and the random letters of a token answer; the theorem on the ledger assumes that a
-- marker reads back as what was written. For Encryption, Gcm is the AES-GCM of the cryptography
-- package, as functions of the key, the nonce and the bytes seen so far, and IsGcm what its
-- documentation says: a stream in any chunks, a tag of sixteen bytes, and decryption that undoes
-- encryption. For Intake, Kit holds these, SHA-256, the wrapping of a key and the settings.
--
-- Not modelled: the other endpoints and their request parsing, the sign-in of an upload's client, the
-- upload of a whole file in one request, derived images, replication, sign-in, background tasks and
-- their queue, the desktop tools; temporary files and a write that fails half way; the columns of a
-- row that no modelled operation reads or writes; the texts of errors beyond their kind.
pub mod Base
pub mod Host
pub mod Catalog
pub mod Lifecycle
pub mod Deletion
pub mod Nodes
pub mod Media
pub mod Sync
pub mod Tests
pub mod Encryption
pub mod Intake
