-- ===== src/Lib.antt =====
-- Verification of rvault, an encrypted file vault: the parts of the C program that keep its
-- promises to the user's data, modelled as functions, with theorems on them.
--
-- The program keeps each file of a vault as one encrypted object. A file object
-- (src/core/fileobj.c) holds the decrypted data in memory, loads them on first use and writes
-- them back through a temporary file. The storage (src/core/storage.c) turns data into an object
-- and back: it compresses, encrypts through the cryptographic module (src/crypto/crypto.c) and
-- lays out a header, a tag and the encrypted data. Buffers come from src/core/buffer.c. The
-- recovery file (src/core/recovery.c) holds the metadata and the keys of a vault as hexadecimal
-- text, which src/misc/utils.c prints and reads. A vault (src/core/rvault.c) is opened by its
-- metadata file: a passphrase gives a key (src/crypto/kdf.c), and, with authentication, the server
-- keeps the effective keys in an envelope under it (src/core/keyauth.c). Users reach a vault through
-- the commands of src/core/cli.c and through the file system of src/fuse/rvaultfs.c, whose paths
-- src/core/resolve.c turns into the paths of the objects.
--
-- The modules and what they model, with the source's names for functions:
--   Prelude: Boolean tests, lists, signed numbers and bytes, and their lemmas.
--   Hex: hex_write, hex_write_wrapped and hex_read_arbitrary of src/misc/utils.c. A stream is the
--     list of its characters. Hex.Lines reads printed rows, Hex.RoundTrip whole texts.
--   Recovery: src/core/recovery.c, export and import, on the text of the file.
--   Crypto: src/crypto/crypto.c on the record of src/crypto/crypto_impl.h. The engine
--     (OpenSSL, mbedTLS or libsodium) is the parameter Crypto.Ops; Crypto.Laws says what its
--     documentation promises: decryption inverts encryption, lengths, and an HMAC that does not
--     read the tag buffer. They are stated of every crypto object, also of ones that no engine
--     creates. Neither secrecy nor the strength of an HMAC is modelled.
--     Crypto.Names has the names of ciphers and the engines, Crypto.Again an encryption on what
--     another one left. Crypto.Openssl is the engine of src/crypto/openssl.c on the calls of
--     OpenSSL, the parameter Evp; Crypto.Streams has the promises on them, EvpLaws. Crypto.Mbedtls and
--     Crypto.Sodium are the engines of src/crypto/mbedtls.c and src/crypto/sodium.c.
--   Text: C strings compared and cut, with str_tokenize of src/misc/utils.c.
--   Kdf: src/crypto/kdf.c. scrypt and the times that it takes are parameters.
--   KeyAuth: src/core/keyauth.c. The server is the function KeyAuth.Http, and the
--     requests that reach it are part of what http_api_request gives.
--   Vault: src/core/rvault.c. Vault.Metadata has the layout of the metadata file, Vault.Init
--     rvault_init, Vault.Open rvault_open and rvault_open_ekey, Vault.Dirs rvault_iter_dir;
--     Vault.RoundTrip, Vault.Checks, Vault.Recover and Vault.Listing their theorems.
--   Buffer: sbuffer_t and sbuffer_move of src/core/buffer.c. Fresh memory is zero.
--   Storage: src/core/storage.h and src/core/storage.c. A file is its bytes; LZ4 is the parameter
--     Storage.Object.Lz4 with the promises Lz4Laws.
--   FileObj: src/core/fileobj.c. A state is the vault's crypto object and one file object, with
--     the bytes that its path and descriptor refer to. FileObj.Sound has the invariant,
--     FileObj.Refine the view as a byte sequence, FileObj.Durable the write-back, FileObj.Reach
--     the sequences of operations.
--     FileObj.Stat has fileobj_stat, FileObj.Flushed the write-back at a flush and at the closing.
--   Resolve: the names of files of src/core/resolve.c. Resolve.Sealed has the round trip of a
--     name, Resolve.Walk rvault_resolve_path on a stream with a position, and Resolve.Paths its
--     equivalence with a stack of names, whose invariant is in Resolve.Stack. Resolve.Plain has
--     the names that a path leads through, Resolve.Injective and Resolve.Stable compare objects.
--   Fuse: src/fuse/rvaultfs.c. The system calls on paths are the parameter Fuse.Posix, with the
--     promises Fuse.Tree.PosixLaws on what stands at an object; Fuse.Handles has the operations on
--     handles. Fuse.Tree is the tree of names that a user sees, Fuse.Changes, Fuse.Opened and
--     Fuse.Renamed what the operations make of it, Fuse.Stored the handles' data.
--   Files: fs_read and fs_write of src/sys/fs.c, on a list of the outcomes of its calls.
--   Cli: do_file_io of src/core/cli.c. Cli.Transfer has its two loops, Cli.PutGet what a file that
--     was stored prints. Cli.Options has the options, Cli.Commands the commands and main, and
--     Cli.Listed what create and ls do together.
--   Sdb: src/core/sdb.c. SQLite is the parameter Sdb.Sqlite, with the promises of
--     Sdb.Saved.SqliteLaws; Sdb.Commands has the lines of the prompt, Sdb.Prompt its loop and the
--     completion, Sdb.Session what one session leaves for the next.
--   Examples: runs on concrete inputs and the theorems applied to them.
--
-- Numbers are naturals, with the wrap-around of uint64_t and uint8_t written out where the
-- source can reach it; an offset is signed. `none`, `false` and `fail` stand for a return of -1
-- or NULL. System calls, allocations and the time are arguments (WriteEnv, ReadEnv, SyncEnv,
-- Env), so that every failure is a branch. The only fuel is that of read_blocks: the length of
-- the stream, of which each round consumes a character at least. The retries of fileobj_close
-- are counted as in the source.
--
-- Assumed throughout: one file object for each path, memory streams that do not fail, small
-- allocations that succeed where no argument says otherwise, and assertions
-- compiled out but for those of rvault_init on what the header stores in a byte, which end it.
--
-- Not modelled: Lua, the HTTP client, and rvaultfs_run, which hands the operations to the FUSE library;
-- erasing and locking of memory; the list of open objects. getopt_long, getpass and the server are
-- arguments. On the file system, hard and symbolic links inside a vault, and two handles on one
-- file, are left aside.
pub mod Prelude
pub mod Hex
pub mod Recovery
pub mod Crypto
pub mod Buffer
pub mod Storage
pub mod FileObj
pub mod Text
pub mod Kdf
pub mod KeyAuth
pub mod Vault
pub mod Resolve
pub mod Files
pub mod Cli
pub mod Fuse
pub mod Sdb
pub mod Examples
