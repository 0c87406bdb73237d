-- ===== src/Vault/Metadata.antt =====
-- The metadata file of a vault, of src/core/storage.h and src/core/rvault.c: the header, where its
-- parts stand, its HMAC, and how the file is found and mapped.
use rvault.Prelude.{
  false, ℕ, ◌+◌, ◌%◌, Bool, not, ◌&&◌, Option, none, some, ◌∷◌, ◌++◌, ◌==◌, ltb, length, take, drop,
  get_or, replicate, guard, ◌>>=◌, ◌>>◌,
}
use rvault.Prelude.Bytes.{Bytes, equal}
use rvault.Storage.Header.{storage_align, rvault_abi_ver}
use rvault.Crypto.{Crypto, Ops, crypto_hmac}

-- RVAULT_FLAG_NOAUTH.
abbrev pub rvault_flag_noauth : ℕ
rvault_flag_noauth = 1

-- rvault_hdr_t, as read from the first bytes of the file.
abbrev pub hdr_ver : Bytes → ℕ
hdr_ver h = get_or h 0 0

abbrev pub hdr_flags : Bytes → ℕ
hdr_flags h = get_or h 1 0

abbrev pub hdr_cipher0 : Bytes → ℕ
hdr_cipher0 h = get_or h 2 0

abbrev pub hdr_hmac_id : Bytes → ℕ
hdr_hmac_id h = get_or h 4 0

abbrev pub hdr_iv0_len : Bytes → ℕ
hdr_iv0_len h = get_or h 6 0

abbrev pub hdr_iv1_len : Bytes → ℕ
hdr_iv1_len h = get_or h 7 0

abbrev pub hdr_kp_len : Bytes → ℕ
hdr_kp_len h = get_or h 8 0

abbrev pub hdr_hmac_len : Bytes → ℕ
hdr_hmac_len h = get_or h 9 0

abbrev pub hdr_uid : Bytes → Bytes
hdr_uid h = take 16 (drop 10 h)

abbrev pub uid_len : ℕ
uid_len = 16

-- RVAULT_HDR_LEN: the packed structure has 26 bytes.
abbrev pub rvault_hdr_len : ℕ
rvault_hdr_len = storage_align 26

-- RVAULT_HDR_TO_IV0, RVAULT_HDR_TO_KP and RVAULT_HDR_TO_HMAC.
abbrev pub rvault_hdr_to_iv0 : Bytes → Bytes
rvault_hdr_to_iv0 h = drop rvault_hdr_len h

abbrev pub rvault_hdr_to_kp : Bytes → Bytes
rvault_hdr_to_kp h = drop (hdr_iv0_len h + hdr_iv1_len h) (rvault_hdr_to_iv0 h)

abbrev pub rvault_hdr_to_hmac : Bytes → Bytes
rvault_hdr_to_hmac h = drop (hdr_kp_len h) (rvault_hdr_to_kp h)

-- RVAULT_HMAC_DATALEN and RVAULT_FILE_LEN.
abbrev pub rvault_hmac_datalen : Bytes → ℕ
rvault_hmac_datalen h = rvault_hdr_len + hdr_iv0_len h + hdr_iv1_len h + hdr_kp_len h

abbrev pub rvault_file_len : Bytes → ℕ
rvault_file_len h = rvault_hmac_datalen h + hdr_hmac_len h

-- What rvault_init stores in front of the HMAC; each field takes one byte.
unfoldable pub new_hdr : (flags cipher hmac_id hmac_len : ℕ) (uid iv kp : Bytes) → Bytes
new_hdr flags cipher hmac_id hmac_len uid iv kp =
    rvault_abi_ver
    ∷ flags % 256
    ∷ cipher % 256
    ∷ 0
    ∷ hmac_id % 256
    ∷ 0
    ∷ length iv % 256
    ∷ 0
    ∷ length kp % 256
    ∷ hmac_len % 256
    ∷ (uid ++ (replicate 6 0 ++ (iv ++ kp)))

-- Where the vault stands: what realpath gives, whether stat says that it is a directory, whether
-- memory suffices, the metadata file, and whether open may open or create it.
pub record Location : Type 0 where
  pub real : Option Bytes
  pub directory : Bool
  pub memory : Bool
  pub metadata : Option Bytes
  pub allowed : Bool

-- get_vault_path.
unfoldable pub get_vault_path : Location → Option Bytes
get_vault_path l = do path ← l.real; guard l.directory; some path

-- open_metadata with O_RDONLY: the normalized path and the file.
unfoldable pub open_metadata : Location → Option (Bytes × Bytes)
unfolding get_vault_path
open_metadata l = do
  path ← get_vault_path l
  guard l.memory
  file ← l.metadata
  guard l.allowed
  some (path, file)

-- open_metadata with O_CREAT and O_EXCL: the path of a file that did not exist.
unfoldable pub create_metadata : Location → Option Bytes
unfolding get_vault_path
create_metadata l = do
  path ← get_vault_path l
  guard l.memory
  elim l.metadata [ none ↦ some tt | some file ↦ none ]
  guard l.allowed
  some path

-- open_metadata_mmap: the normalized path and the file; `map_ok` is safe_mmap.
unfoldable pub open_metadata_mmap : Bool → Location → Option (Bytes × Bytes)
open_metadata_mmap map_ok l = do
  (path, file) ← open_metadata l
  guard (not (ltb (length file) rvault_hdr_len))
  guard map_ok
  some (path, file)

module _ (o : Ops) where
  -- rvault_hmac_compute.
  unfoldable pub rvault_hmac_compute : Crypto → Bytes → Option Bytes
  rvault_hmac_compute c hdr = crypto_hmac o c (take (rvault_hmac_datalen hdr) hdr)

  -- rvault_hmac_verify: whether it returns 0.
  unfoldable pub rvault_hmac_verify : Crypto → Bytes → Bool
  rvault_hmac_verify c hdr = elim (rvault_hmac_compute c hdr) [
    | none ↦ false
    | some mac ↦
        length mac == hdr_hmac_len hdr
        && equal (take (hdr_hmac_len hdr) (rvault_hdr_to_hmac hdr)) mac
  ]
