-- ===== src/Storage/Header.antt =====
-- The header of an encrypted file, of src/core/storage.h, as the bytes on disk.
use Prim.Native.Nat.{bit_and}
use rvault.Prelude.{
  ℕ, ◌+◌, ◌-◌, ◌/◌, ◌%◌, ◌*◌, ◌^◌, bit_or, Bool, not, [], ◌∷◌, ◌++◌, ◌==◌, if◌then◌else◌, drop,
  replicate, get_or,
}
use rvault.Prelude.Bytes.{Bytes}
use rvault.Buffer.{size_mod}

abbrev pub rvault_abi_ver : ℕ
rvault_abi_ver = 3

-- STORAGE_ALIGN: roundup2 of utils.h to a multiple of 8, on size_t.
abbrev pub storage_align : ℕ → ℕ
storage_align x = (bit_or ((x + size_mod - 1) % size_mod) 7 + 1) % size_mod

-- htobe64 and be64toh, as eight bytes.
abbrev pub htobe64 : ℕ → Bytes
htobe64 n =
    n / 2 ^ 56 % 256
    ∷ n / 2 ^ 48 % 256
    ∷ n / 2 ^ 40 % 256
    ∷ n / 2 ^ 32 % 256
    ∷ n / 2 ^ 24 % 256
    ∷ n / 2 ^ 16 % 256
    ∷ n / 2 ^ 8 % 256
    ∷ n % 256
    ∷ []

abbrev pub be64toh : Bytes → ℕ
be64toh b =
    get_or b 0 0 * 2 ^ 56
    + get_or b 1 0 * 2 ^ 48
    + get_or b 2 0 * 2 ^ 40
    + get_or b 3 0 * 2 ^ 32
    + get_or b 4 0 * 2 ^ 24
    + get_or b 5 0 * 2 ^ 16
    + get_or b 6 0 * 2 ^ 8
    + get_or b 7 0

-- The fields of fileobj_hdr_t that storage.c sets.
pub record FileobjHdr : Type 0 where
  pub ver : ℕ
  pub flags : ℕ
  pub aetag_len : ℕ
  pub edata_pad : ℕ
  pub data_len : ℕ
  pub cdata_len : ℕ
  pub mtime : ℕ

-- FILEOBJ_HDR_LEN: the packed structure has 28 bytes.
abbrev pub fileobj_hdr_len : ℕ
fileobj_hdr_len = storage_align 28

-- The header area, its padding zeroed.
unfoldable pub fileobj_hdr : FileobjHdr → Bytes
fileobj_hdr h =
    h.ver % 256
    ∷ h.flags % 256
    ∷ h.aetag_len % 256
    ∷ h.edata_pad % 256
    ∷ (htobe64 h.data_len ++ (htobe64 h.cdata_len ++ (htobe64 h.mtime ++ replicate 4 0)))

-- The fields, read off the first bytes of a file.
abbrev pub fileobj_flags : Bytes → ℕ
fileobj_flags h = get_or h 1 0

abbrev pub fileobj_aetag_len : Bytes → ℕ
fileobj_aetag_len h = get_or h 2 0

abbrev pub fileobj_edata_pad : Bytes → ℕ
fileobj_edata_pad h = get_or h 3 0

unfoldable pub fileobj_data_len : Bytes → ℕ
fileobj_data_len h = be64toh (drop 4 h)

unfoldable pub fileobj_cdata_len : Bytes → ℕ
fileobj_cdata_len h = be64toh (drop 12 h)

abbrev pub fileobj_flag_lz4 : ℕ
fileobj_flag_lz4 = 2

-- FILEOBJ_LZ4_P.
unfoldable pub fileobj_lz4_p : Bytes → Bool
fileobj_lz4_p h = not (bit_and (fileobj_flags h) fileobj_flag_lz4 == 0)

-- FILEOBJ_GETMETA_LEN.
unfoldable pub fileobj_getmeta_len : ℕ → ℕ
fileobj_getmeta_len t = (fileobj_hdr_len + storage_align t) % size_mod

-- FILEOBJ_ETARGET_LEN, FILEOBJ_EDATA_LEN and FILEOBJ_FILE_LEN, on uint64_t.
unfoldable pub fileobj_etarget_len : Bytes → ℕ
unfolding fileobj_lz4_p fileobj_data_len fileobj_cdata_len
fileobj_etarget_len h = if fileobj_lz4_p h then fileobj_cdata_len h else fileobj_data_len h

unfoldable pub fileobj_edata_len : Bytes → ℕ
fileobj_edata_len h = (fileobj_etarget_len h + fileobj_edata_pad h) % size_mod

unfoldable pub fileobj_file_len : Bytes → ℕ
fileobj_file_len h = (fileobj_getmeta_len (fileobj_aetag_len h) + fileobj_edata_len h) % size_mod
