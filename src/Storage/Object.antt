-- ===== src/Storage/Object.antt =====
-- The operations of src/core/storage.c. A file is the bytes behind its descriptor; the LZ4
-- library and the outcomes of system calls and of allocations are arguments.
use rvault.Prelude.{
  ◌/◌, ◌+◌, ℕ, ◌-◌, ◌%◌, ◌≡◌, ◌<◌, ◌≤◌, Bool, true, false, not, ◌||◌, Option, none, some, ◌++◌,
  ◌==◌, ltb, if◌then◌else◌, length, take, drop, replicate, set,
}
use rvault.Prelude.Bytes.{Bytes}
use rvault.Buffer.{Sbuffer, contents}
use rvault.Crypto.{
  Crypto, Ops, crypto_set_aad, crypto_set_aetag, crypto_get_buflen, crypto_encrypt, crypto_decrypt,
}
use rvault.Storage.Header.{
  FileobjHdr, fileobj_hdr, fileobj_hdr_len, rvault_abi_ver, storage_align, fileobj_flag_lz4,
  fileobj_aetag_len, fileobj_data_len, fileobj_cdata_len, fileobj_lz4_p, fileobj_getmeta_len,
  fileobj_etarget_len, fileobj_edata_len, fileobj_file_len,
}

-- The LZ4 library: `none` is a result that the callers take for an error.
pub record Lz4 : Type 0 where
  pub max_input : ℕ
  pub compress : Bytes → Option Bytes
  pub decompress : Bytes → ℕ → Option Bytes

-- What LZ4 promises: the inverse, given room for the result, and that no result is empty.
pub record Lz4Laws (z : Lz4) : Type 0 where
  -- LZ4_MAX_INPUT_SIZE.
  pub bound : z.max_input ≤ 0x7e000000
  pub inverse : (b zb : Bytes) → z.compress b ≡ some zb → z.decompress zb (length b) ≡ some b
  -- LZ4_compressBound.
  pub length-compress :
      (b zb : Bytes) → z.compress b ≡ some zb → length zb ≤ length b + length b / 255 + 16
  pub compress-ne-nil : (b zb : Bytes) → z.compress b ≡ some zb → 0 < length zb

-- The outcomes that a write meets. `written` counts the bytes that write(2) takes before a
-- failure; a call that is to write no more than that succeeds.
pub record WriteEnv : Type 0 where
  pub alloc_ok : Bool
  pub malloc_ok : Bool
  pub seek_ok : Bool
  pub truncate_ok : Bool
  pub written : ℕ
  pub time : ℕ

-- The outcomes that a read meets; `alloc_ok` says which lengths sbuffer_alloc can map.
pub record ReadEnv : Type 0 where
  pub map_ok : Bool
  pub malloc_ok : Bool
  pub alloc_ok : ℕ → Bool

-- The part of rvault_t that the storage uses.
pub record Vault : Type 0 where
  pub compress : Bool
  pub crypto : Crypto

pub record WriteResult : Type 0 where
  pub crypto : Crypto
  pub file : Bytes
  pub ret : Option ℕ

pub record ReadResult : Type 0 where
  pub crypto : Crypto
  pub ret : Option (Sbuffer × ℕ)

-- The header that storage_new_obj sets up; `edata_pad` is to be set.
abbrev pub new_header : WriteEnv → Vault → ℕ → ℕ → FileobjHdr
new_header e v len cdata_len = record {
  ver = rvault_abi_ver;
  flags = if v.compress then fileobj_flag_lz4 else 0;
  aetag_len = v.crypto.tag_len;
  edata_pad = 0;
  data_len = len;
  cdata_len = cdata_len;
  mtime = e.time;
}

-- storage_new_obj: the header, or NULL.
unfoldable pub storage_new_obj : WriteEnv → Vault → ℕ → ℕ → Option Bytes
storage_new_obj e v len cdata_len =
    if e.malloc_ok then some (fileobj_hdr (new_header e v len cdata_len)) else none

-- The metadata area behind the header: the tag, padded with zeros.
abbrev pub padded_tag : Bytes → Bytes
padded_tag tag = tag ++ replicate (storage_align (length tag) - length tag) 0

-- storage_encrypt: the object's bytes.
unfoldable pub storage_encrypt : Ops → Crypto → Bytes → Bytes → Crypto × Option Bytes
storage_encrypt o c hdr buf =
    let (c', out) =
      crypto_encrypt o (crypto_set_aad c hdr) buf (crypto_get_buflen c (length buf)) in
    (
      c',
      elim out [
        | none ↦ none
        | some ct ↦ some (set hdr 3 ((length ct - length buf) % 256) ++ (padded_tag c'.tag ++ ct))
      ],
    )

-- lz4_compress_buf: the compressed data and their length.
abbrev pub lz4_compress_buf : Lz4 → Bool → Bytes → Option (Bytes × ℕ)
lz4_compress_buf z alloc_ok buf =
    if ltb z.max_input (length buf)
    then none
    else if not alloc_ok
    then none
    else elim (z.compress buf) [ none ↦ none | some zb ↦ some (zb, length zb) ]

-- The data to encrypt: compressed, or as they are with the length 0.
unfoldable pub compressed : Lz4 → WriteEnv → Bool → Bytes → Option (Bytes × ℕ)
compressed z e false buf = some (buf, 0)
compressed z e true buf = lz4_compress_buf z e.alloc_ok buf

-- lseek, ftruncate and fs_write.
unfoldable pub store_object : WriteEnv → Crypto → Bytes → Bytes → WriteResult
store_object e c file obj =
    if not e.seek_ok || not e.truncate_ok
    then record { crypto = c; file = file; ret = none }
    else if ltb e.written (length obj)
    then record { crypto = c; file = take e.written obj; ret = none }
    else record { crypto = c; file = obj; ret = some (length obj) }

-- storage_write_data behind the compression.
unfoldable pub write_object : Ops → WriteEnv → Vault → Bytes → ℕ → ℕ → Bytes → WriteResult
unfolding storage_new_obj storage_encrypt store_object
write_object o e v file data_len cdata_len buf = elim (storage_new_obj e v data_len cdata_len) [
  | none ↦ record { crypto = v.crypto; file = file; ret = none }
  | some hdr ↦
      let (c, obj) = storage_encrypt o v.crypto hdr buf in
      elim obj [
        | none ↦ record { crypto = c; file = file; ret = none }
        | some bytes ↦ store_object e c file bytes
      ]
]

-- The rest of storage_write_data, with what the compression gave.
unfoldable pub write_compressed :
    Ops → WriteEnv → Vault → Bytes → ℕ → Option (Bytes × ℕ) → WriteResult
write_compressed o e v file data_len none = record { crypto = v.crypto; file = file; ret = none }
write_compressed o e v file data_len (some (cbuf, cdata_len)) =
    write_object o e v file data_len cdata_len cbuf

-- storage_write_data: the crypto object and the file afterwards, and the bytes written or -1.
unfoldable pub storage_write_data : Ops → Lz4 → WriteEnv → Vault → Bytes → Bytes → WriteResult
unfolding compressed write_object write_compressed
storage_write_data o z e v file buf =
    write_compressed o e v file (length buf) (compressed z e v.compress buf)

-- storage_map_obj: whether the file passes.
unfoldable pub storage_map_obj : ReadEnv → Crypto → Bytes → Bool
storage_map_obj e c file =
    if ltb (length file) fileobj_hdr_len
    then false
    else if not e.map_ok
    then false
    else not
        (not (fileobj_file_len file == length file) || not (fileobj_aetag_len file == c.tag_len))

-- The header as it was when it was encrypted.
abbrev pub adjusted_header : Bytes → Bytes
adjusted_header file = set (take fileobj_hdr_len file) 3 0

-- The bytes at FILEOBJ_HDR_TO_AETAG and at FILEOBJ_HDR_TO_DATA, to the end of the mapping.
abbrev pub at_aetag : Bytes → Bytes
at_aetag file = drop fileobj_hdr_len file

abbrev pub at_data : Bytes → Bytes
at_data file = drop (fileobj_getmeta_len (fileobj_aetag_len file)) file

-- storage_decrypt behind the allocations: the object passed has its tag and AAD set.
unfoldable pub decrypt_object : Ops → Crypto → Bytes → ReadResult
decrypt_object o c file =
    let edata_len = fileobj_edata_len file in
    let buflen = crypto_get_buflen c edata_len in
    let (d, out) = crypto_decrypt o c (at_data file) edata_len buflen in
    elim out [
      | none ↦ record { crypto = d; ret = none }
      | some p ↦ record {
        crypto = d;
        ret =
            if fileobj_etarget_len file == length p
            then some (
              record {
                buf = some (p ++ o.residue c (take edata_len (at_data file)) (buflen - length p));
                buf_size = buflen;
              },
              length p,
            )
            else none;
      }
    ]

-- storage_decrypt. When the buffer cannot be allocated the AAD stays set.
unfoldable pub storage_decrypt : Ops → ReadEnv → Crypto → Bytes → ReadResult
unfolding decrypt_object
storage_decrypt o e c file = elim (crypto_set_aetag c (at_aetag file) (fileobj_aetag_len file)) [
  | none ↦ record { crypto = c; ret = none }
  | some c1 ↦
      if not e.malloc_ok
      then record { crypto = c1; ret = none }
      else let c2 = crypto_set_aad c1 (adjusted_header file) in
        if not (e.alloc_ok (crypto_get_buflen c2 (fileobj_edata_len file)))
        then record { crypto = c2; ret = none }
        else decrypt_object o c2 file
]

-- lz4_decompress_buf, into a buffer of the given size.
abbrev pub lz4_decompress_buf : Lz4 → Bytes → ℕ → Option Bytes
lz4_decompress_buf z inbuf buf_size = z.decompress inbuf buf_size

-- storage_decompress.
unfoldable pub storage_decompress : Lz4 → ReadEnv → Bytes → Sbuffer → Option (Sbuffer × ℕ)
storage_decompress z e file s =
    let len = fileobj_data_len file in
    if not (e.alloc_ok len)
    then none
    else elim (lz4_decompress_buf z (take (fileobj_cdata_len file) (contents s.buf)) len) [
      | none ↦ none
      | some out ↦
          if length out == len then some (record { buf = some out; buf_size = len }, len) else none
    ]

unfoldable pub decompressed : Lz4 → ReadEnv → Bytes → Option (Sbuffer × ℕ) → Option (Sbuffer × ℕ)
unfolding storage_decompress
decompressed z e file none = none
decompressed z e file (some (s, n)) =
    if fileobj_lz4_p file then storage_decompress z e file s else some (s, n)

-- storage_read_data: the buffer filled, with the length of the data, or -1.
unfoldable pub storage_read_data : Ops → Lz4 → ReadEnv → Vault → Bytes → ReadResult
unfolding storage_map_obj storage_decrypt decompressed
storage_read_data o z e v file =
    if not (storage_map_obj e v.crypto file)
    then record { crypto = v.crypto; ret = none }
    else if fileobj_edata_len file == 0
    then record { crypto = v.crypto; ret = none }
    else let r = storage_decrypt o e v.crypto file in
      record { crypto = r.crypto; ret = decompressed z e file r.ret }

-- storage_read_length.
unfoldable pub storage_read_length : Bytes → Option ℕ
storage_read_length file =
    if ltb (length file) fileobj_hdr_len then none else some (fileobj_data_len file)
