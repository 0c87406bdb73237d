-- ===== src/Storage/Layout.antt =====
-- Where the parts of an object stand, as the readers of src/core/storage.h find them.
use rvault.Prelude.{
  take-append, ◌∙◌, sym, drop-append, drop, take, append_assoc, ap₂, ap, ℕ, ◌+◌, ◌*◌, ◌/◌, ◌%◌, ◌-◌,
  ◌^◌, ◌<◌, ◌≡◌, refl, true, [], ◌++◌, arith, ◌==◌, ==_iff, length, set, replicate, length-append,
  length-replicate,
}
use rvault.Prelude.Bytes.{Bytes, passes, passes_byte}
use rvault.Storage.Header.{
  fileobj_file_len, fileobj_edata_len, FileobjHdr, fileobj_hdr, storage_align, htobe64, be64toh,
  fileobj_flags, fileobj_aetag_len, fileobj_edata_pad, fileobj_data_len, fileobj_cdata_len,
  fileobj_getmeta_len,
}
use rvault.Storage.Object.{at_data, at_aetag, padded_tag, adjusted_header}

pub be64toh-htobe64 : (n : ℕ) (rest : Bytes) → n < 2 ^ 64 → be64toh (htobe64 n ++ rest) ≡ n
be64toh-htobe64 n rest h = omega arith

-- The alignment of a length that fits a byte.
align_table : passes (λ t. storage_align t == (t + 7) / 8 * 8) 256 0 ≡ true
unfolding passes
align_table = refl

pub storage_align_small : (t : ℕ) → t < 256 → storage_align t ≡ (t + 7) / 8 * 8
storage_align_small t h =
    (==_iff _ _).0 (passes_byte (λ x. storage_align x == (x + 7) / 8 * 8) align_table t h)

getmeta_table : passes (λ t. fileobj_getmeta_len t == 32 + storage_align t) 256 0 ≡ true
unfolding passes fileobj_getmeta_len
getmeta_table = refl

pub getmeta_small : (t : ℕ) → t < 256 → fileobj_getmeta_len t ≡ 32 + storage_align t
getmeta_small t h =
    (==_iff _ _).0
      (passes_byte (λ x. fileobj_getmeta_len x == 32 + storage_align x) getmeta_table t h)

pub length-padded_tag :
    (tag : Bytes) → length tag < 256 → length (padded_tag tag) ≡ storage_align (length tag)
length-padded_tag tag h = omega (
  arith,
  storage_align_small (length tag) h,
  length-append tag (replicate (storage_align (length tag) - length tag) 0),
  length-replicate {A = ℕ} (storage_align (length tag) - length tag) 0,
)

-- A header, and anything behind it.
module _ (h : FileobjHdr) (rest : Bytes) where
  pub length-fileobj_hdr : length (fileobj_hdr h) ≡ 32
  unfolding fileobj_hdr
  length-fileobj_hdr = refl

  pub data_len-fileobj_hdr :
      h.data_len < 2 ^ 64 → fileobj_data_len (fileobj_hdr h ++ rest) ≡ h.data_len
  unfolding fileobj_hdr fileobj_data_len
  data_len-fileobj_hdr b = be64toh-htobe64 h.data_len [] b

  pub cdata_len-fileobj_hdr :
      h.cdata_len < 2 ^ 64 → fileobj_cdata_len (fileobj_hdr h ++ rest) ≡ h.cdata_len
  unfolding fileobj_hdr fileobj_cdata_len
  cdata_len-fileobj_hdr b = be64toh-htobe64 h.cdata_len [] b

  pub aetag_len-fileobj_hdr : fileobj_aetag_len (fileobj_hdr h ++ rest) ≡ h.aetag_len % 256
  unfolding fileobj_hdr
  aetag_len-fileobj_hdr = refl

  pub edata_pad-fileobj_hdr : fileobj_edata_pad (fileobj_hdr h ++ rest) ≡ h.edata_pad % 256
  unfolding fileobj_hdr
  edata_pad-fileobj_hdr = refl

  pub flags-fileobj_hdr : fileobj_flags (fileobj_hdr h ++ rest) ≡ h.flags % 256
  unfolding fileobj_hdr
  flags-fileobj_hdr = refl

  pub adjusted_header-fileobj_hdr :
      adjusted_header (fileobj_hdr h ++ rest) ≡ fileobj_hdr (record h { edata_pad = 0 })
  unfolding fileobj_hdr
  adjusted_header-fileobj_hdr = refl

pub set-fileobj_hdr :
    (h : FileobjHdr) (p : ℕ)
    → set (fileobj_hdr h) 3 (p % 256) ≡ fileobj_hdr (record h { edata_pad = p })
unfolding fileobj_hdr
set-fileobj_hdr h p = refl

-- An object: a header, a tag with its padding, and data.
abbrev pub object : FileobjHdr → Bytes → Bytes → Bytes
object h tag ct = fileobj_hdr h ++ (padded_tag tag ++ ct)

-- The header states the lengths.
module _ (h : FileobjHdr) (tag ct : Bytes) (tag_is : h.aetag_len ≡ length tag)
    (small : length tag < 256) where
  pub object_aetag_len : fileobj_aetag_len (object h tag ct) ≡ length tag
  object_aetag_len = omega (arith, aetag_len-fileobj_hdr h (padded_tag tag ++ ct))

  object_getmeta_len :
      fileobj_getmeta_len (fileobj_aetag_len (object h tag ct)) ≡ 32 + storage_align (length tag)
  object_getmeta_len = rw object_aetag_len (getmeta_small (length tag) small)

  pub at_aetag-object :
      take (fileobj_aetag_len (object h tag ct)) (at_aetag (object h tag ct)) ≡ tag
  at_aetag-object =
      ap₂ take object_aetag_len
        (drop-append 32 (fileobj_hdr h) (padded_tag tag ++ ct) (length-fileobj_hdr h []))
      ∙ ap (take (length tag))
          (append_assoc tag (replicate (storage_align (length tag) - length tag) 0) ct)
      ∙ take-append (length tag) tag (replicate (storage_align (length tag) - length tag) 0 ++ ct)
          refl

  length-meta : length (fileobj_hdr h ++ padded_tag tag) ≡ 32 + storage_align (length tag)
  length-meta = omega (
    arith,
    length-append (fileobj_hdr h) (padded_tag tag),
    length-fileobj_hdr h [],
    length-padded_tag tag small,
  )

  pub length-object : length (object h tag ct) ≡ 32 + storage_align (length tag) + length ct
  length-object = omega (
    arith,
    length-meta,
    length-append (fileobj_hdr h ++ padded_tag tag) ct,
    ap length (append_assoc (fileobj_hdr h) (padded_tag tag) ct),
  )

  pub at_data-object : at_data (object h tag ct) ≡ ct
  at_data-object =
      ap₂ drop object_getmeta_len (sym (append_assoc (fileobj_hdr h) (padded_tag tag) ct))
      ∙ drop-append (32 + storage_align (length tag)) (fileobj_hdr h ++ padded_tag tag) ct
          length-meta

  module _ (data_is : fileobj_edata_len (object h tag ct) ≡ length ct) where
    pub file_len-object :
        length (object h tag ct) < 2 ^ 64
        → fileobj_file_len (object h tag ct) ≡ length (object h tag ct)
    unfolding fileobj_file_len
    file_len-object b = omega (arith, object_getmeta_len, data_is, length-object)
