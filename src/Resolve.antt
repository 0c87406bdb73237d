-- ===== src/Resolve.antt =====
-- Names in a vault, of src/core/resolve.c: a path component is printed as the prefix `RV:`, its
-- encryption and the tag in hexadecimal, with a colon between. The component is a list of
-- characters and the stdio stream does not fail.
pub mod RoundTrip
pub mod Sealed
pub mod Walk
pub mod Stack
pub mod Paths
pub mod Plain
pub mod Injective
pub mod Stable
use rvault.Prelude.{
  ℕ, ◌+◌, Bool, true, false, not, Option, none, some, [], ◌∷◌, ◌++◌, ◌==◌, ltb, if◌then◌else◌,
  length, take, drop,
}
use rvault.Prelude.Bytes.{Bytes, codes, equal}
use rvault.Hex.{hex_write, hex_read_arbitrary}
use rvault.Crypto.{Crypto, Ops, crypto_encrypt, crypto_decrypt, crypto_set_aetag, crypto_get_buflen}

-- RVAULT_FOBJ_PREF.
abbrev pub rvault_fobj_pref : Bytes
rvault_fobj_pref = codes "RV:"

-- strchr(hex, ':'): the text up to the colon and with it, and the text from the colon on.
unfoldable pub split_colon : Bytes → Option (Bytes × Bytes)
split_colon [] = none
split_colon (c ∷ cs) =
    let rest = split_colon cs in
    if c == b':'
    then some (c ∷ [], c ∷ cs)
    else elim rest [ none ↦ none | some (enc, tag) ↦ some (c ∷ enc, tag) ]

-- rvault_unhex_aedata: the data and the tag.
unfoldable pub rvault_unhex_aedata : Bytes → Option (Bytes × Bytes)
unfolding split_colon hex_read_arbitrary
rvault_unhex_aedata hex = elim (split_colon hex) [
  | none ↦ none
  | some (enc, tag) ↦ some (hex_read_arbitrary enc, hex_read_arbitrary tag)
]

-- The size of the buffer of get_path_component, PATH_MAX + 1.
abbrev pub component_size : ℕ
component_size = 4097

module _ (o : Ops) where
  -- get_path_component: the crypto object afterwards, and the characters printed or -1.
  unfoldable pub get_path_component : Crypto → Bytes → Crypto × Option Bytes
  get_path_component c pc =
      if ltb component_size (crypto_get_buflen c (length pc))
      then (c, none)
      else let (d, out) = crypto_encrypt o c pc component_size in
        elim out [
          | none ↦ (d, none)
          | some ct ↦ (d, some (rvault_fobj_pref ++ (hex_write ct ++ (b':' ∷ hex_write d.tag))))
        ]

  -- rvault_resolve_vname behind the hexadecimal text; `malloc_ok` is the buffer for the name.
  unfoldable pub decrypt_name : Bool → Crypto → Bytes → Bytes → Crypto × Option Bytes
  decrypt_name malloc_ok c enc tag = elim (crypto_set_aetag c tag (length tag)) [
    | none ↦ (c, none)
    | some d ↦
        if not malloc_ok
        then (d, none)
        else crypto_decrypt o d enc (length enc) (crypto_get_buflen d (length enc))
  ]

  -- rvault_resolve_vname: the name or NULL.
  unfoldable pub rvault_resolve_vname : Bool → Crypto → Bytes → Crypto × Option Bytes
  rvault_resolve_vname malloc_ok c vname =
      if not (equal (take 3 vname) rvault_fobj_pref)
      then (c, none)
      else elim (rvault_unhex_aedata (drop 3 vname)) [
        | none ↦ (c, none)
        | some (enc, tag) ↦ decrypt_name malloc_ok c enc tag
      ]
