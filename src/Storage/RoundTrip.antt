-- ===== src/Storage/RoundTrip.antt =====
-- Reading back what was written.
use rvault.Prelude.{
  Bool-cases, ℕ, ◌+◌, ◌-◌, ◌^◌, ◌≤◌, ◌<◌, ◌≡◌, refl, sym, ap, ◌∙◌, inl, inr, true, Option, some,
  ◌++◌, arith, length, take, take-append, Option-cases,
}
use rvault.Prelude.Bytes.{Bytes}
use rvault.Buffer.{Sbuffer, contents}
use rvault.Crypto.{
  Crypto, Ops, Laws, crypto_set_aad, crypto_set_aetag, crypto_get_buflen, crypto_encrypt,
  decrypted_data, int_max,
}
use rvault.Crypto.Inverse.{
  Encrypted, crypto_encrypt-Encrypted, crypto_decrypt-Encrypted, bad_length_fits,
}
use rvault.Storage.Header.{
  storage_align, FileobjHdr, fileobj_hdr, fileobj_edata_len, fileobj_etarget_len, fileobj_aetag_len,
  fileobj_file_len,
}
use rvault.Storage.Object.{
  at_aetag, at_data, padded_tag, adjusted_header, storage_encrypt, storage_decrypt, storage_map_obj,
  decrypt_object, ReadEnv,
}
use rvault.Storage.Layout.{
  edata_pad-fileobj_hdr, storage_align_small, object, set-fileobj_hdr, adjusted_header-fileobj_hdr,
  at_aetag-object, at_data-object, file_len-object, length-object, object_aetag_len,
}

-- Lengths of a crypto object that the format can hold.
pub record IsUsable (c : Crypto) : Type 0 where
  pub block_pos : 0 < c.block_size
  pub block_small : c.block_size < 256
  pub tag_small : c.tag_len < 256

-- The reader can map the file and allocate.
pub record CanRead (e : ReadEnv) : Type 0 where
  pub map_ok : e.map_ok ≡ true
  pub malloc_ok : e.malloc_ok ≡ true
  pub alloc_ok : (n : ℕ) → n ≤ 2 ^ 32 → e.alloc_ok n ≡ true

-- A crypto object with the same keys.
abbrev pub with_tag_aad : Crypto → Bytes → Option Bytes → Crypto
with_tag_aad c tag aad = record c { tag = tag; aad = aad }

-- The two stages of storage_decrypt when nothing fails.
decrypt_object-some :
    (o : Ops) (d : Crypto) (file p : Bytes)
    → decrypted_data o d
        (at_data file)
        (fileobj_edata_len file)
        (crypto_get_buflen d (fileobj_edata_len file))
      ≡ some p
    → fileobj_etarget_len file ≡ length p
    → (s : Sbuffer) × ((decrypt_object o d file).ret ≡ some (s, length p))
      × (take (length p) (contents s.buf) ≡ p)
unfolding decrypt_object
decrypt_object-some o d file p e t =
    let buflen = crypto_get_buflen d (fileobj_edata_len file) in
    let rest = o.residue d (take (fileobj_edata_len file) (at_data file)) (buflen - length p) in
    (
      record { buf = some (p ++ rest); buf_size = buflen },
      ground arith,
      take-append (length p) p rest refl,
    )

storage_decrypt-ready :
    (o : Ops) (e : ReadEnv) (d d1 : Crypto) (file : Bytes)
    → crypto_set_aetag d (at_aetag file) (fileobj_aetag_len file) ≡ some d1
    → e.malloc_ok ≡ true
    → e.alloc_ok (crypto_get_buflen d1 (fileobj_edata_len file)) ≡ true
    → storage_decrypt o e d file ≡ decrypt_object o (crypto_set_aad d1 (adjusted_header file)) file
unfolding storage_decrypt
storage_decrypt-ready o e d d1 file t m a = ground arith

set_aetag_fits :
    (d : Crypto) (tag : Bytes) (len : ℕ)
    → len ≡ d.tag_len
    → crypto_set_aetag d tag len ≡ some (record d { tag = take len tag })
unfolding crypto_set_aetag
set_aetag_fits d tag len h = ground arith

map_obj_passes :
    (e : ReadEnv) (d : Crypto) (file : Bytes)
    → 32 ≤ length file
    → e.map_ok ≡ true
    → fileobj_file_len file ≡ length file
    → fileobj_aetag_len file ≡ d.tag_len
    → storage_map_obj e d file ≡ true
unfolding storage_map_obj
map_obj_passes e d file l m f t = ground arith

module _ (o : Ops) (laws : Laws o) (c : Crypto) (usable : IsUsable c) (h : FileobjHdr)
    (buf : Bytes) where
  -- The tag that the encryption leaves has the length that it should have.
  length-tag-Encrypted :
      {ct : Bytes} {c' : Crypto}
      → Encrypted o (crypto_set_aad c (fileobj_hdr h)) buf ct c'
      → length c'.tag ≡ c.tag_len
  length-tag-Encrypted {ct} {c'} e = elim (Bool-cases c.ae_cipher) [
    | inl ae ↦
        ap length (e.tag_ae ae)
        ∙ laws.length-tag (crypto_set_aad c (fileobj_hdr h)) buf ct e.left ae e.encrypted
    | inr mac ↦ (e.tag_mac mac).1
  ]

  abbrev pub sealed : Bytes → Bytes → Bytes
  sealed tag ct = object (record h { edata_pad = length ct - length buf }) tag ct

  pub storage_encrypt-sealed :
      (obj : Bytes)
      → (storage_encrypt o c (fileobj_hdr h) buf).1 ≡ some obj
      → (ct : Bytes) × (obj ≡ sealed (storage_encrypt o c (fileobj_hdr h) buf).0.tag ct)
        × Encrypted o
            (crypto_set_aad c (fileobj_hdr h))
            buf
            ct
            (storage_encrypt o c (fileobj_hdr h) buf).0
  unfolding storage_encrypt
  storage_encrypt-sealed obj e =
      elim (Option-cases
        (crypto_encrypt o (crypto_set_aad c (fileobj_hdr h)) buf
          (crypto_get_buflen c (length buf))).1) [
            | inl q ↦ absurd (ground arith)
            | inr (ct, q) ↦ (
              ct,
              ground (arith, set-fileobj_hdr h (length ct - length buf)),
              crypto_encrypt-Encrypted o (crypto_set_aad c (fileobj_hdr h)) buf ct
                  (crypto_get_buflen c (length buf)) q,
            )
          ]

  -- The encrypted object is decrypted with the same keys, whatever tag and AAD were set last.
  module _ (plain : h.edata_pad ≡ 0) (tag_is : h.aetag_len ≡ c.tag_len) {ct : Bytes} {c' : Crypto}
      (enc : Encrypted o (crypto_set_aad c (fileobj_hdr h)) buf ct c') (short : length ct ≤ int_max)
      (target : fileobj_etarget_len (sealed c'.tag ct) ≡ length buf) (e : ReadEnv)
      (can : CanRead e) where
    padded : (length buf ≤ length ct) × (length ct ≤ length buf + c.block_size)
    padded = laws.length-encrypt (crypto_set_aad c (fileobj_hdr h)) buf ct enc.left enc.encrypted

    sealed_tag : h.aetag_len ≡ length c'.tag
    sealed_tag = tag_is ∙ sym (length-tag-Encrypted enc)

    sealed_small : length c'.tag < 256
    sealed_small = omega (arith, length-tag-Encrypted enc, usable.tag_small)

    pub edata_len-sealed : fileobj_edata_len (sealed c'.tag ct) ≡ length ct
    unfolding fileobj_edata_len
    edata_len-sealed = omega (
      arith,
      target,
      edata_pad-fileobj_hdr (record h { edata_pad = length ct - length buf })
          (padded_tag c'.tag ++ ct),
      padded.0,
      padded.1,
      usable.block_small,
    )

    abbrev tag_in : Bytes → Bytes
    tag_in file = take (fileobj_aetag_len file) (at_aetag file)

    stored_tag-sealed : tag_in (sealed c'.tag ct) ≡ c'.tag
    stored_tag-sealed =
        at_aetag-object (record h { edata_pad = length ct - length buf }) c'.tag ct sealed_tag
          sealed_small

    at_data-sealed : at_data (sealed c'.tag ct) ≡ ct
    at_data-sealed =
        at_data-object (record h { edata_pad = length ct - length buf }) c'.tag ct sealed_tag
          sealed_small

    adjusted_header-sealed : adjusted_header (sealed c'.tag ct) ≡ fileobj_hdr h
    adjusted_header-sealed =
        adjusted_header-fileobj_hdr (record h { edata_pad = length ct - length buf })
          (padded_tag c'.tag ++ ct)
        ∙ ap (λ p. fileobj_hdr (record h { edata_pad = p })) (sym plain)

    pub length-sealed : length (sealed c'.tag ct) ≡ 32 + storage_align (length c'.tag) + length ct
    length-sealed =
        length-object (record h { edata_pad = length ct - length buf }) c'.tag ct sealed_tag
          sealed_small

    buflen-sealed :
        crypto_get_buflen c (fileobj_edata_len (sealed c'.tag ct)) ≡ length ct + c.block_size
    buflen-sealed = omega (arith, edata_len-sealed, usable.block_small)

    module _ (t : Bytes) (a : Option Bytes) where
      abbrev reader : Crypto
      reader = with_tag_aad c t a

      pub map_obj-sealed : storage_map_obj e reader (sealed c'.tag ct) ≡ true
      map_obj-sealed =
          map_obj_passes e reader (sealed c'.tag ct) (omega (arith, length-sealed)) can.map_ok
            (file_len-object (record h { edata_pad = length ct - length buf }) c'.tag ct sealed_tag
              sealed_small edata_len-sealed
              (omega (
                arith,
                length-sealed,
                storage_align_small (length c'.tag) sealed_small,
                sealed_small,
              )))
            (object_aetag_len (record h { edata_pad = length ct - length buf }) c'.tag ct sealed_tag
                sealed_small
              ∙ length-tag-Encrypted enc)

      decrypt-sealed :
          decrypted_data o
            (crypto_set_aad
              (record reader { tag = tag_in (sealed c'.tag ct) })
              (adjusted_header (sealed c'.tag ct)))
            (at_data (sealed c'.tag ct))
            (fileobj_edata_len (sealed c'.tag ct))
            (crypto_get_buflen c (fileobj_edata_len (sealed c'.tag ct)))
          ≡ some buf
      decrypt-sealed =
          (λ i.
            decrypted_data o
              (crypto_set_aad (record c { tag = stored_tag-sealed i }) (adjusted_header-sealed i))
              (at_data-sealed i) (edata_len-sealed i) (buflen-sealed i))
          ∙ crypto_decrypt-Encrypted o laws (crypto_set_aad c (fileobj_hdr h)) buf ct c'
              (length ct + c.block_size) enc
              (bad_length_fits (crypto_set_aad c (fileobj_hdr h)) (length ct)
                (length ct + c.block_size) short usable.block_pos (omega arith))

      pub storage_decrypt-sealed :
          (s : Sbuffer) × ((storage_decrypt o e reader (sealed c'.tag ct)).ret
            ≡ some (s, length buf))
          × (take (length buf) (contents s.buf) ≡ buf)
      storage_decrypt-sealed =
          let file = sealed c'.tag ct in
          let d1 = record reader { tag = tag_in file } in
          rw
            (storage_decrypt-ready o e reader d1 file
              (set_aetag_fits reader (at_aetag file) (fileobj_aetag_len file) (
                object_aetag_len (record h { edata_pad = length ct - length buf }) c'.tag ct
                  sealed_tag sealed_small
                ∙ length-tag-Encrypted enc))
              can.malloc_ok
              (can.alloc_ok (crypto_get_buflen c (fileobj_edata_len file))
                (omega (arith, buflen-sealed, usable.block_small))))
            (decrypt_object-some o (crypto_set_aad d1 (adjusted_header file)) file buf
              decrypt-sealed target)
