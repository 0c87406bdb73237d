-- ===== src/Resolve/Sealed.antt =====
-- A sealed text, of src/core/resolve.c and src/core/keyauth.c: the ciphertext and the tag that
-- an encryption left, in hexadecimal. Taken apart and decrypted, it gives the plaintext.
use rvault.Prelude.{
  Option-cases, true, ℕ, ◌+◌, ◌≤◌, ◌<◌, ◌≡◌, inl, inr, some, ◌∷◌, ◌++◌, arith, length, Bool-cases,
  subst, sym, take_all, ap, ◌∙◌,
}
use rvault.Prelude.Bytes.{equal, Bytes, AreBytes}
use rvault.Hex.{hex_write}
use rvault.Crypto.{
  Crypto, Ops, Laws, crypto_encrypt, decrypted_data, crypto_set_aetag, crypto_get_buflen,
}
use rvault.Crypto.Inverse.{crypto_encrypt-Encrypted, crypto_decrypt-crypto_encrypt}
use rvault.Resolve.{
  component_size, rvault_fobj_pref, decrypt_name, rvault_resolve_vname, get_path_component,
  rvault_unhex_aedata,
}
use rvault.Resolve.RoundTrip.{rvault_unhex_aedata-hex_write}

-- The text of a ciphertext and a tag.
abbrev pub sealed : Bytes → Bytes → Bytes
sealed ct tag = hex_write ct ++ (b':' ∷ hex_write tag)

-- What the texts rest on: a padded plaintext of at most 511 bytes, and a tag no longer.
pub record IsShort (c : Crypto) (p : Bytes) : Type 0 where
  pub block_pos : 0 < c.block_size
  pub tag_small : c.tag_len ≤ 511
  pub text_small : length p + c.block_size ≤ 511
  pub plain : AreBytes p

module _ (o : Ops) (laws : Laws o) (c : Crypto) (p ct : Bytes) (outlen : ℕ) (short : IsShort c p)
    (h : (crypto_encrypt o c p outlen).1 ≡ some ct) where
  ct_small : length ct ≤ 511
  ct_small =
      let e = crypto_encrypt-Encrypted o c p ct outlen h in
      omega (arith, laws.length-encrypt c p ct e.left e.encrypted, short.text_small)

  abbrev tag_left : Bytes
  tag_left = (crypto_encrypt o c p outlen).0.tag

  pub length-tag_left : length (crypto_encrypt o c p outlen).0.tag ≡ c.tag_len
  length-tag_left =
      let e = crypto_encrypt-Encrypted o c p ct outlen h in
      elim (Bool-cases c.ae_cipher) [
        | inl ae ↦ ap length (e.tag_ae ae) ∙ laws.length-tag c p ct e.left ae e.encrypted
        | inr mac ↦ (e.tag_mac mac).1
      ]

  tag_left-AreBytes : AreBytes tag_left
  tag_left-AreBytes =
      let e = crypto_encrypt-Encrypted o c p ct outlen h in
      elim (Bool-cases c.ae_cipher) [
        | inl ae ↦
            subst AreBytes (sym (e.tag_ae ae))
              ((laws.encrypt-AreBytes c p ct e.left short.plain e.encrypted).1 ae)
        | inr mac ↦
            laws.hmac-AreBytes (record c { tag = e.left }) ct c.aad tag_left (e.tag_mac mac).0
      ]

  pub unhex-sealed :
      rvault_unhex_aedata (sealed ct (crypto_encrypt o c p outlen).0.tag)
      ≡ some (ct, (crypto_encrypt o c p outlen).0.tag)
  unhex-sealed =
      let e = crypto_encrypt-Encrypted o c p ct outlen h in
      rvault_unhex_aedata-hex_write ct tag_left
        (laws.encrypt-AreBytes c p ct e.left short.plain e.encrypted).0 tag_left-AreBytes ct_small
        (omega (arith, length-tag_left, short.tag_small))

  pub set_aetag-sealed :
      (u : Bytes)
      → crypto_set_aetag
          (record c { tag = u })
          (crypto_encrypt o c p outlen).0.tag
          (length (crypto_encrypt o c p outlen).0.tag)
        ≡ some (record c { tag = (crypto_encrypt o c p outlen).0.tag })
  unfolding crypto_set_aetag
  set_aetag-sealed u =
      ground (arith, length-tag_left, take_all (length tag_left) tag_left (omega arith))

  pub decrypt-sealed :
      decrypted_data o
        (record c { tag = (crypto_encrypt o c p outlen).0.tag })
        ct
        (length ct)
        (crypto_get_buflen c (length ct))
      ≡ some p
  decrypt-sealed =
      subst (λ n. decrypted_data o (record c { tag = tag_left }) ct (length ct) n ≡ some p)
        {x = length ct + c.block_size} {y = crypto_get_buflen c (length ct)}
        (omega (arith, ct_small, short.text_small))
        (ap (λ r. r.1)
          (crypto_decrypt-crypto_encrypt o laws c p ct outlen h short.block_pos
            (omega (arith, ct_small))))

  resolve-sealed :
      (u : Bytes)
      → (rvault_resolve_vname o true
          (record c { tag = u })
          (rvault_fobj_pref ++ sealed ct (crypto_encrypt o c p outlen).0.tag)).1
        ≡ some p
  unfolding equal rvault_resolve_vname decrypt_name
  resolve-sealed u =
      rw (rvault_resolve_vname, unhex-sealed, decrypt_name, set_aetag-sealed u) decrypt-sealed

pub printed :
    (o : Ops) (c : Crypto) (pc vname ct : Bytes)
    → (crypto_encrypt o c pc component_size).1 ≡ some ct
    → (get_path_component o c pc).1 ≡ some vname
    → rvault_fobj_pref ++ sealed ct (crypto_encrypt o c pc component_size).0.tag ≡ vname
unfolding get_path_component
printed o c pc vname ct e h = ground arith

-- A name in the vault resolves to the component that it was made of, in a crypto object with the
-- same keys, whatever tag was left in it, if the component with its padding has at most 511 bytes
-- and none of them is more than a byte.
pub rvault_resolve_vname-get_path_component :
    (o : Ops) (laws : Laws o) (c : Crypto) (pc vname u : Bytes)
    → IsShort c pc
    → (get_path_component o c pc).1 ≡ some vname
    → (rvault_resolve_vname o true (record c { tag = u }) vname).1 ≡ some pc
unfolding get_path_component
rvault_resolve_vname-get_path_component o laws c pc vname u short h =
    elim (Option-cases (crypto_encrypt o c pc component_size).1) [
      | inl e ↦ absurd (ground arith)
      | inr (ct, e) ↦
          subst (λ v. (rvault_resolve_vname o true (record c { tag = u }) v).1 ≡ some pc)
            (printed o c pc vname ct e h) (resolve-sealed o laws c pc ct component_size short e u)
    ]
