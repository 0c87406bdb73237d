-- ===== src/Crypto/Inverse.antt =====
-- Decryption gives back what was encrypted, for AE ciphers and for Encrypt-then-MAC.
use rvault.Prelude.{
  ap, take_all, ℕ, ◌+◌, ◌-◌, ◌≤◌, ◌<◌, ◌≡◌, refl, ◌⊎◌, inl, inr, true, false, Option, none, some,
  [], ◌∷◌, arith, length, Bool-cases, Option-cases,
}
use rvault.Prelude.Bytes.{Bytes, equal}
use rvault.Crypto.{
  take, Crypto, Ops, Laws, crypto_encrypt, crypto_decrypt, decrypted_data, crypto_setup_done_p,
  bad_length, roundup, int_max, seal,
}

pub equal_refl : (a : Bytes) → equal a a ≡ true
unfolding equal
equal_refl [] = refl
equal_refl (x ∷ a) = ground (arith, equal_refl a)

pub equal_sound : (a b : Bytes) → equal a b ≡ true → a ≡ b
unfolding equal
equal_sound [] [] h = refl
equal_sound (x ∷ a) (y ∷ b) h = ground (arith, equal_sound a b)
equal_sound [] (y ∷ b) h = cc
equal_sound (x ∷ a) [] h = cc

-- What a successful encryption has gone through.
pub record Encrypted (o : Ops) (c : Crypto) (p ct : Bytes) (c' : Crypto) : Type 0 where
  pub ready : crypto_setup_done_p c ≡ true
  pub short : length p ≤ int_max
  pub left : Bytes
  pub encrypted : o.encrypt c p ≡ some (ct, left)
  pub tag_ae : c.ae_cipher ≡ true → c'.tag ≡ left
  pub tag_mac :
      c.ae_cipher ≡ false
      → (o.hmac (record c { tag = left }) ct c.aad ≡ some c'.tag) × (length c'.tag ≡ c.tag_len)
  pub rest : c' ≡ record c { tag = c'.tag; aad = none }

abbrev not_none : Option (Bytes × Bytes) → Bytes
not_none none = []
not_none (some (out, left)) = left

pub crypto_encrypt-Encrypted :
    (o : Ops) (c : Crypto) (p ct : Bytes) (outlen : ℕ)
    → (crypto_encrypt o c p outlen).1 ≡ some ct
    → Encrypted o c p ct (crypto_encrypt o c p outlen).0
unfolding crypto_encrypt
crypto_encrypt-Encrypted o c p ct outlen h = record {
  ready = ground arith;
  short = ground arith;
  left = not_none (o.encrypt c p);
  encrypted = ground arith;
  tag_ae = λ ae. ground arith;
  tag_mac = λ ae. (ground arith, ground arith);
  rest = ground arith;
}

-- Whatever comes of an encryption, it leaves no AAD behind, and changes nothing else but the tag.
pub crypto_encrypt_frame :
    (o : Ops) (c : Crypto) (p : Bytes) (outlen : ℕ)
    → (crypto_encrypt o c p outlen).0
      ≡ record c { tag = (crypto_encrypt o c p outlen).0.tag; aad = none }
unfolding crypto_encrypt seal
crypto_encrypt_frame o c p outlen = ground arith

roundup-le : (x y : ℕ) → 0 < y → roundup x y ≤ x + y - 1
roundup-le x y h = grind arith

pub bad_length_fits :
    (c : Crypto) (n outlen : ℕ)
    → n ≤ int_max
    → 0 < c.block_size
    → n + c.block_size ≤ outlen + 1
    → bad_length c n outlen ≡ false
unfolding bad_length
bad_length_fits c n outlen h b f = ground (arith, roundup-le n c.block_size)

module _ (o : Ops) (laws : Laws o) (c : Crypto) (p ct : Bytes) where
  pub crypto_decrypt-Encrypted :
      (c' : Crypto) (outlen : ℕ)
      → Encrypted o c p ct c'
      → bad_length c (length ct) outlen ≡ false
      → decrypted_data o (record c { tag = c'.tag }) ct (length ct) outlen ≡ some p
  unfolding decrypted_data
  crypto_decrypt-Encrypted c' outlen e fits =
      rw (take_all (length ct) ct (omega arith)) (elim (Bool-cases c.ae_cipher) [
        | inl ae ↦
            ground (arith, e.ready, fits, e.tag_ae ae, laws.ae_inverse c p ct e.left ae e.encrypted)
        | inr mac ↦
            let (computed, len) = e.tag_mac mac in
            ground (
              arith,
              e.ready,
              fits,
              computed,
              len,
              laws.hmac_tag c e.left ct c.aad,
              laws.hmac_tag c c'.tag ct c.aad,
              equal_refl c'.tag,
              laws.plain_inverse c p ct e.left c'.tag mac e.encrypted,
            )
      ])

  -- What crypto_encrypt wrote, crypto_decrypt gives back, with the same keys and AAD and the tag
  -- that the encryption left, in a buffer of crypto_get_buflen, if the output is not longer than
  -- INT_MAX; and it leaves no AAD set.
  pub crypto_decrypt-crypto_encrypt :
      (outlen : ℕ)
      → (crypto_encrypt o c p outlen).1 ≡ some ct
      → 0 < c.block_size
      → length ct ≤ int_max
      → crypto_decrypt o
          (record c { tag = (crypto_encrypt o c p outlen).0.tag })
          ct
          (length ct)
          (length ct + c.block_size)
        ≡ (record c { tag = (crypto_encrypt o c p outlen).0.tag; aad = none }, some p)
  crypto_decrypt-crypto_encrypt outlen h b short =
      let d : Crypto = record c { tag = (crypto_encrypt o c p outlen).0.tag; aad = none } in
      ap (λ out. (d, out))
        (crypto_decrypt-Encrypted (crypto_encrypt o c p outlen).0 (length ct + c.block_size)
          (crypto_encrypt-Encrypted o c p ct outlen h)
          (bad_length_fits c (length ct) (length ct + c.block_size) short b (omega arith)))

-- Without an AE cipher nothing is decrypted unless the tag is the HMAC of the data and the AAD.
pub crypto_decrypt_authentic :
    (o : Ops) (c : Crypto) (inbuf p : Bytes) (inlen outlen : ℕ)
    → c.ae_cipher ≡ false
    → decrypted_data o c inbuf inlen outlen ≡ some p
    → (o.hmac c (take inlen inbuf) c.aad ≡ some c.tag) × (length c.tag ≡ c.tag_len)
unfolding decrypted_data
crypto_decrypt_authentic o c inbuf p inlen outlen ae h =
    elim (Option-cases (o.hmac c (take inlen inbuf) c.aad)) [
      | inl e ↦ ground arith
      | inr (mac, e) ↦ ground (arith, equal_sound c.tag mac)
    ]

-- With a key, an IV or an authentication key missing where it is needed, or with more than
-- INT_MAX bytes, there is no output in either direction.
crypto_refuses :
    (o : Ops) (c : Crypto) (p : Bytes) (outlen : ℕ)
    → (crypto_setup_done_p c ≡ false) ⊎ (int_max < length p)
    → ((crypto_encrypt o c p outlen).1 ≡ none) × (decrypted_data o c p (length p) outlen ≡ none)
unfolding crypto_encrypt decrypted_data
crypto_refuses o c p outlen h = (ground arith, ground arith)
