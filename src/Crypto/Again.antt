-- ===== src/Crypto/Again.antt =====
-- Encryption of src/crypto/crypto.c does not depend on the tag that an earlier one left.
use rvault.Prelude.{ℕ, ◌≡◌, none, some, arith, Option-cases, inl, inr, Bool-cases}
use rvault.Prelude.Bytes.{Bytes}
use rvault.Crypto.{Crypto, Ops, Laws, crypto_encrypt, crypto_setup_done_p, bad_length, seal}

module _ (o : Ops) (laws : Laws o) where
  encrypt_none :
      (c : Crypto) (p u : Bytes) → o.encrypt c p ≡ none → o.encrypt (record c { tag = u }) p ≡ none
  encrypt_none c p u h = elim (Option-cases (o.encrypt (record c { tag = u }) p)) [
    | inl e ↦ e
    | inr ((ct, t), e) ↦
        let (t', again, same) = laws.encrypt_again (record c { tag = u }) p ct t c.tag e in
        absurd (ground arith)
  ]

  -- The output, and the tag that stands beside it, are the same with another tag left before.
  pub crypto_encrypt_again :
      (c : Crypto) (p u : Bytes) (n : ℕ)
      → ((crypto_encrypt o (record c { tag = u }) p n).1 ≡ (crypto_encrypt o c p n).1)
        × ((ct : Bytes)
            → (crypto_encrypt o c p n).1 ≡ some ct
            → (crypto_encrypt o (record c { tag = u }) p n).0.tag ≡ (crypto_encrypt o c p n).0.tag)
  unfolding crypto_encrypt seal crypto_setup_done_p bad_length
  crypto_encrypt_again c p u n = elim (Option-cases (o.encrypt c p)) [
    | inl e ↦ let again = encrypt_none c p u e in (ground arith, λ ct h. absurd (ground arith))
    | inr ((ct, t), e) ↦
        let (t', again, same) = laws.encrypt_again c p ct t u e in
        elim (Bool-cases c.ae_cipher) [
          | inl ae ↦ let eq = same ae in (ground arith, λ ct h. ground arith)
          | inr mac ↦
              let hm = laws.hmac_tag c t ct c.aad in
              let hm' = laws.hmac_tag c t' ct c.aad in (ground arith, λ ct h. ground arith)
        ]
  ]
