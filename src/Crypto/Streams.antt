-- ===== src/Crypto/Streams.antt =====
-- The engine of src/crypto/openssl.c decrypts what it encrypted. What is relied on of OpenSSL is
-- EvpLaws, call by call.
use rvault.Prelude.{
  ℕ, ◌≡◌, refl, ap, ◌∙◌, subst, Bool, true, false, Option, none, some, [], ◌++◌, if◌then◌else◌,
  arith, length, take, take_all, bind_some, Bool-cases, inl, inr,
}
use rvault.Prelude.Bytes.{Bytes}
use rvault.Crypto.{Crypto, aes_256_cbc}
use rvault.Crypto.Openssl.{
  Evp, EvpCipher, evp_aes_256_cbc, get_openssl_cipher, with_aad, tag_left, with_tag,
  openssl_crypto_encrypt, openssl_crypto_decrypt,
}

-- What the documentation says of a context: it takes the associated data first, then the input,
-- and what it gives, call after call, is the ciphertext or the plaintext of all of the input. A
-- context of a decryption does not fail on what an encryption gave.
pub record EvpLaws (E : Evp) : Type 1 where
  pub ciphertext : EvpCipher → (key iv aad p : Bytes) → Bytes
  pub tag_of : EvpCipher → (key iv aad p : Bytes) → Bytes
  -- What a context of an encryption has taken and given; and one at its end.
  pub Encrypts : E.Ctx → EvpCipher → (key iv aad taken given : Bytes) → Type 0
  pub Ended : E.Ctx → EvpCipher → (key iv aad p : Bytes) → Type 0
  pub encrypt_init_lem :
      (h : EvpCipher) (k i : Bytes) (x : E.Ctx)
      → E.encrypt_init h k i ≡ some x
      → Encrypts x h k i [] [] []
  pub encrypt_aad_lem :
      (h : EvpCipher) (k i a : Bytes) (x y : E.Ctx)
      → Encrypts x h k i [] [] []
      → E.encrypt_aad x a ≡ some y
      → Encrypts y h k i a [] []
  pub encrypt_update_lem :
      (h : EvpCipher) (k i a p out : Bytes) (x y : E.Ctx)
      → Encrypts x h k i a [] []
      → E.encrypt_update x p ≡ some (y, out)
      → Encrypts y h k i a p out
  pub encrypt_final_lem :
      (h : EvpCipher) (k i a p given out : Bytes) (x y : E.Ctx)
      → Encrypts x h k i a p given
      → E.encrypt_final x ≡ some (y, out)
      → (given ++ out ≡ ciphertext h k i a p) × Ended y h k i a p
  pub get_tag_lem :
      (h : EvpCipher) (k i a p t : Bytes) (n : ℕ) (x : E.Ctx)
      → Ended x h k i a p
      → E.get_tag x n ≡ some t
      → (t ≡ take n (tag_of h k i a p)) × (length t ≡ n)
  -- What a context of a decryption has taken and given, and the tag that it expects.
  pub Decrypts : E.Ctx → EvpCipher → (key iv aad taken given : Bytes) → Option Bytes → Type 0
  pub decrypt_init_lem :
      (h : EvpCipher) (k i : Bytes) (x : E.Ctx)
      → E.encrypt_init h k i ≡ some x
      → (y : E.Ctx) × (E.decrypt_init h k i ≡ some y) × Decrypts y h k i [] [] [] none
  pub decrypt_aad_lem :
      (h : EvpCipher) (k i a : Bytes) (x : E.Ctx)
      → Decrypts x h k i [] [] [] none
      → (y : E.Ctx) × (E.decrypt_aad x a ≡ some y) × Decrypts y h k i a [] [] none
  pub decrypt_update_lem :
      (h : EvpCipher) (k i a ct : Bytes) (x : E.Ctx)
      → Decrypts x h k i a [] [] none
      → (y : E.Ctx) × (out : Bytes) × (E.decrypt_update x ct ≡ some (y, out))
        × Decrypts y h k i a ct out none
  pub set_tag_lem :
      (h : EvpCipher) (k i a ct given t : Bytes) (n : ℕ) (w x : E.Ctx)
      → E.get_tag w n ≡ some t
      → Decrypts x h k i a ct given none
      → (y : E.Ctx) × (E.set_tag x t ≡ some y) × Decrypts y h k i a ct given (some t)
  -- The end of a decryption checks the tag, if the cipher has one.
  pub decrypt_final_tagged :
      (h : EvpCipher) (k i a p given : Bytes) (n : ℕ) (x : E.Ctx)
      → Decrypts x h k i a (ciphertext h k i a p) given (some (take n (tag_of h k i a p)))
      → (y : E.Ctx) × (out : Bytes) × (E.decrypt_final x ≡ some (y, out)) × (given ++ out ≡ p)
  pub decrypt_final_plain :
      (k i a p given : Bytes) (x : E.Ctx)
      → Decrypts x evp_aes_256_cbc k i a (ciphertext evp_aes_256_cbc k i a p) given none
      → (y : E.Ctx) × (out : Bytes) × (E.decrypt_final x ≡ some (y, out)) × (given ++ out ≡ p)

module _ (E : Evp) (laws : EvpLaws E) (c : Crypto) where
  -- The associated data that count.
  abbrev used_aad : Bytes
  used_aad = if c.ae_cipher then (elim c.aad [ none ↦ [] | some a ↦ a ]) else []

  aad_taken :
      (h : EvpCipher) (k i : Bytes) (x y : E.Ctx) (ae : Bool) (aad : Option Bytes)
      → laws.Encrypts x h k i [] [] []
      → (if ae
          then (elim aad as (λ _. Option E.Ctx) [ none ↦ some x | some a ↦ E.encrypt_aad x a ])
          else some x)
        ≡ some y
      → laws.Encrypts y h k i
          (if ae then (elim aad as (λ _. Bytes) [ none ↦ [] | some a ↦ a ]) else [])
          []
          []
  aad_taken h k i x y true none e r = subst (λ w. laws.Encrypts w h k i [] [] []) (ground arith) e
  aad_taken h k i x y true (some a) e r = laws.encrypt_aad_lem h k i a x y e r
  aad_taken h k i x y false aad e r = subst (λ w. laws.Encrypts w h k i [] [] []) (ground arith) e

  aad_back :
      (h : EvpCipher) (k i : Bytes) (x : E.Ctx) (ae : Bool) (aad : Option Bytes)
      → laws.Decrypts x h k i [] [] [] none
      → (y : E.Ctx) × ((if ae
            then (elim aad as (λ _. Option E.Ctx) [ none ↦ some x | some a ↦ E.decrypt_aad x a ])
            else some x)
          ≡ some y)
        × laws.Decrypts y h k i
            (if ae then (elim aad as (λ _. Bytes) [ none ↦ [] | some a ↦ a ]) else [])
            []
            []
            none
  aad_back h k i x true none d = (x, refl, d)
  aad_back h k i x true (some a) d = laws.decrypt_aad_lem h k i a x d
  aad_back h k i x false aad d = (x, refl, d)

  -- The steps of an encryption that succeeds.
  record Run (p ct t : Bytes) : Type 0 where
    h : EvpCipher
    x : E.Ctx
    z : E.Ctx
    chosen : get_openssl_cipher c.cipher ≡ some h
    started : E.encrypt_init h c.key c.iv ≡ some x
    whole : ct ≡ laws.ciphertext h c.key c.iv used_aad p
    ended : laws.Ended z h c.key c.iv used_aad p
    tagged : tag_left E c z ≡ some t

  encrypt-Run : (p ct t : Bytes) → openssl_crypto_encrypt E c p ≡ some (ct, t) → Run p ct t
  unfolding openssl_crypto_encrypt with_aad
  encrypt-Run p ct t r0 =
      let (h, chosen, r1) = bind_some (get_openssl_cipher c.cipher) _ (ct, t) r0 in
      let (x, started, r2) = bind_some (E.encrypt_init h c.key c.iv) _ (ct, t) r1 in
      let (y, fed, r3) = bind_some (with_aad E E.encrypt_aad c x) _ (ct, t) r2 in
      let ((w, out), updated, r4) = bind_some (E.encrypt_update y p) _ (ct, t) r3 in
      let ((z, rest), done, r5) = bind_some (E.encrypt_final w) _ (ct, t) r4 in
      let (tag, tagged, r6) = bind_some (tag_left E c z) _ (ct, t) r5 in
      let start = laws.encrypt_init_lem h c.key c.iv x started in
      let taken = aad_taken h c.key c.iv x y c.ae_cipher c.aad start fed in
      let busy = laws.encrypt_update_lem h c.key c.iv used_aad p out y w taken updated in
      let (whole, ended) = laws.encrypt_final_lem h c.key c.iv used_aad p out rest w z busy done in
      record {
        h = h;
        x = x;
        z = z;
        chosen = chosen;
        started = started;
        whole = ap {A = Bytes} (λ b. b) {x = ct} {y = out ++ rest} (ground arith) ∙ whole;
        ended = ended;
        tagged = tagged ∙ ap some {x = tag} {y = t} (ground arith);
      }

  -- The tag is given to the decryption, and its end succeeds.
  finished :
      (p ct t : Bytes) (r : Run p ct t) (w : E.Ctx) (out : Bytes)
      → (c.ae_cipher ≡ false → c.cipher ≡ aes_256_cbc)
      → laws.Decrypts w r.h c.key c.iv used_aad ct out none
      → (v : E.Ctx) × (with_tag E (record c { tag = t }) w ≡ some v)
        × (y : E.Ctx) × (rest : Bytes) × (E.decrypt_final v ≡ some (y, rest))
        × (out ++ rest ≡ p)
  unfolding tag_left with_tag get_openssl_cipher
  finished p ct t r w out cbc d = elim (Bool-cases c.ae_cipher) [
    | inl ae ↦
        let got : E.get_tag r.z c.tag_len ≡ some t = let e = r.tagged in ground arith in
        let (prefix, len) =
          laws.get_tag_lem r.h c.key c.iv used_aad p t c.tag_len r.z r.ended got in
        let (v, set, e) = laws.set_tag_lem r.h c.key c.iv used_aad ct out t c.tag_len r.z w got d in
        let cut = take_all c.tag_len t (omega arith) in
        let whole = r.whole in
        let ready =
          subst
            (λ b.
              laws.Decrypts v r.h c.key c.iv used_aad b out
                (some (take c.tag_len (laws.tag_of r.h c.key c.iv used_aad p))))
            whole (subst (λ b. laws.Decrypts v r.h c.key c.iv used_aad ct out (some b)) prefix e) in
        let (y, rest, final, same) =
          laws.decrypt_final_tagged r.h c.key c.iv used_aad p out c.tag_len v ready in
        (v, ground arith, y, rest, final, same)
    | inr plain ↦
        let is_cbc = cbc plain in
        let which : r.h ≡ evp_aes_256_cbc = let e = r.chosen in ground arith in
        let ready =
          subst
            (λ h.
              laws.Decrypts w h c.key c.iv used_aad (laws.ciphertext h c.key c.iv used_aad p) out
                none)
            which (subst (λ b. laws.Decrypts w r.h c.key c.iv used_aad b out none) r.whole d) in
        let (y, rest, final, same) = laws.decrypt_final_plain c.key c.iv used_aad p out w ready in
        (w, ground arith, y, rest, final, same)
  ]

  -- What openssl_crypto_encrypt wrote, openssl_crypto_decrypt gives back, with the tag that the
  -- encryption left and the same key, IV and associated data: for an AE cipher, and for AES in CBC
  -- mode without one.
  pub openssl_crypto_decrypt-openssl_crypto_encrypt :
      (p ct t : Bytes)
      → (c.ae_cipher ≡ false → c.cipher ≡ aes_256_cbc)
      → openssl_crypto_encrypt E c p ≡ some (ct, t)
      → openssl_crypto_decrypt E (record c { tag = t }) ct ≡ some p
  unfolding openssl_crypto_decrypt with_aad
  openssl_crypto_decrypt-openssl_crypto_encrypt p ct t cbc done =
      let r = encrypt-Run p ct t done in
      let (x, started, dx) = laws.decrypt_init_lem r.h c.key c.iv r.x r.started in
      let (y, fed, dy) = aad_back r.h c.key c.iv x c.ae_cipher c.aad dx in
      let (w, out, updated, dw) = laws.decrypt_update_lem r.h c.key c.iv used_aad ct y dy in
      let (v, tagged, u, rest, final, same) = finished p ct t r w out cbc dw in
      let chosen = r.chosen in ground arith
