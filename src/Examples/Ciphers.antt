-- ===== src/Examples/Ciphers.antt =====
-- An EVP interface for the examples: the ciphertext is the input, the tag is fixed, and the end of
-- a decryption compares it.
use rvault.Prelude.{
  zero, suc, ℕ, ◌≡◌, refl, ap, ◌∙◌, true, Option, none, some, [], ◌∷◌, ◌++◌, ◌==◌, if◌then◌else◌,
  arith, length, take, replicate, append-nil,
}
use rvault.Prelude.Bytes.{Bytes, equal}
use rvault.Crypto.{Crypto, aes_256_cbc, hmac_sha3_256}
use rvault.Crypto.Mbedtls.{Mbedtls, mbedtls_crypto_hmac}
use rvault.Crypto.Sodium.{Sodium, sodium_aead, sodium_crypto_create}
use rvault.Crypto.Inverse.{equal_refl}
use rvault.Crypto.Openssl.{Evp, openssl_crypto_encrypt, openssl_crypto_decrypt}
use rvault.Crypto.Streams.{EvpLaws, openssl_crypto_decrypt-openssl_crypto_encrypt}
use rvault.Examples.Engine.{crypto, hello}

abbrev fixed_tag : Bytes
fixed_tag = replicate 16 7

abbrev tag_checked : Option Bytes → Option (Option Bytes × Bytes)
tag_checked none = some (none, [])
tag_checked (some t) = if equal t (take (length t) fixed_tag) then some (some t, []) else none

abbrev evp : Evp
evp = record {
  Ctx = Option Bytes;
  Hmac = Bytes;
  key_length = λ h. 32;
  iv_length = λ h. 12;
  block_size = λ h. 16;
  encrypt_init = λ h k i. some none;
  encrypt_aad = λ x a. some x;
  encrypt_update = λ x p. some (x, p);
  encrypt_final = λ x. some (x, []);
  get_tag = λ x n. if n == 16 then some fixed_tag else none;
  decrypt_init = λ h k i. some none;
  decrypt_aad = λ x a. some x;
  decrypt_update = λ x ct. some (x, ct);
  set_tag = λ x t. some (some t);
  decrypt_final = tag_checked;
  hmac_init = λ k h. some k;
  hmac_update = λ x d. some (x ++ d);
  hmac_final = λ x. some (take 32 x);
}

take-length : (n : ℕ) (xs : Bytes) → take (length (take n xs)) xs ≡ take n xs
take-length zero xs = refl
take-length (suc n) [] = refl
take-length (suc n) (x ∷ xs) = ap (◌∷◌ x) (take-length n xs)

accepted : (n : ℕ) → tag_checked (some (take n fixed_tag)) ≡ some (some (take n fixed_tag), [])
accepted n = ground (arith, take-length n fixed_tag, equal_refl (take n fixed_tag))

evp-Laws : EvpLaws evp
evp-Laws = record {
  ciphertext = λ h k i a p. p;
  tag_of = λ h k i a p. fixed_tag;
  Encrypts = λ x h k i a taken given. given ≡ taken;
  Ended = λ x h k i a p. Unit;
  encrypt_init_lem = λ h k i x e. refl;
  encrypt_aad_lem = λ h k i a x y e r. refl;
  encrypt_update_lem = λ h k i a p out x y e r. ground arith;
  encrypt_final_lem = λ h k i a p given out x y e r.
      (ap (λ b. given ++ b) {x = out} {y = []} (ground arith) ∙ append-nil given ∙ e, tt);
  get_tag_lem = λ h k i a p t n x e r. (ground arith, ground arith);
  Decrypts = λ x h k i a taken given t. (given ≡ taken) × (x ≡ t);
  decrypt_init_lem = λ h k i x e. (none, refl, (refl, refl));
  decrypt_aad_lem = λ h k i a x d. (x, refl, (refl, d.1));
  decrypt_update_lem = λ h k i a ct x d. (x, ct, refl, (refl, d.1));
  set_tag_lem = λ h k i a ct given t n w x r d. (some t, refl, (d.0, refl));
  decrypt_final_tagged = λ h k i a p given n x d.
      (some (take n fixed_tag), [], ap tag_checked d.1 ∙ accepted n, append-nil given ∙ d.0);
  decrypt_final_plain = λ k i a p given x d. (none, [], ap tag_checked d.1, append-nil given ∙ d.0);
}

-- An AE cipher with associated data.
abbrev gcm : Crypto
gcm = record crypto { cipher = 2; ae_cipher = true; tag_len = 16; aad = some hello }

gcm_encrypted : openssl_crypto_encrypt evp gcm hello ≡ some (hello, fixed_tag)
unfolding openssl_crypto_encrypt
gcm_encrypted = refl

openssl_crypto_decrypt-openssl_crypto_encrypt_example :
    openssl_crypto_decrypt evp (record gcm { tag = fixed_tag }) hello ≡ some hello
openssl_crypto_decrypt-openssl_crypto_encrypt_example =
    openssl_crypto_decrypt-openssl_crypto_encrypt evp evp-Laws gcm hello hello fixed_tag
      (λ plain. absurd (ground arith)) gcm_encrypted

-- Another tag of the same length is refused.
wrong_tag : openssl_crypto_decrypt evp (record gcm { tag = replicate 16 8 }) hello ≡ none
unfolding openssl_crypto_decrypt equal
wrong_tag = refl

-- libsodium has no AES in CBC mode, and mbedTLS no SHA3-256.
no_cbc : (S : Sodium) → sodium_crypto_create S aes_256_cbc ≡ none
unfolding sodium_crypto_create sodium_aead
no_cbc S = ground arith

no_sha3 :
    (M : Mbedtls) (c : Crypto) (d : Bytes) (a : Option Bytes)
    → mbedtls_crypto_hmac M (record c { hmac_id = hmac_sha3_256 }) d a ≡ none
unfolding mbedtls_crypto_hmac
no_sha3 M c d a = refl
