-- ===== src/Crypto/Sodium.antt =====
-- The engine of src/crypto/sodium.c. libsodium is the parameter Sodium; `none` is a call that does
-- not return 0.
use rvault.Prelude.{ℕ, Bool, not, Option, none, some, ◌==◌, if◌then◌else◌, ◌>>=◌, take}
use rvault.Prelude.Bytes.{Bytes}
use rvault.Crypto.{Crypto, Ops, Dimensions, aes_256_gcm, chacha20_poly1305, hmac_sha256}
use rvault.Crypto.Mbedtls.{aad_given}

-- The two families of AEAD functions.
pub data Aead : Type 0 where
  crypto_aead_aes256gcm crypto_aead_chacha20poly1305_ietf : Aead

pub record Sodium : Type 1 where
  pub Hmac : Type 0
  pub sodium_init : Bool
  pub aes256gcm_is_available : Bool
  pub keybytes : Aead → ℕ
  pub npubbytes : Aead → ℕ
  pub abytes : Aead → ℕ
  pub encrypt_detached : Aead → (input aad iv key : Bytes) → Option (Bytes × Bytes)
  pub decrypt_detached : Aead → (input tag aad iv key : Bytes) → Option Bytes
  pub hmacsha256_init : (key : Bytes) → Option Hmac
  pub hmacsha256_update : Hmac → Bytes → Option Hmac
  pub hmacsha256_final : Hmac → Option Bytes

-- The switch on the cipher. AES in CBC mode is not supported.
unfoldable pub sodium_aead : ℕ → Option Aead
sodium_aead c =
    if c == aes_256_gcm
    then some crypto_aead_aes256gcm
    else if c == chacha20_poly1305
    then some crypto_aead_chacha20poly1305_ietf
    else none

module _ (S : Sodium) where
  abbrev is_available : Aead → Bool
  is_available crypto_aead_aes256gcm = S.aes256gcm_is_available
  is_available crypto_aead_chacha20poly1305_ietf = Bool.true

  unfoldable pub sodium_crypto_create : ℕ → Option Dimensions
  unfolding sodium_aead
  sodium_crypto_create c = if not S.sodium_init then none else (do
    aead ← sodium_aead c
    if is_available aead
        then some (record {
          key_len = S.keybytes aead;
          iv_len = S.npubbytes aead;
          block_size = 1;
          tag_len = S.abytes aead;
        })
        else none)

  -- For another cipher, which is refused when the crypto object is created, the source ends the
  -- program.
  unfoldable pub sodium_crypto_encrypt : Crypto → Bytes → Option (Bytes × Bytes)
  unfolding sodium_aead
  sodium_crypto_encrypt c inbuf = do
    aead ← sodium_aead c.cipher
    S.encrypt_detached aead inbuf (aad_given c) c.iv c.key

  unfoldable pub sodium_crypto_decrypt : Crypto → Bytes → Option Bytes
  unfolding sodium_aead
  sodium_crypto_decrypt c inbuf = do
    aead ← sodium_aead c.cipher
    S.decrypt_detached aead inbuf (take (S.abytes aead) c.tag) (aad_given c) c.iv c.key

  unfoldable pub sha256_some : S.Hmac → Option Bytes → Option S.Hmac
  sha256_some h none = some h
  sha256_some h (some d) = S.hmacsha256_update h d

  unfoldable pub sodium_crypto_hmac : Crypto → Bytes → Option Bytes → Option Bytes
  unfolding sha256_some
  sodium_crypto_hmac c data_bytes aad =
      if c.hmac_id == hmac_sha256
      then (do
        keyed ← S.hmacsha256_init c.auth_key
        fed ← sha256_some keyed aad
        busy ← S.hmacsha256_update fed data_bytes
        S.hmacsha256_final busy)
      else none

  -- sodium_ops; `residue` is what a decryption leaves in the rest of its buffer.
  unfoldable pub sodium_ops : (residue : Crypto → Bytes → ℕ → Bytes) → Ops
  unfolding sodium_crypto_create sodium_crypto_encrypt sodium_crypto_decrypt sodium_crypto_hmac
  sodium_ops residue = record {
    create = sodium_crypto_create;
    encrypt = sodium_crypto_encrypt;
    decrypt = sodium_crypto_decrypt;
    residue = residue;
    hmac = sodium_crypto_hmac;
  }
