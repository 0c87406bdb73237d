-- ===== src/Crypto/Openssl.antt =====
-- The engine of src/crypto/openssl.c. OpenSSL's EVP and HMAC interfaces are the parameter Evp;
-- `none` is a call that does not return 1, and a context that cannot be allocated.
use rvault.Prelude.{ℕ, ◌||◌, Option, none, some, ◌++◌, ◌==◌, if◌then◌else◌, ◌>>=◌, take}
use rvault.Prelude.Bytes.{Bytes}
use rvault.Crypto.{
  Crypto, Ops, Dimensions, aes_256_cbc, aes_256_gcm, chacha20_poly1305, hmac_sha256, hmac_sha3_256,
}

-- EVP_CIPHER and EVP_MD.
pub data EvpCipher : Type 0 where
  evp_aes_256_cbc evp_aes_256_gcm evp_chacha20_poly1305 : EvpCipher

pub data EvpMd : Type 0 where
  evp_sha256 evp_sha3_256 : EvpMd

-- The calls. An initialization also allocates the context; an update with no output buffer is one
-- of the associated data.
pub record Evp : Type 1 where
  pub Ctx : Type 0
  pub Hmac : Type 0
  pub key_length : EvpCipher → ℕ
  pub iv_length : EvpCipher → ℕ
  pub block_size : EvpCipher → ℕ
  pub encrypt_init : EvpCipher → (key iv : Bytes) → Option Ctx
  pub encrypt_aad : Ctx → Bytes → Option Ctx
  pub encrypt_update : Ctx → Bytes → Option (Ctx × Bytes)
  pub encrypt_final : Ctx → Option (Ctx × Bytes)
  pub get_tag : Ctx → ℕ → Option Bytes
  pub decrypt_init : EvpCipher → (key iv : Bytes) → Option Ctx
  pub decrypt_aad : Ctx → Bytes → Option Ctx
  pub decrypt_update : Ctx → Bytes → Option (Ctx × Bytes)
  pub set_tag : Ctx → Bytes → Option Ctx
  pub decrypt_final : Ctx → Option (Ctx × Bytes)
  pub hmac_init : (key : Bytes) → EvpMd → Option Hmac
  pub hmac_update : Hmac → Bytes → Option Hmac
  pub hmac_final : Hmac → Option Bytes

unfoldable pub get_openssl_cipher : ℕ → Option EvpCipher
get_openssl_cipher c =
    if c == aes_256_cbc
    then some evp_aes_256_cbc
    else if c == aes_256_gcm
    then some evp_aes_256_gcm
    else if c == chacha20_poly1305
    then some evp_chacha20_poly1305
    else none

unfoldable pub get_openssl_md : ℕ → Option EvpMd
get_openssl_md h =
    if h == hmac_sha256
    then some evp_sha256
    else if h == hmac_sha3_256
    then some evp_sha3_256
    else none

module _ (E : Evp) where
  unfoldable pub openssl_crypto_create : ℕ → Option Dimensions
  unfolding get_openssl_cipher
  openssl_crypto_create c = do
    cipher ← get_openssl_cipher c
    some (record {
      key_len = E.key_length cipher;
      iv_len = E.iv_length cipher;
      block_size = E.block_size cipher;
      tag_len = if c == aes_256_gcm || c == chacha20_poly1305 then 16 else 0;
    })

  -- `ae_cipher && aad` and the update that it guards.
  unfoldable pub with_aad : (E.Ctx → Bytes → Option E.Ctx) → Crypto → E.Ctx → Option E.Ctx
  with_aad update c ctx =
      if c.ae_cipher then (elim c.aad [ none ↦ some ctx | some a ↦ update ctx a ]) else some ctx

  -- The tag that is left: that of an AE cipher, and otherwise the one before.
  unfoldable pub tag_left : Crypto → E.Ctx → Option Bytes
  tag_left c ctx = if c.ae_cipher then E.get_tag ctx c.tag_len else some c.tag

  -- `ctx` of the crypto object is the cipher that openssl_crypto_create found for it.
  unfoldable pub openssl_crypto_encrypt : Crypto → Bytes → Option (Bytes × Bytes)
  unfolding get_openssl_cipher with_aad tag_left
  openssl_crypto_encrypt c inbuf = do
    cipher ← get_openssl_cipher c.cipher
    ctx ← E.encrypt_init cipher c.key c.iv
    fed ← with_aad E.encrypt_aad c ctx
    (busy, out) ← E.encrypt_update fed inbuf
    (done, rest) ← E.encrypt_final busy
    tag ← tag_left c done
    some (out ++ rest, tag)

  unfoldable pub with_tag : Crypto → E.Ctx → Option E.Ctx
  with_tag c ctx = if c.ae_cipher then E.set_tag ctx (take c.tag_len c.tag) else some ctx

  unfoldable pub openssl_crypto_decrypt : Crypto → Bytes → Option Bytes
  unfolding get_openssl_cipher with_aad with_tag
  openssl_crypto_decrypt c inbuf = do
    cipher ← get_openssl_cipher c.cipher
    ctx ← E.decrypt_init cipher c.key c.iv
    fed ← with_aad E.decrypt_aad c ctx
    (busy, out) ← E.decrypt_update fed inbuf
    tagged ← with_tag c busy
    (done, rest) ← E.decrypt_final tagged
    some (out ++ rest)

  unfoldable pub hmac_some : E.Hmac → Option Bytes → Option E.Hmac
  hmac_some ctx none = some ctx
  hmac_some ctx (some d) = E.hmac_update ctx d

  unfoldable pub openssl_crypto_hmac : Crypto → Bytes → Option Bytes → Option Bytes
  unfolding get_openssl_md hmac_some
  openssl_crypto_hmac c data_bytes aad = do
    h ← get_openssl_md c.hmac_id
    ctx ← E.hmac_init c.auth_key h
    fed ← hmac_some ctx aad
    busy ← E.hmac_update fed data_bytes
    E.hmac_final busy

  -- openssl_ops; `residue` is what a decryption leaves in the rest of its buffer.
  unfoldable pub openssl_ops : (residue : Crypto → Bytes → ℕ → Bytes) → Ops
  unfolding openssl_crypto_create openssl_crypto_encrypt openssl_crypto_decrypt openssl_crypto_hmac
  openssl_ops residue = record {
    create = openssl_crypto_create;
    encrypt = openssl_crypto_encrypt;
    decrypt = openssl_crypto_decrypt;
    residue = residue;
    hmac = openssl_crypto_hmac;
  }
