-- ===== src/Crypto/Mbedtls.antt =====
-- The engine of src/crypto/mbedtls.c. mbedTLS is the parameter Mbedtls; `none` is a call that does
-- not return 0.
use rvault.Prelude.{
  ℕ, ◌*◌, Bool, true, false, ◌||◌, Option, none, some, [], ◌==◌, if◌then◌else◌, ◌>>=◌, take,
}
use Prim.Native.Nat.{◌/◌}
use rvault.Prelude.Bytes.{Bytes}
use rvault.Crypto.{
  Crypto, Ops, Dimensions, aes_256_cbc, aes_256_gcm, chacha20_poly1305, hmac_sha256,
}

-- The cipher types but MBEDTLS_CIPHER_NONE, which is `none`.
pub data MbedtlsCipher : Type 0 where
  mbedtls_aes_256_cbc mbedtls_aes_256_gcm mbedtls_chacha20_poly1305 : MbedtlsCipher

-- The calls. A context is set up for a cipher; a key is given in bits of its length, for one
-- direction. mbedtls_md_setup is for SHA-256, with the HMAC.
pub record Mbedtls : Type 1 where
  pub Ctx : Type 0
  pub Md : Type 0
  pub calloc : Bool
  pub key_bitlen : MbedtlsCipher → ℕ
  pub iv_size : MbedtlsCipher → ℕ
  pub block_size : MbedtlsCipher → ℕ
  pub setkey : MbedtlsCipher → (key : Bytes) → (bits : ℕ) → (encrypt : Bool) → Option Ctx
  pub crypt : Ctx → (iv input : Bytes) → Option Bytes
  pub auth_encrypt : Ctx → (iv aad input : Bytes) → (tag_len : ℕ) → Option (Bytes × Bytes)
  pub auth_decrypt : Ctx → (iv aad input tag : Bytes) → Option Bytes
  pub md_setup : Option Md
  pub hmac_starts : Md → (key : Bytes) → Option Md
  pub hmac_update : Md → Bytes → Option Md
  pub hmac_finish : Md → Option Bytes

unfoldable pub get_mbedtls_cipher : ℕ → Option MbedtlsCipher
get_mbedtls_cipher c =
    if c == aes_256_cbc
    then some mbedtls_aes_256_cbc
    else if c == aes_256_gcm
    then some mbedtls_aes_256_gcm
    else if c == chacha20_poly1305
    then some mbedtls_chacha20_poly1305
    else none

-- `aad` with `aad_len`: NULL and 0 where none is set.
abbrev pub aad_given : Crypto → Bytes
aad_given c = elim c.aad [ none ↦ [] | some a ↦ a ]

module _ (M : Mbedtls) where
  unfoldable pub mbedtls_crypto_create : ℕ → Option Dimensions
  unfolding get_mbedtls_cipher
  mbedtls_crypto_create c = do
    cipher ← get_mbedtls_cipher c
    if M.calloc
        then some (record {
          key_len = M.key_bitlen cipher / 8;
          iv_len = M.iv_size cipher;
          block_size = M.block_size cipher;
          tag_len = if c == aes_256_gcm || c == chacha20_poly1305 then 16 else 0;
        })
        else none

  -- The tag is the one before where the cipher has none. Another cipher than these is refused when
  -- the crypto object is created; for it the source ends the program.
  unfoldable pub mbedtls_crypto_encrypt : Crypto → Bytes → Option (Bytes × Bytes)
  unfolding get_mbedtls_cipher
  mbedtls_crypto_encrypt c inbuf = do
    cipher ← get_mbedtls_cipher c.cipher
    ctx ← M.setkey cipher c.key (c.key_len * 8) true
    elim cipher [
      | mbedtls_aes_256_cbc ↦ elim (M.crypt ctx c.iv inbuf) [
        | none ↦ none
        | some out ↦ some (out, c.tag)
      ]
      | mbedtls_aes_256_gcm ↦ M.auth_encrypt ctx c.iv (aad_given c) inbuf c.tag_len
      | mbedtls_chacha20_poly1305 ↦ M.auth_encrypt ctx c.iv (aad_given c) inbuf c.tag_len
    ]

  unfoldable pub mbedtls_crypto_decrypt : Crypto → Bytes → Option Bytes
  unfolding get_mbedtls_cipher
  mbedtls_crypto_decrypt c inbuf = do
    cipher ← get_mbedtls_cipher c.cipher
    ctx ← M.setkey cipher c.key (c.key_len * 8) false
    elim cipher [
      | mbedtls_aes_256_cbc ↦ M.crypt ctx c.iv inbuf
      | mbedtls_aes_256_gcm ↦ M.auth_decrypt ctx c.iv (aad_given c) inbuf (take c.tag_len c.tag)
      | mbedtls_chacha20_poly1305 ↦
          M.auth_decrypt ctx c.iv (aad_given c) inbuf (take c.tag_len c.tag)
    ]

  unfoldable pub md_some : M.Md → Option Bytes → Option M.Md
  md_some md none = some md
  md_some md (some d) = M.hmac_update md d

  -- SHA3-256 is not supported.
  unfoldable pub mbedtls_crypto_hmac : Crypto → Bytes → Option Bytes → Option Bytes
  unfolding md_some
  mbedtls_crypto_hmac c data_bytes aad =
      if c.hmac_id == hmac_sha256
      then (do
        md ← M.md_setup
        keyed ← M.hmac_starts md c.auth_key
        fed ← md_some keyed aad
        busy ← M.hmac_update fed data_bytes
        mac ← M.hmac_finish busy
        some (take 32 mac))
      else none

  -- mbedtls_ops; `residue` is what a decryption leaves in the rest of its buffer.
  unfoldable pub mbedtls_ops : (residue : Crypto → Bytes → ℕ → Bytes) → Ops
  unfolding mbedtls_crypto_create mbedtls_crypto_encrypt mbedtls_crypto_decrypt mbedtls_crypto_hmac
  mbedtls_ops residue = record {
    create = mbedtls_crypto_create;
    encrypt = mbedtls_crypto_encrypt;
    decrypt = mbedtls_crypto_decrypt;
    residue = residue;
    hmac = mbedtls_crypto_hmac;
  }
