-- ===== src/Crypto.antt =====
-- The cryptographic module, of src/crypto/crypto.c, crypto.h and crypto_impl.h: the crypto
-- object, its setters, and authenticated encryption by an AE cipher or by Encrypt-then-MAC.
-- The engine behind `crypto_ops_t` is a parameter; what is relied on of it is `Crypto.Laws`.
pub mod Inverse
pub mod Names
pub mod Again
pub mod Openssl
pub mod Mbedtls
pub mod Sodium
pub mod Streams
use rvault.Prelude.{
  ℕ, ◌+◌, ◌-◌, ◌*◌, ◌/◌, ◌%◌, ◌^◌, ◌≤◌, ◌≡◌, Bool, true, false, not, ◌&&◌, ◌||◌, Option, none, some,
  [], ◌==◌, ltb, if◌then◌else◌, length, take, drop,
}
use rvault.Prelude.Bytes.{Bytes, AreBytes, equal}

-- crypto_cipher_t and crypto_hmac_t, as stored on disk.
abbrev pub cipher_none : ℕ
cipher_none = 0

abbrev pub aes_256_cbc : ℕ
aes_256_cbc = 1

abbrev pub aes_256_gcm : ℕ
aes_256_gcm = 2

abbrev pub chacha20_poly1305 : ℕ
chacha20_poly1305 = 4

abbrev pub hmac_none : ℕ
hmac_none = 0

abbrev pub hmac_sha256 : ℕ
hmac_sha256 = 1

abbrev pub hmac_sha3_256 : ℕ
hmac_sha3_256 = 2

abbrev pub int_max : ℕ
int_max = 2 ^ 31 - 1

-- struct crypto; a buffer is its contents, and `aad` is NULL or points at bytes.
pub record Crypto : Type 0 where
  pub cipher : ℕ
  pub ae_cipher : Bool
  pub iv_set : Bool
  pub enc_key_set : Bool
  pub auth_key_set : Bool
  pub key_len : ℕ
  pub iv_len : ℕ
  pub block_size : ℕ
  pub key : Bytes
  pub iv : Bytes
  pub hmac_id : ℕ
  pub auth_key : Bytes
  pub auth_key_len : ℕ
  pub tag : Bytes
  pub tag_len : ℕ
  pub aad : Option Bytes

-- What `create` of an engine decides; `tag_len` is 0 unless the cipher is an AE cipher.
pub record Dimensions : Type 0 where
  pub key_len : ℕ
  pub iv_len : ℕ
  pub block_size : ℕ
  pub tag_len : ℕ

-- crypto_ops_t. `none` is a return of -1. `encrypt` gives the bytes written and the contents of
-- the tag buffer afterwards; `decrypt` gives the bytes written, and `residue` what stands behind
-- them in the rest of the output buffer; `hmac` takes the data and the AAD.
pub record Ops : Type 0 where
  pub create : ℕ → Option Dimensions
  pub encrypt : Crypto → Bytes → Option (Bytes × Bytes)
  pub decrypt : Crypto → Bytes → Option Bytes
  pub residue : Crypto → Bytes → ℕ → Bytes
  pub hmac : Crypto → Bytes → Option Bytes → Option Bytes

-- crypto_hmac_len.
unfoldable pub crypto_hmac_len : ℕ → Option ℕ
crypto_hmac_len h = if h == hmac_sha256 || h == hmac_sha3_256 then some 32 else none

abbrev pub crypto_min_key_len : ℕ
crypto_min_key_len = 32

-- The part of crypto_create behind the engine's `create`, given the length of the HMAC.
pub with_dimensions : ℕ → ℕ → Dimensions → Bool → ℕ → Crypto
with_dimensions c h d ae tag_len = record {
  cipher = c;
  ae_cipher = ae;
  iv_set = false;
  enc_key_set = false;
  auth_key_set = false;
  key_len = d.key_len;
  iv_len = d.iv_len;
  block_size = d.block_size;
  key = [];
  iv = [];
  hmac_id = h;
  auth_key = [];
  auth_key_len = crypto_min_key_len;
  tag = [];
  tag_len = tag_len;
  aad = none;
}

module _ (o : Ops) where
  -- crypto_create, with the selected engine `o`.
  unfoldable pub crypto_create : ℕ → ℕ → Option Crypto
  unfolding with_dimensions
  crypto_create c h = elim (o.create c) [
    | none ↦ none
    | some d ↦
        if d.tag_len == 0
        then elim (crypto_hmac_len h) [
          | none ↦ none
          | some n ↦ some (with_dimensions c h d false n)
        ]
        else some (with_dimensions c h d true d.tag_len)
  ]

-- The setters return `none` for -1.
unfoldable pub crypto_set_iv : Crypto → Bytes → Option Crypto
crypto_set_iv c iv =
    if c.iv_len == length iv then some (record c { iv = iv; iv_set = true }) else none

unfoldable pub crypto_set_key : Crypto → Bytes → Option Crypto
crypto_set_key c key =
    if c.key_len == length key then some (record c { key = key; enc_key_set = true }) else none

unfoldable pub crypto_set_authkey : Crypto → Bytes → Option Crypto
crypto_set_authkey c akey =
    if c.auth_key_len == length akey
    then some (record c { auth_key = akey; auth_key_set = true })
    else none

-- crypto_set_passphrasekey; `kdf` is kdf_passphrase_genkey on the passphrase and the parameters,
-- a function of the number of bytes to derive.
unfoldable pub crypto_set_passphrasekey : (ℕ → Option Bytes) → Crypto → Option Crypto
crypto_set_passphrasekey kdf c = elim (kdf (c.key_len + c.auth_key_len)) [
  | none ↦ none
  | some dkey ↦ some (record c {
    key = take c.key_len dkey;
    auth_key = take c.auth_key_len (drop c.key_len dkey);
    enc_key_set = true;
    auth_key_set = true;
  })
]

abbrev pub crypto_set_aad : Crypto → Bytes → Crypto
crypto_set_aad c aad = record c { aad = some aad }

-- crypto_set_aetag, of `len` bytes at the given address.
unfoldable pub crypto_set_aetag : Crypto → Bytes → ℕ → Option Crypto
crypto_set_aetag c tag len =
    if c.tag_len == len then some (record c { tag = take len tag }) else none

abbrev pub crypto_get_buflen : Crypto → ℕ → ℕ
crypto_get_buflen c length = (length + c.block_size) % 2 ^ 64

unfoldable pub crypto_setup_done_p : Crypto → Bool
crypto_setup_done_p c = c.iv_set && c.enc_key_set && (c.ae_cipher || c.auth_key_set)

-- roundup of utils.h.
abbrev pub roundup : ℕ → ℕ → ℕ
roundup x y = (x + (y - 1)) / y * y

-- The length checks that encryption and decryption share.
unfoldable pub bad_length : Crypto → ℕ → ℕ → Bool
bad_length c inlen outlen = ltb int_max inlen || ltb outlen (roundup inlen c.block_size)

-- Both leave with no AAD.
abbrev pub clear_aad : Crypto → Crypto
clear_aad c = record c { aad = none }

module _ (o : Ops) where
  -- The HMAC of a non-AE cipher's output, written over the tag.
  pub seal : Crypto → Bytes → Crypto × Option Bytes
  seal c out = if c.ae_cipher then (clear_aad c, some out) else elim (o.hmac c out c.aad) [
    | none ↦ (clear_aad c, none)
    | some mac ↦
        (clear_aad (record c { tag = mac }), if length mac == c.tag_len then some out else none)
  ]

  -- crypto_encrypt: the object afterwards, and the output or -1.
  unfoldable pub crypto_encrypt : Crypto → Bytes → ℕ → Crypto × Option Bytes
  unfolding seal crypto_setup_done_p bad_length
  crypto_encrypt c inbuf outlen =
      if not (crypto_setup_done_p c)
      then (clear_aad c, none)
      else if bad_length c (length inbuf) outlen
      then (clear_aad c, none)
      else elim (o.encrypt c inbuf) [
        | none ↦ (clear_aad c, none)
        | some (out, tag) ↦ seal (record c { tag = tag }) out
      ]

  -- The HMAC check of a non-AE cipher: the length, then the bytes.
  unfoldable pub hmac_matches : Crypto → Bytes → Bool
  hmac_matches c inbuf = elim (o.hmac c inbuf c.aad) [
    | none ↦ false
    | some mac ↦ length mac == c.tag_len && equal c.tag mac
  ]

  -- The output of crypto_decrypt, of `inlen` bytes at the given address, or -1.
  unfoldable pub decrypted_data : Crypto → Bytes → ℕ → ℕ → Option Bytes
  unfolding crypto_setup_done_p bad_length hmac_matches
  decrypted_data c inbuf inlen outlen =
      if not (crypto_setup_done_p c)
      then none
      else if bad_length c inlen outlen
      then none
      else if not c.ae_cipher && not (hmac_matches c (take inlen inbuf))
      then none
      else o.decrypt c (take inlen inbuf)

  -- crypto_decrypt: the object afterwards, which every path leaves through `out`, and the output.
  abbrev pub crypto_decrypt : Crypto → Bytes → ℕ → ℕ → Crypto × Option Bytes
  crypto_decrypt c inbuf inlen outlen = (clear_aad c, decrypted_data c inbuf inlen outlen)

  -- crypto_hmac.
  unfoldable pub crypto_hmac : Crypto → Bytes → Option Bytes
  crypto_hmac c bytes =
      if not c.auth_key_set
      then none
      else if ltb int_max (length bytes)
      then none
      else o.hmac c bytes none

  -- What the engine's documentation promises of its ciphers and its HMAC, of any key.
  pub record Laws : Type 0 where
    -- An AE cipher decrypts what it encrypted, with the tag that it left.
    pub ae_inverse :
        (c : Crypto) (p ct t : Bytes)
        → c.ae_cipher ≡ true
        → o.encrypt c p ≡ some (ct, t)
        → o.decrypt (record c { tag = t }) ct ≡ some p
    -- Another cipher does so whatever the tag buffer holds.
    pub plain_inverse :
        (c : Crypto) (p ct t u : Bytes)
        → c.ae_cipher ≡ false
        → o.encrypt c p ≡ some (ct, t)
        → o.decrypt (record c { tag = u }) ct ≡ some p
    -- The HMAC does not read the tag buffer.
    pub hmac_tag :
        (c : Crypto) (u d : Bytes) (a : Option Bytes)
        → o.hmac (record c { tag = u }) d a ≡ o.hmac c d a
    -- Encryption does not read the tag buffer.
    pub encrypt_again :
        (c : Crypto) (p ct t u : Bytes)
        → o.encrypt c p ≡ some (ct, t)
        → (t' : Bytes) × (o.encrypt (record c { tag = u }) p ≡ some (ct, t'))
          × (c.ae_cipher ≡ true → t' ≡ t)
    -- An AE cipher's tag fills the buffer.
    pub length-tag :
        (c : Crypto) (p ct t : Bytes)
        → c.ae_cipher ≡ true
        → o.encrypt c p ≡ some (ct, t)
        → length t ≡ c.tag_len
    -- Padding takes up to one block.
    pub length-encrypt :
        (c : Crypto) (p ct t : Bytes)
        → o.encrypt c p ≡ some (ct, t)
        → (length p ≤ length ct) × (length ct ≤ length p + c.block_size)
    -- A plaintext is no longer than its ciphertext.
    pub length-decrypt : (c : Crypto) (d p : Bytes) → o.decrypt c d ≡ some p → length p ≤ length d
    -- What is written are bytes.
    pub encrypt-AreBytes :
        (c : Crypto) (p ct t : Bytes)
        → AreBytes p
        → o.encrypt c p ≡ some (ct, t)
        → AreBytes ct × (c.ae_cipher ≡ true → AreBytes t)
    pub hmac-AreBytes :
        (c : Crypto) (d : Bytes) (a : Option Bytes) (mac : Bytes)
        → o.hmac c d a ≡ some mac
        → AreBytes mac
    pub length-residue : (c : Crypto) (d : Bytes) (n : ℕ) → length (o.residue c d n) ≡ n
