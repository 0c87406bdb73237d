-- ===== src/Vault/Init.antt =====
-- rvault_init of src/core/rvault.c: the choice of algorithms, the derived key, the registration of
-- the effective key, and the metadata file.
use rvault.Prelude.{
  ◌&&◌, ltb, ℕ, Bool, false, not, Option, none, some, List, ◌++◌, ◌==◌, if◌then◌else◌, length,
  guard, ◌>>=◌, ◌>>◌,
}
use Prim.Native.Nat.{bit_and}
use rvault.Prelude.Bytes.{Bytes}
use rvault.Hex.{hex_read_arbitrary}
use rvault.Crypto.{
  Crypto, Ops, aes_256_gcm, hmac_sha256, cipher_none, hmac_none, crypto_create, crypto_set_iv,
  crypto_set_passphrasekey, crypto_hmac_len,
}
use rvault.Crypto.Names.{crypto_cipher_id, crypto_hmac_id}
use rvault.Kdf.{Scrypt, Measure, kdf_create_params, kdf_passphrase_genkey}
use rvault.KeyAuth.{Memory, Http, rvault_push_key}
use rvault.Files.{Outcome, fs_write}
use rvault.Vault.Metadata.{
  rvault_flag_noauth, uid_len, new_hdr, Location, create_metadata, rvault_hmac_compute,
}

-- What the system and the server do during rvault_init: the allocations of the IV, the header and
-- the UID, three draws of random bytes, scrypt and its timing, the requests, the directory, and
-- the calls of write.
pub record InitEnv : Type 0 where
  pub iv_ok : Bool
  pub hdr_ok : Bool
  pub uid_ok : Bool
  pub rand_iv : ℕ → Option Bytes
  pub rand_salt : ℕ → Option Bytes
  pub rand_key : ℕ → Option Bytes
  pub scrypt : Scrypt
  pub measure : Measure
  pub memory : Memory
  pub http : Http
  pub location : Location
  pub writes : List Outcome

-- The primary cipher and HMAC, or the ones named.
unfoldable pub choose_cipher : Option Bytes → Option ℕ
unfolding crypto_cipher_id
choose_cipher none = some aes_256_gcm
choose_cipher (some name) =
    let id = crypto_cipher_id name in if id == cipher_none then none else some id

unfoldable pub choose_hmac : Option Bytes → Option ℕ
unfolding crypto_hmac_id
choose_hmac none = some hmac_sha256
choose_hmac (some name) = let id = crypto_hmac_id name in if id == hmac_none then none else some id

-- The user ID: sixteen bytes in hexadecimal.
unfoldable pub parse_uid : Bool → Bytes → Option Bytes
unfolding hex_read_arbitrary
parse_uid uid_ok uid_str = do
  guard uid_ok
  let uid = hex_read_arbitrary uid_str
  guard (length uid == uid_len)
  some uid

-- The assertions on what the header stores in one byte each; one that fails ends the program.
unfoldable pub fits_hdr : (flags cipher hmac_len : ℕ) (iv kp : Bytes) → Bool
fits_hdr flags cipher hmac_len iv kp =
    ltb cipher 256
    && ltb flags 256
    && ltb (length kp) 256
    && ltb (length iv) 256
    && ltb hmac_len 256

-- crypto_gen_iv.
unfoldable pub crypto_gen_iv : InitEnv → Crypto → Option Bytes
crypto_gen_iv e c = do guard e.iv_ok; e.rand_iv c.iv_len

-- A crypto object with its IV and the key that the passphrase gives.
pub record Derived : Type 0 where
  pub crypto : Crypto
  pub iv : Bytes
  pub kp : Bytes

module _ (o : Ops) where
  unfoldable pub derive : InitEnv → (cipher hmac_id : ℕ) → (pwd : Bytes) → Option Derived
  derive e cipher hmac_id pwd = do
    c ← crypto_create o cipher hmac_id
    iv ← crypto_gen_iv e c
    d ← crypto_set_iv c iv
    kp ← kdf_create_params e.measure e.rand_salt
    k ← crypto_set_passphrasekey (kdf_passphrase_genkey e.scrypt pwd (some kp)) d
    some (record { crypto = k; iv = iv; kp = kp })

  -- The effective keys: those derived, or, with authentication, new ones that the server keeps.
  unfoldable pub effective :
      InitEnv → Option Bytes → (flags : ℕ) → (uid : Bytes) → Crypto → Option Crypto
  effective e server flags uid c =
      if not (bit_and flags rvault_flag_noauth == 0) then some c else elim server [
        | none ↦ none
        | some url ↦
            let (d, ok) =
              rvault_push_key o e.memory e.rand_key e.http (record { server_url = url; uid = uid })
                c in
            if ok then some d else none
      ]

  -- The contents of the metadata file, complete with its HMAC.
  unfoldable pub new_metadata :
      InitEnv
      → (server : Option Bytes) → (pwd uid_str : Bytes) → (cipher_str mac_str : Option Bytes) → ℕ
      → Option Bytes
  new_metadata e server pwd uid_str cipher_str mac_str flags = do
    cipher ← choose_cipher cipher_str
    hmac_id ← choose_hmac mac_str
    k ← derive e cipher hmac_id pwd
    hmac_len ← crypto_hmac_len hmac_id
    guard e.hdr_ok
    guard (fits_hdr flags cipher hmac_len k.iv k.kp)
    uid ← parse_uid e.uid_ok uid_str
    c ← effective e server flags uid k.crypto
    let hdr = new_hdr flags cipher hmac_id hmac_len uid k.iv k.kp
    mac ← rvault_hmac_compute o c hdr
    guard (length mac == hmac_len)
    some (hdr ++ mac)

  -- The file is created, and takes what write lets through: whether rvault_init returns 0, and the
  -- metadata file afterwards.
  unfoldable pub store_metadata : InitEnv → Bytes → Bool × Option Bytes
  store_metadata e hdr = elim (create_metadata e.location) [
    | none ↦ (false, e.location.metadata)
    | some path ↦
        let (written, count) = fs_write e.writes hdr in
        (elim count [ none ↦ false | some n ↦ n == length hdr ], some written)
  ]

  -- rvault_init.
  unfoldable pub rvault_init :
      InitEnv
      → (server : Option Bytes) → (pwd uid_str : Bytes) → (cipher_str mac_str : Option Bytes) → ℕ
      → Bool × Option Bytes
  rvault_init e server pwd uid_str cipher_str mac_str flags =
      elim (new_metadata e server pwd uid_str cipher_str mac_str flags) [
        | none ↦ (false, e.location.metadata)
        | some hdr ↦ store_metadata e hdr
      ]
