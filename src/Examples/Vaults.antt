-- ===== src/Examples/Vaults.antt =====
-- Vaults created, opened, recovered and listed.
use rvault.Prelude.{
  Bool, ltb, ◌&&◌, ◌^◌, ℕ, ◌≡◌, ◌≤◌, refl, true, false, none, some, List, [], ◌∷◌, ◌++◌, arith,
  length, replicate, take, drop,
}
use rvault.Prelude.Bytes.{Bytes, AreBytes, codes, equal}
use rvault.Crypto.{
  Crypto, Ops, crypto_create, crypto_set_iv, crypto_set_passphrasekey, crypto_hmac, crypto_hmac_len,
  crypto_encrypt,
}
use rvault.Kdf.{
  Measure, Scrypt, kdf_params, kdf_calibrate, kdf_create_params, kdf_passphrase_genkey,
}
use rvault.Hex.{hex_write, hex_read_arbitrary}
use rvault.Files.{moved, fs_write}
use rvault.Recovery.{rvault_recovery_export}
use rvault.Resolve.{get_path_component}
use rvault.Resolve.Sealed.{IsShort}
use rvault.Storage.Keys.{SameKeys}
use rvault.KeyAuth.{Memory, Http, envelope, rvault_push_key, http_api_request, trim_code, set_keys}
use rvault.Vault.Metadata.{
  Location, get_vault_path, create_metadata, open_metadata, open_metadata_mmap, new_hdr,
  rvault_flag_noauth, rvault_hmac_compute, rvault_hmac_verify, rvault_file_len, rvault_hmac_datalen,
  hdr_ver,
}
use rvault.Vault.Init.{
  InitEnv, Derived, choose_cipher, choose_hmac, fits_hdr, parse_uid, crypto_gen_iv, derive,
  effective, new_metadata, store_metadata, rvault_init,
}
use rvault.Vault.Open.{Rvault, OpenEnv, rvault_open_hdr, fetched, rvault_open, rvault_open_ekey}
use rvault.Vault.Reopen.{IsReady}
use rvault.Vault.RoundTrip.{
  Matches, Keeps, rvault_open-rvault_init_noauth, rvault_open-rvault_init_auth,
}
use rvault.Vault.Checks.{rvault_open_verified}
use rvault.Vault.Recover.{IsExportable, contents_of, rvault_open_ekey-rvault_open}
use rvault.Vault.Dirs.{is_dot, rvault_iter_dir}
use rvault.Vault.Listing.{Lists, nothing, dot, litter, object, rvault_iter_dir-Lists}
use rvault.Examples.Engine.{engine_of, engine_of-Laws, crypto, hello, engine, engine-Laws}

abbrev pub hmac32 : Ops
hmac32 = engine_of 31

abbrev slow : Measure
slow = λ k n. some 100

abbrev scrypt : Scrypt
scrypt = λ pwd salt n len. some (replicate len 7)

abbrev pub uid_str : Bytes
uid_str = codes "00112233445566778899aabbccddeeff"

abbrev uid : Bytes
uid = hex_read_arbitrary uid_str

abbrev empty_dir : Location
empty_dir = record {
  real = some (codes "/v");
  directory = true;
  memory = true;
  metadata = none;
  allowed = true;
}

abbrev enough : Memory
enough = record { buffers = true; texts = true; request = true }

abbrev url : Bytes
url = codes "https://key.example"

-- The envelope of 33 bytes 9 under the keys that scrypt gives.
abbrev text : Bytes
text = hex_write (replicate 33 9) ++ (b':' ∷ hex_write (33 ∷ replicate 31 5))

abbrev server : Http
server = λ u payload. some (record { status = 201; buf = some text })

abbrev pub inits : InitEnv
inits = record {
  iv_ok = true;
  hdr_ok = true;
  uid_ok = true;
  rand_iv = λ n. some (replicate n 8);
  rand_salt = λ n. some (replicate n 3);
  rand_key = λ n. some (replicate n 9);
  scrypt = scrypt;
  measure = slow;
  memory = enough;
  http = server;
  location = empty_dir;
  writes = moved 1000 ∷ [];
}

-- The metadata file, for the flags given.
abbrev pub metadata : ℕ → Bytes
metadata flags =
    3
      ∷ flags
      ∷ 2
      ∷ 0
      ∷ 1
      ∷ 0
      ∷ 1
      ∷ 0
      ∷ 28
      ∷ 32
      ∷ (0 ∷ 17 ∷ 34 ∷ 51 ∷ 68 ∷ 85 ∷ 102 ∷ 119 ∷ 136 ∷ 153 ∷ 170 ∷ 187 ∷ 204 ∷ 221 ∷ 238 ∷ 255
          ∷ [])
    ++ (replicate 6 0
        ++ (8
            ∷ (1
                ∷ 0
                ∷ 0
                ∷ 0
                ∷ 0
                ∷ 0
                ∷ 0
                ∷ 0
                ∷ 0
                ∷ 0
                ∷ 64
                ∷ 0
                ∷ (replicate 16 3 ++ (61 ∷ replicate 31 5)))))

pub initialised :
    rvault_init hmac32 inits none hello uid_str none none rvault_flag_noauth
    ≡ (true, some (metadata 1))
unfolding rvault_init new_metadata store_metadata create_metadata get_vault_path effective derive
    parse_uid crypto_gen_iv fits_hdr choose_cipher choose_hmac crypto_create crypto_set_iv
    crypto_set_passphrasekey crypto_hmac crypto_hmac_len kdf_create_params kdf_calibrate kdf_params
    kdf_passphrase_genkey rvault_hmac_compute new_hdr hex_read_arbitrary fs_write
initialised = refl

-- The vault's directory afterwards, and a user who types a code.
abbrev pub opens : ℕ → OpenEnv
opens flags = record {
  map_ok = true;
  calloc_ok = true;
  scrypt = scrypt;
  memory = enough;
  http = server;
  typed = some hello;
  location = record empty_dir { metadata = some (metadata flags) };
}

pub ready : (flags : ℕ) → IsReady inits (opens flags) (codes "/v") (metadata flags)
ready flags = record {
  mapped = refl;
  allocated = refl;
  found = refl;
  directory = refl;
  memory = refl;
  allowed = refl;
  metadata = refl;
  scrypt = refl;
}

rvault_open-rvault_init_noauth_example :
    (v : Rvault) × (rvault_open hmac32 (opens 1) none hello ≡ some v)
    × Matches none none uid_str (codes "/v") v
    × (k : Derived) × (derive hmac32 inits v.cipher v.hmac_id hello ≡ some k)
    × (k.crypto ≡ v.crypto)
rvault_open-rvault_init_noauth_example =
    rvault_open-rvault_init_noauth hmac32 inits (opens 1) none none hello uid_str none none
      (metadata 1) (codes "/v") initialised (ready 1)

abbrev pub opened_crypto : Crypto
opened_crypto = record {
  cipher = 2;
  ae_cipher = false;
  iv_set = true;
  enc_key_set = true;
  auth_key_set = true;
  key_len = 1;
  iv_len = 1;
  block_size = 16;
  key = 7 ∷ [];
  iv = 8 ∷ [];
  hmac_id = 1;
  auth_key = replicate 32 7;
  auth_key_len = 32;
  tag = [];
  tag_len = 32;
  aad = none;
}

abbrev pub vault : Rvault
vault = record {
  base_path = some (codes "/v");
  server_url = none;
  cipher = 2;
  hmac_id = 1;
  crypto = opened_crypto;
  uid = uid;
}

pub opened_vault : rvault_open hmac32 (opens 1) none hello ≡ some vault
unfolding rvault_open open_metadata_mmap open_metadata get_vault_path rvault_open_hdr fetched
    rvault_hmac_verify rvault_hmac_compute crypto_hmac crypto_create crypto_set_iv crypto_hmac_len
    crypto_set_passphrasekey kdf_passphrase_genkey equal hex_read_arbitrary
opened_vault = refl

rvault_open_verified_example :
    (path : Bytes) × (file : Bytes) × (open_metadata_mmap true (opens 1).location
      ≡ some (path, file))
    × (hdr_ver file ≡ 3)
    × (rvault_file_len file ≡ length file)
    × (1 ≤ vault.hmac_id)
    × (crypto_hmac hmac32 vault.crypto (take (rvault_hmac_datalen file) file)
        ≡ some (drop (rvault_hmac_datalen file) file))
rvault_open_verified_example = rvault_open_verified hmac32 (opens 1) none hello vault opened_vault

-- A test that all are bytes.
unfoldable all_bytes : Bytes → Bool
all_bytes [] = true
all_bytes (b ∷ bs) = ltb b 256 && all_bytes bs

all_bytes-AreBytes : (bs : Bytes) → all_bytes bs ≡ true → AreBytes bs
unfolding all_bytes
all_bytes-AreBytes [] h = tt
all_bytes-AreBytes (b ∷ bs) h = (ground arith, all_bytes-AreBytes bs (ground arith))

exportable : IsExportable vault (metadata 1)
unfolding all_bytes
exportable = record {
  file_bytes = all_bytes-AreBytes (metadata 1) refl;
  key_bytes = all_bytes-AreBytes (7 ∷ []) refl;
  auth_key_bytes = all_bytes-AreBytes (replicate 32 7) refl;
  file_short = omega arith;
  key_short = omega arith;
  auth_key_short = omega arith;
  length-key = refl;
  length-auth_key = refl;
}

there : get_vault_path (opens 1).location ≡ some (codes "/v")
unfolding get_vault_path
there = refl

rvault_open_ekey-rvault_open_example :
    (v' : Rvault) × (rvault_open_ekey hmac32
        (opens 1)
        (some (rvault_recovery_export (contents_of vault (metadata 1))))
      ≡ some v')
    × SameKeys vault.crypto v'.crypto
    × (v'.cipher ≡ vault.cipher)
    × (v'.hmac_id ≡ vault.hmac_id)
    × (v'.uid ≡ vault.uid)
rvault_open_ekey-rvault_open_example =
    rvault_open_ekey-rvault_open hmac32 (opens 1) (opens 1) none hello (metadata 1) (codes "/v")
      vault opened_vault refl exportable there refl

initialised_auth :
    rvault_init hmac32 inits (some url) hello uid_str none none 0 ≡ (true, some (metadata 0))
unfolding rvault_init new_metadata store_metadata create_metadata get_vault_path effective derive
    parse_uid crypto_gen_iv fits_hdr choose_cipher choose_hmac crypto_create crypto_set_iv
    crypto_set_passphrasekey crypto_hmac crypto_hmac_len kdf_create_params kdf_calibrate kdf_params
    kdf_passphrase_genkey rvault_hmac_compute new_hdr hex_read_arbitrary fs_write rvault_push_key
    envelope crypto_encrypt http_api_request set_keys hex_write
initialised_auth = refl

abbrev first_keys : Derived
first_keys = record {
  crypto = opened_crypto;
  iv = 8 ∷ [];
  kp = kdf_params (2 ^ 14) (replicate 16 3);
}

derived : derive hmac32 inits 2 1 hello ≡ some first_keys
unfolding derive crypto_gen_iv crypto_create crypto_set_iv crypto_set_passphrasekey crypto_hmac_len
    kdf_create_params kdf_calibrate kdf_params kdf_passphrase_genkey
derived = refl

keeps : Keeps hmac32 inits (opens 0) (record { server_url = url; uid = uid }) hello opened_crypto
unfolding all_bytes envelope crypto_encrypt http_api_request hex_write trim_code
keeps = record {
  rkey = replicate 33 9;
  drawn = refl;
  length-rkey = refl;
  short = record {
    block_pos = omega arith;
    tag_small = omega arith;
    text_small = omega arith;
    plain = all_bytes-AreBytes (replicate 33 9) refl;
  };
  code = refl;
  buffers = refl;
  answered = refl;
}

chosen : choose_cipher none ≡ some 2
unfolding choose_cipher
chosen = refl

mac_chosen : choose_hmac none ≡ some 1
unfolding choose_hmac
mac_chosen = refl

parsed : parse_uid true uid_str ≡ some uid
unfolding parse_uid hex_read_arbitrary
parsed = refl

rvault_open-rvault_init_auth_example :
    (v : Rvault) × (rvault_open hmac32 (opens 0) (some url) hello ≡ some v)
    × Matches none none uid_str (codes "/v") v
    × (rvault_push_key hmac32 enough inits.rand_key server
          (record { server_url = url; uid = uid })
          opened_crypto
        ≡ (v.crypto, true))
rvault_open-rvault_init_auth_example =
    rvault_open-rvault_init_auth hmac32 (engine_of-Laws 31) inits (opens 0) url hello uid_str hello
      uid none none 2 1 first_keys (metadata 0) (codes "/v") initialised_auth (ready 0) chosen
      mac_chosen parsed derived keeps

-- A directory with the entry of `hello`, litter and the two special entries.
abbrev entries : List Bytes
entries = codes "." ∷ codes ".." ∷ codes "core" ∷ codes "RV:68656c6c6f:0505" ∷ []

hello_printed : (get_path_component engine crypto hello).1 ≡ some (codes "RV:68656c6c6f:0505")
unfolding get_path_component crypto_encrypt hex_write
hello_printed = refl

hello-IsShort : IsShort crypto hello
unfolding all_bytes
hello-IsShort = record {
  block_pos = omega arith;
  tag_small = omega arith;
  text_small = omega arith;
  plain = all_bytes-AreBytes hello refl;
}

listed : Lists engine crypto entries (codes "." ∷ codes ".." ∷ hello ∷ [])
unfolding is_dot equal
listed = dot _ _ _ refl (
    dot _ _ _ refl
      (litter _ _ _ refl refl (object _ hello _ _ hello-IsShort hello_printed nothing)))

rvault_iter_dir-Lists_example :
    ((rvault_iter_dir engine true (record crypto { tag = hello }) (some entries)).1
      ≡ codes "." ∷ codes ".." ∷ hello ∷ [])
    × ((rvault_iter_dir engine true (record crypto { tag = hello }) (some entries)).2 ≡ true)
rvault_iter_dir-Lists_example =
    rvault_iter_dir-Lists engine engine-Laws crypto hello entries
      (codes "." ∷ codes ".." ∷ hello ∷ []) refl listed
