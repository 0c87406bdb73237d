-- ===== src/Crypto/Names.antt =====
-- The tables of src/crypto/crypto.c: names of ciphers and of MAC algorithms, and the registered
-- engines. The build has all ciphers.
use rvault.Prelude.{ℕ, Option, none, some, List, [], ◌∷◌, ◌++◌, ◌==◌, if◌then◌else◌, length}
use rvault.Prelude.Bytes.{Bytes, codes, equal}
use rvault.Text.{caseless_equal}
use rvault.Crypto.{
  Ops, cipher_none, aes_256_cbc, aes_256_gcm, chacha20_poly1305, hmac_none, hmac_sha256,
  hmac_sha3_256,
}

abbrev pub cipher_str2id : List (Bytes × ℕ)
cipher_str2id =
    (codes "aes-256-cbc", aes_256_cbc)
    ∷ (codes "aes-256-gcm", aes_256_gcm)
    ∷ (codes "chacha20-poly1305", chacha20_poly1305)
    ∷ []

abbrev pub mac_str2id : List (Bytes × ℕ)
mac_str2id = (codes "sha-256", hmac_sha256) ∷ (codes "sha3-256", hmac_sha3_256) ∷ []

-- The loop over a table, with what is returned behind it.
unfoldable pub str2id : List (Bytes × ℕ) → ℕ → Bytes → ℕ
unfolding caseless_equal
str2id [] default name = default
str2id ((n, id) ∷ table) default name =
    if caseless_equal name n then id else str2id table default name

unfoldable pub crypto_cipher_id : Bytes → ℕ
unfolding str2id
crypto_cipher_id cipher = str2id cipher_str2id cipher_none cipher

unfoldable pub crypto_hmac_id : Bytes → ℕ
unfolding str2id
crypto_hmac_id mac = str2id mac_str2id hmac_none mac

-- crypto_cipher_list: the names.
unfoldable pub names_of : List (Bytes × ℕ) → List Bytes
names_of [] = []
names_of ((n, id) ∷ table) = n ∷ names_of table

unfoldable pub crypto_cipher_list : List Bytes
unfolding names_of
crypto_cipher_list = names_of cipher_str2id

abbrev pub crypto_max_engines : ℕ
crypto_max_engines = 4

-- cipher_engine_t.
pub record Engine : Type 0 where
  pub name : Bytes
  pub ops : Ops

-- crypto_engine_register: the engines afterwards, or -1.
unfoldable pub crypto_engine_register : List Engine → Bytes → Ops → Option (List Engine)
crypto_engine_register engines name ops =
    if length engines == crypto_max_engines
    then none
    else some (engines ++ (record { name = name; ops = ops } ∷ []))

-- The loop over the engines, up to the one named.
unfoldable pub find_engine : List Engine → Bytes → Option Ops
unfolding equal
find_engine [] name = none
find_engine (e ∷ es) name = if equal e.name name then some e.ops else find_engine es name

-- crypto_select_library; `chosen` is the variable RVAULT_CRYPTO_LIB.
unfoldable pub crypto_select_library : List Engine → Option Bytes → Option Ops
unfolding find_engine
crypto_select_library engines (some name) = find_engine engines name
crypto_select_library [] none = none
crypto_select_library (e ∷ es) none = some e.ops
