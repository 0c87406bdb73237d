-- ===== src/Examples/Keys.antt =====
-- Keys derived, registered and fetched, and a name resolved.
use rvault.Text.{caseless_prefix}
use rvault.Resolve.{rvault_unhex_aedata}
use rvault.Crypto.{crypto_set_aetag, decrypted_data}
use rvault.Prelude.{
  ◌⊎◌, none, [], zero, suc, ◌/◌, ℕ, ◌≡◌, ◌^◌, refl, true, false, some, ◌∷◌, ◌++◌, arith, length,
  replicate, length-replicate, ◌∙◌, ap, sym, Option,
}
use rvault.Prelude.Bytes.{Bytes, AreBytes, codes, equal}
use rvault.Crypto.{Crypto, crypto_encrypt}
use rvault.Kdf.{
  Measure, Scrypt, kdf_params, kdf_calibrate, kdf_create_params, kdf_passphrase_genkey,
}
use rvault.Kdf.Params.{kdf_passphrase_genkey-kdf_create_params}
use rvault.Hex.{hex_write}
use rvault.Resolve.{get_path_component, rvault_resolve_vname}
use rvault.Resolve.Walk.{
  rvault_resolve_path, walk, walk_component, is_skipped, is_parent, last_slash,
}
use rvault.Resolve.Paths.{named, rvault_resolve_path-named}
use rvault.Resolve.Sealed.{IsShort, rvault_resolve_vname-get_path_component}
use rvault.Storage.Keys.{SameKeys}
use rvault.KeyAuth.{
  Memory, Http, Account, api_json, api_url, http_api_request, api_answer, envelope, rvault_push_key,
  rvault_pull_key, set_keys, trim_code, open_envelope,
}
use rvault.KeyAuth.Envelope.{rvault_pull_key-rvault_push_key}
use rvault.KeyAuth.Refusals.{
  http_api_request_over_tls, rvault_push_key_fails, rvault_pull_key_authentic, Sealed,
}
use rvault.Examples.Engine.{engine, engine_of, engine-Laws, engine_of-Laws, crypto, hello}

abbrev slow : Measure
slow = λ k n. some (n / 2 ^ 12)

abbrev salt : Bytes
salt = replicate 16 3

abbrev scrypt : Scrypt
scrypt = λ pwd salt n len. some (replicate len 7)

calibrated : kdf_calibrate slow ≡ 2 ^ 18
unfolding kdf_calibrate
calibrated = refl

created : kdf_create_params slow (λ n. some salt) ≡ some (kdf_params (2 ^ 18) salt)
unfolding kdf_create_params kdf_calibrate
created = refl

kdf_passphrase_genkey-kdf_create_params_example :
    kdf_passphrase_genkey scrypt hello (some (kdf_params (2 ^ 18) salt ++ hello)) 33
    ≡ scrypt hello salt (kdf_calibrate slow) 33
kdf_passphrase_genkey-kdf_create_params_example =
    kdf_passphrase_genkey-kdf_create_params scrypt slow hello salt (kdf_params (2 ^ 18) salt) hello
      33 refl created

hello-AreBytes : AreBytes hello
hello-AreBytes = (omega arith, (omega arith, (omega arith, (omega arith, (omega arith, tt)))))

abbrev hello_name : Bytes
hello_name = codes "RV:68656c6c6f:0505"

hello_printed : (get_path_component engine crypto hello).1 ≡ some hello_name
unfolding get_path_component crypto_encrypt hex_write
hello_printed = refl

hello-IsShort : IsShort crypto hello
hello-IsShort = record {
  block_pos = omega arith;
  tag_small = omega arith;
  text_small = omega arith;
  plain = hello-AreBytes;
}

rvault_resolve_vname-get_path_component_example :
    (rvault_resolve_vname engine true (record crypto { tag = hello }) hello_name).1 ≡ some hello
rvault_resolve_vname-get_path_component_example =
    rvault_resolve_vname-get_path_component engine engine-Laws crypto hello hello_name hello
      hello-IsShort hello_printed

-- An HMAC of 32 bytes, and a user of a server that keeps what was registered.
abbrev derived : Crypto
derived = record crypto { auth_key_len = 32; tag_len = 32 }

abbrev account : Account
account = record { server_url = codes "HTTPS://key.example"; uid = hello }

abbrev plain : Account
plain = record { server_url = codes "http://key.example"; uid = hello }

abbrev rkey : Bytes
rkey = replicate 33 9

abbrev draws : ℕ → Option Bytes
draws = λ n. some (replicate n 9)

abbrev text : Bytes
text = hex_write rkey ++ (b':' ∷ hex_write (33 ∷ replicate 31 5))

abbrev server : Http
server = λ url payload. some (record { status = 200; buf = some text })

abbrev enough : Memory
enough = record { buffers = true; texts = true; request = true }

nines-AreBytes : (n : ℕ) → AreBytes (replicate n 9)
nines-AreBytes zero = tt
nines-AreBytes (suc n) = (omega arith, nines-AreBytes n)

draws_full : (n : ℕ) (r : Bytes) → draws n ≡ some r → length r ≡ n
draws_full n r h =
    let same : replicate n 9 ≡ r = ground arith in ap length (sym same) ∙ length-replicate n 9

rkey-IsShort : IsShort derived rkey
rkey-IsShort = record {
  block_pos = omega arith;
  tag_small = omega arith;
  text_small = omega arith;
  plain = nines-AreBytes 33;
}

pushed : (rvault_push_key (engine_of 31) enough draws server account derived).1 ≡ true
unfolding rvault_push_key envelope crypto_encrypt http_api_request set_keys hex_write
pushed = refl

pulled : (rvault_pull_key (engine_of 31) enough (some hello) server account derived).1 ≡ true
unfolding rvault_pull_key http_api_request set_keys hex_write open_envelope trim_code
    rvault_unhex_aedata crypto_set_aetag decrypted_data equal
pulled = refl

answered :
    api_answer true server account (codes "auth") (codes "code") (trim_code hello)
    ≡ some (envelope (engine_of 31) derived rkey).1
unfolding envelope crypto_encrypt http_api_request hex_write trim_code
answered = refl

rvault_pull_key-rvault_push_key_example :
    rvault_pull_key
      (engine_of 31)
      enough
      (some hello)
      server
      account
      (record derived { tag = hello })
    ≡ rvault_push_key (engine_of 31) enough draws server account derived
rvault_pull_key-rvault_push_key_example =
    rvault_pull_key-rvault_push_key (engine_of 31) (engine_of-Laws 31) derived rkey enough enough
      draws server server account hello hello rkey-IsShort refl refl refl answered pushed

http_api_request_over_tls_example :
    (((http_api_request true server account (codes "auth") (codes "code") hello).0 ≡ [])
      × ((http_api_request true server account (codes "auth") (codes "code") hello).1 ≡ none))
    ⊎ ((url : Bytes) × ((http_api_request true server account (codes "auth") (codes "code") hello).0
          ≡ (url, api_json (codes "code") (hex_write account.uid) hello) ∷ [])
        × (caseless_prefix account.server_url (codes "https://") ≡ true)
        × (caseless_prefix url (codes "https://") ≡ true))
http_api_request_over_tls_example =
    http_api_request_over_tls true server account (codes "auth") (codes "code") hello

-- A server without TLS is sent nothing.
nothing_sent : http_api_request true server plain (codes "auth") (codes "code") hello ≡ ([], none)
unfolding http_api_request api_url caseless_prefix
nothing_sent = refl

refused : (rvault_push_key (engine_of 31) enough draws server plain derived).1 ≡ false
unfolding rvault_push_key envelope crypto_encrypt http_api_request api_url caseless_prefix
refused = refl

rvault_push_key_fails_example :
    SameKeys derived (rvault_push_key (engine_of 31) enough draws server plain derived).0
rvault_push_key_fails_example =
    rvault_push_key_fails (engine_of 31) enough draws server plain derived draws_full refused

rvault_pull_key_authentic_example :
    (buf : Bytes) × (api_answer true server account (codes "auth") (codes "code") (trim_code hello)
      ≡ some (some buf))
    × Sealed (engine_of 31) derived buf
rvault_pull_key_authentic_example =
    rvault_pull_key_authentic (engine_of 31) enough hello server account derived refl pulled

-- The paths of `hello` and of its parent, and one with two ".." in a row, of which the second does
-- nothing: the object is named below `a`, and not below the vault.
abbrev base : Bytes
base = codes "/v"

rvault_resolve_path-named_example :
    rvault_resolve_path engine crypto base (codes "/a/b/../hello")
    ≡ named engine crypto base (codes "/a/b/../hello")
rvault_resolve_path-named_example =
    rvault_resolve_path-named engine crypto base (codes "/a/b/../hello")

two_parents :
    (rvault_resolve_path engine crypto base (codes "a/b/../../c")).1
    ≡ some (codes "/v/RV:61:0105/RV:63:0105")
unfolding rvault_resolve_path walk walk_component is_skipped is_parent last_slash get_path_component
    crypto_encrypt hex_write
two_parents = refl
