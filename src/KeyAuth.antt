-- ===== src/KeyAuth.antt =====
-- Envelope-encrypted keys, of src/core/keyauth.c: the requests to the server, rvault_push_key and
-- rvault_pull_key. The server and the random generator are parameters.
pub mod Envelope
pub mod Refusals
use rvault.Prelude.{
  ℕ, ◌+◌, ◌-◌, ◌%◌, Bool, true, false, not, ◌&&◌, ◌||◌, Option, none, some, List, [], ◌∷◌, ◌++◌,
  leb, ltb, if◌then◌else◌, length, take, drop,
}
use rvault.Prelude.Bytes.{Bytes, codes}
use rvault.Hex.{hex_write}
use rvault.Buffer.{size_mod}
use rvault.Text.{caseless_prefix}
use rvault.Recovery.{contains_caseless}
use rvault.Crypto.{
  Crypto, Ops, crypto_encrypt, crypto_decrypt, crypto_set_aetag, crypto_set_key, crypto_set_authkey,
  crypto_get_buflen,
}
use rvault.Resolve.{rvault_unhex_aedata}

-- What http_request leaves of the answer.
pub record Reply : Type 0 where
  pub status : ℕ
  pub buf : Option Bytes

-- http_request, of a URL and the text that is posted; `none` is -1.
abbrev pub Http : Type 0
Http = Bytes → Bytes → Option Reply

-- HTTP_REQ_OK.
unfoldable pub http_req_ok : Reply → Bool
http_req_ok r = leb 200 r.status && ltb r.status 300

-- The vault's own part of a request.
pub record Account : Type 0 where
  pub server_url : Bytes
  pub uid : Bytes

-- api_reg_json and api_auth_json, filled in.
abbrev pub api_json : Bytes → Bytes → Bytes → Bytes
api_json field uid arg =
    codes "{\"uid\": \""
    ++ (uid ++ (codes "\", \"" ++ (field ++ (codes "\": \"" ++ (arg ++ codes "\" }")))))

-- api_url: NULL for a server that is not reached by TLS.
unfoldable pub api_url : Bytes → Bytes → Option Bytes
unfolding caseless_prefix contains_caseless
api_url server_url route =
    if not (caseless_prefix server_url (codes "https://"))
    then none
    else let suffix =
        if contains_caseless server_url (codes "/api/v1") then [] else codes "api/v1" in
      some (server_url ++ (b'/' ∷ (suffix ++ (b'/' ∷ route))))

-- http_api_request: the requests that reach the server, each its URL and what is posted; and the
-- answer's text of a request that succeeded, or -1. `memory` says whether the texts of the request
-- could be allocated.
unfoldable pub http_api_request :
    Bool → Http → Account → Bytes → Bytes → Bytes → List (Bytes × Bytes) × Option (Option Bytes)
unfolding api_url http_req_ok
http_api_request memory http v route field arg =
    if not memory
    then ([], none)
    else let payload = api_json field (hex_write v.uid) arg in
      elim (api_url v.server_url route) [
        | none ↦ ([], none)
        | some url ↦ (
          (url, payload) ∷ [],
          elim (http url payload) [
            | none ↦ none
            | some r ↦ if http_req_ok r then some r.buf else none
          ],
        )
      ]

-- What its callers go by.
abbrev pub api_answer : Bool → Http → Account → Bytes → Bytes → Bytes → Option (Option Bytes)
api_answer memory http v route field arg = (http_api_request memory http v route field arg).1

-- The outcomes of the allocations: the buffers, the texts of the key, and those of the request.
pub record Memory : Type 0 where
  pub buffers : Bool
  pub texts : Bool
  pub request : Bool

-- The keys in one buffer: the encryption key, then the authentication key of `aklen` bytes. A
-- length that goes past the buffer, as one that has wrapped does, is no key's.
unfoldable pub set_keys : Crypto → Bytes → ℕ → Crypto × Bool
unfolding crypto_set_key crypto_set_authkey
set_keys c rkey aklen = elim (crypto_set_key c (take c.key_len rkey)) [
  | none ↦ (c, false)
  | some d ↦
      if ltb (length rkey) (c.key_len + aklen)
      then (d, false)
      else elim (crypto_set_authkey d (take aklen (drop c.key_len rkey))) [
        | none ↦ (d, false)
        | some e ↦ (e, true)
      ]
]

module _ (o : Ops) where
  -- The envelope: the encrypted block of keys and the tag, as text.
  unfoldable pub envelope : Crypto → Bytes → Crypto × Option Bytes
  envelope c rkey =
      let (d, out) = crypto_encrypt o c rkey (crypto_get_buflen c (length rkey)) in
      elim out [
        | none ↦ (d, none)
        | some ekey ↦ (d, some (hex_write ekey ++ (b':' ∷ hex_write d.tag)))
      ]

  -- rvault_push_key: the crypto object afterwards, and whether it returned 0. `rand` is
  -- crypto_getrandbytes, a function of the length.
  unfoldable pub rvault_push_key :
      Memory → (ℕ → Option Bytes) → Http → Account → Crypto → Crypto × Bool
  rvault_push_key m rand http v c =
      if not m.buffers then (c, false) else elim (rand (c.key_len + c.auth_key_len)) [
        | none ↦ (c, false)
        | some rkey ↦
            let (d, text) = envelope c rkey in
            if not m.texts then (d, false) else elim text [
              | none ↦ (d, false)
              | some ekey_hex ↦
                  elim (api_answer m.request http v (codes "register") (codes "key") ekey_hex) [
                    | none ↦ (d, false)
                    | some printed ↦ set_keys d rkey d.auth_key_len
                  ]
            ]
      ]

  -- The part of rvault_pull_key behind the request.
  unfoldable pub open_envelope : Memory → Crypto → Bytes → Crypto × Bool
  open_envelope m c buf = elim (rvault_unhex_aedata buf) [
    | none ↦ (c, false)
    | some (ekey, tag) ↦ elim (crypto_set_aetag c tag (length tag)) [
      | none ↦ (c, false)
      | some d ↦
          if not m.buffers
          then (d, false)
          else (let blen = crypto_get_buflen d (length ekey) in
              let (e, out) = crypto_decrypt o d ekey (length ekey) blen in
              elim out [
                | none ↦ (e, false)
                | some rkey ↦
                    set_keys e (rkey ++ o.residue d ekey (blen - length rkey))
                      ((length rkey + (size_mod - e.key_len)) % size_mod)
              ])
    ]
  ]

-- isalnum, in the C locale.
unfoldable pub isalnum : ℕ → Bool
isalnum ch = leb b'0' ch && leb ch b'9' || leb b'A' ch && leb ch b'Z' || leb b'a' ch && leb ch b'z'

-- The code, without spaces and other separators.
unfoldable pub trim_code : Bytes → Bytes
unfolding isalnum
trim_code [] = []
trim_code (ch ∷ s) = let rest = trim_code s in if isalnum ch then ch ∷ rest else rest

module _ (o : Ops) where
  -- rvault_pull_key; `typed` is what getpass returns.
  unfoldable pub rvault_pull_key : Memory → Option Bytes → Http → Account → Crypto → Crypto × Bool
  rvault_pull_key m none http v c = (c, false)
  rvault_pull_key m (some typed) http v c =
      elim (api_answer m.request http v (codes "auth") (codes "code") (trim_code typed)) [
        | none ↦ (c, false)
        | some none ↦ (c, false)
        | some (some buf) ↦ open_envelope o m c buf
      ]
