-- ===== src/KeyAuth/Refusals.antt =====
-- What the key exchange of src/core/keyauth.c refuses.
use rvault.Prelude.{
  ℕ, ◌+◌, ◌≡◌, ◌⊎◌, ◌++◌, [], ◌∷◌, Bool-cases, if◌then◌else◌, refl, inl, inr, true, false, Option,
  none, some, arith, length, take_all, Option-cases, subst, ap,
}
use rvault.Prelude.Bytes.{Bytes, codes}
use rvault.Text.{caseless_prefix}
use rvault.Hex.{hex_write}
use rvault.Recovery.{contains_caseless}
use rvault.Crypto.{crypto_get_buflen, Crypto, Ops, decrypted_data, crypto_set_aetag}
use rvault.Crypto.Inverse.{crypto_decrypt_authentic, crypto_encrypt_frame}
use rvault.Resolve.{rvault_unhex_aedata}
use rvault.Storage.Keys.{SameKeys}
use rvault.KeyAuth.Envelope.{set_keys_full}
use rvault.KeyAuth.{
  Bool, Memory, Http, Account, http_api_request, api_answer, api_url, api_json, envelope,
  rvault_push_key, open_envelope, rvault_pull_key, trim_code,
}

caseless_prefix-append :
    (s t p : Bytes) → caseless_prefix s p ≡ true → caseless_prefix (s ++ t) p ≡ true
unfolding caseless_prefix
caseless_prefix-append s t [] h = refl
caseless_prefix-append [] t (y ∷ p) h = absurd (ground arith)
caseless_prefix-append (x ∷ s) t (y ∷ p) h =
    let rest = caseless_prefix-append s t p (ground arith) in ground arith

-- No request is made but over TLS: http_api_request sends nothing, or one request, when the
-- server's URL begins with https://, in any case, to a URL that begins so too, and posts the vault's
-- ID and the argument. With any other server's URL nothing is sent, and it returns -1.
pub http_api_request_over_tls :
    (memory : Bool) (http : Http) (v : Account) (route field arg : Bytes)
    → (((http_api_request memory http v route field arg).0 ≡ [])
        × ((http_api_request memory http v route field arg).1 ≡ none))
      ⊎ ((url : Bytes) × ((http_api_request memory http v route field arg).0
            ≡ (url, api_json field (hex_write v.uid) arg) ∷ [])
          × (caseless_prefix v.server_url (codes "https://") ≡ true)
          × (caseless_prefix url (codes "https://") ≡ true))
unfolding http_api_request api_url
http_api_request_over_tls false http v route field arg = inl (refl, refl)
http_api_request_over_tls true http v route field arg =
    elim (Bool-cases (caseless_prefix v.server_url (codes "https://"))) [
      | inr plain ↦ inl (ground arith, ground arith)
      | inl tls ↦
          let suffix =
            if contains_caseless v.server_url (codes "/api/v1") then [] else codes "api/v1" in
          inr (
            v.server_url ++ (b'/' ∷ (suffix ++ (b'/' ∷ route))),
            ground arith,
            tls,
            caseless_prefix-append v.server_url (b'/' ∷ (suffix ++ (b'/' ∷ route)))
                (codes "https://") tls,
          )
    ]

envelope-SameKeys : (o : Ops) (c : Crypto) (rkey : Bytes) → SameKeys c (envelope o c rkey).0
unfolding envelope
envelope-SameKeys o c rkey =
    ground (arith, crypto_encrypt_frame o c rkey (crypto_get_buflen c (length rkey)))

-- When rvault_push_key fails, the keys in the crypto object are those of before, if the random
-- generator gives as many bytes as are asked for.
pub rvault_push_key_fails :
    (o : Ops) (m : Memory) (rand : ℕ → Option Bytes) (http : Http) (v : Account) (c : Crypto)
    → ((n : ℕ) (r : Bytes) → rand n ≡ some r → length r ≡ n)
    → (rvault_push_key o m rand http v c).1 ≡ false
    → SameKeys c (rvault_push_key o m rand http v c).0
unfolding rvault_push_key
rvault_push_key_fails o m rand http v c full h =
    elim (Option-cases (rand (c.key_len + c.auth_key_len))) [
      | inl e ↦ ground arith
      | inr (rkey, e) ↦
          let kept = envelope-SameKeys o c rkey in
          let sent = (envelope o c rkey).0 in
          let kl : sent.key_len ≡ c.key_len = ap (λ x. x.key_len) kept in
          let al : sent.auth_key_len ≡ c.auth_key_len = ap (λ x. x.auth_key_len) kept in
          let set =
            set_keys_full sent rkey
              (omega (arith, full (c.key_len + c.auth_key_len) rkey e, kl, al)) in
          ground (arith, kept, set)
    ]

-- The text is a ciphertext with its HMAC behind it.
abbrev pub Sealed : Ops → Crypto → Bytes → Type 0
Sealed o c buf =
    (ekey : Bytes) × (tag : Bytes) × (rvault_unhex_aedata buf ≡ some (ekey, tag))
    × (o.hmac (record c { tag = tag }) ekey c.aad ≡ some tag)

open_envelope-Sealed :
    (o : Ops) (m : Memory) (c : Crypto) (buf ekey tag : Bytes)
    → c.ae_cipher ≡ false
    → rvault_unhex_aedata buf ≡ some (ekey, tag)
    → (open_envelope o m c buf).1 ≡ true
    → o.hmac (record c { tag = tag }) ekey c.aad ≡ some tag
unfolding open_envelope crypto_set_aetag
open_envelope-Sealed o m c buf ekey tag ae e h =
    let d : Crypto = record c { tag = tag } in
    let whole = take_all (length tag) tag (omega arith) in
    let all = take_all (length ekey) ekey (omega arith) in
    elim (Option-cases
      (decrypted_data o d ekey (length ekey) (crypto_get_buflen d (length ekey)))) [
        | inl failed ↦ ground (arith, whole)
        | inr (p, opened) ↦
            let (mac, len) =
              crypto_decrypt_authentic o d ekey p (length ekey) (crypto_get_buflen d (length ekey))
                ae opened in
            subst (λ x. o.hmac d x c.aad ≡ some tag) all mac
      ]

-- When rvault_pull_key returns 0 and the cipher has no tag of its own, the server's answer was a
-- ciphertext with the HMAC of it under the derived key: a changed envelope is refused.
pub rvault_pull_key_authentic :
    (o : Ops) (m : Memory) (typed : Bytes) (http : Http) (v : Account) (c : Crypto)
    → c.ae_cipher ≡ false
    → (rvault_pull_key o m (some typed) http v c).1 ≡ true
    → (buf : Bytes) × (api_answer m.request http v (codes "auth") (codes "code") (trim_code typed)
        ≡ some (some buf))
      × Sealed o c buf
unfolding rvault_pull_key open_envelope
rvault_pull_key_authentic o m typed http v c ae h =
    let answer = api_answer m.request http v (codes "auth") (codes "code") (trim_code typed) in
    elim (Option-cases answer) [
      | inl e ↦ absurd (ground arith)
      | inr (none, e) ↦ absurd (ground arith)
      | inr (some buf, e) ↦ elim (Option-cases (rvault_unhex_aedata buf)) [
        | inl bad ↦ absurd (ground arith)
        | inr ((ekey, tag), good) ↦ (
          buf,
          e,
          (ekey, tag, good, open_envelope-Sealed o m c buf ekey tag ae good (ground arith)),
        )
      ]
    ]
