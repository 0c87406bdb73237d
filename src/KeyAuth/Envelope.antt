-- ===== src/KeyAuth/Envelope.antt =====
-- The keys that rvault_push_key registers are those that rvault_pull_key activates; requests that
-- are refused leave the keys.
use rvault.Prelude.{
  Option-cases, inl, inr, ◌+◌, ◌-◌, ◌^◌, ◌%◌, ◌≤◌, ◌<◌, ◌≡◌, refl, true, none, some, ◌++◌, arith,
  length, length-append, take, drop, ap, length-take, length-drop, ap₂, ◌∙◌, sym,
}
use rvault.Prelude.Bytes.{Bytes}
use rvault.Prelude.Cuts.{take-append_le, drop-append_le}
use rvault.Buffer.{size_mod}
use rvault.Crypto.{
  decrypted_data, crypto_set_aetag, Crypto, Ops, Laws, crypto_encrypt, crypto_set_key,
  crypto_set_authkey, crypto_get_buflen,
}
use rvault.Crypto.Inverse.{crypto_encrypt_frame}
use rvault.Resolve.Sealed.{IsShort, sealed, unhex-sealed, set_aetag-sealed, decrypt-sealed}
use rvault.KeyAuth.{
  trim_code, codes, api_answer, Account, Http, ℕ, Option, rvault_push_key, envelope,
  rvault_pull_key, rvault_unhex_aedata, Bool, Memory, set_keys, open_envelope,
}

-- A buffer that is long enough, with anything behind the keys.
pub set_keys_full :
    (c : Crypto) (b : Bytes)
    → c.key_len + c.auth_key_len ≤ length b
    → set_keys c b c.auth_key_len ≡ (
      record c {
        key = take c.key_len b;
        enc_key_set = true;
        auth_key = take c.auth_key_len (drop c.key_len b);
        auth_key_set = true;
      },
      true,
    )
unfolding set_keys crypto_set_key crypto_set_authkey
set_keys_full c b h = ground (
  arith,
  length-take c.key_len b,
  length-take c.auth_key_len (drop c.key_len b),
  length-drop c.key_len b,
)

set_keys-append :
    (c : Crypto) (rkey rest : Bytes)
    → length rkey ≡ c.key_len + c.auth_key_len
    → set_keys c (rkey ++ rest) c.auth_key_len ≡ set_keys c rkey c.auth_key_len
set_keys-append c rkey rest l =
    let keys : Bytes → Bytes → Crypto × Bool =
      λ k a. (record c { key = k; enc_key_set = true; auth_key = a; auth_key_set = true }, true) in
    set_keys_full c (rkey ++ rest) (omega (arith, length-append rkey rest))
    ∙ ap₂ keys (take-append_le c.key_len rkey rest (omega arith)) (
        ap (take c.auth_key_len) (drop-append_le c.key_len rkey rest (omega arith))
        ∙ take-append_le c.auth_key_len (drop c.key_len rkey) rest
            (omega (arith, length-drop c.key_len rkey)))
    ∙ sym (set_keys_full c rkey (omega arith))

pub open_envelope_steps :
    (o : Ops) (m : Memory) (c d : Crypto) (buf ekey tag rkey : Bytes)
    → m.buffers ≡ true
    → rvault_unhex_aedata buf ≡ some (ekey, tag)
    → crypto_set_aetag c tag (length tag) ≡ some d
    → decrypted_data o d ekey (length ekey) (crypto_get_buflen d (length ekey)) ≡ some rkey
    → open_envelope o m c buf
      ≡ set_keys
          (record d { aad = none })
          (rkey ++ o.residue d ekey (crypto_get_buflen d (length ekey) - length rkey))
          ((length rkey + (size_mod - d.key_len)) % size_mod)
unfolding open_envelope
open_envelope_steps o m c d buf ekey tag rkey ok unhexed set decrypted =
    rw (open_envelope, unhexed, set, ok, decrypted) refl

module _ (o : Ops) (laws : Laws o) (c : Crypto) (rkey ct : Bytes) (short : IsShort c rkey)
    (l : length rkey ≡ c.key_len + c.auth_key_len) (small : length rkey < 2 ^ 64)
    (h : (crypto_encrypt o c rkey (crypto_get_buflen c (length rkey))).1 ≡ some ct) where
  abbrev sealing : Crypto
  sealing = (crypto_encrypt o c rkey (crypto_get_buflen c (length rkey))).0

  -- The envelope opens to the keys, whatever tag was in the crypto object.
  open_envelope-envelope :
      (m : Memory) (u : Bytes)
      → m.buffers ≡ true
      → open_envelope o m (record c { tag = u }) (sealed ct sealing.tag)
        ≡ set_keys sealing rkey sealing.auth_key_len
  open_envelope-envelope m u buffers =
      let opened : Crypto = record c { tag = sealing.tag; aad = none } in
      let outlen = crypto_get_buflen c (length rkey) in
      let back = crypto_get_buflen c (length ct) - length rkey in
      let behind = o.residue (record c { tag = sealing.tag }) ct back in
      open_envelope_steps o m (record c { tag = u }) (record c { tag = sealing.tag })
        (sealed ct sealing.tag) ct sealing.tag rkey buffers
        (unhex-sealed o laws c rkey ct outlen short h)
        (set_aetag-sealed o laws c rkey ct outlen short h u)
        (decrypt-sealed o laws c rkey ct outlen short h)
      ∙ ap (set_keys opened (rkey ++ behind))
          {x = (length rkey + (size_mod - c.key_len)) % size_mod} {y = c.auth_key_len} (omega arith)
      ∙ set_keys-append opened rkey behind l
      ∙ ap (λ d. set_keys d rkey d.auth_key_len) (sym (crypto_encrypt_frame o c rkey outlen))

  envelope-sealed : envelope o c rkey ≡ (sealing, some (sealed ct sealing.tag))
  unfolding envelope
  envelope-sealed =
      ap
        (λ out. elim out as (λ _. Crypto × Option Bytes) [
          | none ↦ (sealing, none)
          | some ekey ↦ (sealing, some (sealed ekey sealing.tag))
        ])
        h

  push-set_keys :
      (m : Memory) (rand : ℕ → Option Bytes) (http : Http) (v : Account)
      → rand (c.key_len + c.auth_key_len) ≡ some rkey
      → (rvault_push_key o m rand http v c).1 ≡ true
      → rvault_push_key o m rand http v c ≡ set_keys sealing rkey sealing.auth_key_len
  unfolding rvault_push_key
  push-set_keys m rand http v drawn ok = ground (arith, envelope-sealed)

  pull-push :
      (mp m : Memory) (rand : ℕ → Option Bytes) (http http' : Http) (v : Account) (typed u : Bytes)
      → m.buffers ≡ true
      → rand (c.key_len + c.auth_key_len) ≡ some rkey
      → api_answer m.request http' v (codes "auth") (codes "code") (trim_code typed)
        ≡ some (envelope o c rkey).1
      → (rvault_push_key o mp rand http v c).1 ≡ true
      → rvault_pull_key o m (some typed) http' v (record c { tag = u })
        ≡ rvault_push_key o mp rand http v c
  unfolding rvault_pull_key
  pull-push mp m rand http http' v typed u buffers drawn answered ok =
      let answer = answered ∙ ap (λ r. some r.1) envelope-sealed in
      rw (rvault_pull_key, answer)
        (open_envelope-envelope m u buffers ∙ sym (push-set_keys mp rand http v drawn ok))

-- When the server answers the authentication with the text that rvault_push_key registered for
-- it, rvault_pull_key activates the same keys and leaves the same crypto object, whatever tag
-- was left in it before, if the block of keys is bytes of both lengths, which with their padding
-- are at most 511.
pub rvault_pull_key-rvault_push_key :
    (o : Ops) (laws : Laws o) (c : Crypto) (rkey : Bytes) (mp m : Memory) (rand : ℕ → Option Bytes)
    (http http' : Http) (v : Account) (typed u : Bytes)
    → IsShort c rkey
    → length rkey ≡ c.key_len + c.auth_key_len
    → m.buffers ≡ true
    → rand (c.key_len + c.auth_key_len) ≡ some rkey
    → api_answer m.request http' v (codes "auth") (codes "code") (trim_code typed)
      ≡ some (envelope o c rkey).1
    → (rvault_push_key o mp rand http v c).1 ≡ true
    → rvault_pull_key o m (some typed) http' v (record c { tag = u })
      ≡ rvault_push_key o mp rand http v c
unfolding rvault_push_key envelope
rvault_pull_key-rvault_push_key o laws c rkey mp m rand http http' v typed u short l buffers drawn
      answered ok =
    elim (Option-cases (crypto_encrypt o c rkey (crypto_get_buflen c (length rkey))).1) [
      | inl e ↦ absurd (ground arith)
      | inr (ct, e) ↦
          pull-push o laws c rkey ct short l (omega (arith, short.text_small)) e mp m rand http
            http' v typed u buffers drawn answered ok
    ]
