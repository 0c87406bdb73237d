-- ===== src/Vault/Rekeyed.antt =====
-- Fetching keys changes nothing of a crypto object but keys, tag and AAD: src/core/keyauth.c and
-- src/core/rvault.c.
use rvault.Prelude.{
  Bool, ℕ, ◌≡◌, ap, ◌∙◌, sym, subst, true, Option, none, some, arith, length, Option-cases,
  Bool-cases, ◌==◌, inl, inr,
}
use Prim.Native.Nat.{bit_and}
use rvault.Prelude.Bytes.{Bytes, codes}
use rvault.Crypto.{
  Crypto, Ops, crypto_set_key, crypto_set_authkey, crypto_set_passphrasekey, crypto_set_aetag,
  decrypted_data, crypto_get_buflen,
}
use rvault.Resolve.{rvault_unhex_aedata}
use rvault.KeyAuth.{
  Memory, Http, Account, set_keys, open_envelope, rvault_pull_key, api_answer, trim_code,
}
use rvault.KeyAuth.Envelope.{open_envelope_steps}
use rvault.Vault.Metadata.{rvault_flag_noauth, hdr_flags}
use rvault.Vault.Open.{Rvault, OpenEnv, fetched}

-- The first object with the keys, the tag and the AAD of the second.
abbrev pub rekeyed : Crypto → Crypto → Crypto
rekeyed c d = record c {
  key = d.key;
  enc_key_set = true;
  auth_key = d.auth_key;
  auth_key_set = true;
  tag = d.tag;
  aad = d.aad;
}

set_keys-rekeyed :
    (c : Crypto) (b : Bytes) (n : ℕ)
    → (set_keys c b n).1 ≡ true
    → (set_keys c b n).0 ≡ rekeyed c (set_keys c b n).0
unfolding set_keys crypto_set_key crypto_set_authkey
set_keys-rekeyed c b n h = ground arith

pub aetag-same :
    (c d : Crypto) (t : Bytes) (n : ℕ)
    → crypto_set_aetag c t n ≡ some d
    → d ≡ record c { tag = d.tag }
unfolding crypto_set_aetag
aetag-same c d t n h = ground arith

-- An object made from another by tags and keys alone.
through :
    (c d : Crypto) (r e : Crypto × Bool)
    → d ≡ record c { tag = d.tag }
    → r ≡ e
    → e.0 ≡ rekeyed (record d { aad = none }) e.0
    → r.0 ≡ rekeyed c r.0
through c d r e same run keyed =
    ap (λ x. x.0) run ∙ keyed ∙ ap (λ x. rekeyed x e.0) same ∙ ap (λ x. rekeyed c x.0) (sym run)

open_envelope-rekeyed :
    (o : Ops) (m : Memory) (c : Crypto) (buf : Bytes)
    → (open_envelope o m c buf).1 ≡ true
    → (open_envelope o m c buf).0 ≡ rekeyed c (open_envelope o m c buf).0
unfolding open_envelope
open_envelope-rekeyed o m c buf h = elim (Option-cases (rvault_unhex_aedata buf)) [
  | inl a ↦ absurd (ground arith)
  | inr ((ekey, tag), a) ↦ elim (Option-cases (crypto_set_aetag c tag (length tag))) [
    | inl b ↦ absurd (ground arith)
    | inr (d, b) ↦
        elim (Option-cases
          (decrypted_data o d ekey (length ekey) (crypto_get_buflen d (length ekey)))) [
            | inl q ↦ absurd (ground arith)
            | inr (rkey, q) ↦
                let ok : m.buffers ≡ true = ground arith in
                let run = open_envelope_steps o m c d buf ekey tag rkey ok a b q in
                through c d (open_envelope o m c buf) _ (aetag-same c d tag (length tag) b) run
                  (set_keys-rekeyed (record d { aad = none }) _ _ (sym (ap (λ x. x.1) run) ∙ h))
          ]
  ]
]

pull-rekeyed :
    (o : Ops) (m : Memory) (typed : Option Bytes) (http : Http) (v : Account) (c d : Crypto)
    → rvault_pull_key o m typed http v c ≡ (d, true)
    → d ≡ rekeyed c d
unfolding rvault_pull_key
pull-rekeyed o m none http v c d h = absurd (ground arith)
pull-rekeyed o m (some typed) http v c d h =
    elim (Option-cases
      (api_answer m.request http v (codes "auth") (codes "code") (trim_code typed))) [
        | inl a ↦ absurd (ground arith)
        | inr (none, a) ↦ absurd (ground arith)
        | inr (some buf, a) ↦
            let run : open_envelope o m c buf ≡ (d, true) = ground arith in
            let kept = open_envelope-rekeyed o m c buf (ap (λ x. x.1) run) in
            ap (λ x. x.0) (sym run) ∙ kept ∙ ap (λ x. rekeyed c x.0) run
      ]

pub fetched-rekeyed :
    (o : Ops) (w : OpenEnv) (hdr : Bytes) (server : Option Bytes) (v : Rvault) (c d : Crypto)
    → c ≡ rekeyed v.crypto c
    → fetched o w hdr server v c ≡ some d
    → d ≡ rekeyed v.crypto d
unfolding fetched
fetched-rekeyed o w hdr none v c d keyed h =
    let same : c ≡ d = ground arith in subst (λ x. x ≡ rekeyed v.crypto x) same keyed
fetched-rekeyed o w hdr (some url) v c d keyed h =
    elim (Bool-cases (bit_and (hdr_flags hdr) rvault_flag_noauth == 0)) [
      | inl auth ↦
          let pulled : rvault_pull_key o w.memory w.typed w.http
                (record { server_url = url; uid = v.uid }) c
              ≡ (d, true) =
            ground arith in
          pull-rekeyed o w.memory w.typed w.http (record { server_url = url; uid = v.uid }) c d
            pulled
          ∙ ap (λ x. rekeyed x d) keyed
      | inr noauth ↦
          let same : c ≡ d = ground arith in subst (λ x. x ≡ rekeyed v.crypto x) same keyed
    ]

pub keyed-rekeyed :
    (kdf : ℕ → Option Bytes) (c d : Crypto)
    → crypto_set_passphrasekey kdf c ≡ some d
    → d ≡ rekeyed c d
unfolding crypto_set_passphrasekey
keyed-rekeyed kdf c d h = ground arith
