-- ===== src/Vault/Recover.antt =====
-- A vault opened by its recovery file: src/core/recovery.c with rvault_open_ekey of
-- src/core/rvault.c.
use rvault.Prelude.{
  Bool, ◌≤◌, ◌≡◌, refl, ap, ◌∙◌, sym, true, Option, none, some, arith, length, bind_some,
  guard-some,
}
use rvault.Prelude.Bytes.{Bytes, AreBytes}
use rvault.Crypto.{Crypto, Ops, crypto_set_key, crypto_set_authkey}
use rvault.Storage.RoundTrip.{with_tag_aad}
use rvault.Storage.Keys.{SameKeys}
use rvault.Recovery.{Recovered, rvault_recovery_export, rvault_max_metalen, crypto_max_keylen}
use rvault.Recovery.RoundTrip.{rvault_recovery_import-rvault_recovery_export}
use rvault.Vault.Metadata.{
  Location, get_vault_path, open_metadata, open_metadata_mmap, hdr_cipher0, hdr_hmac_id, hdr_uid,
}
use rvault.Vault.Open.{Rvault, OpenEnv, rvault_open, rvault_open_ekey}
use rvault.Vault.Reopen.{open_hdr_steps}
use rvault.Vault.Checks.{rvault_open-OpenedBy, rvault_open_hdr-Accepted}
use rvault.Vault.Rekeyed.{rekeyed, fetched-rekeyed, keyed-rekeyed}

-- What the recovery file of an opened vault holds: its metadata and the keys in use, which fill
-- their buffers and are no longer than the import accepts.
pub record IsExportable (v : Rvault) (file : Bytes) : Type 0 where
  pub file_bytes : AreBytes file
  pub key_bytes : AreBytes v.crypto.key
  pub auth_key_bytes : AreBytes v.crypto.auth_key
  pub file_short : length file ≤ rvault_max_metalen
  pub key_short : length v.crypto.key ≤ crypto_max_keylen
  pub auth_key_short : length v.crypto.auth_key ≤ crypto_max_keylen
  pub length-key : length v.crypto.key ≡ v.crypto.key_len
  pub length-auth_key : length v.crypto.auth_key ≡ v.crypto.auth_key_len

abbrev pub contents_of : Rvault → Bytes → Recovered
contents_of v file = record {
  metadata_bytes = file;
  ekey_bytes = v.crypto.key;
  akey_bytes = v.crypto.auth_key;
}

-- The keys that are set are those of the opened vault.
set_keys_back :
    (c d : Crypto)
    → d ≡ rekeyed c d
    → length d.key ≡ d.key_len
    → length d.auth_key ≡ d.auth_key_len
    → (x : Crypto) × (crypto_set_key c d.key ≡ some x)
      × (y : Crypto) × (crypto_set_authkey x d.auth_key ≡ some y)
      × SameKeys d y
unfolding crypto_set_key crypto_set_authkey
set_keys_back c d h lk la =
    let kl : d.key_len ≡ c.key_len = ap (λ x. x.key_len) h in
    let al : d.auth_key_len ≡ c.auth_key_len = ap (λ x. x.auth_key_len) h in
    let x : Crypto = record c { key = d.key; enc_key_set = true } in
    let y : Crypto = record x { auth_key = d.auth_key; auth_key_set = true } in
    (x, ground arith, y, ground arith, sym (ap (λ z. with_tag_aad z y.tag y.aad) h))

mapped_file :
    (map_ok : Bool) (l : Location) (path file : Bytes)
    → open_metadata_mmap map_ok l ≡ some (path, file)
    → l.metadata ≡ some file
unfolding open_metadata_mmap open_metadata
mapped_file map_ok l path file h0 =
    let ((p, f), found, h1) = bind_some (open_metadata l) _ (path, file) h0 in
    let (a, b, h2) = bind_some (get_vault_path l) _ (p, f) found in
    let (ok, h3) = guard-some l.memory _ (p, f) h2 in
    let (g, there, h4) = bind_some l.metadata _ (p, f) h3 in ground arith

-- The recovery file that is exported from a vault that rvault_open opened opens the vault again
-- without its passphrase: with the same cipher, HMAC, user ID, IV and keys, if the metadata and
-- the keys are not too long for an import.
pub rvault_open_ekey-rvault_open :
    (o : Ops) (w w' : OpenEnv) (server : Option Bytes) (pwd file path' : Bytes) (v : Rvault)
    → rvault_open o w server pwd ≡ some v
    → w.location.metadata ≡ some file
    → IsExportable v file
    → get_vault_path w'.location ≡ some path'
    → w'.calloc_ok ≡ true
    → (v' : Rvault) × (rvault_open_ekey o w' (some (rvault_recovery_export (contents_of v file)))
        ≡ some v')
      × SameKeys v.crypto v'.crypto
      × (v'.cipher ≡ v.cipher)
      × (v'.hmac_id ≡ v.hmac_id)
      × (v'.uid ≡ v.uid)
unfolding rvault_open_ekey
rvault_open_ekey-rvault_open o w w' server pwd file path' v h meta x found calloc =
    let s = rvault_open-OpenedBy o w server pwd v h in
    let a = rvault_open_hdr-Accepted o w s.file server s.first s.opened in
    let there = mapped_file w.map_ok w.location s.path s.file s.mapped in
    let same : s.file ≡ file = cc in
    let again =
      open_hdr_steps o w' s.file _ (hdr_uid s.file) none _ _ a.blank s.first.crypto a.ver a.file_len
        refl refl (omega (arith, a.hmac_given)) refl refl calloc a.created a.iv_set in
    let kept =
      fetched-rekeyed o w s.file server s.first s.derived v.crypto
        (keyed-rekeyed _ s.first.crypto s.derived s.keyed) s.kept in
    let (c, key_set, d, auth_set, keys) =
      set_keys_back s.first.crypto v.crypto kept x.length-key x.length-auth_key in
    let imported =
      rvault_recovery_import-rvault_recovery_export (contents_of v file) x.file_bytes x.key_bytes
        x.auth_key_bytes x.file_short x.key_short x.auth_key_short in
    (
      record {
        base_path = some path';
        server_url = none;
        cipher = hdr_cipher0 s.file;
        hmac_id = hdr_hmac_id s.file;
        crypto = d;
        uid = hdr_uid s.file;
      },
      rw (rvault_open_ekey, imported, found, sym same, again, key_set, auth_set) refl,
      keys,
      sym (ap (λ u. u.cipher) s.rest ∙ a.cipher),
      sym (ap (λ u. u.hmac_id) s.rest ∙ a.hmac_id),
      sym (ap (λ u. u.uid) s.rest ∙ a.uid),
    )
