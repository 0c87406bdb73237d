-- ===== src/Vault/Checks.antt =====
-- What rvault_open of src/core/rvault.c has checked of the vault that it returns.
use rvault.Prelude.{
  ◌+◌, ◌≤◌, ◌≡◌, ap, ◌∙◌, sym, subst, not, ◌||◌, true, Option, some, ◌==◌, arith, length,
  length-drop, take, drop, take_all, bind_some, guard-some, Option-cases, inl, inr,
}
use rvault.Prelude.Bytes.{Bytes}
use rvault.Prelude.Cuts.{drop-drop}
use rvault.Crypto.{
  Crypto, Ops, crypto_create, crypto_set_iv, crypto_set_passphrasekey, crypto_hmac, hmac_none,
}
use rvault.Crypto.Inverse.{equal_sound}
use rvault.Kdf.{kdf_passphrase_genkey}
use rvault.Storage.Header.{rvault_abi_ver}
use rvault.Vault.Metadata.{
  open_metadata_mmap, rvault_hmac_verify, rvault_hmac_compute, rvault_hmac_datalen, rvault_file_len,
  hdr_ver, hdr_hmac_id, hdr_cipher0, hdr_uid, hdr_iv0_len, hdr_kp_len, hdr_hmac_len, hdr_iv1_len,
  rvault_hdr_to_iv0, rvault_hdr_to_kp, rvault_hdr_to_hmac,
}
use rvault.Vault.Open.{Rvault, OpenEnv, rvault_open_hdr, fetched, rvault_open}

-- A header that rvault_open_hdr accepted.
pub record Accepted (o : Ops) (hdr : Bytes) (v : Rvault) : Type 0 where
  pub blank : Crypto
  pub ver : hdr_ver hdr ≡ 3
  pub file_len : rvault_file_len hdr ≡ length hdr
  pub created : crypto_create o (hdr_cipher0 hdr) (hdr_hmac_id hdr) ≡ some blank
  pub iv_set : crypto_set_iv blank (take (hdr_iv0_len hdr) (rvault_hdr_to_iv0 hdr)) ≡ some v.crypto
  pub cipher : v.cipher ≡ hdr_cipher0 hdr
  pub hmac_id : v.hmac_id ≡ hdr_hmac_id hdr
  pub hmac_given : 1 ≤ hdr_hmac_id hdr
  pub uid : v.uid ≡ hdr_uid hdr

pub rvault_open_hdr-Accepted :
    (o : Ops) (w : OpenEnv) (hdr : Bytes) (server : Option Bytes) (v : Rvault)
    → rvault_open_hdr o w hdr server ≡ some v
    → Accepted o hdr v
unfolding rvault_open_hdr
rvault_open_hdr-Accepted o w hdr server v h0 =
    let (current, h1) = guard-some (hdr_ver hdr == rvault_abi_ver) _ v h0 in
    let (sound, h2) =
      guard-some (not (not (rvault_file_len hdr == length hdr) || hdr_hmac_id hdr == hmac_none)) _ v
        h1 in
    let (ok, h3) = guard-some w.calloc_ok _ v h2 in
    let (blank, created, h4) =
      bind_some (crypto_create o (hdr_cipher0 hdr) (hdr_hmac_id hdr)) _ v h3 in
    let (d, iv_set, h5) =
      bind_some (crypto_set_iv blank (take (hdr_iv0_len hdr) (rvault_hdr_to_iv0 hdr))) _ v h4 in
    record {
      blank = blank;
      ver = ground arith;
      file_len = ground arith;
      created = created;
      iv_set = iv_set ∙ ap some (ground arith);
      cipher = ground arith;
      hmac_id = ground arith;
      hmac_given = ground arith;
      uid = ground arith;
    }

-- The steps of an opening that succeeded.
pub record OpenedBy (o : Ops) (w : OpenEnv) (server : Option Bytes) (pwd : Bytes) (v : Rvault)
    : Type 0 where
  pub path : Bytes
  pub file : Bytes
  pub first : Rvault
  pub derived : Crypto
  pub mapped : open_metadata_mmap w.map_ok w.location ≡ some (path, file)
  pub opened : rvault_open_hdr o w file server ≡ some first
  pub keyed :
      crypto_set_passphrasekey
        (kdf_passphrase_genkey w.scrypt pwd (some (take (hdr_kp_len file) (rvault_hdr_to_kp file))))
        first.crypto
      ≡ some derived
  pub kept : fetched o w file server first derived ≡ some v.crypto
  pub verified : rvault_hmac_verify o v.crypto file ≡ true
  pub rest : v ≡ record first { base_path = some path; crypto = v.crypto }

pub rvault_open-OpenedBy :
    (o : Ops) (w : OpenEnv) (server : Option Bytes) (pwd : Bytes) (v : Rvault)
    → rvault_open o w server pwd ≡ some v
    → OpenedBy o w server pwd v
unfolding rvault_open
rvault_open-OpenedBy o w server pwd v h0 =
    let ((path, file), mapped, h1) = bind_some (open_metadata_mmap w.map_ok w.location) _ v h0 in
    let (first, opened, h2) = bind_some (rvault_open_hdr o w file server) _ v h1 in
    let kp = take (hdr_kp_len file) (rvault_hdr_to_kp file) in
    let derivation =
      crypto_set_passphrasekey (kdf_passphrase_genkey w.scrypt pwd (some kp)) first.crypto in
    let (derived, keyed, h3) = bind_some derivation _ v h2 in
    let (d, kept, h4) = bind_some (fetched o w file server first derived) _ v h3 in
    let (verified, h5) = guard-some (rvault_hmac_verify o d file) _ v h4 in
    let same : d ≡ v.crypto = ground arith in
    record {
      path = path;
      file = file;
      first = first;
      derived = derived;
      mapped = mapped;
      opened = opened;
      keyed = keyed;
      kept = kept ∙ ap some same;
      verified = subst (λ c. rvault_hmac_verify o c file ≡ true) same verified;
      rest = ground arith;
    }

hmac_verified :
    (o : Ops) (c : Crypto) (file : Bytes)
    → rvault_hmac_verify o c file ≡ true
    → rvault_file_len file ≡ length file
    → crypto_hmac o c (take (rvault_hmac_datalen file) file)
      ≡ some (drop (rvault_hmac_datalen file) file)
unfolding rvault_hmac_verify rvault_hmac_compute
hmac_verified o c file h len =
    elim (Option-cases (crypto_hmac o c (take (rvault_hmac_datalen file) file))) [
      | inl e ↦ absurd (ground arith)
      | inr (mac, e) ↦
          let stored = take (hdr_hmac_len file) (rvault_hdr_to_hmac file) in
          let same : stored ≡ mac = equal_sound stored mac (ground arith) in
          let at_hmac : rvault_hdr_to_hmac file ≡ drop (rvault_hmac_datalen file) file =
            ap (drop (hdr_kp_len file)) (drop-drop 32 (hdr_iv0_len file + hdr_iv1_len file) file)
            ∙ drop-drop (32 + (hdr_iv0_len file + hdr_iv1_len file)) (hdr_kp_len file) file
            ∙ ap (λ n. drop n file) (omega arith) in
          e
          ∙ ap some (
              sym same
              ∙ ap (take (hdr_hmac_len file)) at_hmac
              ∙ take_all (hdr_hmac_len file) (drop (rvault_hmac_datalen file) file)
                  (omega (arith, len, length-drop (rvault_hmac_datalen file) file)))
    ]

-- A vault that rvault_open returns comes from a metadata file of the current version that is
-- exactly its header, IV and parameters followed by the HMAC of them under the vault's keys, and
-- it names an HMAC: a file that was cut, extended or changed, or other keys, are refused.
pub rvault_open_verified :
    (o : Ops) (w : OpenEnv) (server : Option Bytes) (pwd : Bytes) (v : Rvault)
    → rvault_open o w server pwd ≡ some v
    → (path : Bytes) × (file : Bytes) × (open_metadata_mmap w.map_ok w.location ≡ some (path, file))
      × (hdr_ver file ≡ 3)
      × (rvault_file_len file ≡ length file)
      × (1 ≤ v.hmac_id)
      × (crypto_hmac o v.crypto (take (rvault_hmac_datalen file) file)
          ≡ some (drop (rvault_hmac_datalen file) file))
rvault_open_verified o w server pwd v h =
    let s = rvault_open-OpenedBy o w server pwd v h in
    let a = rvault_open_hdr-Accepted o w s.file server s.first s.opened in
    let id : v.hmac_id ≡ hdr_hmac_id s.file = ap (λ u. u.hmac_id) s.rest ∙ a.hmac_id in
    (
      s.path,
      s.file,
      s.mapped,
      a.ver,
      a.file_len,
      omega (arith, a.hmac_given, id),
      hmac_verified o v.crypto s.file s.verified a.file_len,
    )
