-- ===== src/Vault/Reopen.antt =====
-- A vault that rvault_init created is opened by rvault_open.
use rvault.Prelude.{
  Bool, ℕ, not, ltb, ◌||◌, ==_iff, ◌≤◌, ◌<◌, ◌≡◌, refl, ap, ◌∙◌, sym, subst, true, Option, none,
  some, [], ◌++◌, ◌==◌, arith, length, take, take_all, append-nil,
}
use rvault.Prelude.Bytes.{Bytes}
use rvault.Crypto.{
  hmac_none, Crypto, Ops, crypto_set_iv, crypto_set_passphrasekey, crypto_hmac_len, crypto_hmac,
  crypto_create,
}
use rvault.Crypto.Inverse.{equal_refl}
use rvault.Kdf.{kdf_passphrase_genkey}
use rvault.Vault.Metadata.{
  Location, new_hdr, get_vault_path, open_metadata, open_metadata_mmap, rvault_hmac_compute,
  rvault_hmac_verify, rvault_hmac_datalen, rvault_hdr_len,
}
use rvault.Vault.Init.{InitEnv, fits_hdr, parse_uid}
use rvault.Vault.Created.{Created, DerivedBy, derive-DerivedBy}
use rvault.Vault.Open.{Rvault, OpenEnv, rvault_open_hdr, fetched, rvault_open}
use rvault.Vault.Layout.{ReadsAs, new_hdr-ReadsAs}
use rvault.Storage.Header.{rvault_abi_ver}
use rvault.Vault.Metadata.{
  hdr_ver, hdr_hmac_len, rvault_hdr_to_hmac, hdr_cipher0, hdr_hmac_id, hdr_iv0_len, hdr_uid,
  rvault_hdr_to_iv0, rvault_file_len,
}

-- The file is there and can be read, memory suffices, and scrypt is the same function.
pub record IsReady (e : InitEnv) (w : OpenEnv) (path file : Bytes) : Type 0 where
  pub mapped : w.map_ok ≡ true
  pub allocated : w.calloc_ok ≡ true
  pub found : w.location.real ≡ some path
  pub directory : w.location.directory ≡ true
  pub memory : w.location.memory ≡ true
  pub allowed : w.location.allowed ≡ true
  pub metadata : w.location.metadata ≡ some file
  pub scrypt : w.scrypt ≡ e.scrypt

open_metadata_mmap_ready :
    (l : Location) (map_ok : Bool) (path file : Bytes)
    → map_ok ≡ true
    → l.real ≡ some path
    → l.directory ≡ true
    → l.memory ≡ true
    → l.allowed ≡ true
    → l.metadata ≡ some file
    → 32 ≤ length file
    → open_metadata_mmap map_ok l ≡ some (path, file)
unfolding open_metadata_mmap open_metadata get_vault_path
open_metadata_mmap_ready l map_ok path file m r d s a t long =
    let ok : not (ltb (length file) rvault_hdr_len) ≡ true = ground arith in
    rw (open_metadata_mmap, open_metadata, get_vault_path, r, d, s, t, a, ok, m) refl

hmac_known-bounds : (h n : ℕ) → crypto_hmac_len h ≡ some n → (0 < h) × (h ≤ 2) × (n ≡ 32)
unfolding crypto_hmac_len
hmac_known-bounds h n e = (ground arith, ground arith, ground arith)

fits_hdr-bounds :
    (flags cipher hmac_len : ℕ) (iv kp : Bytes)
    → fits_hdr flags cipher hmac_len iv kp ≡ true
    → (cipher < 256) × (flags < 256) × (length kp < 256) × (length iv < 256)
unfolding fits_hdr
fits_hdr-bounds flags cipher hmac_len iv kp h =
    (ground arith, ground arith, ground arith, ground arith)

parse_uid-length : (ok : Bool) (s uid : Bytes) → parse_uid ok s ≡ some uid → length uid ≡ 16
unfolding parse_uid
parse_uid-length ok s uid h = ground arith

set_iv-length : (c d : Crypto) (iv : Bytes) → crypto_set_iv c iv ≡ some d → c.iv_len ≡ length iv
unfolding crypto_set_iv
set_iv-length c d iv h = ground arith

pub open_hdr_steps :
    (o : Ops) (w : OpenEnv) (h iv uid : Bytes) (server : Option Bytes) (cipher hmac_id : ℕ)
    (c d : Crypto)
    → hdr_ver h ≡ 3
    → rvault_file_len h ≡ length h
    → hdr_cipher0 h ≡ cipher
    → hdr_hmac_id h ≡ hmac_id
    → 0 < hmac_id
    → take (hdr_iv0_len h) (rvault_hdr_to_iv0 h) ≡ iv
    → hdr_uid h ≡ uid
    → w.calloc_ok ≡ true
    → crypto_create o cipher hmac_id ≡ some c
    → crypto_set_iv c iv ≡ some d
    → rvault_open_hdr o w h server
      ≡ some (record {
        base_path = none;
        server_url = server;
        cipher = cipher;
        hmac_id = hmac_id;
        crypto = d;
        uid = uid;
      })
unfolding rvault_open_hdr
open_hdr_steps o w h iv uid server cipher hmac_id c d ver len ci hm pos ivs us calloc created set =
    let known : not (not (rvault_file_len h == length h) || hdr_hmac_id h == hmac_none) ≡ true =
      ground arith in
    let current : (hdr_ver h == rvault_abi_ver) ≡ true = ground arith in
    rw (rvault_open_hdr, current, known, calloc, ci, hm, created, ivs, set, us) refl

module _ (o : Ops) (e : InitEnv) (server : Option Bytes) (pwd uid_str : Bytes)
    (cipher_str mac_str : Option Bytes) (flags : ℕ) (file : Bytes)
    (cr : Created o e server pwd uid_str cipher_str mac_str flags file) where
  pub by : DerivedBy o e cr.cipher cr.hmac_id pwd cr.k
  by = derive-DerivedBy o e cr.cipher cr.hmac_id pwd cr.k cr.derived

  abbrev hdr : Bytes
  hdr = new_hdr flags cr.cipher cr.hmac_id cr.hmac_len cr.uid cr.k.iv cr.k.kp

  lu : length cr.uid ≡ 16
  lu = parse_uid-length e.uid_ok uid_str cr.uid cr.uid_parsed

  bounds : (cr.cipher < 256) × (flags < 256) × (length cr.k.kp < 256) × (length cr.k.iv < 256)
  bounds = fits_hdr-bounds flags cr.cipher cr.hmac_len cr.k.iv cr.k.kp cr.fits

  known : (0 < cr.hmac_id) × (cr.hmac_id ≤ 2) × (cr.hmac_len ≡ 32)
  known = hmac_known-bounds cr.hmac_id cr.hmac_len cr.hmac_known

  whole :
      (rest : Bytes)
      → ReadsAs (hdr ++ rest) flags cr.cipher cr.hmac_id cr.hmac_len cr.uid cr.k.iv cr.k.kp rest
  whole rest =
      new_hdr-ReadsAs flags cr.cipher cr.hmac_id cr.hmac_len cr.uid cr.k.iv cr.k.kp rest lu bounds.3
        bounds.2

  -- The file itself.
  pub there : ReadsAs file flags cr.cipher cr.hmac_id cr.hmac_len cr.uid cr.k.iv cr.k.kp cr.mac
  there =
      subst (λ f. ReadsAs f flags cr.cipher cr.hmac_id cr.hmac_len cr.uid cr.k.iv cr.k.kp cr.mac)
        cr.contents (whole cr.mac)

  -- The vault that rvault_open_hdr makes of the new file.
  abbrev pub opened : Option Bytes → Rvault
  opened server' = record {
    base_path = none;
    server_url = server';
    cipher = cr.cipher;
    hmac_id = cr.hmac_id;
    crypto = by.with_iv;
    uid = cr.uid;
  }

  rvault_open_hdr-Created :
      (w : OpenEnv) (server' : Option Bytes)
      → w.calloc_ok ≡ true
      → rvault_open_hdr o w file server' ≡ some (opened server')
  rvault_open_hdr-Created w server' ok =
      open_hdr_steps o w file cr.k.iv cr.uid server' cr.cipher cr.hmac_id by.blank by.with_iv
        there.ver (omega (arith, there.file_len, there.length-file, known, cr.length-mac))
        (there.cipher_read ∙ omega (arith, bounds)) (there.hmac_id_read ∙ omega (arith, known))
        known.0 there.iv_read there.uid_read ok by.created by.iv_set

  rvault_hmac_verify-Created : rvault_hmac_verify o cr.c file ≡ true
  unfolding rvault_hmac_verify rvault_hmac_compute
  rvault_hmac_verify-Created =
      let alone = (whole []).data_read in
      let stored : crypto_hmac o cr.c (take (rvault_hmac_datalen file) file) ≡ some cr.mac =
        ap (crypto_hmac o cr.c)
          (there.data_read ∙ sym alone ∙ ap (λ h. take (rvault_hmac_datalen h) h) (append-nil hdr))
        ∙ cr.sealed in
      let same : (length cr.mac == hdr_hmac_len file) ≡ true =
        (==_iff _ _).1 (omega (arith, there.hmac_len_read, known, cr.length-mac)) in
      let tag : take (hdr_hmac_len file) (rvault_hdr_to_hmac file) ≡ cr.mac =
        ap (take (hdr_hmac_len file)) there.hmac_read
        ∙ take_all (hdr_hmac_len file) cr.mac
            (omega (arith, there.hmac_len_read, known, cr.length-mac)) in
      rw (rvault_hmac_verify, rvault_hmac_compute, stored, same, tag, equal_refl cr.mac) refl

  pub rvault_open-Created :
      (w : OpenEnv) (server' : Option Bytes) (path : Bytes)
      → IsReady e w path file
      → fetched o w file server' (opened server') cr.k.crypto ≡ some cr.c
      → rvault_open o w server' pwd
        ≡ some (record (opened server') { base_path = some path; crypto = cr.c })
  unfolding rvault_open
  rvault_open-Created w server' path ready fetch =
      let mapped =
        open_metadata_mmap_ready w.location w.map_ok path file ready.mapped ready.found
          ready.directory ready.memory ready.allowed ready.metadata
          (omega (arith, there.length-file)) in
      let derivation : crypto_set_passphrasekey (kdf_passphrase_genkey w.scrypt pwd (some cr.k.kp))
            by.with_iv
          ≡ some cr.k.crypto =
        subst
          (λ f.
            crypto_set_passphrasekey (kdf_passphrase_genkey f pwd (some cr.k.kp)) by.with_iv
            ≡ some cr.k.crypto)
          (sym ready.scrypt) by.keyed in
      rw
        (
          rvault_open,
          mapped,
          rvault_open_hdr-Created w server' ready.allocated,
          there.kp_read,
          derivation,
          fetch,
          rvault_hmac_verify-Created,
        )
        refl
