-- ===== src/Vault/Created.antt =====
-- What a vault that rvault_init created has gone through.
use rvault.Prelude.{
  subst, take_all, sym, ap, ◌∙◌, Option-cases, inl, inr, ℕ, ◌≡◌, true, Option, some, ◌++◌, ◌==◌,
  ==_iff, arith, length, bind_some, guard-some,
}
use rvault.Prelude.Bytes.{Bytes}
use rvault.Crypto.{
  crypto_set_passphrasekey, crypto_set_iv, crypto_create, Crypto, Ops, crypto_hmac_len,
}
use rvault.Kdf.{kdf_create_params, kdf_passphrase_genkey}
use rvault.Files.{fs_write, fs_write_lem}
use rvault.Vault.Metadata.{new_hdr, rvault_hmac_compute}
use rvault.Vault.Init.{
  crypto_gen_iv, rvault_init, store_metadata, InitEnv, Derived, choose_cipher, choose_hmac,
  fits_hdr, parse_uid, derive, effective, new_metadata,
}

-- The contents of a new metadata file, and where each part of them comes from.
pub record Created (o : Ops) (e : InitEnv) (server : Option Bytes) (pwd uid_str : Bytes)
    (cipher_str mac_str : Option Bytes) (flags : ℕ) (file : Bytes) : Type 0 where
  pub cipher : ℕ
  pub hmac_id : ℕ
  pub hmac_len : ℕ
  pub uid : Bytes
  pub mac : Bytes
  pub k : Derived
  pub c : Crypto
  pub cipher_chosen : choose_cipher cipher_str ≡ some cipher
  pub hmac_chosen : choose_hmac mac_str ≡ some hmac_id
  pub derived : derive o e cipher hmac_id pwd ≡ some k
  pub hmac_known : crypto_hmac_len hmac_id ≡ some hmac_len
  pub fits : fits_hdr flags cipher hmac_len k.iv k.kp ≡ true
  pub uid_parsed : parse_uid e.uid_ok uid_str ≡ some uid
  pub kept : effective o e server flags uid k.crypto ≡ some c
  pub sealed :
      rvault_hmac_compute o c (new_hdr flags cipher hmac_id hmac_len uid k.iv k.kp) ≡ some mac
  pub length-mac : length mac ≡ hmac_len
  pub contents : new_hdr flags cipher hmac_id hmac_len uid k.iv k.kp ++ mac ≡ file

module _ (o : Ops) (e : InitEnv) (server : Option Bytes) (pwd uid_str : Bytes)
    (cipher_str mac_str : Option Bytes) (flags : ℕ) (file : Bytes) where
  new_metadata-Created :
      new_metadata o e server pwd uid_str cipher_str mac_str flags ≡ some file
      → Created o e server pwd uid_str cipher_str mac_str flags file
  unfolding new_metadata
  new_metadata-Created h0 =
      let (cipher, cipher_chosen, h1) = bind_some (choose_cipher cipher_str) _ file h0 in
      let (hmac_id, hmac_chosen, h2) = bind_some (choose_hmac mac_str) _ file h1 in
      let (k, derived, h3) = bind_some (derive o e cipher hmac_id pwd) _ file h2 in
      let (hmac_len, hmac_known, h4) = bind_some (crypto_hmac_len hmac_id) _ file h3 in
      let (hdr_ok, h5) = guard-some e.hdr_ok _ file h4 in
      let (fits, h6) = guard-some (fits_hdr flags cipher hmac_len k.iv k.kp) _ file h5 in
      let (uid, uid_parsed, h7) = bind_some (parse_uid e.uid_ok uid_str) _ file h6 in
      let (c, kept, h8) = bind_some (effective o e server flags uid k.crypto) _ file h7 in
      let hdr = new_hdr flags cipher hmac_id hmac_len uid k.iv k.kp in
      let (mac, sealed, h9) = bind_some (rvault_hmac_compute o c hdr) _ file h8 in
      let (len, h10) = guard-some (length mac == hmac_len) _ file h9 in
      record {
        cipher = cipher;
        hmac_id = hmac_id;
        hmac_len = hmac_len;
        uid = uid;
        mac = mac;
        k = k;
        c = c;
        cipher_chosen = cipher_chosen;
        hmac_chosen = hmac_chosen;
        derived = derived;
        hmac_known = hmac_known;
        fits = fits;
        uid_parsed = uid_parsed;
        kept = kept;
        sealed = sealed;
        length-mac = (==_iff _ _).0 len;
        contents = ground arith;
      }

  store_metadata-contents : (hdr : Bytes) → store_metadata o e hdr ≡ (true, some file) → hdr ≡ file
  unfolding store_metadata
  store_metadata-contents hdr h = elim (Option-cases (fs_write e.writes hdr).1) [
    | inl r ↦ absurd (ground arith)
    | inr (n, r) ↦
        let (taken, fits) = fs_write_lem e.writes hdr n r in
        let all : n ≡ length hdr = ground arith in
        let written : (fs_write e.writes hdr).0 ≡ file = ground arith in
        sym (take_all n hdr (omega (arith, all))) ∙ sym taken ∙ written
  ]

  pub rvault_init-Created :
      rvault_init o e server pwd uid_str cipher_str mac_str flags ≡ (true, some file)
      → Created o e server pwd uid_str cipher_str mac_str flags file
  unfolding rvault_init
  rvault_init-Created h =
      elim (Option-cases (new_metadata o e server pwd uid_str cipher_str mac_str flags)) [
        | inl r ↦ absurd (ground arith)
        | inr (hdr, r) ↦
            new_metadata-Created (r ∙ ap some (store_metadata-contents hdr (ground arith)))
      ]

-- The steps to a derived key.
pub record DerivedBy (o : Ops) (e : InitEnv) (cipher hmac_id : ℕ) (pwd : Bytes) (k : Derived)
    : Type 0 where
  pub blank : Crypto
  pub with_iv : Crypto
  pub created : crypto_create o cipher hmac_id ≡ some blank
  pub iv_set : crypto_set_iv blank k.iv ≡ some with_iv
  pub parameters : kdf_create_params e.measure e.rand_salt ≡ some k.kp
  pub keyed :
      crypto_set_passphrasekey (kdf_passphrase_genkey e.scrypt pwd (some k.kp)) with_iv
      ≡ some k.crypto

pub derive-DerivedBy :
    (o : Ops) (e : InitEnv) (cipher hmac_id : ℕ) (pwd : Bytes) (k : Derived)
    → derive o e cipher hmac_id pwd ≡ some k
    → DerivedBy o e cipher hmac_id pwd k
unfolding derive
derive-DerivedBy o e cipher hmac_id pwd k h0 =
    let (blank, created, h1) = bind_some (crypto_create o cipher hmac_id) _ k h0 in
    let (iv, drawn, h2) = bind_some (crypto_gen_iv e blank) _ k h1 in
    let (with_iv, iv_set, h3) = bind_some (crypto_set_iv blank iv) _ k h2 in
    let (kp, parameters, h4) = bind_some (kdf_create_params e.measure e.rand_salt) _ k h3 in
    let derivation =
      crypto_set_passphrasekey (kdf_passphrase_genkey e.scrypt pwd (some kp)) with_iv in
    let (c, keyed, h5) = bind_some derivation _ k h4 in
    let same : record { crypto = c; iv = iv; kp = kp } ≡ k = ground arith in
    subst (DerivedBy o e cipher hmac_id pwd) same (record {
      blank = blank;
      with_iv = with_iv;
      created = created;
      iv_set = iv_set;
      parameters = parameters;
      keyed = keyed;
    })
