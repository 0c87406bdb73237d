-- ===== src/Vault/Layout.antt =====
-- Where rvault_open finds what rvault_init stored, by the layout of src/core/storage.h.
use rvault.Prelude.{
  ℕ, ◌+◌, ◌%◌, ◌<◌, ◌≡◌, refl, ap, ap₂, ◌∙◌, sym, ◌++◌, append_assoc, arith, length, length-append,
  take, drop, take-append, drop-append, replicate,
}
use rvault.Prelude.Bytes.{Bytes}
use rvault.Vault.Metadata.{
  rvault_file_len, new_hdr, hdr_ver, hdr_flags, hdr_cipher0, hdr_hmac_id, hdr_iv0_len, hdr_iv1_len,
  hdr_kp_len, hdr_hmac_len, hdr_uid, rvault_hdr_to_iv0, rvault_hdr_to_kp, rvault_hdr_to_hmac,
  rvault_hmac_datalen,
}

-- The parts of a file, as the readers find them.
pub record ReadsAs (file : Bytes) (flags cipher hmac_id hmac_len : ℕ) (uid iv kp rest : Bytes)
    : Type 0 where
  pub ver : hdr_ver file ≡ 3
  pub flags_read : hdr_flags file ≡ flags % 256
  pub cipher_read : hdr_cipher0 file ≡ cipher % 256
  pub hmac_id_read : hdr_hmac_id file ≡ hmac_id % 256
  pub hmac_len_read : hdr_hmac_len file ≡ hmac_len % 256
  pub uid_read : hdr_uid file ≡ uid
  pub iv_read : take (hdr_iv0_len file) (rvault_hdr_to_iv0 file) ≡ iv
  pub kp_read : take (hdr_kp_len file) (rvault_hdr_to_kp file) ≡ kp
  pub hmac_read : rvault_hdr_to_hmac file ≡ rest
  pub data_read :
      take (rvault_hmac_datalen file) file ≡ new_hdr flags cipher hmac_id hmac_len uid iv kp
  pub file_len : rvault_file_len file ≡ 32 + length iv + length kp + hmac_len % 256
  pub length-file : length file ≡ 32 + length iv + length kp + length rest

-- A header with anything behind it.
module _ (flags cipher hmac_id hmac_len : ℕ) (uid iv kp rest : Bytes) (lu : length uid ≡ 16)
    (li : length iv < 256) (lk : length kp < 256) where
  abbrev file : Bytes
  file = new_hdr flags cipher hmac_id hmac_len uid iv kp ++ rest

  iv0_len-new_hdr : hdr_iv0_len file ≡ length iv
  unfolding new_hdr
  iv0_len-new_hdr = omega arith

  kp_len-new_hdr : hdr_kp_len file ≡ length kp
  unfolding new_hdr
  kp_len-new_hdr = omega arith

  uid-new_hdr : hdr_uid file ≡ uid
  unfolding new_hdr
  uid-new_hdr =
      ap (take 16) (append_assoc uid (replicate 6 0 ++ (iv ++ kp)) rest)
      ∙ take-append 16 uid ((replicate 6 0 ++ (iv ++ kp)) ++ rest) lu

  to_iv0-new_hdr : rvault_hdr_to_iv0 file ≡ iv ++ (kp ++ rest)
  unfolding new_hdr
  to_iv0-new_hdr =
      let behind = (iv ++ kp) ++ rest in
      ap (drop 22) (append_assoc uid (replicate 6 0 ++ (iv ++ kp)) rest)
      ∙ ap (drop 22) (sym (append_assoc uid (replicate 6 0) behind))
      ∙ drop-append 22 (uid ++ replicate 6 0) behind
          (omega (arith, length-append uid (replicate 6 0)))
      ∙ append_assoc iv kp rest

  to_kp-new_hdr : rvault_hdr_to_kp file ≡ kp ++ rest
  unfolding new_hdr
  to_kp-new_hdr =
      ap₂ drop {x = hdr_iv0_len file + hdr_iv1_len file} {y = length iv} (omega arith)
        to_iv0-new_hdr
      ∙ drop-append (length iv) iv (kp ++ rest) refl

  to_hmac-new_hdr : rvault_hdr_to_hmac file ≡ rest
  to_hmac-new_hdr = ap₂ drop kp_len-new_hdr to_kp-new_hdr ∙ drop-append (length kp) kp rest refl

  datalen-new_hdr : rvault_hmac_datalen file ≡ 32 + length iv + length kp
  unfolding new_hdr
  datalen-new_hdr = omega arith

  length-new_hdr :
      length (new_hdr flags cipher hmac_id hmac_len uid iv kp) ≡ 32 + length iv + length kp
  unfolding new_hdr
  length-new_hdr =
      omega (arith, length-append uid (replicate 6 0 ++ (iv ++ kp)), length-append iv kp)

  -- The bytes under the HMAC are the header.
  hmac_data-new_hdr :
      take (rvault_hmac_datalen file) file ≡ new_hdr flags cipher hmac_id hmac_len uid iv kp
  hmac_data-new_hdr =
      take-append (rvault_hmac_datalen file) (new_hdr flags cipher hmac_id hmac_len uid iv kp) rest
        (length-new_hdr ∙ sym datalen-new_hdr)

  pub new_hdr-ReadsAs : ReadsAs file flags cipher hmac_id hmac_len uid iv kp rest
  unfolding new_hdr
  new_hdr-ReadsAs = record {
    ver = refl;
    flags_read = refl;
    cipher_read = refl;
    hmac_id_read = refl;
    hmac_len_read = refl;
    uid_read = uid-new_hdr;
    iv_read =
        ap₂ take iv0_len-new_hdr to_iv0-new_hdr ∙ take-append (length iv) iv (kp ++ rest) refl;
    kp_read = ap₂ take kp_len-new_hdr to_kp-new_hdr ∙ take-append (length kp) kp rest refl;
    hmac_read = to_hmac-new_hdr;
    data_read = hmac_data-new_hdr;
    file_len = ap (λ n. n + hmac_len % 256) datalen-new_hdr;
    length-file = omega (
      arith,
      length-new_hdr,
      length-append (new_hdr flags cipher hmac_id hmac_len uid iv kp) rest,
    );
  }
