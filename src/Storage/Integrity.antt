-- ===== src/Storage/Integrity.antt =====
-- What a read that succeeds has verified, and what the operations leave behind when they fail.
use rvault.Prelude.{
  [], ◌∷◌, length-take, ◌∷◌, ap, subst, sym, ◌&&◌, ◌^◌, ◌%◌, ℕ, ◌+◌, ◌≤◌, ◌<◌, ◌≡◌, refl, ◌∙◌, ◌⊎◌,
  inl, inr, false, Option, none, some, arith, length, take, Bool-cases, Option-cases, if◌then◌else◌,
}
use rvault.Prelude.Bytes.{Bytes, AreBytes}
use rvault.Buffer.{Sbuffer}
use rvault.Crypto.{
  Crypto, Ops, Laws, int_max, crypto_set_aetag, crypto_set_aad, crypto_get_buflen, decrypted_data,
}
use rvault.Crypto.Inverse.{crypto_decrypt_authentic, crypto_encrypt_frame}
use rvault.Storage.Header.{
  fileobj_hdr, fileobj_cdata_len, fileobj_aetag_len, fileobj_edata_len, fileobj_etarget_len,
  fileobj_edata_pad, fileobj_data_len, fileobj_file_len, fileobj_getmeta_len, fileobj_lz4_p,
  storage_align,
}
use rvault.Storage.Object.{
  new_header, Lz4, ReadEnv, WriteEnv, Vault, WriteResult, at_aetag, at_data, adjusted_header,
  decrypt_object, storage_decrypt, storage_map_obj, decompressed, storage_read_data,
  storage_write_data, write_object, write_compressed, compressed, storage_encrypt, store_object,
  storage_new_obj,
}
use rvault.Storage.Layout.{getmeta_small, storage_align_small}
use rvault.Storage.RoundTrip.{with_tag_aad}

crypto_decrypt-short :
    (o : Ops) (c : Crypto) (inbuf p : Bytes) (inlen outlen : ℕ)
    → decrypted_data o c inbuf inlen outlen ≡ some p
    → inlen ≤ int_max
unfolding decrypted_data
crypto_decrypt-short o c inbuf p inlen outlen h = ground arith

crypto_decrypt-length :
    (o : Ops) (laws : Laws o) (c : Crypto) (inbuf p : Bytes) (inlen outlen : ℕ)
    → decrypted_data o c inbuf inlen outlen ≡ some p
    → length p ≤ inlen
unfolding decrypted_data
crypto_decrypt-length o laws c inbuf p inlen outlen h =
    omega
      (arith, laws.length-decrypt c (take inlen inbuf) p (ground arith), length-take inlen inbuf)

pad_small : (file : Bytes) → AreBytes file → fileobj_edata_pad file < 256
pad_small [] h = omega arith
pad_small (a ∷ []) h = omega arith
pad_small (a ∷ b ∷ []) h = omega arith
pad_small (a ∷ b ∷ c ∷ []) h = omega arith
pad_small (a ∷ b ∷ c ∷ d ∷ file) h = h.1.1.1.0

-- The crypto object that decrypts: the tag and the AAD are those of the file.
abbrev pub file_crypto : Crypto → Bytes → Crypto
file_crypto c file =
    with_tag_aad c (take (fileobj_aetag_len file) (at_aetag file)) (some (adjusted_header file))

-- What a decryption that succeeds has gone through.
record Decrypted (o : Ops) (c : Crypto) (file : Bytes) (n : ℕ) : Type 0 where
  plain : Bytes
  decrypted :
      decrypted_data o
        (file_crypto c file)
        (at_data file)
        (fileobj_edata_len file)
        (crypto_get_buflen c (fileobj_edata_len file))
      ≡ some plain
  target : fileobj_etarget_len file ≡ length plain
  length_is : n ≡ length plain

decrypt_object-Decrypted :
    (o : Ops) (c : Crypto) (file : Bytes) {s : Sbuffer} {n : ℕ}
    → (decrypt_object o (file_crypto c file) file).ret ≡ some (s, n)
    → Decrypted o c file n
unfolding decrypt_object
decrypt_object-Decrypted o c file h =
    elim (Option-cases (
      decrypted_data o (file_crypto c file) (at_data file) (fileobj_edata_len file)
        (crypto_get_buflen c (fileobj_edata_len file)))) [
          | inl e ↦ absurd (ground arith)
          | inr (p, e) ↦ record {
            plain = p;
            decrypted = e;
            target = ground arith;
            length_is = ground arith;
          }
        ]

pub storage_decrypt-Decrypted :
    (o : Ops) (e : ReadEnv) (c : Crypto) (file : Bytes) {s : Sbuffer} {n : ℕ}
    → (storage_decrypt o e c file).ret ≡ some (s, n)
    → (decrypt_object o (file_crypto c file) file).ret ≡ some (s, n)
unfolding storage_decrypt crypto_set_aetag
storage_decrypt-Decrypted o e c file h = ground arith

decompressed-some :
    (z : Lz4) (e : ReadEnv) (file : Bytes) (r : Option (Sbuffer × ℕ)) {s : Sbuffer} {n : ℕ}
    → decompressed z e file r ≡ some (s, n)
    → (u : Sbuffer) × (m : ℕ) × (r ≡ some (u, m))
      × (n ≡ (if fileobj_lz4_p file then fileobj_data_len file else m))
unfolding decompressed
decompressed-some z e file none h = cc
decompressed-some z e file (some (u, m)) h = (u, m, refl, ground arith)

-- A file that is read passed the checks of storage_map_obj.
pub record Accepted (o : Ops) (z : Lz4) (e : ReadEnv) (v : Vault) (file : Bytes) (n : ℕ)
    : Type 0 where
  pub long : 32 ≤ length file
  file_len : fileobj_file_len file ≡ length file
  aetag_len : fileobj_aetag_len file ≡ v.crypto.tag_len
  some_data : 0 < fileobj_edata_len file
  pub inner_buffer : Sbuffer
  pub inner : ℕ
  pub object : (storage_decrypt o e v.crypto file).ret ≡ some (inner_buffer, inner)
  length_is : n ≡ (if fileobj_lz4_p file then fileobj_data_len file else inner)

pub storage_read_data-Accepted :
    (o : Ops) (z : Lz4) (e : ReadEnv) (v : Vault) (file : Bytes) {s : Sbuffer} {n : ℕ}
    → (storage_read_data o z e v file).ret ≡ some (s, n)
    → Accepted o z e v file n
unfolding storage_read_data storage_map_obj
storage_read_data-Accepted o z e v file {s} {n} h =
    let (u, m, r, l) =
      decompressed-some z e file (storage_decrypt o e v.crypto file).ret {s = s} {n = n}
        (ground arith) in
    record {
      long = ground arith;
      file_len = ground arith;
      aetag_len = ground arith;
      some_data = ground arith;
      inner_buffer = u;
      inner = m;
      object = r;
      length_is = l;
    }

target_of :
    (file : Bytes)
    → fileobj_etarget_len file
      ≡ (if fileobj_lz4_p file then fileobj_cdata_len file else fileobj_data_len file)
unfolding fileobj_etarget_len
target_of file = refl

edata_len_of :
    (file : Bytes)
    → fileobj_edata_len file ≡ (fileobj_etarget_len file + fileobj_edata_pad file) % 2 ^ 64
unfolding fileobj_edata_len
edata_len_of file = refl

file_len_of :
    (file : Bytes)
    → fileobj_file_len file
      ≡ (fileobj_getmeta_len (fileobj_aetag_len file) + fileobj_edata_len file) % 2 ^ 64
unfolding fileobj_file_len
file_len_of file = refl

module _ (o : Ops) (z : Lz4) (e : ReadEnv) (v : Vault) (file : Bytes) {s : Sbuffer} {n : ℕ}
    (read : (storage_read_data o z e v file).ret ≡ some (s, n)) where
  -- A file of bytes that is read consists of the header, the padded tag and at most INT_MAX bytes
  -- of encrypted data, to the last byte; neither that sum overflows nor the one of the length
  -- before encryption and the padding, which the header states; and the length returned is the
  -- header's data length. The tag length is that of the vault, and below 256.
  pub storage_read_data_lengths :
      (laws : Laws o)
      → AreBytes file
      → v.crypto.tag_len < 256
      → (length file ≡ 32 + storage_align v.crypto.tag_len + fileobj_edata_len file)
        × (0 < fileobj_edata_len file)
        × (fileobj_edata_len file ≤ int_max)
        × (fileobj_edata_len file ≡ fileobj_etarget_len file + fileobj_edata_pad file)
        × (n ≡ fileobj_data_len file)
  storage_read_data_lengths laws bytes small =
      let a = storage_read_data-Accepted o z e v file read in
      let d =
        decrypt_object-Decrypted o v.crypto file
          (storage_decrypt-Decrypted o e v.crypto file a.object) in
      let short =
        crypto_decrypt-short o (file_crypto v.crypto file) (at_data file) d.plain
          (fileobj_edata_len file) (crypto_get_buflen v.crypto (fileobj_edata_len file))
          d.decrypted in
      let meta : fileobj_getmeta_len (fileobj_aetag_len file)
          ≡ 32 + storage_align v.crypto.tag_len =
        rw a.aetag_len (getmeta_small v.crypto.tag_len small) in
      (
        omega
            (arith, file_len_of file, a.file_len, meta, storage_align_small v.crypto.tag_len small),
        a.some_data,
        short,
        omega (
          arith,
          edata_len_of file,
          d.target,
          pad_small file bytes,
          crypto_decrypt-length o laws (file_crypto v.crypto file) (at_data file) d.plain
              (fileobj_edata_len file) (crypto_get_buflen v.crypto (fileobj_edata_len file))
              d.decrypted,
        ),
        ground (arith, a.length_is, d.length_is, d.target, target_of file),
      )

  -- Without an AE cipher, nothing is read from a file unless the tag in it is the HMAC of the
  -- encrypted data and of the header with no padding stated.
  pub storage_read_data_authentic :
      v.crypto.ae_cipher ≡ false
      → o.hmac
          (file_crypto v.crypto file)
          (take (fileobj_edata_len file) (at_data file))
          (some (adjusted_header file))
        ≡ some (take (fileobj_aetag_len file) (at_aetag file))
  storage_read_data_authentic ae =
      let a = storage_read_data-Accepted o z e v file read in
      let d =
        decrypt_object-Decrypted o v.crypto file
          (storage_decrypt-Decrypted o e v.crypto file a.object) in
      (crypto_decrypt_authentic o (file_crypto v.crypto file) (at_data file) d.plain
        (fileobj_edata_len file) (crypto_get_buflen v.crypto (fileobj_edata_len file)) ae
        d.decrypted).0

-- A read changes nothing in the crypto object but the tag and the AAD.
pub storage_read_data_frame :
    (o : Ops) (z : Lz4) (e : ReadEnv) (v : Vault) (file : Bytes)
    → (storage_read_data o z e v file).crypto
      ≡ with_tag_aad v.crypto
          (storage_read_data o z e v file).crypto.tag
          (storage_read_data o z e v file).crypto.aad
unfolding storage_read_data crypto_set_aetag
storage_read_data_frame o z e v file = ground arith

pub storage_encrypt_frame :
    (o : Ops) (c : Crypto) (hdr buf : Bytes)
    → (storage_encrypt o c hdr buf).0 ≡ with_tag_aad c (storage_encrypt o c hdr buf).0.tag none
unfolding storage_encrypt
storage_encrypt_frame o c hdr buf =
    crypto_encrypt_frame o (crypto_set_aad c hdr) buf (crypto_get_buflen c (length buf))

-- What a write leaves in the crypto object: nothing new but the tag.
abbrev TagOnly : Vault → WriteResult → Type 0
TagOnly v r = r.crypto ≡ with_tag_aad v.crypto r.crypto.tag none

write_object-TagOnly :
    (o : Ops) (e : WriteEnv) (v : Vault) (file : Bytes) (n m : ℕ) (cbuf : Bytes)
    → v.crypto.aad ≡ none
    → TagOnly v (write_object o e v file n m cbuf)
unfolding write_object
write_object-TagOnly o e v file n m cbuf clean =
    ground (arith, storage_encrypt_frame o v.crypto (fileobj_hdr (new_header e v n m)) cbuf)

write_compressed-TagOnly :
    (o : Ops) (e : WriteEnv) (v : Vault) (file : Bytes) (n : ℕ) (r : Option (Bytes × ℕ))
    → v.crypto.aad ≡ none
    → TagOnly v (write_compressed o e v file n r)
unfolding write_compressed
write_compressed-TagOnly o e v file n none clean = ground arith
write_compressed-TagOnly o e v file n (some (cbuf, m)) clean =
    write_object-TagOnly o e v file n m cbuf clean

-- A write leaves no AAD where there was none, and changes nothing else in the crypto object but
-- the tag.
storage_write_data_frame :
    (o : Ops) (z : Lz4) (e : WriteEnv) (v : Vault) (file buf : Bytes)
    → v.crypto.aad ≡ none
    → (storage_write_data o z e v file buf).crypto
      ≡ with_tag_aad v.crypto (storage_write_data o z e v file buf).crypto.tag none
unfolding storage_write_data
storage_write_data_frame o z e v file buf clean =
    write_compressed-TagOnly o e v file (length buf) (compressed z e v.compress buf) clean

-- The object that storage_write_data is to store: the data, compressed or not, encrypted under the
-- header of their lengths.
abbrev pub IsObject : Ops → Lz4 → WriteEnv → Vault → Bytes → Bytes → Type 0
IsObject o z e v buf obj =
    (cbuf : Bytes) × (m : ℕ) × (compressed z e v.compress buf ≡ some (cbuf, m))
    × ((storage_encrypt o v.crypto (fileobj_hdr (new_header e v (length buf) m)) cbuf).1 ≡ some obj)

-- The file as it was, or the first bytes of such an object, as many as were written.
abbrev pub Unfinished : (Bytes → Type 0) → WriteEnv → Bytes → Bytes → Type 0
Unfinished P e file after =
    (after ≡ file)
    ⊎ ((obj : Bytes) × P obj × (after ≡ take e.written obj) × (e.written < length obj))

store_object_fails :
    (P : Bytes → Type 0) (e : WriteEnv) (c : Crypto) (file obj : Bytes)
    → P obj
    → (store_object e c file obj).ret ≡ none
    → Unfinished P e file (store_object e c file obj).file
unfolding store_object
store_object_fails P e c file obj x h = elim (Bool-cases (e.seek_ok && e.truncate_ok)) [
  | inl ok ↦ inr (obj, x, ground arith, ground arith)
  | inr refused ↦ inl (ground arith)
]

write_object_fails :
    (o : Ops) (e : WriteEnv) (v : Vault) (file : Bytes) (n m : ℕ) (cbuf : Bytes)
    → (write_object o e v file n m cbuf).ret ≡ none
    → Unfinished
        (λ obj. (storage_encrypt o v.crypto (fileobj_hdr (new_header e v n m)) cbuf).1 ≡ some obj)
        e
        file
        (write_object o e v file n m cbuf).file
unfolding write_object storage_new_obj
write_object_fails o e v file n m cbuf h =
    let enc = storage_encrypt o v.crypto (fileobj_hdr (new_header e v n m)) cbuf in
    let P : Bytes → Type 0 = λ obj. enc.1 ≡ some obj in
    elim (Bool-cases e.malloc_ok) [
      | inr refused ↦ inl (ground arith)
      | inl ok ↦ elim (Option-cases enc.1) [
        | inl none_e ↦ inl (ground arith)
        | inr (obj, some_e) ↦
            let same : write_object o e v file n m cbuf ≡ store_object e enc.0 file obj =
              ground arith in
            subst (λ r. Unfinished P e file r.file) (sym same)
              (store_object_fails P e enc.0 file obj some_e (ap WriteResult.ret (sym same) ∙ h))
      ]
    ]

-- A write that fails has left the file as it was, or the file holds the first bytes, as many as
-- fs_write wrote and less than all, of the object of the data: compressed if the vault says so, and
-- encrypted under the header with their lengths.
pub storage_write_data_fails :
    (o : Ops) (z : Lz4) (e : WriteEnv) (v : Vault) (file buf : Bytes)
    → (storage_write_data o z e v file buf).ret ≡ none
    → Unfinished (IsObject o z e v buf) e file (storage_write_data o z e v file buf).file
unfolding storage_write_data write_compressed
storage_write_data_fails o z e v file buf h = elim (Option-cases (compressed z e v.compress buf)) [
  | inl f ↦ inl (ground arith)
  | inr ((cbuf, m), f) ↦
      let run : storage_write_data o z e v file buf ≡ write_object o e v file (length buf) m cbuf =
        ap (write_compressed o e v file (length buf)) f in
      elim (write_object_fails o e v file (length buf) m cbuf (ap WriteResult.ret (sym run) ∙ h)) [
        | inl same ↦ inl (ap WriteResult.file run ∙ same)
        | inr (obj, is_obj, cut, less) ↦
            inr (obj, (cbuf, m, f, is_obj), ap WriteResult.file run ∙ cut, less)
      ]
]
