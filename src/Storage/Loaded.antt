-- ===== src/Storage/Loaded.antt =====
-- The buffer that a read fills has room for the data it reports.
use rvault.Prelude.{
  length-append, length-take, ◌-◌, ◌++◌, ap, ℕ, ◌≤◌, ◌<◌, ◌≡◌, ◌∙◌, inl, inr, some, arith, length,
  take, Option-cases,
}
use rvault.Prelude.Bytes.{Bytes}
use rvault.Buffer.{contents, Sbuffer}
use rvault.Crypto.{Laws, Crypto, Ops, int_max, crypto_get_buflen, decrypted_data}
use rvault.Storage.Header.{fileobj_edata_len}
use rvault.Storage.Object.{
  storage_decompress, Lz4, ReadEnv, Vault, at_data, decrypt_object, storage_decrypt, decompressed,
  storage_read_data,
}
use rvault.Buffer.Move.{IsWhole}
use rvault.Storage.Integrity.{storage_read_data-Accepted, storage_decrypt-Decrypted, file_crypto}

decrypt_object-buffer :
    (o : Ops) (c : Crypto) (file : Bytes) {s : Sbuffer} {n : ℕ}
    → (decrypt_object o c file).ret ≡ some (s, n)
    → (p : Bytes) × (decrypted_data o c
          (at_data file)
          (fileobj_edata_len file)
          (crypto_get_buflen c (fileobj_edata_len file))
        ≡ some p)
      × (n ≡ length p)
      × (s.buf_size ≡ crypto_get_buflen c (fileobj_edata_len file))
      × (contents s.buf
          ≡ p
            ++ o.residue c
                (take (fileobj_edata_len file) (at_data file))
                (crypto_get_buflen c (fileobj_edata_len file) - length p))
unfolding decrypt_object
decrypt_object-buffer o c file h =
    elim (Option-cases (
      decrypted_data o c (at_data file) (fileobj_edata_len file)
        (crypto_get_buflen c (fileobj_edata_len file)))) [
          | inl e ↦ absurd (ground arith)
          | inr (p, e) ↦ (p, e, ground arith, ground arith, ground arith)
        ]

crypto_decrypt-some :
    (o : Ops) (c : Crypto) (inbuf p : Bytes) (inlen outlen : ℕ)
    → decrypted_data o c inbuf inlen outlen ≡ some p
    → (o.decrypt c (take inlen inbuf) ≡ some p) × (inlen ≤ int_max)
unfolding decrypted_data
crypto_decrypt-some o c inbuf p inlen outlen h = (ground arith, ground arith)

-- A buffer that the data fit into.
abbrev pub Roomy : Sbuffer → ℕ → Type 0
Roomy s n = IsWhole s × (n ≤ s.buf_size)

decrypt_object-Roomy :
    (o : Ops) (laws : Laws o) (c : Crypto) (file : Bytes) {s : Sbuffer} {n : ℕ}
    → c.block_size < 256
    → (decrypt_object o c file).ret ≡ some (s, n)
    → Roomy s n
decrypt_object-Roomy o laws c file {s} {n} small h =
    let len = fileobj_edata_len file in
    let (p, dec, n_is, size, cont) = decrypt_object-buffer o c file {s = s} {n = n} h in
    let (plain, short) =
      crypto_decrypt-some o c (at_data file) p len (crypto_get_buflen c len) dec in
    let fits = laws.length-decrypt c (take len (at_data file)) p plain in
    let rest = o.residue c (take len (at_data file)) (crypto_get_buflen c len - length p) in
    let room : length p ≤ crypto_get_buflen c len =
      omega (arith, fits, short, small, length-take len (at_data file)) in
    (
      ap length cont
          ∙ omega (
            arith,
            length-append p rest,
            size,
            room,
            laws.length-residue c (take len (at_data file)) (crypto_get_buflen c len - length p),
          ),
      omega (arith, n_is, size, room),
    )

decompressed-Roomy :
    (z : Lz4) (e : ReadEnv) (file : Bytes) (u t : Sbuffer) (m n : ℕ)
    → Roomy u m
    → decompressed z e file (some (u, m)) ≡ some (t, n)
    → Roomy t n
unfolding decompressed storage_decompress
decompressed-Roomy z e file u t m n (whole, fits) h = (ground arith, ground arith)

module _ (o : Ops) (laws : Laws o) (z : Lz4) (e : ReadEnv) (v : Vault) (file : Bytes)
    (small : v.crypto.block_size < 256) where
  read_from :
      (s u : Sbuffer) (n m : ℕ)
      → (storage_read_data o z e v file).ret ≡ some (s, n)
      → (storage_decrypt o e v.crypto file).ret ≡ some (u, m)
      → decompressed z e file (some (u, m)) ≡ some (s, n)
  unfolding storage_read_data
  read_from s u n m h d = ground arith

  -- A read that succeeds fills a buffer of the size it records, with room for the data.
  pub storage_read_data-Roomy :
      {s : Sbuffer} {n : ℕ} → (storage_read_data o z e v file).ret ≡ some (s, n) → Roomy s n
  storage_read_data-Roomy {s} {n} h =
      let a = storage_read_data-Accepted o z e v file {s = s} {n = n} h in
      decompressed-Roomy z e file a.inner_buffer s a.inner n
        (decrypt_object-Roomy o laws (file_crypto v.crypto file) file small
          (storage_decrypt-Decrypted o e v.crypto file a.object))
        (read_from s a.inner_buffer n a.inner h a.object)
