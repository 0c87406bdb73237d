-- ===== src/Storage/WriteRead.antt =====
-- storage_read_data gives back what storage_write_data stored.
use rvault.Prelude.{
  subst, take_all, sym, ap₂, ap, ◌-◌, ◌^◌, ℕ, ◌+◌, ◌≤◌, ◌<◌, ◌≡◌, refl, ◌∙◌, inl, inr, true, false,
  Option, none, some, ◌++◌, arith, length, take, Bool-cases, Option-cases, if◌then◌else◌,
}
use rvault.Prelude.Bytes.{Bytes}
use rvault.Buffer.{Sbuffer, contents}
use rvault.Crypto.{crypto_set_aad, Crypto, Ops, Laws, int_max}
use rvault.Storage.Header.{
  FileobjHdr, fileobj_hdr, fileobj_lz4_p, fileobj_etarget_len, fileobj_data_len, fileobj_cdata_len,
  fileobj_edata_len,
}
use rvault.Storage.Object.{
  write_compressed, WriteResult, padded_tag, Lz4, Lz4Laws, WriteEnv, ReadEnv, Vault, new_header,
  storage_encrypt, storage_decrypt, compressed, write_object, storage_write_data, storage_map_obj,
  decompressed, storage_read_data,
}
use rvault.Storage.Layout.{object, data_len-fileobj_hdr, cdata_len-fileobj_hdr}
use rvault.Crypto.Inverse.{Encrypted}
use rvault.Storage.RoundTrip.{
  IsUsable, CanRead, with_tag_aad, storage_encrypt-sealed, edata_len-sealed, map_obj-sealed,
  storage_decrypt-sealed,
}

-- A write that succeeds has stored the object whole.
write_object-file :
    (o : Ops) (we : WriteEnv) (v : Vault) (file cbuf : Bytes) (data_len cdata_len : ℕ) {n : ℕ}
    → (write_object o we v file data_len cdata_len cbuf).ret ≡ some n
    → ((storage_encrypt o v.crypto (fileobj_hdr (new_header we v data_len cdata_len)) cbuf).1
        ≡ some (write_object o we v file data_len cdata_len cbuf).file)
      × (n ≡ length (write_object o we v file data_len cdata_len cbuf).file)
unfolding write_object
write_object-file o we v file cbuf data_len cdata_len h =
    elim (Option-cases
      (storage_encrypt o v.crypto (fileobj_hdr (new_header we v data_len cdata_len)) cbuf).1) [
        | inl e ↦ absurd (ground arith)
        | inr (obj, e) ↦ (ground arith, ground arith)
      ]

etarget_len-if :
    (file : Bytes)
    → fileobj_etarget_len file
      ≡ (if fileobj_lz4_p file then fileobj_cdata_len file else fileobj_data_len file)
unfolding fileobj_etarget_len
etarget_len-if file = refl

module _ (we : WriteEnv) (v : Vault) (data_len cdata_len pad : ℕ) (rest : Bytes) where
  abbrev stored : Bytes
  stored = fileobj_hdr (record (new_header we v data_len cdata_len) { edata_pad = pad }) ++ rest

  lz4_p-stored : fileobj_lz4_p stored ≡ v.compress
  unfolding fileobj_lz4_p fileobj_hdr
  lz4_p-stored = elim (Bool-cases v.compress) [ inl e ↦ rw e | inr e ↦ rw e ]

  data_len-stored : data_len < 2 ^ 64 → fileobj_data_len stored ≡ data_len
  data_len-stored =
      data_len-fileobj_hdr (record (new_header we v data_len cdata_len) { edata_pad = pad }) rest

  cdata_len-stored : cdata_len < 2 ^ 64 → fileobj_cdata_len stored ≡ cdata_len
  cdata_len-stored =
      cdata_len-fileobj_hdr (record (new_header we v data_len cdata_len) { edata_pad = pad }) rest

  etarget_len-stored :
      data_len < 2 ^ 64
      → cdata_len < 2 ^ 64
      → fileobj_etarget_len stored ≡ (if v.compress then cdata_len else data_len)
  etarget_len-stored a b =
      etarget_len-if stored
      ∙ (λ i. if lz4_p-stored i then cdata_len-stored b i else data_len-stored a i)

storage_write_data-object :
    (o : Ops) (z : Lz4) (we : WriteEnv) (v : Vault) (file buf cbuf : Bytes) (cdata_len : ℕ)
    → compressed z we v.compress buf ≡ some (cbuf, cdata_len)
    → storage_write_data o z we v file buf ≡ write_object o we v file (length buf) cdata_len cbuf
unfolding storage_write_data
storage_write_data-object o z we v file buf cbuf cdata_len e =
    ap (write_compressed o we v file (length buf)) e

storage_write_data-none :
    (o : Ops) (z : Lz4) (we : WriteEnv) (v : Vault) (file buf : Bytes)
    → compressed z we v.compress buf ≡ none
    → (storage_write_data o z we v file buf).ret ≡ none
unfolding storage_write_data
storage_write_data-none o z we v file buf e =
    ap (λ r. (write_compressed o we v file (length buf) r).ret) e

-- What a compression that succeeds has gone through.
compressed-eq-some :
    (z : Lz4) (we : WriteEnv) (buf cbuf : Bytes) (cdata_len : ℕ)
    → compressed z we true buf ≡ some (cbuf, cdata_len)
    → (z.compress buf ≡ some cbuf) × (cdata_len ≡ length cbuf) × (length buf ≤ z.max_input)
unfolding compressed
compressed-eq-some z we buf cbuf cdata_len h = elim (Option-cases (z.compress buf)) [
  | inl e ↦ absurd (ground arith)
  | inr (zb, e) ↦ (ground arith, ground arith, ground arith)
]

-- The stages of storage_read_data when nothing fails.
storage_read_data-ready :
    (o : Ops) (z : Lz4) (e : ReadEnv) (v : Vault) (file : Bytes) {s : Sbuffer} {n : ℕ}
    → storage_map_obj e v.crypto file ≡ true
    → 0 < fileobj_edata_len file
    → (storage_decrypt o e v.crypto file).ret ≡ some (s, n)
    → (storage_read_data o z e v file).ret ≡ decompressed z e file (some (s, n))
unfolding storage_read_data
storage_read_data-ready o z e v file m p d = ground arith

decompressed_plain :
    (z : Lz4) (e : ReadEnv) (file : Bytes) (s : Sbuffer) (n : ℕ)
    → fileobj_lz4_p file ≡ false
    → decompressed z e file (some (s, n)) ≡ some (s, n)
unfolding decompressed
decompressed_plain z e file s n l = rw l

decompressed_lz4 :
    (z : Lz4) (e : ReadEnv) (file : Bytes) (s : Sbuffer) (n : ℕ) (out : Bytes)
    → fileobj_lz4_p file ≡ true
    → e.alloc_ok (fileobj_data_len file) ≡ true
    → z.decompress (take (fileobj_cdata_len file) (contents s.buf)) (fileobj_data_len file)
      ≡ some out
    → length out ≡ fileobj_data_len file
    → decompressed z e file (some (s, n))
      ≡ some (record { buf = some out; buf_size = fileobj_data_len file }, fileobj_data_len file)
unfolding decompressed
decompressed_lz4 z e file s n out l a d len = ground arith

-- What is in the buffer begins with the data, and the length is theirs.
abbrev pub Holds : Option (Sbuffer × ℕ) → Bytes → Type 0
Holds r buf =
    (s : Sbuffer) × (r ≡ some (s, length buf)) × (take (length buf) (contents s.buf) ≡ buf)

module _ (o : Ops) (laws : Laws o) (z : Lz4) (zlaws : Lz4Laws z) (we : WriteEnv) (re : ReadEnv)
    (can : CanRead re) (v w : Vault) (usable : IsUsable v.crypto) (tag : Bytes) (aad : Option Bytes)
    (same : w.crypto ≡ with_tag_aad v.crypto tag aad) where
  -- The object is read up to the decompression.
  record Opened (data_len cdata_len : ℕ) (cbuf file : Bytes) : Type 0 where
    pad : ℕ
    rest : Bytes
    layout : file ≡ stored we v data_len cdata_len pad rest
    read : Sbuffer
    opened :
        (storage_read_data o z re w file).ret ≡ decompressed z re file (some (read, length cbuf))
    prefix : take (length cbuf) (contents read.buf) ≡ cbuf

  module _ (cbuf : Bytes) (data_len cdata_len : ℕ) where
    abbrev hdr : FileobjHdr
    hdr = new_header we v data_len cdata_len

    module _ {ct : Bytes} {c' : Crypto}
        (enc : Encrypted o (crypto_set_aad v.crypto (fileobj_hdr hdr)) cbuf ct c')
        (target : fileobj_etarget_len
            (object (record hdr { edata_pad = length ct - length cbuf }) c'.tag ct)
          ≡ length cbuf)
        (pos : 0 < length cbuf) (short : length cbuf + v.crypto.block_size ≤ int_max) where
      abbrev whole : Bytes
      whole = object (record hdr { edata_pad = length ct - length cbuf }) c'.tag ct

      padded_length : (length cbuf ≤ length ct) × (length ct ≤ length cbuf + v.crypto.block_size)
      padded_length =
          laws.length-encrypt (crypto_set_aad v.crypto (fileobj_hdr hdr)) cbuf ct enc.left
            enc.encrypted

      short_ct : length ct ≤ int_max
      short_ct = omega (arith, padded_length)

      whole-Opened : Opened data_len cdata_len cbuf whole
      whole-Opened =
          let (s, decrypted, prefix) =
            storage_decrypt-sealed o laws v.crypto usable hdr cbuf refl refl enc short_ct target re
              can tag aad in
          record {
            pad = length ct - length cbuf;
            rest = padded_tag c'.tag ++ ct;
            layout = refl;
            read = s;
            opened =
                storage_read_data-ready o z re w whole
                  (rw same (
                    map_obj-sealed o laws v.crypto usable hdr cbuf refl refl enc short_ct target re
                      can tag aad))
                  (omega (
                    arith,
                    padded_length,
                    edata_len-sealed o laws v.crypto usable hdr cbuf refl refl enc short_ct target
                        re can,
                  ))
                  (rw same decrypted);
            prefix = prefix;
          }

  write_object-Opened :
      (file cbuf : Bytes) (data_len cdata_len : ℕ) {n : ℕ}
      → (write_object o we v file data_len cdata_len cbuf).ret ≡ some n
      → data_len < 2 ^ 64
      → cdata_len < 2 ^ 64
      → (if v.compress then cdata_len else data_len) ≡ length cbuf
      → 0 < length cbuf
      → length cbuf + v.crypto.block_size ≤ int_max
      → Opened data_len cdata_len cbuf (write_object o we v file data_len cdata_len cbuf).file
  write_object-Opened file cbuf data_len cdata_len h a b target pos short =
      let hdr = new_header we v data_len cdata_len in
      let c' = (storage_encrypt o v.crypto (fileobj_hdr hdr) cbuf).0 in
      let (wrote, _) = write_object-file o we v file cbuf data_len cdata_len h in
      let (ct, layout, enc) =
        storage_encrypt-sealed o laws v.crypto usable hdr cbuf
          (write_object o we v file data_len cdata_len cbuf).file wrote in
      rw layout (
        whole-Opened cbuf data_len cdata_len enc
          (etarget_len-stored we v data_len cdata_len (length ct - length cbuf)
              (padded_tag c'.tag ++ ct) a b
            ∙ target)
          pos short)

  Opened-plain :
      (data_len cdata_len : ℕ) (buf file : Bytes)
      → Opened data_len cdata_len buf file
      → v.compress ≡ false
      → Holds (storage_read_data o z re w file).ret buf
  Opened-plain data_len cdata_len buf file op plain = (
    op.read,
    op.opened
        ∙ decompressed_plain z re file op.read (length buf) (
            ap fileobj_lz4_p op.layout
            ∙ lz4_p-stored we v data_len cdata_len op.pad op.rest
            ∙ plain),
    op.prefix,
  )

  Opened-lz4 :
      (buf zb file : Bytes)
      → Opened (length buf) (length zb) zb file
      → v.compress ≡ true
      → z.compress buf ≡ some zb
      → length buf ≤ 2 ^ 32
      → length zb ≤ 2 ^ 32
      → Holds (storage_read_data o z re w file).ret buf
  Opened-lz4 buf zb file op on packed b1 b2 =
      let dl : fileobj_data_len file ≡ length buf =
        ap fileobj_data_len op.layout
        ∙ data_len-stored we v (length buf) (length zb) op.pad op.rest (omega arith) in
      let cl : fileobj_cdata_len file ≡ length zb =
        ap fileobj_cdata_len op.layout
        ∙ cdata_len-stored we v (length buf) (length zb) op.pad op.rest (omega arith) in
      (
        record { buf = some buf; buf_size = length buf },
        op.opened
            ∙ decompressed_lz4 z re file op.read (length zb) buf
                (ap fileobj_lz4_p op.layout
                  ∙ lz4_p-stored we v (length buf) (length zb) op.pad op.rest
                  ∙ on)
                (can.alloc_ok (fileobj_data_len file) (omega (arith, dl)))
                (ap₂ z.decompress (ap (λ n. take n (contents op.read.buf)) cl ∙ op.prefix) dl
                  ∙ zlaws.inverse buf zb packed)
                (sym dl)
            ∙ (λ i. some (record { buf = some buf; buf_size = dl i }, dl i)),
        take_all (length buf) buf (omega arith),
      )

  module _ (file buf : Bytes) (pos : 0 < length buf)
      (short : length buf + v.crypto.block_size ≤ int_max) (n : ℕ) where
    abbrev Read : WriteResult → Type 0
    Read r = (n ≡ length r.file) × Holds (storage_read_data o z re w r.file).ret buf

    Read-plain :
        v.compress ≡ false
        → (write_object o we v file (length buf) 0 buf).ret ≡ some n
        → Read (write_object o we v file (length buf) 0 buf)
    Read-plain plain h = (
      (write_object-file o we v file buf (length buf) 0 h).1,
      Opened-plain (length buf) 0 buf (write_object o we v file (length buf) 0 buf).file
          (write_object-Opened file buf (length buf) 0 h (omega arith) (omega arith) (rw plain) pos
            short)
          plain,
    )

    Read-lz4 :
        (zb : Bytes)
        → v.compress ≡ true
        → (z.compress buf ≡ some zb) × (length buf ≤ z.max_input)
        → (write_object o we v file (length buf) (length zb) zb).ret ≡ some n
        → Read (write_object o we v file (length buf) (length zb) zb)
    Read-lz4 zb on (packed, fits) h =
        let bound = zlaws.length-compress buf zb packed in
        (
          (write_object-file o we v file zb (length buf) (length zb) h).1,
          Opened-lz4 buf zb (write_object o we v file (length buf) (length zb) zb).file
              (write_object-Opened file zb (length buf) (length zb) h (omega arith)
                (omega (arith, bound)) (rw on) (zlaws.compress-ne-nil buf zb packed)
                (omega (arith, bound, fits, zlaws.bound, usable.block_small)))
              on packed (omega arith) (omega (arith, bound)),
        )

    -- What storage_write_data reports as written, the file holds, and storage_read_data, with the
    -- same keys and where it can map and allocate, fills its buffer with the data that were
    -- written, whether they were compressed or not. The data are not empty and a block below
    -- INT_MAX, and the format can hold the vault's block size and tag length.
    pub storage_read_data-storage_write_data :
        (storage_write_data o z we v file buf).ret ≡ some n
        → (n ≡ length (storage_write_data o z we v file buf).file)
          × Holds (storage_read_data o z re w (storage_write_data o z we v file buf).file).ret buf
    storage_read_data-storage_write_data h = elim (Bool-cases v.compress) [
      | inr plain ↦
          let e =
            storage_write_data-object o z we v file buf buf 0
              (rw plain (unfold compressed in refl)) in
          subst (λ r. r.ret ≡ some n → Read r) (sym e) (Read-plain plain) h
      | inl on ↦ elim (Option-cases (compressed z we true buf)) [
        | inl e ↦ cc (storage_write_data-none o z we v file buf (rw on e))
        | inr ((cbuf, cl), e) ↦
            let (packed, is_length, fits) = compressed-eq-some z we buf cbuf cl e in
            let e' =
              storage_write_data-object o z we v file buf cbuf (length cbuf)
                (rw on (e ∙ ap (λ k. some (cbuf, k)) is_length)) in
            subst (λ r. r.ret ≡ some n → Read r) (sym e') (Read-lz4 cbuf on (packed, fits)) h
      ]
    ]
