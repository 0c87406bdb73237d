-- ===== src/FileObj/Sound.antt =====
-- The invariant of a file object: the data fit into the buffer, the buffer has the size that is
-- recorded, and an object that is not loaded has nothing to write back.
use rvault.Prelude.{
  ◌⊎◌, ◌∷◌, ◌-◌, ◌%◌, Bool-cases, take, subst, sym, ap, ◌∙◌, [], ℕ, ◌+◌, ◌≤◌, ◌<◌, ◌≡◌, refl, Bool,
  true, false, arith, ℤ, pos, negsuc, Option-cases, inl, inr, length,
}
use rvault.Prelude.Bytes.{Bytes}
use rvault.Buffer.{size_mod, Sbuffer, contents, sbuffer_move}
use rvault.Buffer.Move.{IsWhole, sbuffer_move-Moved, sbuffer_move-IsWhole, sbuffer_move_fails}
use rvault.Buffer.Copy.{length-memcpy_at}
use rvault.Crypto.{Ops, Laws, Crypto}
use rvault.Storage.Object.{Lz4, Vault, storage_read_data}
use rvault.Storage.Integrity.{storage_read_data_frame}
use rvault.Storage.Loaded.{storage_read_data-Roomy}
use rvault.Storage.Keys.{SameKeys, storage_write_data-SameKeys}
use rvault.FileObj.Branches.{
  loaded, is_loaded, moved, pread_state, getsize_state, pwrite_unloaded, pwrite_no_room,
  pwrite_done, pwrite_nothing, setsize_unloaded, setsize_no_room, setsize_state,
}
use rvault.FileObj.{
  resized, writeback, State, SyncEnv, Env, SyncType, fileobj_open, fileobj_dataload, fileobj_sync,
  fileobj_pread, expand, store, written_back, fileobj_pwrite, fileobj_setsize, fileobj_getsize,
}

pub record IsSound (s : State) : Type 0 where
  pub whole : IsWhole s.fobj.sbuf
  pub fits : s.fobj.len ≤ s.fobj.sbuf.buf_size
  pub unloaded : (s.fobj.inmem ≡ true) ⊎ ((s.fobj.dirty ≡ false) × (s.fobj.len ≡ 0))
  pub block_small : s.vault.crypto.block_size < 256

pub fileobj_open-IsSound :
    (v : Vault) (always : Bool) (file : Bytes)
    → v.crypto.block_size < 256
    → IsSound (fileobj_open v always file)
fileobj_open-IsSound v always file small = record {
  whole = refl;
  fits = omega arith;
  unloaded = inr (refl, refl);
  block_small = small;
}

-- What a write-back leaves alone: the data and the buffer.
pub record Kept (s t : State) : Type 0 where
  pub same_sbuf : t.fobj.sbuf ≡ s.fobj.sbuf
  pub same_len : t.fobj.len ≡ s.fobj.len
  pub same_inmem : t.fobj.inmem ≡ s.fobj.inmem
  pub same_keys : SameKeys s.vault.crypto t.vault.crypto
  pub clean : s.fobj.dirty ≡ false → t.fobj.dirty ≡ false

-- The end of a write is below 2^64, as that of any buffer in memory is.
abbrev pub Ends : Bytes → ℤ → Type 0
Ends buf (pos offset) = offset + length buf < size_mod
Ends buf (negsuc n) = length buf < size_mod

module _ (o : Ops) (z : Lz4) where
  pub fileobj_sync-Kept :
      (e : SyncEnv) (t : SyncType) (s : State) → Kept s (fileobj_sync o z e t s).0
  unfolding fileobj_sync
  fileobj_sync-Kept e t s = record {
    same_sbuf = ground arith;
    same_len = ground arith;
    same_inmem = ground arith;
    same_keys = ground (
      arith,
      storage_write_data-SameKeys o z e.write s.vault []
          (take s.fobj.len (contents s.fobj.sbuf.buf)),
    );
    clean = ground arith;
  }

  pub Kept-IsSound : {s t : State} → Kept s t → IsSound s → IsSound t
  Kept-IsSound {s} {t} k i = record {
    whole = subst IsWhole (sym k.same_sbuf) i.whole;
    fits = omega (arith, k.same_len, ap Sbuffer.buf_size k.same_sbuf, i.fits);
    unloaded = elim i.unloaded [
      | inl mem ↦ inl (k.same_inmem ∙ mem)
      | inr (d, l) ↦ inr (k.clean d, k.same_len ∙ l)
    ];
    block_small = subst (λ n. n < 256) (ap Crypto.block_size (sym k.same_keys)) i.block_small;
  }

  pub written_back-Kept : (e : Env) (s : State) → Kept s (written_back o z e s)
  unfolding written_back fileobj_sync
  written_back-Kept e s = record {
    same_sbuf = ground arith;
    same_len = ground arith;
    same_inmem = ground arith;
    same_keys = ground (
      arith,
      storage_write_data-SameKeys o z e.sync.write s.vault []
          (take s.fobj.len (contents s.fobj.sbuf.buf)),
    );
    clean = ground arith;
  }

  pub fileobj_dataload-IsSound :
      (laws : Laws o) (e : Env) (s : State) → IsSound s → IsSound (fileobj_dataload o z e s).0
  unfolding fileobj_dataload
  fileobj_dataload-IsSound laws e s i =
      let frame = storage_read_data_frame o z e.read s.vault s.fobj.file in
      elim (Option-cases (storage_read_data o z e.read s.vault s.fobj.file).ret) [
        | inl r ↦ record {
          whole = ground (arith, i.whole);
          fits = ground (arith, i.fits);
          unloaded = elim i.unloaded [ inl mem ↦ inl (ground arith) | inr (d, l) ↦ ground arith ];
          block_small = ground (arith, i.block_small, frame);
        }
        | inr ((b, n), r) ↦
            let (w, f) =
              storage_read_data-Roomy o laws z e.read s.vault s.fobj.file i.block_small r in
            record {
              whole = ground (arith, i.whole, w);
              fits = ground (arith, i.fits, f);
              unloaded = elim i.unloaded [
                | inl mem ↦ inl (ground arith)
                | inr (d, l) ↦ ground arith
              ];
              block_small = ground (arith, i.block_small, frame);
            }
      ]

  pub fileobj_dataload-inmem :
      (e : Env) (s : State)
      → (fileobj_dataload o z e s).1 ≡ true
      → (fileobj_dataload o z e s).0.fobj.inmem ≡ true
  unfolding fileobj_dataload
  fileobj_dataload-inmem e s h = ground arith

  pub expand-IsSound :
      (ok : Bool) (endoff : ℕ) (s : State)
      → endoff + 1 < size_mod
      → s.fobj.inmem ≡ true
      → IsSound s
      → IsSound (expand o z ok endoff s).0
  unfolding expand sbuffer_move
  expand-IsSound ok endoff s small mem i =
      let nlen = (endoff + 1) % size_mod in
      let w = sbuffer_move-IsWhole ok true s.fobj.sbuf nlen i.whole in
      record {
        whole = ground (arith, i.whole, w);
        fits = elim (Bool-cases (sbuffer_move ok s.fobj.sbuf nlen true).1) [
          | inl moved ↦
              ground
                (arith, i.fits, (sbuffer_move-Moved ok true s.fobj.sbuf nlen i.whole moved).size)
          | inr failed ↦
              ground
                (arith, i.fits, sbuffer_move_fails ok true s.fobj.sbuf nlen (omega arith) failed)
        ];
        unloaded = inl (ground arith);
        block_small = ground (arith, i.block_small);
      }

  pub expand-inmem :
      (ok : Bool) (endoff : ℕ) (s : State) → (expand o z ok endoff s).0.fobj.inmem ≡ s.fobj.inmem
  unfolding expand
  expand-inmem ok endoff s = ground arith

  pub store-IsSound :
      (s : State) (bs : Bytes) (offset : ℕ)
      → s.fobj.inmem ≡ true
      → IsSound s
      → IsSound (store o z s bs offset)
  store-IsSound s bs offset mem i = record {
    whole = length-memcpy_at (contents s.fobj.sbuf.buf) offset bs ∙ i.whole;
    fits = i.fits;
    unloaded = inl mem;
    block_small = i.block_small;
  }

  module _ (laws : Laws o) (e : Env) (s : State) (i : IsSound s) where
    loaded-IsSound : IsSound (loaded o z e s)
    loaded-IsSound = fileobj_dataload-IsSound laws e s i

    pub fileobj_pread-IsSound :
        (len : ℕ) (offset : ℤ) → IsSound (fileobj_pread o z e s len offset).0
    unfolding fileobj_pread
    fileobj_pread-IsSound len (negsuc n) = i
    fileobj_pread-IsSound len (pos offset) =
        subst IsSound (sym (pread_state o z e s len offset)) loaded-IsSound

    pub fileobj_getsize-IsSound : IsSound (fileobj_getsize o z e s).0
    fileobj_getsize-IsSound = subst IsSound (sym (getsize_state o z e s)) loaded-IsSound

    pwrite_some-IsSound :
        (buf : Bytes) (offset : ℕ)
        → 0 < length buf
        → offset + length buf < size_mod
        → IsSound (fileobj_pwrite o z e s buf (pos offset)).0
    pwrite_some-IsSound buf offset any small =
        let t = loaded o z e s in
        let u = expand o z e.move_ok (offset + length buf - 1) t in
        elim (Bool-cases (is_loaded o z e s)) [
          | inr h ↦
              subst (λ r. IsSound r.0) (sym (pwrite_unloaded o z e s buf offset any small h))
                loaded-IsSound
          | inl h ↦
              let mem = fileobj_dataload-inmem e s h in
              let ui =
                expand-IsSound e.move_ok (offset + length buf - 1) t (omega arith) mem
                  loaded-IsSound in
              elim (Bool-cases u.1) [
                | inr r ↦
                    subst (λ r. IsSound r.0) (sym (pwrite_no_room o z e s buf offset any small h r))
                      ui
                | inl r ↦
                    subst (λ r. IsSound r.0) (sym (pwrite_done o z e s buf offset any small h r))
                      (Kept-IsSound (written_back-Kept e (store o z u.0 buf offset)) (
                        store-IsSound u.0 buf offset
                          (expand-inmem e.move_ok (offset + length buf - 1) t ∙ mem) ui))
              ]
        ]

    -- A write that ends below 2^64.
    pub fileobj_pwrite-IsSound :
        (buf : Bytes) (offset : ℤ) → Ends buf offset → IsSound (fileobj_pwrite o z e s buf offset).0
    unfolding fileobj_pwrite
    fileobj_pwrite-IsSound buf (negsuc n) small = i
    fileobj_pwrite-IsSound [] (pos offset) small =
        subst (λ r. IsSound r.0) (sym (pwrite_nothing o z e s offset (omega (arith, small)))) i
    fileobj_pwrite-IsSound (b ∷ bs) (pos offset) small =
        pwrite_some-IsSound (b ∷ bs) offset (omega arith) small

    same_sbuf-moved :
        (len : ℕ)
        → (moved o z e s len).1 ≡ false
        → (moved o z e s len).0 ≡ (loaded o z e s).fobj.sbuf
    unfolding sbuffer_move
    same_sbuf-moved len r = ground arith

    resized-IsSound :
        (len : ℕ)
        → is_loaded o z e s ≡ true
        → (moved o z e s len).1 ≡ true
        → IsSound (resized o z (loaded o z e s) (moved o z e s len).0 len)
    resized-IsSound len h r =
        let t = loaded o z e s in
        let mem = fileobj_dataload-inmem e s h in
        record {
          whole = ground (
            arith,
            loaded-IsSound.whole,
            sbuffer_move-IsWhole e.move_ok false t.fobj.sbuf len loaded-IsSound.whole,
          );
          fits = elim (Bool-cases (sbuffer_move e.move_ok t.fobj.sbuf len false).1) [
            | inr failed ↦ ground arith
            | inl done ↦ ground (
              arith,
              (sbuffer_move-Moved e.move_ok false t.fobj.sbuf len loaded-IsSound.whole done).size,
            )
          ];
          unloaded = inl mem;
          block_small = loaded-IsSound.block_small;
        }

    pub fileobj_setsize-IsSound : (len : ℕ) → IsSound (fileobj_setsize o z e s len).0
    fileobj_setsize-IsSound len = elim (Bool-cases (is_loaded o z e s)) [
      | inr h ↦ subst (λ r. IsSound r.0) (sym (setsize_unloaded o z e s len h)) loaded-IsSound
      | inl h ↦ elim (Bool-cases (moved o z e s len).1) [
        | inr r ↦
            subst IsSound
              (ap
                  (λ b. record (loaded o z e s) {
                    fobj = record ((loaded o z e s).fobj) { sbuf = b };
                  })
                  (sym (same_sbuf-moved len r))
                ∙ sym (ap (λ p. p.0) (setsize_no_room o z e s len h r)))
              loaded-IsSound
        | inl r ↦ subst IsSound (sym (setsize_state o z e s len h r)) (
            Kept-IsSound
              (fileobj_sync-Kept e.sync writeback
                (resized o z (loaded o z e s) (moved o z e s len).0 len))
              (resized-IsSound len h r))
      ]
    ]
