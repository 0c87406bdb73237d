-- ===== src/FileObj/Flushed.antt =====
-- What was written is in the file once a write-back has succeeded behind it, whichever of the
-- write-backs stored it.
use rvault.Prelude.{
  if◌then◌else◌, ◌-◌, ℕ, ◌+◌, ◌≤◌, ◌<◌, ◌≡◌, refl, ap, ◌∙◌, sym, subst, Bool, true, false, ◌⊎◌, inl,
  inr, arith, Bool-cases, length, take, drop, ltb, pos,
}
use rvault.Prelude.Bytes.{Bytes}
use rvault.Buffer.{contents, size_mod}
use rvault.Crypto.{Crypto, Ops, Laws, int_max}
use rvault.Storage.Object.{Lz4, Lz4Laws}
use rvault.Storage.Keys.{SameKeys}
use rvault.Storage.Integrity.{storage_read_data_frame}
use rvault.Storage.RoundTrip.{IsUsable, CanRead}
use rvault.FileObj.{
  sync_retrying, fileobj_close, Vault, expand, fileobj_dataload, State, Env, SyncEnv, SyncType, ok,
  writeback, fullsync, fileobj_open, fileobj_sync, fileobj_pread, fileobj_pwrite, written_back,
  store, fobj_min_sync_time,
}
use rvault.FileObj.Branches.{loaded, is_loaded}
use rvault.FileObj.Sound.{
  fileobj_open-IsSound, fileobj_dataload-IsSound, expand-IsSound, expand-inmem, store-IsSound,
  fileobj_pwrite-IsSound, fileobj_dataload-inmem, IsSound, Kept, Kept-IsSound, fileobj_sync-Kept,
  written_back-Kept,
}
use rvault.FileObj.Refine.{
  pwrite_steps, pwrite_inmem, dataload_inmem, fileobj_pread_lem, fileobj_pread-fileobj_pwrite,
}
use rvault.FileObj.Overwrite.{bytes}
use rvault.FileObj.Durable.{fileobj_sync_fails, fileobj_dataload-fileobj_sync}

SameKeys-IsUsable : (c d : Crypto) → SameKeys c d → IsUsable c → IsUsable d
SameKeys-IsUsable c d e u = record {
  block_pos = omega (arith, ap Crypto.block_size e, u.block_pos);
  block_small = omega (arith, ap Crypto.block_size e, u.block_small);
  tag_small = omega (arith, ap Crypto.tag_len e, u.tag_small);
}

-- A new object opened on the file loads these bytes, if it can map and allocate.
abbrev pub StoresAt : Ops → Lz4 → Vault → Bytes → Bytes → Type 0
StoresAt o z v file bs =
    (r : Env) (always : Bool)
    → CanRead r.read
    → r.size_ok ≡ true
    → (is_loaded o z r (fileobj_open v always file) ≡ true)
      × (bytes (loaded o z r (fileobj_open v always file)) ≡ bs)

abbrev pub Stores : Ops → Lz4 → State → Bytes → Type 0
Stores o z u bs = StoresAt o z u.vault u.fobj.file bs

-- The first attempt of the closing.
pub close_first :
    (o : Ops) (z : Lz4) (closing : ℕ → SyncEnv) (s : State)
    → (fileobj_sync o z (closing 3) fullsync s).1 ≡ true
    → (fileobj_close o z closing s).0 ≡ (fileobj_sync o z (closing 3) fullsync s).0
unfolding fileobj_close sync_retrying
close_first o z closing s h = rw (fileobj_close, sync_retrying, h) refl

-- An object with nothing to store is closed as it is.
clean_sync :
    (o : Ops) (z : Lz4) (e : SyncEnv) (k : SyncType) (s : State)
    → s.fobj.dirty ≡ false
    → ((fileobj_sync o z e k s).0.vault ≡ s.vault)
      × ((fileobj_sync o z e k s).0.fobj.file ≡ s.fobj.file)
      × ((fileobj_sync o z e k s).1 ≡ true)
unfolding fileobj_sync
clean_sync o z e k s h = (ground arith, ground arith, ground arith)

pub clean_close :
    (o : Ops) (z : Lz4) (closing : ℕ → SyncEnv) (s : State)
    → s.fobj.dirty ≡ false
    → (fileobj_close o z closing s).0.fobj.file ≡ s.fobj.file
clean_close o z closing s h =
    let (_, file, done) = clean_sync o z (closing 3) fullsync s h in
    ap (λ u. u.fobj.file) (close_first o z closing s done) ∙ file

module _ (o : Ops) (laws : Laws o) (z : Lz4) (zlaws : Lz4Laws z) where
  sync-Stores :
      (e : SyncEnv) (k : SyncType) (s : State)
      → IsSound s
      → IsUsable s.vault.crypto
      → s.fobj.dirty ≡ true
      → (fileobj_sync o z e k s).1 ≡ true
      → s.fobj.len + s.vault.crypto.block_size ≤ int_max
      → Stores o z (fileobj_sync o z e k s).0 (bytes s)
  sync-Stores e k s i usable dirty done short r always can size =
      fileobj_dataload-fileobj_sync o laws z zlaws e k s i usable r can size dirty done always short

  -- A write-back either has stored the data or leaves them to be stored.
  sync_outcome :
      (e : SyncEnv) (k : SyncType) (s : State)
      → IsSound s
      → IsUsable s.vault.crypto
      → s.fobj.dirty ≡ true
      → s.fobj.len + s.vault.crypto.block_size ≤ int_max
      → ((fileobj_sync o z e k s).0.fobj.dirty ≡ true)
        ⊎ Stores o z (fileobj_sync o z e k s).0 (bytes s)
  sync_outcome e k s i usable dirty short = elim (Bool-cases (fileobj_sync o z e k s).1) [
    | inl done ↦ inr (sync-Stores e k s i usable dirty done short)
    | inr failed ↦ inl (ap (λ f. f.dirty) (fileobj_sync_fails o z e k s failed).1 ∙ dirty)
  ]

  -- The data are still to be stored, or are.
  abbrev pub Pending : State → Bytes → Type 0
  Pending u bs = (u.fobj.dirty ≡ true) ⊎ Stores o z u bs

  stamped :
      (u : State) (synced : Bool) (now : ℕ) (bs : Bytes)
      → Pending u bs
      → Pending (if synced then record u { fobj = record (u.fobj) { last_stime = now } } else u) bs
  stamped u true now bs h = h
  stamped u false now bs h = h

  if-Pending :
      (b : Bool) (u v : State) (bs : Bytes)
      → Pending u bs
      → Pending v bs
      → Pending (if b then u else v) bs
  if-Pending true u v bs h g = h
  if-Pending false u v bs h g = g

  written_back-Pending :
      (e : Env) (s : State)
      → IsSound s
      → IsUsable s.vault.crypto
      → s.fobj.dirty ≡ true
      → s.fobj.len + s.vault.crypto.block_size ≤ int_max
      → Pending (written_back o z e s) (bytes s)
  unfolding written_back
  written_back-Pending e s i usable dirty short =
      if-Pending s.fobj.always_fsync _ _ (bytes s)
        (sync_outcome e.sync fullsync s i usable dirty short)
        (if-Pending (ltb (s.fobj.last_stime + fobj_min_sync_time o z) e.now) _ _ (bytes s)
          (stamped (fileobj_sync o z e.sync writeback s).0 (fileobj_sync o z e.sync writeback s).1
            e.now (bytes s) (sync_outcome e.sync writeback s i usable dirty short))
          (inl dirty))

  -- A write-back that succeeds behind a pending one has stored the data.
  pub flushed-Stores :
      (e : SyncEnv) (k : SyncType) (u : State)
      → IsSound u
      → IsUsable u.vault.crypto
      → u.fobj.len + u.vault.crypto.block_size ≤ int_max
      → Pending u (bytes u)
      → (fileobj_sync o z e k u).1 ≡ true
      → Stores o z (fileobj_sync o z e k u).0 (bytes u)
  flushed-Stores e k u i usable short pending done = elim (Bool-cases u.fobj.dirty) [
    | inl dirty ↦ sync-Stores e k u i usable dirty done short
    | inr clean ↦ elim pending [
      | inl dirty ↦ absurd (ground arith)
      | inr stored ↦
          let (vault, file, _) = clean_sync o z e k u clean in
          subst (λ v. StoresAt o z v (fileobj_sync o z e k u).0.fobj.file (bytes u)) (sym vault)
            (subst (λ f. StoresAt o z u.vault f (bytes u)) (sym file) stored)
    ]
  ]

  expand-keys :
      (move_ok : Bool) (endoff : ℕ) (s : State) → (expand o z move_ok endoff s).0.vault ≡ s.vault
  unfolding expand
  expand-keys move_ok endoff s = ground arith

  dataload-keys : (e : Env) (s : State) → SameKeys s.vault.crypto (loaded o z e s).vault.crypto
  unfolding fileobj_dataload
  dataload-keys e s = ground (arith, storage_read_data_frame o z e.read s.vault s.fobj.file)

  module _ (e : Env) (s : State) (buf : Bytes) (offset : ℕ) (i : IsSound s)
      (usable : IsUsable s.vault.crypto) (any : 0 < length buf)
      (small : offset + length buf < size_mod)
      (wrote : (fileobj_pwrite o z e s buf (pos offset)).1 ≡ ok (length buf)) where
    abbrev written : State
    written = (fileobj_pwrite o z e s buf (pos offset)).0

    -- The object before the write-back that ends the write.
    abbrev copied_in : State
    copied_in =
        store o z (expand o z e.move_ok (offset + length buf - 1) (loaded o z e s)).0 buf offset

    run : written ≡ written_back o z e copied_in
    run = (pwrite_steps o laws z e s i buf offset any small wrote).2

    copied_in-keys : SameKeys s.vault.crypto copied_in.vault.crypto
    copied_in-keys =
        let vault = expand-keys e.move_ok (offset + length buf - 1) (loaded o z e s) in
        subst (λ v. SameKeys s.vault.crypto v.crypto) (sym vault) (dataload-keys e s)

    written-Kept : Kept copied_in written
    written-Kept = subst (Kept copied_in) (sym run) (written_back-Kept o z e copied_in)

    pub written-keys : SameKeys s.vault.crypto written.vault.crypto
    written-keys =
        written-Kept.same_keys
        ∙ ap
            (λ (c : Crypto). record c {
              tag = written.vault.crypto.tag;
              aad = written.vault.crypto.aad;
            })
            copied_in-keys

    pub written-IsUsable : IsUsable written.vault.crypto
    written-IsUsable = SameKeys-IsUsable s.vault.crypto written.vault.crypto written-keys usable

    copied_in-IsSound : IsSound copied_in
    copied_in-IsSound =
        let (l, r, _) = pwrite_steps o laws z e s i buf offset any small wrote in
        let mem = fileobj_dataload-inmem o z e s l in
        store-IsSound o z (expand o z e.move_ok (offset + length buf - 1) (loaded o z e s)).0 buf
          offset (expand-inmem o z e.move_ok (offset + length buf - 1) (loaded o z e s) ∙ mem)
          (expand-IsSound o z e.move_ok (offset + length buf - 1) (loaded o z e s) (omega arith) mem
            (fileobj_dataload-IsSound o z laws e s i))

    pub written-Pending :
        written.fobj.len + s.vault.crypto.block_size ≤ int_max → Pending written (bytes written)
    written-Pending short =
        let same_bytes : bytes written ≡ bytes copied_in =
          λ j. take (written-Kept.same_len j) (contents (written-Kept.same_sbuf j).buf) in
        subst (Pending written) (sym same_bytes) (
          subst (λ u. Pending u (bytes copied_in)) (sym run)
            (written_back-Pending e copied_in copied_in-IsSound
              (SameKeys-IsUsable s.vault.crypto copied_in.vault.crypto copied_in-keys usable) refl
              (omega (arith, ap Crypto.block_size copied_in-keys, written-Kept.same_len, short))))

    -- What a write that succeeds put at its offset, an object opened on the file reads there, once
    -- a write-back behind the write has succeeded, if its reader can map and allocate: whether the
    -- write itself had already stored the data or not. The write ends below 2^64, and the data are
    -- a block below INT_MAX.
    pub fileobj_pread-fileobj_sync :
        (e' : SyncEnv) (r : Env) (k : SyncType) (always : Bool)
        → CanRead r.read
        → r.size_ok ≡ true
        → written.fobj.len + s.vault.crypto.block_size ≤ int_max
        → (fileobj_sync o z e' k written).1 ≡ true
        → (fileobj_pread o z r
            (fileobj_open
              (fileobj_sync o z e' k written).0.vault
              always
              (fileobj_sync o z e' k written).0.fobj.file)
            (length buf)
            (pos offset)).1
          ≡ ok buf
    fileobj_pread-fileobj_sync e' r k always can size short done =
        let wi = fileobj_pwrite-IsSound o z laws e s i buf (pos offset) small in
        let (ready, same) =
          flushed-Stores e' k written wi written-IsUsable
            (omega (arith, ap Crypto.block_size written-keys, short)) (written-Pending short) done r
            always can size in
        let f = (fileobj_sync o z e' k written).0 in
        let fi = Kept-IsSound o z (fileobj_sync-Kept o z e' k written) wi in
        let ai = fileobj_open-IsSound f.vault always f.fobj.file fi.block_small in
        let mem =
          dataload_inmem o z r written (pwrite_inmem o laws z e s i buf offset any small wrote) in
        fileobj_pread_lem o laws z r (fileobj_open f.vault always f.fobj.file) ai (length buf)
          offset ready
        ∙ ap (λ b. ok (take (length buf) (drop offset b))) (same ∙ sym (ap (λ p. bytes p.0) mem))
        ∙ sym (fileobj_pread_lem o laws z r written wi (length buf) offset (ap (λ p. p.1) mem))
        ∙ fileobj_pread-fileobj_pwrite o laws z e s i r buf offset any small wrote
