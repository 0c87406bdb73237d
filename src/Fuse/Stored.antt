-- ===== src/Fuse/Stored.antt =====
-- What becomes of data that pass through the handles of src/fuse/rvaultfs.c.
use rvault.Prelude.{
  not, ◌||◌, ◌==◌, Option-cases, inl, inr, sym, subst, ℤ, ℕ, ◌+◌, ◌≤◌, ◌<◌, ◌≡◌, refl, ap, ◌∙◌,
  Bool, true, false, some, arith, length, pos,
}
use Prim.Native.Nat.{bit_and}
use rvault.Prelude.Bytes.{Bytes}
use rvault.Buffer.{size_mod}
use rvault.Crypto.{Ops, Laws, int_max}
use rvault.Storage.Object.{Lz4, Lz4Laws, Vault, storage_read_data, storage_map_obj}
use rvault.Storage.RoundTrip.{IsUsable, CanRead}
use rvault.FileObj.{
  fileobj_setsize, fileobj_pread, State, Env, SyncEnv, Result, ok, fail, eio, fullsync,
  fileobj_open, fileobj_sync, fileobj_pwrite, fileobj_close, fileobj_dataload,
}
use rvault.FileObj.Branches.{setsize_unloaded}
use rvault.FileObj.Sound.{IsSound}
use rvault.FileObj.Flushed.{fileobj_pread-fileobj_sync, clean_close}
use rvault.Resolve.Walk.{rvault_resolve_path}
use rvault.Fuse.{Posix, Mount, open_object, o_wronly, o_accmode, o_sync_dsync, fobj_omask}
use rvault.Fuse.Handles.{rvaultfs_read, rvaultfs_write, rvaultfs_flush, rvaultfs_truncate}

module _ (o : Ops) (z : Lz4) where
  write_some :
      (e : Env) (s : State) (buf : Bytes) (offset : ℤ)
      → 0 < length buf
      → rvaultfs_write o z e s buf offset ≡ fileobj_pwrite o z e s buf offset
  unfolding rvaultfs_write
  write_some e s buf offset h = ground arith

  read_some :
      (e : Env) (s : State) (len : ℕ) (offset : ℤ)
      → 0 < len
      → rvaultfs_read o z e s len offset ≡ fileobj_pread o z e s len offset
  unfolding rvaultfs_read
  read_some e s len offset h = ground arith

  flush_done :
      (e : SyncEnv) (s : State)
      → (rvaultfs_flush o z e s).1 ≡ ok 0
      → (fileobj_sync o z e fullsync s).1 ≡ true
  unfolding rvaultfs_flush
  flush_done e s h = ground arith

module _ (o : Ops) (laws : Laws o) (z : Lz4) (zlaws : Lz4Laws z) where
  -- When a write through a sound handle has reported the bytes as written, and the flush of the
  -- handle has returned 0, a handle that is opened on the file reads these bytes at their offset,
  -- if its reader can map and allocate; whether it was the flush or the write that stored the data.
  -- The format can hold the vault's block size and tag length, the write ends below 2^64, and the
  -- data are a block below INT_MAX.
  pub rvaultfs_read-rvaultfs_flush :
      (e : Env) (e' : SyncEnv) (r : Env) (s : State) (buf : Bytes) (offset : ℕ) (always : Bool)
      → IsSound s
      → IsUsable s.vault.crypto
      → CanRead r.read
      → r.size_ok ≡ true
      → 0 < length buf
      → offset + length buf < size_mod
      → (rvaultfs_write o z e s buf (pos offset)).1 ≡ ok (length buf)
      → (rvaultfs_write o z e s buf (pos offset)).0.fobj.len + s.vault.crypto.block_size ≤ int_max
      → (rvaultfs_flush o z e' (rvaultfs_write o z e s buf (pos offset)).0).1 ≡ ok 0
      → (rvaultfs_read o z r
          (fileobj_open
            (rvaultfs_flush o z e' (rvaultfs_write o z e s buf (pos offset)).0).0.vault
            always
            (rvaultfs_flush o z e' (rvaultfs_write o z e s buf (pos offset)).0).0.fobj.file)
          (length buf)
          (pos offset)).1
        ≡ ok buf
  unfolding rvaultfs_flush
  rvaultfs_read-rvaultfs_flush e e' r s buf offset always i usable can size any small wrote short
        done =
      let run = write_some o z e s buf (pos offset) any in
      let back = λ (w : State × Result ℕ).
        w.1 ≡ ok (length buf)
        → w.0.fobj.len + s.vault.crypto.block_size ≤ int_max
        → (fileobj_sync o z e' fullsync w.0).1 ≡ true
        → (fileobj_pread o z r
            (fileobj_open (fileobj_sync o z e' fullsync w.0).0.vault always
              (fileobj_sync o z e' fullsync w.0).0.fobj.file)
            (length buf) (pos offset)).1
          ≡ ok buf in
      ap (λ x. x.1) (read_some o z r _ (length buf) (pos offset) any)
      ∙ subst back (sym run)
          (λ wrote short done.
            fileobj_pread-fileobj_sync o laws z zlaws e s buf offset i usable any small wrote e' r
              fullsync always can size short done)
          wrote short (flush_done o z e' _ done)

module _ (o : Ops) (z : Lz4) where
  unreadable :
      (e : Env) (v : Vault) (always : Bool) (file : Bytes)
      → e.size_ok ≡ true
      → e.read.map_ok ≡ false
      → 0 < length file
      → fileobj_dataload o z e (fileobj_open v always file) ≡ (fileobj_open v always file, false)
  unfolding fileobj_dataload storage_read_data storage_map_obj
  unreadable e v always file size map any = ground arith

module _ (o : Ops) (z : Lz4) (p : Posix) (base : Bytes) where
  -- The object of an opened path is fresh.
  opened-Fresh :
      (weak_sync : Bool) (m : Mount o p base) (path : Bytes) (flags mode : ℕ) (s : State)
      → (open_object o p base weak_sync m path flags mode).1 ≡ ok s
      → (v : Vault) × (always : Bool) × (file : Bytes) × (s ≡ fileobj_open v always file)
  unfolding open_object
  opened-Fresh weak_sync m path flags mode s h =
      elim (Option-cases (rvault_resolve_path o m.vault.crypto base path).1) [
        | inl f ↦ absurd (ground arith)
        | inr (v, f) ↦ elim (Option-cases (p.open_file v flags mode m.fs).1) [
          | inl g ↦ absurd (ground arith)
          | inr (file, g) ↦ (
            record (m.vault) { crypto = (rvault_resolve_path o m.vault.crypto base path).0 },
            not (bit_and flags o_sync_dsync == 0) || not weak_sync,
            file,
            ground arith,
          )
        ]
      ]

  -- Where mmap refuses a descriptor that is open for writing only, and the sizes of files can be
  -- read, the truncation of a file that is not empty and can be opened for writing fails with EIO,
  -- whatever the size, and leaves the file as it was.
  pub rvaultfs_truncate_unreadable :
      (weak_sync : Bool) (calls : ℕ → Env) (closing : ℕ → SyncEnv) (m : Mount o p base)
      (path : Bytes) (size : ℕ) (s : State)
      → ((flags : ℕ) → bit_and flags o_accmode ≡ o_wronly → (calls flags).read.map_ok ≡ false)
      → ((flags : ℕ) → (calls flags).size_ok ≡ true)
      → (open_object o p base weak_sync m path o_wronly fobj_omask).1 ≡ ok s
      → 0 < length s.fobj.file
      → (t : State) × ((rvaultfs_truncate o z p base weak_sync calls closing m path (pos size)).1
          ≡ some t)
        × ((rvaultfs_truncate o z p base weak_sync calls closing m path (pos size)).2 ≡ fail eio)
        × (t.fobj.file ≡ s.fobj.file)
  unfolding rvaultfs_truncate
  rvaultfs_truncate_unreadable weak_sync calls closing m path size s map known opened any =
      let e = calls o_wronly in
      let (v, always, file, fresh) = opened-Fresh weak_sync m path o_wronly fobj_omask s opened in
      let stuck : fileobj_dataload o z e s ≡ (s, false) =
        subst (λ x. 0 < length x.fobj.file → fileobj_dataload o z e x ≡ (x, false)) (sym fresh)
          (unreadable o z e v always file (known o_wronly) (map o_wronly refl)) any in
      let failed : Result ℕ = fail eio in
      let sized : fileobj_setsize o z e s size ≡ (s, failed) =
        setsize_unloaded o z e s size (ap (λ x. x.1) stuck) ∙ ap (λ x. (x.0, failed)) stuck in
      (
        (fileobj_close o z closing s).0,
        ground arith,
        ground arith,
        clean_close o z closing s (ap (λ x. x.fobj.dirty) fresh),
      )
