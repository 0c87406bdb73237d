-- ===== src/FileObj/Durable.antt =====
-- The write-back: a failure loses nothing, and what a success stored is loaded again.
use rvault.Prelude.{
  ◌==◌, subst, sym, ap, ◌∙◌, ℕ, ◌+◌, ◌≤◌, ◌<◌, ◌≡◌, refl, Bool, true, false, some, arith,
  Bool-cases, Option-cases, inl, inr, length, take, [],
}
use rvault.Buffer.{Sbuffer, contents}
use rvault.Crypto.{Ops, Laws, int_max}
use rvault.Storage.Object.{Lz4, Lz4Laws, storage_write_data, storage_read_data}
use rvault.Storage.RoundTrip.{IsUsable, CanRead}
use rvault.Storage.WriteRead.{Holds, storage_read_data-storage_write_data}
use rvault.Storage.Integrity.{storage_read_data-Accepted}
use rvault.FileObj.{State, SyncEnv, SyncType, Env, fileobj_open, fileobj_dataload, fileobj_sync}
use rvault.FileObj.Branches.{loaded, is_loaded}
use rvault.FileObj.Sound.{IsSound, fileobj_sync-Kept}
use rvault.FileObj.Overwrite.{bytes, length-bytes}

module _ (o : Ops) (z : Lz4) where
  -- A write-back that fails leaves the file in the vault and the data in memory as they were,
  -- and the object still to be written back.
  pub fileobj_sync_fails :
      (e : SyncEnv) (t : SyncType) (s : State)
      → (fileobj_sync o z e t s).1 ≡ false
      → (s.fobj.dirty ≡ true) × ((fileobj_sync o z e t s).0.fobj ≡ s.fobj)
  unfolding fileobj_sync
  fileobj_sync_fails e t s h = (ground arith, ground arith)

  -- What a write-back that succeeds, of an object with data, has stored.
  sync_stored :
      (e : SyncEnv) (t : SyncType) (s : State)
      → (fileobj_sync o z e t s).1 ≡ true
      → s.fobj.dirty ≡ true
      → 0 < s.fobj.len
      → (n : ℕ) × ((storage_write_data o z e.write s.vault [] (bytes s)).ret ≡ some n)
        × ((fileobj_sync o z e t s).0.fobj.file
            ≡ (storage_write_data o z e.write s.vault [] (bytes s)).file)
  unfolding fileobj_sync
  sync_stored e t s h dirty any =
      elim (Option-cases (storage_write_data o z e.write s.vault [] (bytes s)).ret) [
        | inl r ↦ absurd (ground arith)
        | inr (n, r) ↦ (n, r, ground arith)
      ]

  sync_empty :
      (e : SyncEnv) (t : SyncType) (s : State)
      → (fileobj_sync o z e t s).1 ≡ true
      → s.fobj.dirty ≡ true
      → s.fobj.len ≡ 0
      → (fileobj_sync o z e t s).0.fobj.file ≡ []
  unfolding fileobj_sync
  sync_empty e t s h dirty nil = ground arith

  load_empty :
      (r : Env) (s : State)
      → r.size_ok ≡ true
      → s.fobj.inmem ≡ false
      → s.fobj.file ≡ []
      → s.fobj.len ≡ 0
      → (is_loaded o z r s ≡ true) × ((loaded o z r s).fobj.len ≡ 0)
  unfolding fileobj_dataload
  load_empty r s size mem nil l = (ground arith, ground arith)

  load_some :
      (r : Env) (s : State) (b : Sbuffer) (n : ℕ)
      → r.size_ok ≡ true
      → s.fobj.inmem ≡ false
      → 0 < length s.fobj.file
      → (storage_read_data o z r.read s.vault s.fobj.file).ret ≡ some (b, n)
      → (is_loaded o z r s ≡ true) × (bytes (loaded o z r s) ≡ take n (contents b.buf))
  unfolding fileobj_dataload
  load_some r s b n size mem any h = (ground arith, ground arith)

module _ (o : Ops) (laws : Laws o) (z : Lz4) (zlaws : Lz4Laws z) (e : SyncEnv) (t : SyncType)
    (s : State) (i : IsSound s) (usable : IsUsable s.vault.crypto) (r : Env) (can : CanRead r.read)
    (size : r.size_ok ≡ true) (dirty : s.fobj.dirty ≡ true)
    (done : (fileobj_sync o z e t s).1 ≡ true) (always : Bool) where
  abbrev reopened : State
  reopened =
      fileobj_open (fileobj_sync o z e t s).0.vault always (fileobj_sync o z e t s).0.fobj.file

  abbrev Loads : Type 0
  Loads = (is_loaded o z r reopened ≡ true) × (bytes (loaded o z r reopened) ≡ bytes s)

  loads_empty : s.fobj.len ≡ 0 → Loads
  loads_empty nil =
      let (ready, l) =
        load_empty o z r reopened size refl (sync_empty o z e t s done dirty nil) refl in
      (
        ready,
        ap (λ n. take n (contents (loaded o z r reopened).fobj.sbuf.buf)) l
            ∙ sym (ap (λ n. take n (contents s.fobj.sbuf.buf)) nil),
      )

  module _ (any : 0 < s.fobj.len) (short : s.fobj.len + s.vault.crypto.block_size ≤ int_max) where
    reads : Holds (storage_read_data o z r.read reopened.vault reopened.fobj.file).ret (bytes s)
    reads =
        let (n, ret, file) = sync_stored o z e t s done dirty any in
        let u = (fileobj_sync o z e t s).0 in
        subst (λ f. Holds (storage_read_data o z r.read u.vault f).ret (bytes s)) (sym file)
          (storage_read_data-storage_write_data o laws z zlaws e.write r.read can s.vault u.vault
            usable u.vault.crypto.tag u.vault.crypto.aad (fileobj_sync-Kept o z e t s).same_keys []
            (bytes s) (omega (arith, length-bytes s i, any))
            (omega (arith, length-bytes s i, short)) n ret).1

    loads_some : Loads
    loads_some =
        let (b, ret, prefix) = reads in
        let a = storage_read_data-Accepted o z r.read reopened.vault reopened.fobj.file ret in
        let (ready, l) =
          load_some o z r reopened b (length (bytes s)) size refl (omega (arith, a.long)) ret in
        (ready, l ∙ prefix)

  -- What a write-back of changed data reported as done, up to INT_MAX bytes less a block, is in
  -- the file: a new object opened on it, where its reader can map and allocate, loads these data.
  pub fileobj_dataload-fileobj_sync : s.fobj.len + s.vault.crypto.block_size ≤ int_max → Loads
  fileobj_dataload-fileobj_sync short = elim (Bool-cases (s.fobj.len == 0)) [
    | inl nil ↦ loads_empty (ground arith)
    | inr more ↦ loads_some (ground arith) short
  ]
