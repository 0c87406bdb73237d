-- ===== src/Fuse/Handles.antt =====
-- The operations of src/fuse/rvaultfs.c on file handles: each is one on the file object that the
-- handle refers to.
use rvault.Prelude.{ℕ, Option, none, some, [], ◌==◌, if◌then◌else◌, length, ℤ, pos, negsuc}
use rvault.Prelude.Bytes.{Bytes}
use rvault.Crypto.{Ops}
use rvault.Storage.Object.{Lz4}
use rvault.Fuse.{Bool, Posix, Mount, open_object, o_wronly, fobj_omask}
use rvault.FileObj.{
  State, Env, SyncEnv, Result, ok, fail, einval, system, fullsync, fileobj_pread, fileobj_pwrite,
  fileobj_sync, fileobj_setsize, fileobj_close,
}

module _ (o : Ops) (z : Lz4) where
  unfoldable pub rvaultfs_read : Env → State → ℕ → ℤ → State × Result Bytes
  rvaultfs_read e s len offset = if len == 0 then (s, ok []) else fileobj_pread o z e s len offset

  unfoldable pub rvaultfs_write : Env → State → Bytes → ℤ → State × Result ℕ
  rvaultfs_write e s buf offset =
      if length buf == 0 then (s, ok 0) else fileobj_pwrite o z e s buf offset

  unfoldable pub rvaultfs_flush : SyncEnv → State → State × Result ℕ
  rvaultfs_flush e s =
      let (t, synced) = fileobj_sync o z e fullsync s in (t, if synced then ok 0 else fail system)

  unfoldable pub rvaultfs_fsync : SyncEnv → State → State × Result ℕ
  rvaultfs_fsync e s =
      let (t, synced) = fileobj_sync o z e fullsync s in (t, if synced then ok 0 else fail system)

  -- The write-back at the closing is not reported.
  unfoldable pub rvaultfs_release : (ℕ → SyncEnv) → State → State × Result ℕ
  rvaultfs_release closing s = ((fileobj_close o z closing s).0, ok 0)

module _ (o : Ops) (z : Lz4) (p : Posix) (base : Bytes) where
  -- rvaultfs_truncate, with the file object at its closing, which shares the mount's vault. `calls`
  -- is what the system calls on a descriptor give, by the flags that it was opened with.
  unfoldable pub rvaultfs_truncate :
      (weak_sync : Bool)
      → (calls : ℕ → Env) → (closing : ℕ → SyncEnv) → Mount o p base
      → Bytes
      → ℤ
      → Mount o p base × Option State × Result ℕ
  unfolding open_object
  rvaultfs_truncate weak_sync calls closing m path (negsuc n) = (m, none, fail einval)
  rvaultfs_truncate weak_sync calls closing m path (pos size) =
      let flags = o_wronly in
      let (n, opened) = open_object o p base weak_sync m path flags fobj_omask in
      elim opened [
        | fail e ↦ (n, none, fail e)
        | ok s ↦
            let (t, resized) = fileobj_setsize o z (calls flags) s size in
            let u = (fileobj_close o z closing t).0 in
            (
              record n { vault = u.vault },
              some u,
              elim resized [ fail err ↦ fail err | ok n ↦ ok 0 ],
            )
      ]
