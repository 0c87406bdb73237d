-- ===== src/FileObj/Reach.antt =====
-- The life of a file object as steps from its opening to its closing, in any order and with any
-- outcomes of the calls beneath.
use rvault.Prelude.{ℕ, ◌<◌, Bool, ℤ}
use rvault.Prelude.Bytes.{Bytes}
use rvault.Crypto.{Ops, Laws}
use rvault.Storage.Object.{Lz4, Vault}
use rvault.FileObj.{
  State, SyncEnv, SyncType, Env, fileobj_open, fileobj_sync, fileobj_pread, fileobj_pwrite,
  fileobj_setsize, fileobj_getsize,
}
use rvault.FileObj.Sound.{
  IsSound, Ends, Kept-IsSound, fileobj_sync-Kept, fileobj_open-IsSound, fileobj_pread-IsSound,
  fileobj_pwrite-IsSound, fileobj_setsize-IsSound, fileobj_getsize-IsSound,
}

module _ (o : Ops) (z : Lz4) where
  -- One operation; a write ends below 2^64.
  pub data Step : State → State → Type 0 where
    sync : (e : SyncEnv) (t : SyncType) (s : State) → Step s (fileobj_sync o z e t s).0
    pread :
        (e : Env) (s : State) (len : ℕ) (offset : ℤ) → Step s (fileobj_pread o z e s len offset).0
    pwrite :
        (e : Env) (s : State) (buf : Bytes) (offset : ℤ)
        → Ends buf offset
        → Step s (fileobj_pwrite o z e s buf offset).0
    getsize : (e : Env) (s : State) → Step s (fileobj_getsize o z e s).0
    setsize : (e : Env) (s : State) (len : ℕ) → Step s (fileobj_setsize o z e s len).0

  pub data Reachable (s : State) : State → Type 0 where
    start : Reachable s s
    after : (t u : State) → Reachable s t → Step t u → Reachable s u

  Step-IsSound : (laws : Laws o) {s t : State} → Step s t → IsSound s → IsSound t
  Step-IsSound laws (sync e k s) i = Kept-IsSound o z (fileobj_sync-Kept o z e k s) i
  Step-IsSound laws (pread e s len offset) i = fileobj_pread-IsSound o z laws e s i len offset
  Step-IsSound laws (pwrite e s buf offset h) i = fileobj_pwrite-IsSound o z laws e s i buf offset h
  Step-IsSound laws (getsize e s) i = fileobj_getsize-IsSound o z laws e s i
  Step-IsSound laws (setsize e s len) i = fileobj_setsize-IsSound o z laws e s i len

  Reachable-IsSound : (laws : Laws o) {s t : State} → Reachable s t → IsSound s → IsSound t
  Reachable-IsSound laws start i = i
  Reachable-IsSound laws (after t u r x) i = Step-IsSound laws x (Reachable-IsSound laws r i)

  -- From the opening of a file on, whatever operations run and however the calls beneath them
  -- fail, the data fit into the buffer, the buffer has the size recorded, and an object that is
  -- not loaded is empty and has nothing to write back. Blocks are of fewer than 256 bytes.
  pub opened-IsSound :
      (laws : Laws o) (v : Vault) (always : Bool) (file : Bytes) (t : State)
      → v.crypto.block_size < 256
      → Reachable (fileobj_open v always file) t
      → IsSound t
  opened-IsSound laws v always file t small r =
      Reachable-IsSound laws r (fileobj_open-IsSound v always file small)
