-- ===== src/FileObj.antt =====
-- The in-memory file objects of src/core/fileobj.c: load on first use, reads, writes, resizing,
-- and the write-back through a temporary file that replaces the vault's file. The state is the
-- vault's crypto object and one file object, whose `file` is both what its descriptor and what
-- its path refer to: one object for each path.
pub mod Branches
pub mod Sound
pub mod Overwrite
pub mod Refine
pub mod Durable
pub mod Flushed
pub mod Reach
pub mod Stat
use rvault.Prelude.{
  suc, zero, suc, ℕ, ◌+◌, ◌-◌, ◌%◌, Bool, true, false, not, ◌&&◌, ◌||◌, Option, none, some, [],
  ◌==◌, ltb, if◌then◌else◌, length, take, drop, ℤ, pos, negsuc,
}
use rvault.Prelude.Bytes.{Bytes}
use rvault.Buffer.{Sbuffer, empty_sbuffer, contents, sbuffer_move, memcpy_at, size_mod}
use rvault.Crypto.{Ops}
use rvault.Storage.Object.{Lz4, ReadEnv, WriteEnv, Vault, storage_read_data, storage_write_data}

-- struct fileobj. `fsyncs` counts the calls of fs_sync on it.
pub record Fileobj : Type 0 where
  pub inmem : Bool
  pub dirty : Bool
  pub need_fsync : Bool
  pub always_fsync : Bool
  pub sbuf : Sbuffer
  pub len : ℕ
  pub last_stime : ℕ
  pub file : Bytes
  pub fsyncs : ℕ

pub record State : Type 0 where
  pub vault : Vault
  pub fobj : Fileobj

-- The outcomes of the calls that a write-back makes.
pub record SyncEnv : Type 0 where
  pub truncate_ok : Bool
  pub name_ok : Bool
  pub open_ok : Bool
  pub rename_ok : Bool
  pub write : WriteEnv

-- The outcomes that an operation meets, and the time.
pub record Env : Type 0 where
  pub size_ok : Bool
  pub read : ReadEnv
  pub move_ok : Bool
  pub now : ℕ
  pub sync : SyncEnv

-- `errno` after a failure; `system` is what the failing call left there.
pub data Errno : Type 0 where
  einval eio enomem enametoolong system : Errno

pub data Result (A : Type 0) : Type 0 where
  ok : A → Result A
  fail : Errno → Result A

-- FOBJ_WRITEBACK and FOBJ_FULLSYNC.
pub data SyncType : Type 0 where
  writeback fullsync : SyncType

abbrev pub is_fullsync : SyncType → Bool
is_fullsync writeback = false
is_fullsync fullsync = true

-- What fileobj_open leaves of an object whose file could be opened.
abbrev pub fileobj_open : Vault → Bool → Bytes → State
fileobj_open v always file = record {
  vault = v;
  fobj = record {
    inmem = false;
    dirty = false;
    need_fsync = false;
    always_fsync = always;
    sbuf = empty_sbuffer;
    len = 0;
    last_stime = 0;
    file = file;
    fsyncs = 0;
  };
}

abbrev with_crypto : State → Vault → State
with_crypto s v = record s { vault = v }

module _ (o : Ops) (z : Lz4) where
  -- fileobj_dataload, and whether it succeeds.
  unfoldable pub fileobj_dataload : Env → State → State × Bool
  fileobj_dataload e s =
      if s.fobj.inmem
      then (s, true)
      else if not e.size_ok
      then (s, false)
      else if length s.fobj.file == 0
      then (record s { fobj = record (s.fobj) { inmem = true } }, true)
      else let r = storage_read_data o z e.read s.vault s.fobj.file in
        let v = record (s.vault) { crypto = r.crypto } in
        elim r.ret [
          | none ↦ (record { vault = v; fobj = s.fobj }, false)
          | some (buf, n) ↦ (
            record { vault = v; fobj = record (s.fobj) { sbuf = buf; len = n; inmem = true } },
            true,
          )
        ]

  -- The label `out` of fileobj_sync.
  abbrev pub sync_out : SyncType → State → State
  sync_out t s =
      if is_fullsync t && s.fobj.need_fsync
      then record s { fobj = record (s.fobj) { need_fsync = false; fsyncs = s.fobj.fsyncs + 1 } }
      else s

  -- fileobj_sync. A failure removes the temporary file.
  unfoldable pub fileobj_sync : SyncEnv → SyncType → State → State × Bool
  fileobj_sync e t s =
      if not s.fobj.dirty
      then (sync_out t s, true)
      else if s.fobj.len == 0
      then (if e.truncate_ok
          then (sync_out t (record s { fobj = record (s.fobj) { file = [] } }), true)
          else (s, false))
      else if not e.name_ok || not e.open_ok
      then (s, false)
      else let r =
          storage_write_data o z e.write s.vault [] (take s.fobj.len (contents s.fobj.sbuf.buf)) in
        let v = record (s.vault) { crypto = r.crypto } in
        elim r.ret [
          | none ↦ (record s { vault = v }, false)
          | some n ↦
              if e.rename_ok
              then (
                sync_out t
                    (record { vault = v; fobj = record (s.fobj) { dirty = false; file = r.file } }),
                true,
              )
              else (record s { vault = v }, false)
        ]

  -- fileobj_pread: the bytes read. A negative offset is `negsuc`.
  unfoldable pub fileobj_pread : Env → State → ℕ → ℤ → State × Result Bytes
  unfolding fileobj_dataload
  fileobj_pread e s len (negsuc n) = (s, fail einval)
  fileobj_pread e s len (pos offset) =
      let (t, loaded) = fileobj_dataload e s in
      if not loaded
      then (t, fail eio)
      else if t.fobj.len == 0 || not (ltb offset t.fobj.len)
      then (t, ok [])
      else (
        t,
        ok (
            take (if ltb (t.fobj.len - offset) len then t.fobj.len - offset else len)
              (drop offset (contents t.fobj.sbuf.buf))),
      )

  -- fileobj_pwrite up to the copy: the buffer expanded to hold the bytes up to `endoff`.
  unfoldable pub expand : Bool → ℕ → State → State × Bool
  unfolding sbuffer_move
  expand move_ok endoff s =
      let nlen = (endoff + 1) % size_mod in
      if ltb endoff s.fobj.len
      then (s, true)
      else if ltb endoff s.fobj.sbuf.buf_size
      then (record s { fobj = record (s.fobj) { len = nlen } }, true)
      else let (buf, moved) = sbuffer_move move_ok s.fobj.sbuf nlen true in
        if moved
        then (record s { fobj = record (s.fobj) { sbuf = buf; len = nlen } }, true)
        else (record s { fobj = record (s.fobj) { sbuf = buf } }, false)

  -- The copy into the buffer.
  abbrev pub store : State → Bytes → ℕ → State
  store s buf offset = record s {
    fobj = record (s.fobj) {
      sbuf = record (s.fobj.sbuf) { buf = some (memcpy_at (contents s.fobj.sbuf.buf) offset buf) };
      dirty = true;
      need_fsync = true;
    };
  }

  abbrev pub fobj_min_sync_time : ℕ
  fobj_min_sync_time = 3

  -- The write-back at the end of fileobj_pwrite; its failure is not reported.
  unfoldable pub written_back : Env → State → State
  unfolding fileobj_sync
  written_back e s =
      if s.fobj.always_fsync
      then (fileobj_sync e.sync fullsync s).0
      else if ltb (s.fobj.last_stime + fobj_min_sync_time) e.now
      then (let (t, synced) = fileobj_sync e.sync writeback s in
          if synced then record t { fobj = record (t.fobj) { last_stime = e.now } } else t)
      else s

  -- fileobj_pwrite: the number of bytes written. `endoff` is an uint64_t.
  unfoldable pub fileobj_pwrite : Env → State → Bytes → ℤ → State × Result ℕ
  unfolding fileobj_dataload expand written_back
  fileobj_pwrite e s buf (negsuc n) = (s, fail einval)
  fileobj_pwrite e s buf (pos offset) =
      let endoff = (offset + length buf + (size_mod - 1)) % size_mod in
      if ltb endoff offset
      then (s, fail einval)
      else if length buf == 0
      then (s, ok 0)
      else let (t, loaded) = fileobj_dataload e s in
        if not loaded
        then (t, fail eio)
        else let (u, room) = expand e.move_ok endoff t in
          if not room
          then (u, fail enomem)
          else (written_back e (store u buf offset), ok (length buf))

  -- fileobj_getsize; `fail` is the (size_t)-1.
  unfoldable pub fileobj_getsize : Env → State → State × Result ℕ
  unfolding fileobj_dataload
  fileobj_getsize e s =
      let (t, loaded) = fileobj_dataload e s in if loaded then (t, ok t.fobj.len) else (t, fail eio)

  -- fileobj_setsize behind the resizing of the buffer.
  abbrev pub resized : State → Sbuffer → ℕ → State
  resized s buf len = record s {
    fobj = record (s.fobj) { sbuf = buf; len = len; dirty = true; need_fsync = true };
  }

  -- fileobj_setsize. The buffer is moved if the length is not zero.
  unfoldable pub fileobj_setsize : Env → State → ℕ → State × Result ℕ
  unfolding fileobj_dataload fileobj_sync sbuffer_move
  fileobj_setsize e s len =
      let (t, loaded) = fileobj_dataload e s in
      if not loaded
      then (t, fail eio)
      else let (buf, moved) =
          (if len == 0
            then (t.fobj.sbuf, true)
            else sbuffer_move e.move_ok t.fobj.sbuf len false) in
        if not moved
        then (record t { fobj = record (t.fobj) { sbuf = buf } }, fail system)
        else let (u, synced) = fileobj_sync e.sync writeback (resized t buf len) in
          if synced then (u, ok 0) else (u, fail system)

  -- The loop of fileobj_close: a first attempt and up to `retry` more.
  unfoldable pub sync_retrying : (ℕ → SyncEnv) → ℕ → State → State × Bool
  unfolding fileobj_sync
  sync_retrying e zero s = fileobj_sync (e 0) fullsync s
  sync_retrying e (suc retry) s =
      let (t, synced) = fileobj_sync (e (suc retry)) fullsync s in
      let rest = sync_retrying e retry t in if synced then (t, true) else rest

  -- fileobj_close: what it leaves, with the buffer that is not freed.
  unfoldable pub fileobj_close : (ℕ → SyncEnv) → State → State × Option Bytes
  unfolding sync_retrying
  fileobj_close e s =
      let (t, synced) = sync_retrying e 3 s in
      (t, if t.fobj.len == 0 then t.fobj.sbuf.buf else none)
