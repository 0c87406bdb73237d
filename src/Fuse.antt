-- ===== src/Fuse.antt =====
-- The file-system operations of src/fuse/rvaultfs.c on paths: each resolves the path and makes the
-- system call on the object's path. The system is a parameter; `none` is a return of -1.
pub mod Tree
pub mod Names
pub mod Changes
pub mod Opened
pub mod Renamed
pub mod Handles
pub mod Stored
use rvault.Prelude.{
  ℕ, Bool, true, false, not, ◌||◌, Option, none, some, List, ◌==◌, ltb, if◌then◌else◌, length,
}
use Prim.Native.Nat.{bit_and}
use rvault.Prelude.Bytes.{Bytes}
use rvault.Crypto.{Crypto, Ops}
use rvault.Storage.Object.{Vault}
use rvault.Resolve.Walk.{rvault_resolve_path}
use rvault.FileObj.{State, Result, ok, fail, Errno, einval, enametoolong, system, fileobj_open}
use rvault.FileObj.Stat.{Stat, fileobj_stat}
use rvault.Vault.Dirs.{rvault_iter_dir}

-- The calls on one path, with their other arguments.
pub data Call : Type 0 where
  statvfs unlink rmdir : Call
  mkdir chmod : (mode : ℕ) → Call
  chown : (uid gid : ℕ) → Call
  listxattr : (size : ℕ) → Call
  getxattr : (name : Bytes) (size : ℕ) → Call
  setxattr : (name value : Bytes) (flags : ℕ) → Call
  removexattr : (name : Bytes) → Call

-- The operating system. `call` gives what it returns and what it puts into the caller's buffer;
-- `open` the bytes of the file; `fstat` of a path that can be opened, the outcome of fstat and the
-- bytes; `readdir` the entries.
pub record Posix : Type 1 where
  pub Fs : Type 0
  pub call : Call → Bytes → Fs → Fs × Option (ℕ × Bytes)
  pub rename : (from to : Bytes) → Fs → Fs × Bool
  pub utimensat : Bytes → (times : Bytes) → Fs → Fs × Bool
  pub open_file : Bytes → (flags mode : ℕ) → Fs → Fs × Option Bytes
  pub fstat : Bytes → Fs → Option (Option Stat × Bytes)
  pub readdir : Bytes → Fs → Option (List Bytes)

abbrev pub path_max : ℕ
path_max = 4096

-- O_SYNC | O_DSYNC and O_CREAT, on Linux.
abbrev pub o_sync_dsync : ℕ
o_sync_dsync = 0x101000

-- The access modes of open(2): O_WRONLY, and O_ACCMODE, which masks them.
abbrev pub o_wronly : ℕ
o_wronly = 1

abbrev pub o_accmode : ℕ
o_accmode = 3

-- FOBJ_OMASK.
abbrev pub fobj_omask : ℕ
fobj_omask = 0x1a4

module _ (o : Ops) (p : Posix) (base : Bytes) where
  open p use {Fs}

  -- The vault's crypto object and settings, and the file system.
  pub record Mount : Type 0 where
    pub vault : Vault
    pub fs : Fs

  abbrev with_crypto : Mount → Crypto → Mount
  with_crypto m c = record m { vault = record (m.vault) { crypto = c } }

  -- get_vault_path, into a buffer of PATH_MAX.
  unfoldable pub get_vault_path : Mount → Bytes → Mount × Result Bytes
  unfolding rvault_resolve_path
  get_vault_path m path =
      let (c, vpath) = rvault_resolve_path o m.vault.crypto base path in
      (
        with_crypto m c,
        elim vpath [
          | none ↦ fail system
          | some v ↦ if ltb (length v) path_max then ok v else fail enametoolong
        ],
      )

  -- The body that the operations on one path share.
  unfoldable pub path_call : Call → Mount → Bytes → Mount × Result (ℕ × Bytes)
  unfolding get_vault_path
  path_call k m path =
      let (n, vpath) = get_vault_path m path in
      elim vpath [
        | fail e ↦ (n, fail e)
        | ok v ↦
            let (fs, ret) = p.call k v n.fs in
            (record n { fs = fs }, elim ret [ none ↦ fail system | some r ↦ ok r ])
      ]

  unfoldable pub rvaultfs_statfs : Mount → Bytes → Mount × Result (ℕ × Bytes)
  unfolding path_call
  rvaultfs_statfs = path_call statvfs

  unfoldable pub rvaultfs_unlink : Mount → Bytes → Mount × Result (ℕ × Bytes)
  unfolding path_call
  rvaultfs_unlink = path_call unlink

  unfoldable pub rvaultfs_rmdir : Mount → Bytes → Mount × Result (ℕ × Bytes)
  unfolding path_call
  rvaultfs_rmdir = path_call rmdir

  unfoldable pub rvaultfs_mkdir : Mount → Bytes → ℕ → Mount × Result (ℕ × Bytes)
  unfolding path_call
  rvaultfs_mkdir m path mode = path_call (mkdir mode) m path

  unfoldable pub rvaultfs_chmod : Mount → Bytes → ℕ → Mount × Result (ℕ × Bytes)
  unfolding path_call
  rvaultfs_chmod m path mode = path_call (chmod mode) m path

  unfoldable pub rvaultfs_chown : Mount → Bytes → (uid gid : ℕ) → Mount × Result (ℕ × Bytes)
  unfolding path_call
  rvaultfs_chown m path uid gid = path_call (chown uid gid) m path

  unfoldable pub rvaultfs_listxattr : Mount → Bytes → ℕ → Mount × Result (ℕ × Bytes)
  unfolding path_call
  rvaultfs_listxattr m path size = path_call (listxattr size) m path

  unfoldable pub rvaultfs_getxattr : Mount → (path name : Bytes) → ℕ → Mount × Result (ℕ × Bytes)
  unfolding path_call
  rvaultfs_getxattr m path name size = path_call (getxattr name size) m path

  unfoldable pub rvaultfs_setxattr :
      Mount → (path name value : Bytes) → ℕ → Mount × Result (ℕ × Bytes)
  unfolding path_call
  rvaultfs_setxattr m path name value flags = path_call (setxattr name value flags) m path

  unfoldable pub rvaultfs_removexattr : Mount → (path name : Bytes) → Mount × Result (ℕ × Bytes)
  unfolding path_call
  rvaultfs_removexattr m path name = path_call (removexattr name) m path

  -- The path is resolved, but the times are set on the path that was given.
  unfoldable pub rvaultfs_utimens : Mount → (path times : Bytes) → Mount × Result ℕ
  unfolding get_vault_path
  rvaultfs_utimens m path times =
      let (n, vpath) = get_vault_path m path in
      elim vpath [
        | fail e ↦ (n, fail e)
        | ok v ↦
            let (fs, set) = p.utimensat path times n.fs in
            (record n { fs = fs }, if set then ok 0 else fail system)
      ]

  unfoldable pub rvaultfs_rename : Mount → (from to : Bytes) → Mount × Result ℕ
  unfolding get_vault_path
  rvaultfs_rename m from to =
      let (n, vpath_from) = get_vault_path m from in
      elim vpath_from [
        | fail e ↦ (n, fail e)
        | ok a ↦
            let (k, vpath_to) = get_vault_path n to in
            elim vpath_to [
              | fail e ↦ (k, fail e)
              | ok b ↦
                  let (fs, renamed) = p.rename a b k.fs in
                  (record k { fs = fs }, if renamed then ok 0 else fail system)
            ]
      ]

  unfoldable pub rvaultfs_getattr : Mount → Bytes → Mount × Result Stat
  unfolding rvault_resolve_path fileobj_stat
  rvaultfs_getattr m path =
      let (c, vpath) = rvault_resolve_path o m.vault.crypto base path in
      (
        with_crypto m c,
        elim vpath [
          | none ↦ fail system
          | some v ↦ elim (p.fstat v m.fs) [
            | none ↦ fail system
            | some (st, file) ↦ elim (fileobj_stat true st file) [
              | none ↦ fail system
              | some s ↦ ok s
            ]
          ]
        ],
      )

  -- rvaultfs_readdir: also the names that the filler is given.
  unfoldable pub rvaultfs_readdir :
      (malloc_ok : Bool) → Mount → Bytes → Mount × List Bytes × Result ℕ
  unfolding rvault_resolve_path rvault_iter_dir
  rvaultfs_readdir malloc_ok m path =
      let (c, vpath) = rvault_resolve_path o m.vault.crypto base path in
      let entries : Option (List Bytes) = elim vpath [ none ↦ none | some v ↦ p.readdir v m.fs ] in
      let (d, names, done) = rvault_iter_dir o malloc_ok c entries in
      (with_crypto m d, names, if done then ok 0 else fail system)

  -- The whole of fileobj_open, of a path; `weak_sync` is the vault's.
  unfoldable pub open_object :
      (weak_sync : Bool) → Mount → Bytes → (flags mode : ℕ) → Mount × Result State
  unfolding rvault_resolve_path
  open_object weak_sync m path flags mode =
      let (c, vpath) = rvault_resolve_path o m.vault.crypto base path in
      let n = with_crypto m c in
      elim vpath [
        | none ↦ (n, fail system)
        | some v ↦
            let (fs, opened) = p.open_file v flags mode n.fs in
            (
              record n { fs = fs },
              elim opened [
                | none ↦ fail system
                | some file ↦ ok (
                    fileobj_open n.vault (not (bit_and flags o_sync_dsync == 0) || not weak_sync)
                      file)
              ],
            )
      ]

  -- rvaultfs_open_raw, with the file object that the handle refers to.
  unfoldable pub rvaultfs_open_raw :
      (weak_sync : Bool) → Mount → Bytes → (flags mode : ℕ) → Mount × Result State
  unfolding open_object
  rvaultfs_open_raw weak_sync m path flags mode = open_object weak_sync m path flags mode

  unfoldable pub rvaultfs_create :
      (weak_sync : Bool) → Mount → Bytes → (mode flags : ℕ) → Mount × Result State
  unfolding rvaultfs_open_raw
  rvaultfs_create weak_sync m path mode flags = rvaultfs_open_raw weak_sync m path flags mode

  unfoldable pub rvaultfs_open :
      (weak_sync : Bool) → Mount → Bytes → (flags : ℕ) → Mount × Result State
  unfolding rvaultfs_open_raw
  rvaultfs_open weak_sync m path flags = rvaultfs_open_raw weak_sync m path flags fobj_omask
