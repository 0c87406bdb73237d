-- ===== src/Cli.antt =====
-- The commands that store and print a file, of src/core/cli.c: do_file_io on a file object.
pub mod Transfer
pub mod PutGet
pub mod Options
pub mod Commands
pub mod Listed
use rvault.Prelude.{
  ℕ, suc, ◌+◌, Bool, true, false, not, Option, none, some, List, [], ◌∷◌, ◌==◌, if◌then◌else◌,
  length, pos,
}
use rvault.Prelude.Bytes.{Bytes}
use rvault.Crypto.{Ops}
use rvault.Files.{Outcome, fs_write}
use rvault.Storage.Object.{Lz4}
use rvault.FileObj.{
  State, Env, SyncEnv, Result, ok, fail, fileobj_getsize, fileobj_pread, fileobj_pwrite,
  fileobj_close,
}

module _ (o : Ops) (z : Lz4) where
  -- The loop of FILE_WRITE: what each call of fs_read gives, with the outcomes that the write of it
  -- meets; `none` is -1, and no bytes are the end of the input. The object, and whether the loop
  -- came to that end.
  unfoldable pub write_input : List (Env × Option Bytes) → ℕ → State → State × Bool
  write_input [] off s = (s, true)
  write_input ((e, none) ∷ input) off s = (s, false)
  write_input ((e, some []) ∷ input) off s = (s, true)
  write_input ((e, some (b ∷ bs)) ∷ input) off s =
      let (t, wrote) = fileobj_pwrite o z e s (b ∷ bs) (pos off) in
      let rest = write_input input (off + length (b ∷ bs)) t in
      elim wrote [ fail n ↦ (t, false) | ok n ↦ rest ]

  -- FILE_READ: the object, what standard output takes, and whether it succeeds. The size of an
  -- object that cannot be loaded is -1, and so there is nothing to do.
  unfoldable pub print_file : Env → Bool → List Outcome → State → State × Bytes × Bool
  print_file e malloc_ok outs s =
      let (t, size) = fileobj_getsize o z e s in
      elim size [
        | fail n ↦ (t, [], true)
        | ok nbytes ↦
            if nbytes == 0
            then (t, [], true)
            else if not malloc_ok
            then (t, [], false)
            else (let (u, got) = fileobj_pread o z e t nbytes (pos 0) in
                elim got [
                  | fail n ↦ (u, [], false)
                  | ok buf ↦
                      let (out, count) = fs_write outs buf in
                      (u, out, elim count [ none ↦ false | some k ↦ k == nbytes ])
                ])
      ]

  -- do_file_io with FILE_WRITE: the object after its closing, and whether it returns 0. What
  -- becomes of the write-back at the closing is not reported.
  unfoldable pub put_file : List (Env × Option Bytes) → Bool → (ℕ → SyncEnv) → State → State × Bool
  put_file input malloc_ok closing s =
      if not malloc_ok
      then ((fileobj_close o z closing s).0, false)
      else (let (t, done) = write_input input 0 s in ((fileobj_close o z closing t).0, done))

  -- do_file_io with FILE_READ: the object after its closing, what standard output takes, and
  -- whether it returns 0.
  unfoldable pub get_file : Env → Bool → List Outcome → (ℕ → SyncEnv) → State → State × Bytes × Bool
  get_file e malloc_ok outs closing s =
      let (t, out, done) = print_file e malloc_ok outs s in
      ((fileobj_close o z closing t).0, out, done)
