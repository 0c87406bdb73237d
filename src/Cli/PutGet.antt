-- ===== src/Cli/PutGet.antt =====
-- A file that the command line stored is what it prints: src/core/cli.c over src/core/fileobj.c,
-- src/core/storage.c and src/sys/fs.c.
use rvault.Prelude.{
  ◌≢◌, ℕ, ◌+◌, ◌≤◌, ◌<◌, ◌≡◌, ap, ◌∙◌, sym, subst, true, Bool, Option, none, some, List, [], ◌∷◌,
  ◌++◌, arith, length, length-append, drop, pos, inl, inr,
}
use rvault.Prelude.Bytes.{Bytes}
use rvault.Buffer.{size_mod}
use rvault.Crypto.{Crypto, Ops, Laws, int_max}
use rvault.Files.{Outcome, Progress, offered}
use rvault.Storage.Object.{Lz4, Lz4Laws}
use rvault.Storage.RoundTrip.{IsUsable, CanRead}
use rvault.FileObj.{
  Errno, State, Env, SyncEnv, fullsync, fileobj_open, fileobj_sync, fileobj_close, fileobj_pwrite,
}
use rvault.FileObj.Branches.{Result-cases, loaded}
use rvault.FileObj.Sound.{
  IsSound, Kept-IsSound, fileobj_sync-Kept, fileobj_open-IsSound, fileobj_pwrite-IsSound,
}
use rvault.FileObj.Overwrite.{bytes}
use rvault.FileObj.Flushed.{
  close_first, Pending, flushed-Stores, written-Pending, written-keys, written-IsUsable,
}
use rvault.Cli.{fail, write_input, put_file, get_file}
use rvault.Cli.Transfer.{
  pwrite_count, input_bytes, write_input_step, write_input_lem, print_file_lem,
}

module _ (o : Ops) (laws : Laws o) (z : Lz4) where
  write_input-IsSound :
      (input : List (Env × Option Bytes)) (off : ℕ) (s : State)
      → IsSound s
      → off + length (input_bytes input) < size_mod
      → (write_input o z input off s).1 ≡ true
      → IsSound (write_input o z input off s).0
  unfolding write_input input_bytes
  write_input-IsSound [] off s i small h = i
  write_input-IsSound ((e, none) ∷ input) off s i small h = i
  write_input-IsSound ((e, some []) ∷ input) off s i small h = i
  write_input-IsSound ((e, some (b ∷ bs)) ∷ input) off s i small h =
      let x = b ∷ bs in
      let t = (fileobj_pwrite o z e s x (pos off)).0 in
      let fits : off + length x + length (input_bytes input) < size_mod =
        omega (arith, length-append x (input_bytes input)) in
      elim (Result-cases (fileobj_pwrite o z e s x (pos off)).1) [
        | inl (n, bad) ↦ absurd (ground arith)
        | inr (n, good) ↦
            let step = write_input_step o laws z e b n bs input off s good in
            let ti = fileobj_pwrite-IsSound o z laws e s i x (pos off) (omega arith) in
            subst (λ r. IsSound r.0) (sym step)
              (write_input-IsSound input (off + length x) t ti fits (ap (λ r. r.1) (sym step) ∙ h))
      ]

-- The write-back at the closing succeeds at its first attempt, with no more than a block below
-- INT_MAX to store.
pub record IsStored (o : Ops) (z : Lz4) (closing : ℕ → SyncEnv) (t : State) : Type 0 where
  pub short : t.fobj.len + t.vault.crypto.block_size ≤ int_max
  pub synced : (fileobj_sync o z (closing 3) fullsync t).1 ≡ true

-- A reader that can map and allocate, and an output that takes that many bytes.
pub record CanPrint (r : Env) (outs : List Outcome) (n : ℕ) : Type 0 where
  pub size : r.size_ok ≡ true
  pub can : CanRead r.read
  pub progress : Progress outs
  pub fits : n ≤ offered outs

-- The object of the file that the other one left.
abbrev pub reopened : Bool → State → State
reopened always s = fileobj_open s.vault always s.fobj.file

-- What the closing after a put left, and how it is opened again.
module _ (o : Ops) (laws : Laws o) (z : Lz4) (zlaws : Lz4Laws z) (closing closing' : ℕ → SyncEnv)
    (t : State) (i : IsSound t) (r : Env) (outs : List Outcome) (always : Bool) where
  get_stored :
      IsUsable t.vault.crypto
      → Pending o laws z zlaws t (bytes t)
      → IsStored o z closing t
      → CanPrint r outs (length (bytes t))
      → ((get_file o z r true outs closing' (reopened always (fileobj_close o z closing t).0)).1
          ≡ bytes t)
        × ((get_file o z r true outs closing' (reopened always (fileobj_close o z closing t).0)).2
            ≡ true)
  unfolding get_file
  get_stored usable pending x y =
      let u = (fileobj_sync o z (closing 3) fullsync t).0 in
      let again = reopened always u in
      let ui = Kept-IsSound o z (fileobj_sync-Kept o z (closing 3) fullsync t) i in
      let ai = fileobj_open-IsSound u.vault always u.fobj.file ui.block_small in
      let (ready, same) =
        flushed-Stores o laws z zlaws (closing 3) fullsync t i usable x.short pending x.synced r
          always y.can y.size in
      let (out, done) =
        print_file_lem o laws z r outs again ai ready y.progress
          (omega (arith, y.fits, ap length same)) in
      let there = close_first o z closing t x.synced in
      subst
        (λ c.
          ((get_file o z r true outs closing' (reopened always c)).1 ≡ bytes t)
          × ((get_file o z r true outs closing' (reopened always c)).2 ≡ true))
        (sym there) (out ∙ same, done)

module _ (o : Ops) (laws : Laws o) (z : Lz4) (zlaws : Lz4Laws z) where
  abbrev Left : State → Type 0
  Left t = IsUsable t.vault.crypto × Pending o laws z zlaws t (bytes t)

  -- A chunk that has been written, and what is left to do.
  record Written (input : List (Env × Option Bytes)) (off : ℕ) (w t : State) : Type 0 where
    rest : write_input o z input off w ≡ (t, true)
    sound : IsSound w
    usable : IsUsable w.vault.crypto
    pending : w.fobj.len + w.vault.crypto.block_size ≤ int_max → Pending o laws z zlaws w (bytes w)

  first_fails :
      (e : Env) (b : ℕ) (bs : Bytes) (n : Errno) (input : List (Env × Option Bytes)) (off : ℕ)
      (s t : State)
      → (fileobj_pwrite o z e s (b ∷ bs) (pos off)).1 ≡ fail n
      → write_input o z ((e, some (b ∷ bs)) ∷ input) off s ≢ (t, true)
  unfolding write_input
  first_fails e b bs n input off s t bad h = ground arith

  first-Written :
      (e : Env) (b : ℕ) (bs : Bytes) (input : List (Env × Option Bytes)) (off : ℕ) (s t : State)
      → IsSound s
      → IsUsable s.vault.crypto
      → off + length (b ∷ bs) < size_mod
      → write_input o z ((e, some (b ∷ bs)) ∷ input) off s ≡ (t, true)
      → Written input (off + length (b ∷ bs)) (fileobj_pwrite o z e s (b ∷ bs) (pos off)).0 t
  first-Written e b bs input off s t i usable fits h =
      let x = b ∷ bs in
      elim (Result-cases (fileobj_pwrite o z e s x (pos off)).1) [
        | inl (n, bad) ↦ absurd (first_fails e b bs n input off s t bad h)
        | inr (n, good) ↦
            let wrote = pwrite_count o laws z e s x off n (omega arith) fits good in
            let keys = written-keys o laws z zlaws e s x off i usable (omega arith) fits wrote in
            record {
              rest = sym (write_input_step o laws z e b n bs input off s good) ∙ h;
              sound = fileobj_pwrite-IsSound o z laws e s i x (pos off) fits;
              usable = written-IsUsable o laws z zlaws e s x off i usable (omega arith) fits wrote;
              pending = λ short.
                  written-Pending o laws z zlaws e s x off i usable (omega arith) fits wrote
                    (omega (arith, ap Crypto.block_size keys, short));
            }
      ]

  ends-Left :
      (input : List (Env × Option Bytes)) (off : ℕ) (w t : State)
      → Written input off w t
      → w ≡ t
      → t.fobj.len + t.vault.crypto.block_size ≤ int_max
      → Left t
  ends-Left input off w t x same short =
      subst (λ u. u.fobj.len + u.vault.crypto.block_size ≤ int_max → Left u) same
        (λ short. (x.usable, x.pending short)) short

  -- The last write of an input leaves the data to be stored, or has stored them.
  last-Left :
      (input : List (Env × Option Bytes)) (off : ℕ) (w t : State)
      → Written input off w t
      → off + length (input_bytes input) < size_mod
      → t.fobj.len + t.vault.crypto.block_size ≤ int_max
      → Left t
  unfolding write_input input_bytes
  last-Left [] off w t x small short = ends-Left [] off w t x (ap (λ r. r.0) x.rest) short
  last-Left ((e, none) ∷ input) off w t x small short = absurd (cc x.rest)
  last-Left ((e, some []) ∷ input) off w t x small short =
      ends-Left ((e, some []) ∷ input) off w t x (ap (λ r. r.0) x.rest) short
  last-Left ((e, some (b ∷ bs)) ∷ input) off w t x small short =
      let fits : off + length (b ∷ bs) + length (input_bytes input) < size_mod =
        omega (arith, length-append (b ∷ bs) (input_bytes input)) in
      last-Left input (off + length (b ∷ bs)) (fileobj_pwrite o z e w (b ∷ bs) (pos off)).0 t
        (first-Written e b bs input off w t x.sound x.usable (omega arith) x.rest) fits short

-- What a put stored, a get prints: when the whole input was written, and the write-back at the
-- closing of the file succeeded at its first attempt, another object that is opened on the file is
-- printed as the input, followed by what the file had before behind that length, and the command
-- returns 0. The format can hold the vault's block size and tag length; the put starts from a sound
-- object, and the input is not empty and below 2^64; the data then in the object are a block below
-- INT_MAX; and the get can map the file and allocate, and its output takes all of them.
pub get_file-put_file :
    (o : Ops) (laws : Laws o) (z : Lz4) (zlaws : Lz4Laws z) (e : Env) (b : ℕ) (bs : Bytes)
    (input : List (Env × Option Bytes)) (closing closing' : ℕ → SyncEnv) (s : State) (r : Env)
    (outs : List Outcome) (always : Bool)
    → IsSound s
    → IsUsable s.vault.crypto
    → length ((b ∷ bs) ++ input_bytes input) < size_mod
    → (write_input o z ((e, some (b ∷ bs)) ∷ input) 0 s).1 ≡ true
    → IsStored o z closing (write_input o z ((e, some (b ∷ bs)) ∷ input) 0 s).0
    → CanPrint r outs (length (bytes (write_input o z ((e, some (b ∷ bs)) ∷ input) 0 s).0))
    → ((get_file o z r true outs closing'
          (reopened always (put_file o z ((e, some (b ∷ bs)) ∷ input) true closing s).0)).1
        ≡ (b ∷ bs)
          ++ (input_bytes input
              ++ drop (length ((b ∷ bs) ++ input_bytes input)) (bytes (loaded o z e s))))
      × ((get_file o z r true outs closing'
            (reopened always (put_file o z ((e, some (b ∷ bs)) ∷ input) true closing s).0)).2
          ≡ true)
unfolding put_file input_bytes
get_file-put_file o laws z zlaws e b bs input closing closing' s r outs always i usable small h x
      y =
    let all = (e, some (b ∷ bs)) ∷ input in
    let t = (write_input o z all 0 s).0 in
    let ti = write_input-IsSound o laws z all 0 s i (omega arith) h in
    let fits : length (b ∷ bs) + length (input_bytes input) < size_mod =
      omega (arith, length-append (b ∷ bs) (input_bytes input), small) in
    let (tu, pending) =
      last-Left o laws z zlaws input (0 + length (b ∷ bs))
        (fileobj_pwrite o z e s (b ∷ bs) (pos 0)).0 t
        (first-Written o laws z zlaws e b bs input 0 s t i usable (omega (arith, fits))
          (λ j. (t, h j)))
        (omega (arith, fits)) x.short in
    let (out, done) =
      get_stored o laws z zlaws closing closing' t ti r outs always tu pending x y in
    (out ∙ write_input_lem o laws z e b bs input s i small h, done)
