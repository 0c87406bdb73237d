-- ===== src/Cli/Transfer.antt =====
-- What the commands of src/core/cli.c store and print.
use rvault.Prelude.{
  ◌==◌, ==_iff, ℕ, ◌+◌, ◌-◌, ◌≤◌, ◌<◌, ◌≡◌, refl, ap, ap₂, ◌∙◌, sym, true, false, Option, none,
  some, List, [], ◌∷◌, ◌++◌, arith, length, length-append, length-take, take, drop, take_all,
  take-append, drop-append, append_assoc, pos, Bool-cases, inl, inr,
}
use rvault.Prelude.Cuts.{take-drop, drop-drop}
use rvault.Prelude.Bytes.{Bytes}
use rvault.Buffer.{size_mod}
use rvault.Crypto.{Ops, Laws}
use rvault.Files.{Outcome, fs_write, fs_write_lem, fs_write_complete, Progress, offered}
use rvault.Storage.Object.{Lz4}
use rvault.FileObj.Branches.{Result-cases}
use rvault.FileObj.{expand, State, Env, ok, fileobj_pwrite, fileobj_getsize, fileobj_pread}
use rvault.FileObj.Branches.{loaded, is_loaded, pwrite_unloaded, pwrite_no_room, pwrite_done}
use rvault.FileObj.Sound.{
  IsSound, fileobj_pwrite-IsSound, fileobj_dataload-IsSound, fileobj_dataload-inmem,
}
use rvault.FileObj.Overwrite.{bytes, length-bytes}
use rvault.FileObj.Refine.{
  fileobj_pread_lem, fileobj_pwrite-Overwritten, pwrite_inmem, dataload_inmem,
}
use rvault.Cli.{write_input, print_file}

-- The bytes that are read from standard input before its end.
unfoldable pub input_bytes : List (Env × Option Bytes) → Bytes
input_bytes [] = []
input_bytes ((e, none) ∷ input) = []
input_bytes ((e, some []) ∷ input) = []
input_bytes ((e, some (b ∷ bs)) ∷ input) = (b ∷ bs) ++ input_bytes input

-- The data with other bytes from an offset on.
abbrev pub replaced : Bytes → ℕ → Bytes → Bytes
replaced old off new = take off old ++ (new ++ drop (off + length new) old)

replaced_twice :
    (old : Bytes) (off : ℕ) (x y : Bytes)
    → off ≤ length old
    → replaced (replaced old off x) (off + length x) y ≡ replaced old off (x ++ y)
replaced_twice old off x y h =
    let a = take off old in
    let rest = drop (off + length x) old in
    let n = off + length x in
    let whole : n ≡ length (a ++ x) = omega (arith, length-append a x, length-take off old) in
    let front : take n (a ++ (x ++ rest)) ≡ a ++ x =
      ap (take n) (sym (append_assoc a x rest)) ∙ take-append n (a ++ x) rest (sym whole) in
    let behind : drop (n + length y) (a ++ (x ++ rest)) ≡ drop (off + length (x ++ y)) old =
      sym (drop-drop n (length y) (a ++ (x ++ rest)))
      ∙ ap (λ r. drop (length y) (drop n r)) (sym (append_assoc a x rest))
      ∙ ap (drop (length y)) (drop-append n (a ++ x) rest (sym whole))
      ∙ drop-drop n (length y) old
      ∙ ap (λ k. drop k old) (omega (arith, length-append x y)) in
    let end = drop (off + length (x ++ y)) old in
    ap₂ (λ u v. u ++ (y ++ v)) front behind
    ∙ append_assoc a x (y ++ end)
    ∙ ap (λ r. a ++ r) (sym (append_assoc x y end))

no_gap : (gap : Bytes) → length gap ≡ 0 → gap ≡ []
no_gap [] h = refl
no_gap (b ∷ gap) h = absurd (omega arith)

module _ (o : Ops) (laws : Laws o) (z : Lz4) where
  -- One write inside the data, or at its end.
  pwrite-replaced :
      (e : Env) (s : State) (buf : Bytes) (off : ℕ)
      → IsSound s
      → 0 < length buf
      → off + length buf < size_mod
      → off ≤ length (bytes (loaded o z e s))
      → (fileobj_pwrite o z e s buf (pos off)).1 ≡ ok (length buf)
      → bytes (fileobj_pwrite o z e s buf (pos off)).0 ≡ replaced (bytes (loaded o z e s)) off buf
  pwrite-replaced e s buf off i any small inside h =
      let w = fileobj_pwrite-Overwritten o laws z e s i buf off any small h in
      let t = loaded o z e s in
      let b = bytes t in
      w.new_bytes
      ∙ ap (λ g. take off b ++ (g ++ (buf ++ drop (off + length buf) b)))
          (no_gap w.gap (
            omega (
              arith,
              w.length_gap,
              inside,
              length-bytes t (fileobj_dataload-IsSound o z laws e s i),
            )))

  pub pwrite_count :
      (e : Env) (s : State) (buf : Bytes) (off n : ℕ)
      → 0 < length buf
      → off + length buf < size_mod
      → (fileobj_pwrite o z e s buf (pos off)).1 ≡ ok n
      → (fileobj_pwrite o z e s buf (pos off)).1 ≡ ok (length buf)
  pwrite_count e s buf off n any small h =
      let t = loaded o z e s in
      let u = expand o z e.move_ok (off + length buf - 1) t in
      elim (Bool-cases (is_loaded o z e s)) [
        | inr l ↦ absurd (cc (pwrite_unloaded o z e s buf off any small l))
        | inl l ↦ elim (Bool-cases u.1) [
          | inr r ↦ absurd (cc (pwrite_no_room o z e s buf off any small l r))
          | inl r ↦ ap (λ p. p.1) (pwrite_done o z e s buf off any small l r)
        ]
      ]

  pub write_input_step :
      (e : Env) (b n : ℕ) (bs : Bytes) (input : List (Env × Option Bytes)) (off : ℕ) (s : State)
      → (fileobj_pwrite o z e s (b ∷ bs) (pos off)).1 ≡ ok n
      → write_input o z ((e, some (b ∷ bs)) ∷ input) off s
        ≡ write_input o z input
            (off + length (b ∷ bs))
            (fileobj_pwrite o z e s (b ∷ bs) (pos off)).0
  unfolding write_input
  write_input_step e b n bs input off s h = rw (write_input, h) refl

  replaced_none : (old : Bytes) (off : ℕ) → replaced old off [] ≡ old
  replaced_none old off =
      ap (λ n. take off old ++ drop n old) {x = off + 0} {y = off} (omega arith) ∙ take-drop off old

  -- A first write, whatever follows it.
  first-replaced :
      (e : Env) (b : ℕ) (bs : Bytes) (input : List (Env × Option Bytes)) (off : ℕ) (s : State)
      → IsSound s
      → off ≤ length (bytes (loaded o z e s))
      → off + length ((b ∷ bs) ++ input_bytes input) < size_mod
      → (write_input o z ((e, some (b ∷ bs)) ∷ input) off s).1 ≡ true
      → ((t : State)
          → IsSound t
          → t.fobj.inmem ≡ true
          → off + length (b ∷ bs) ≤ length (bytes t)
          → off + length (b ∷ bs) + length (input_bytes input) < size_mod
          → (write_input o z input (off + length (b ∷ bs)) t).1 ≡ true
          → bytes (write_input o z input (off + length (b ∷ bs)) t).0
            ≡ replaced (bytes t) (off + length (b ∷ bs)) (input_bytes input))
      → bytes (write_input o z ((e, some (b ∷ bs)) ∷ input) off s).0
        ≡ replaced (bytes (loaded o z e s)) off ((b ∷ bs) ++ input_bytes input)
  unfolding write_input
  first-replaced e b bs input off s i inside small h tail =
      let x = b ∷ bs in
      let rest = input_bytes input in
      let t = (fileobj_pwrite o z e s x (pos off)).0 in
      let old = bytes (loaded o z e s) in
      let fits : off + length x + length rest < size_mod = omega (arith, length-append x rest) in
      elim (Result-cases (fileobj_pwrite o z e s x (pos off)).1) [
        | inl (n, bad) ↦ absurd (ground arith)
        | inr (n, good) ↦
            let wrote = pwrite_count e s x off n (omega arith) (omega arith) good in
            let one = pwrite-replaced e s x off i (omega arith) (omega arith) inside wrote in
            let long : off + length x ≤ length (bytes t) = omega (
              arith,
              inside,
              ap length one,
              length-append (take off old) (x ++ drop (off + length x) old),
              length-append x (drop (off + length x) old),
              length-take off old,
            ) in
            let ti = fileobj_pwrite-IsSound o z laws e s i x (pos off) (omega arith) in
            let tm = pwrite_inmem o laws z e s i x off (omega arith) (omega arith) wrote in
            let step = write_input_step e b n bs input off s good in
            ap (λ r. bytes (r.0)) step
            ∙ tail t ti tm long fits (ap (λ r. r.1) (sym step) ∙ h)
            ∙ ap (λ d. replaced d (off + length x) rest) one
            ∙ replaced_twice old off x rest inside
      ]

  -- With the data loaded, at an offset inside them or at their end.
  write_input-replaced :
      (input : List (Env × Option Bytes)) (off : ℕ) (s : State)
      → IsSound s
      → s.fobj.inmem ≡ true
      → off ≤ length (bytes s)
      → off + length (input_bytes input) < size_mod
      → (write_input o z input off s).1 ≡ true
      → bytes (write_input o z input off s).0 ≡ replaced (bytes s) off (input_bytes input)
  unfolding write_input input_bytes
  write_input-replaced [] off s i mem inside small h = sym (replaced_none (bytes s) off)
  write_input-replaced ((e, none) ∷ input) off s i mem inside small h = absurd (ground arith)
  write_input-replaced ((e, some []) ∷ input) off s i mem inside small h =
      sym (replaced_none (bytes s) off)
  write_input-replaced ((e, some (b ∷ bs)) ∷ input) off s i mem inside small h =
      let here = ap (λ p. bytes (p.0)) (dataload_inmem o z e s mem) in
      first-replaced e b bs input off s i (omega (arith, ap length here)) small h
        (λ t ti tm long fits done.
          write_input-replaced input (off + length (b ∷ bs)) t ti tm long fits done)
      ∙ ap (λ d. replaced d off ((b ∷ bs) ++ input_bytes input)) here

  -- When the loop of FILE_WRITE comes to the end of an input that is not empty, the object's data
  -- are the input, followed by what the old data had behind that length: a file that was longer
  -- keeps its tail.
  pub write_input_lem :
      (e : Env) (b : ℕ) (bs : Bytes) (input : List (Env × Option Bytes)) (s : State)
      → IsSound s
      → length ((b ∷ bs) ++ input_bytes input) < size_mod
      → (write_input o z ((e, some (b ∷ bs)) ∷ input) 0 s).1 ≡ true
      → bytes (write_input o z ((e, some (b ∷ bs)) ∷ input) 0 s).0
        ≡ (b ∷ bs)
          ++ (input_bytes input
              ++ drop (length ((b ∷ bs) ++ input_bytes input)) (bytes (loaded o z e s)))
  write_input_lem e b bs input s i small h =
      let new = (b ∷ bs) ++ input_bytes input in
      let old = bytes (loaded o z e s) in
      first-replaced e b bs input 0 s i (omega arith) (omega arith) h (λ t ti tm long fits done.
        write_input-replaced input (0 + length (b ∷ bs)) t ti tm long fits done)
      ∙ ap (λ n. new ++ drop n old) {x = 0 + length new} {y = length new} (omega arith)
      ∙ append_assoc (b ∷ bs) (input_bytes input) (drop (length new) old)

  getsize_loaded :
      (e : Env) (s : State)
      → is_loaded o z e s ≡ true
      → fileobj_getsize o z e s ≡ (loaded o z e s, ok (loaded o z e s).fobj.len)
  unfolding fileobj_getsize
  getsize_loaded e s l = rw (fileobj_getsize, l) refl

  print_nothing :
      (e : Env) (outs : List Outcome) (s t : State) (n : ℕ)
      → fileobj_getsize o z e s ≡ (t, ok n)
      → (n == 0) ≡ true
      → ((print_file o z e true outs s).1 ≡ []) × ((print_file o z e true outs s).2 ≡ true)
  unfolding print_file
  print_nothing e outs s t n size none_left =
      (rw (print_file, size, none_left) refl, rw (print_file, size, none_left) refl)

  print_some :
      (e : Env) (outs : List Outcome) (s t : State) (n : ℕ) (buf : Bytes)
      → fileobj_getsize o z e s ≡ (t, ok n)
      → (n == 0) ≡ false
      → (fileobj_pread o z e t n (pos 0)).1 ≡ ok buf
      → (fs_write outs buf).1 ≡ some n
      → ((print_file o z e true outs s).1 ≡ (fs_write outs buf).0)
        × ((print_file o z e true outs s).2 ≡ true)
  unfolding print_file
  print_some e outs s t n buf size more got wrote =
      let value = ap (λ r. r.1) size in
      let state = ap (λ r. r.0) size in
      (
        rw (print_file, value, more, state, got) refl,
        rw (print_file, value, more, state, got, wrote) ((==_iff n n).1 refl),
      )

  -- A file that can be loaded is printed whole, if memory suffices and the calls of write make
  -- progress and take as many bytes together as there are.
  pub print_file_lem :
      (e : Env) (outs : List Outcome) (s : State)
      → IsSound s
      → is_loaded o z e s ≡ true
      → Progress outs
      → length (bytes (loaded o z e s)) ≤ offered outs
      → ((print_file o z e true outs s).1 ≡ bytes (loaded o z e s))
        × ((print_file o z e true outs s).2 ≡ true)
  print_file_lem e outs s i l p fits =
      let t = loaded o z e s in
      let n = t.fobj.len in
      let ti = fileobj_dataload-IsSound o z laws e s i in
      let size = getsize_loaded e s l in
      let count = length-bytes t ti in
      elim (Bool-cases (n == 0)) [
        | inl nil ↦
            let (out, done) = print_nothing e outs s t n size nil in
            (out ∙ sym (no_gap (bytes t) (count ∙ (==_iff n 0).0 nil)), done)
        | inr more ↦
            let again = dataload_inmem o z e t (fileobj_dataload-inmem o z e s l) in
            let got : (fileobj_pread o z e t n (pos 0)).1 ≡ ok (bytes t) =
              fileobj_pread_lem o laws z e t ti n 0 (ap (λ r. r.1) again)
              ∙ ap (λ r. ok (take n (bytes (r.0)))) again
              ∙ ap ok (take_all n (bytes t) (omega (arith, count))) in
            let wrote = (fs_write_complete outs (bytes t) p fits).1 ∙ ap some count in
            let (out, done) = print_some e outs s t n (bytes t) size more got wrote in
            (
              out
                  ∙ (fs_write_lem outs (bytes t) n wrote).0
                  ∙ take_all n (bytes t) (omega (arith, count)),
              done,
            )
      ]
