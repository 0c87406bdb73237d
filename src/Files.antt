-- ===== src/Files.antt =====
-- The loops over partial transfers of src/sys/fs.c. What each system call does is a list of
-- outcomes.
use rvault.Prelude.{
  ◌-◌, Option-cases, subst, sym, ap, ap₂, ◌∙◌, take_all, length-take, length-drop, ℕ, zero, suc,
  ◌+◌, ◌≤◌, ◌<◌, ◌≡◌, refl, Option, none, some, List, [], ◌∷◌, ◌++◌, length, take, drop, arith, inl,
  inr,
}
use rvault.Prelude.Cuts.{take-drop, take-append_cut}
use rvault.Prelude.Bytes.{Bytes}

-- A call of read(2) or write(2): some bytes moved, at most as many as it is given; an
-- interruption that is to be retried (EINTR, and EAGAIN of a write); no byte moved; or another
-- error.
pub data Outcome : Type 0 where
  moved : ℕ → Outcome
  retry nothing error : Outcome

-- fs_write: what the file took, and the count returned, or `none` for -1. It runs out of
-- outcomes only if the calls listed do not end it; then the transfer is incomplete.
unfoldable pub fs_write : List Outcome → Bytes → Bytes × Option ℕ
fs_write outs [] = ([], some 0)
fs_write [] (b ∷ bs) = ([], none)
fs_write (retry ∷ outs) (b ∷ bs) = fs_write outs (b ∷ bs)
fs_write (nothing ∷ outs) (b ∷ bs) = ([], some 0)
fs_write (error ∷ outs) (b ∷ bs) = ([], none)
fs_write (moved zero ∷ outs) (b ∷ bs) = ([], some 0)
fs_write (moved (suc n) ∷ outs) (b ∷ bs) =
    let r = fs_write outs (drop n bs) in
    let given = b ∷ take n bs in
    (given ++ r.0, elim r.1 [ none ↦ none | some k ↦ some (length given + k) ])

-- fs_read of up to `target` bytes of what the file has left: the bytes read, or `none` for -1.
-- A retry is EINTR, and a call at the end of the file reads nothing.
unfoldable pub fs_read : List Outcome → ℕ → Bytes → Option Bytes
fs_read outs zero file = some []
fs_read [] (suc target) file = none
fs_read (retry ∷ outs) (suc target) file = fs_read outs (suc target) file
fs_read (nothing ∷ outs) (suc target) file = some []
fs_read (error ∷ outs) (suc target) file = none
fs_read (moved n ∷ outs) (suc target) [] = some []
fs_read (moved zero ∷ outs) (suc target) (b ∷ bs) = some []
fs_read (moved (suc n) ∷ outs) (suc target) (b ∷ bs) =
    let given = b ∷ take n (take target bs) in
    let rest = fs_read outs (target - length (take n (take target bs))) (drop n bs) in
    elim rest [ none ↦ none | some r ↦ some (given ++ r) ]

nothing_taken : (k : ℕ) (bs : Bytes) → 0 ≡ k → ([] ≡ take k bs) × (k ≤ length bs)
nothing_taken k bs e = subst (λ i. ([] ≡ take i bs) × (i ≤ length bs)) e (refl, omega arith)

-- Two transfers, one behind the other.
take-take-drop :
    (n j : ℕ) (bs : Bytes) → take n bs ++ take j (drop n bs) ≡ take (length (take n bs) + j) bs
take-take-drop n j bs =
    let l = length (take n bs) in
    sym (
      ap (take (l + j)) (sym (take-drop n bs))
      ∙ take-append_cut (l + j) (take n bs) (drop n bs)
      ∙ ap₂ (λ a i. a ++ take i (drop n bs)) (take_all (l + j) (take n bs) (omega arith))
          (omega arith))

-- What fs_write reports as written is what the file took: that many of the first bytes.
pub fs_write_lem :
    (outs : List Outcome) (bs : Bytes) (k : ℕ)
    → (fs_write outs bs).1 ≡ some k
    → ((fs_write outs bs).0 ≡ take k bs) × (k ≤ length bs)
unfolding fs_write
fs_write_lem outs [] k h = nothing_taken k [] (ground arith)
fs_write_lem [] (b ∷ bs) k h = cc
fs_write_lem (retry ∷ outs) (b ∷ bs) k h = fs_write_lem outs (b ∷ bs) k h
fs_write_lem (nothing ∷ outs) (b ∷ bs) k h = nothing_taken k (b ∷ bs) (ground arith)
fs_write_lem (error ∷ outs) (b ∷ bs) k h = cc
fs_write_lem (moved zero ∷ outs) (b ∷ bs) k h = nothing_taken k (b ∷ bs) (ground arith)
fs_write_lem (moved (suc n) ∷ outs) (b ∷ bs) k h =
    elim (Option-cases (fs_write outs (drop n bs)).1) [
      | inl r ↦ absurd (ground arith)
      | inr (j, r) ↦
          let (same, fits) = fs_write_lem outs (drop n bs) j r in
          let total : suc (length (take n bs) + j) ≡ k = ground arith in
          (
            ap (λ r. b ∷ (take n bs ++ r)) same
                ∙ ap (◌∷◌ b) (take-take-drop n j bs)
                ∙ ap (λ i. take i (b ∷ bs)) total,
            omega (arith, total, fits, length-take n bs, length-drop n bs),
          )
    ]

-- The bytes that the outcomes listed take, and whether none of them ends the transfer early.
abbrev pub offered : List Outcome → ℕ
offered [] = 0
offered (moved n ∷ outs) = n + offered outs
offered (retry ∷ outs) = offered outs
offered (nothing ∷ outs) = offered outs
offered (error ∷ outs) = offered outs

abbrev pub Progress : List Outcome → Type 0
Progress [] = Unit
Progress (moved n ∷ outs) = (0 < n) × Progress outs
Progress (retry ∷ outs) = Progress outs
Progress (nothing ∷ outs) = ⊥
Progress (error ∷ outs) = ⊥

fs_write_count :
    (outs : List Outcome) (bs : Bytes)
    → Progress outs
    → length bs ≤ offered outs
    → (fs_write outs bs).1 ≡ some (length bs)
unfolding fs_write
fs_write_count outs [] p h = refl
fs_write_count [] (b ∷ bs) p h = absurd (omega arith)
fs_write_count (retry ∷ outs) (b ∷ bs) p h = fs_write_count outs (b ∷ bs) p h
fs_write_count (nothing ∷ outs) (b ∷ bs) p h = absurd p
fs_write_count (error ∷ outs) (b ∷ bs) p h = absurd p
fs_write_count (moved zero ∷ outs) (b ∷ bs) p h = absurd (omega (arith, p.0))
fs_write_count (moved (suc n) ∷ outs) (b ∷ bs) p h =
    let rest = fs_write_count outs (drop n bs) p.1 (omega (arith, length-drop n bs)) in
    rw (rest, fs_write) (ap some (omega (arith, length-take n bs, length-drop n bs)))

-- However the transfer is cut up and interrupted, the file takes all the bytes, in their order, and
-- fs_write returns how many they are, if every call that is not interrupted takes some and together
-- they take as many as there are.
pub fs_write_complete :
    (outs : List Outcome) (bs : Bytes)
    → Progress outs
    → length bs ≤ offered outs
    → ((fs_write outs bs).0 ≡ bs) × ((fs_write outs bs).1 ≡ some (length bs))
fs_write_complete outs bs p h =
    let count = fs_write_count outs bs p h in
    ((fs_write_lem outs bs (length bs) count).0 ∙ take_all (length bs) bs (omega arith), count)
