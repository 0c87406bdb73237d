-- ===== src/Buffer/Move.antt =====
-- What sbuffer_move keeps of a buffer and what it adds.
use rvault.Prelude.{
  ap₂, Bool-cases, inl, inr, ◌⊎◌, ℕ, ◌-◌, ◌≤◌, ◌<◌, ◌≡◌, refl, ◌∙◌, sym, Bool, true, false, ◌++◌,
  arith, length, take, drop, zero, suc, ap, [], ◌∷◌, append-nil, length-append, length-take,
  length-replicate, take_all, replicate,
}
use rvault.Prelude.Bytes.{Bytes}
use rvault.Buffer.{Sbuffer, contents, copied, grown, sbuffer_move}

-- The size recorded is that of the memory behind the pointer.
abbrev pub IsWhole : Sbuffer → Type 0
IsWhole s = length (contents s.buf) ≡ s.buf_size

pub length-copied : (old : Bytes) (len : ℕ) → length (copied old len) ≡ len
length-copied old len = omega (
  arith,
  length-append (take len old) (replicate (len - length old) 0),
  length-take len old,
  length-replicate {A = ℕ} (len - length old) 0,
)

-- A buffer that was moved.
pub record Moved (s : Sbuffer) (newlen : ℕ) (growexp : Bool) (t : Sbuffer) : Type 0 where
  pub size : newlen ≤ t.buf_size
  pub exact : (growexp ≡ true) ⊎ (t.buf_size ≡ newlen)
  pub copy : contents t.buf ≡ copied (contents s.buf) t.buf_size

grown_fits : (g : Bool) (n newlen : ℕ) → newlen ≤ grown g n newlen
unfolding grown
grown_fits g n newlen = ground arith

grown_exact : (n newlen : ℕ) → grown false n newlen ≡ newlen
unfolding grown
grown_exact n newlen = refl

copied_all : (s : Sbuffer) → IsWhole s → contents s.buf ≡ copied (contents s.buf) s.buf_size
copied_all s whole = sym (append-nil (contents s.buf)) ∙ (λ i.
    sym (take_all s.buf_size (contents s.buf) (omega (arith, whole))) i
    ++ replicate (zero_left i) 0)
  where
    zero_left : 0 ≡ s.buf_size - length (contents s.buf)
    zero_left = omega (arith, whole)

pub sbuffer_move-Moved :
    (ok growexp : Bool) (s : Sbuffer) (newlen : ℕ)
    → IsWhole s
    → (sbuffer_move ok s newlen growexp).1 ≡ true
    → Moved s newlen growexp (sbuffer_move ok s newlen growexp).0
unfolding sbuffer_move
sbuffer_move-Moved ok growexp s newlen whole h = record {
  size = ground (arith, grown_fits growexp s.buf_size newlen);
  exact = elim (Bool-cases growexp) [
    | inl grows ↦ inl grows
    | inr fixed ↦ inr (ground (arith, grown_exact s.buf_size newlen))
  ];
  copy = ground (arith, copied_all s whole);
}

pub sbuffer_move-IsWhole :
    (ok growexp : Bool) (s : Sbuffer) (newlen : ℕ)
    → IsWhole s
    → IsWhole (sbuffer_move ok s newlen growexp).0
unfolding sbuffer_move
sbuffer_move-IsWhole ok growexp s newlen whole =
    ground (arith, length-copied (contents s.buf) (grown growexp s.buf_size newlen))

pub sbuffer_move_fails :
    (ok growexp : Bool) (s : Sbuffer) (newlen : ℕ)
    → 0 < newlen
    → (sbuffer_move ok s newlen growexp).1 ≡ false
    → (sbuffer_move ok s newlen growexp).0 ≡ s
unfolding sbuffer_move
sbuffer_move_fails ok growexp s newlen pos h = ground arith

-- The bytes of the old buffer that fit, and zeros behind them to the size.
pub record Resized (s : Sbuffer) (newlen : ℕ) (growexp : Bool) (t : Sbuffer) : Type 0 where
  pub size : newlen ≤ t.buf_size
  pub exact : (growexp ≡ true) ⊎ (t.buf_size ≡ newlen)
  pub whole : length (contents t.buf) ≡ t.buf_size
  pub kept : take s.buf_size (contents t.buf) ≡ take t.buf_size (contents s.buf)
  pub zeros : drop s.buf_size (contents t.buf) ≡ replicate (t.buf_size - s.buf_size) 0

take-nil : (n : ℕ) → take {A = ℕ} n [] ≡ []
take-nil zero = refl
take-nil (suc n) = refl

kept-copied : (old : Bytes) (len : ℕ) → take (length old) (copied old len) ≡ take len old
kept-copied [] len = sym (take-nil len)
kept-copied (x ∷ old) zero =
    ap (λ k. take (suc (length old)) (replicate k 0)) {x = 0 - suc (length old)} {y = 0}
      (omega arith)
kept-copied (x ∷ old) (suc len) =
    ap (λ k. take (length (x ∷ old)) (x ∷ (take len old ++ replicate k 0)))
      {x = suc len - suc (length old)} {y = len - length old} (omega arith)
    ∙ ap (◌∷◌ x) (kept-copied old len)

zeros-copied :
    (old : Bytes) (len : ℕ) → drop (length old) (copied old len) ≡ replicate (len - length old) 0
zeros-copied [] len = ap (λ b. b ++ replicate (len - 0) 0) (take-nil len)
zeros-copied (x ∷ old) zero =
    ap (λ k. drop (suc (length old)) (replicate k 0)) {x = 0 - suc (length old)} {y = 0}
      (omega arith)
    ∙ ap (λ k. replicate k 0) {x = 0} {y = 0 - suc (length old)} (omega arith)
zeros-copied (x ∷ old) (suc len) =
    ap (λ k. drop (length (x ∷ old)) (x ∷ (take len old ++ replicate k 0)))
      {x = suc len - suc (length old)} {y = len - length old} (omega arith)
    ∙ zeros-copied old len
    ∙ ap (λ k. replicate k 0) {x = len - length old} {y = suc len - suc (length old)} (omega arith)

-- A buffer that is moved, its old size being the true one, is as large as was asked for, or larger
-- if it may grow, and its size is the true one again; it holds the bytes that the old one held, as
-- far as they fit, and zeros behind the old size.
pub sbuffer_move-Resized :
    (ok growexp : Bool) (s : Sbuffer) (newlen : ℕ)
    → IsWhole s
    → (sbuffer_move ok s newlen growexp).1 ≡ true
    → Resized s newlen growexp (sbuffer_move ok s newlen growexp).0
sbuffer_move-Resized ok growexp s newlen sized h =
    let m = sbuffer_move-Moved ok growexp s newlen sized h in
    let t = (sbuffer_move ok s newlen growexp).0 in
    record {
      size = m.size;
      exact = m.exact;
      whole = sbuffer_move-IsWhole ok growexp s newlen sized;
      kept = ap₂ take (sym sized) m.copy ∙ kept-copied (contents s.buf) t.buf_size;
      zeros =
          ap₂ drop (sym sized) m.copy
          ∙ zeros-copied (contents s.buf) t.buf_size
          ∙ ap (λ k. replicate (t.buf_size - k) 0) sized;
    }
