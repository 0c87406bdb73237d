-- ===== src/Buffer/Copy.antt =====
-- What memcpy into a buffer leaves there, cut into the bytes before, the copy and those behind.
use rvault.Prelude.{
  ℕ, zero, suc, ◌+◌, ◌≤◌, ◌≡◌, refl, ap, ◌∙◌, sym, [], ◌∷◌, ◌++◌, append-nil, arith, length, take,
  drop, ltb, if◌then◌else◌,
}
use rvault.Prelude.Bytes.{Bytes}
use rvault.Buffer.{put_bytes, memcpy_at}

length-put_bytes : (m bs : Bytes) → length (put_bytes m bs) ≡ length m
length-put_bytes [] bs = refl
length-put_bytes (x ∷ m) [] = refl
length-put_bytes (x ∷ m) (b ∷ bs) = ap suc (length-put_bytes m bs)

pub length-memcpy_at :
    (m : Bytes) (offset : ℕ) (bs : Bytes) → length (memcpy_at m offset bs) ≡ length m
length-memcpy_at m zero bs = length-put_bytes m bs
length-memcpy_at [] (suc offset) bs = refl
length-memcpy_at (x ∷ m) (suc offset) bs = ap suc (length-memcpy_at m offset bs)

drop-nil : (n : ℕ) → drop {A = ℕ} n [] ≡ []
drop-nil zero = refl
drop-nil (suc n) = refl

-- The larger of a length and the end of a write.
abbrev pub end_of : ℕ → ℕ → ℕ
end_of k e = if ltb k e then e else k

take_end-put_bytes :
    (m : Bytes) (k : ℕ) (bs : Bytes) (n : ℕ)
    → length bs ≤ length m
    → n ≡ end_of k (length bs)
    → take n (put_bytes m bs) ≡ bs ++ drop (length bs) (take k m)
take_end-put_bytes [] k [] n h e = ap (λ i. take i []) {x = n} {y = k} (ground arith)
take_end-put_bytes [] k (b ∷ bs) n h e = absurd (omega arith)
take_end-put_bytes (x ∷ m) k [] n h e = ap (λ i. take i (x ∷ m)) {x = n} {y = k} (ground arith)
take_end-put_bytes (x ∷ m) k (b ∷ bs) zero h e = absurd (ground arith)
take_end-put_bytes (x ∷ m) zero (b ∷ bs) (suc n) h e = ap (◌∷◌ b) (
    take_end-put_bytes m 0 bs n (omega arith) (ground arith)
    ∙ ap (λ r. bs ++ r) (drop-nil (length bs)))
take_end-put_bytes (x ∷ m) (suc k) (b ∷ bs) (suc n) h e =
    ap (◌∷◌ b) (take_end-put_bytes m k bs n (omega arith) (ground arith))

-- The first bytes of a buffer, as many as it held or as the copy ends at.
pub take_end-memcpy_at :
    (m : Bytes) (k offset : ℕ) (bs : Bytes) (n : ℕ)
    → offset + length bs ≤ length m
    → n ≡ end_of k (offset + length bs)
    → take n (memcpy_at m offset bs) ≡ take offset m ++ (bs ++ drop (offset + length bs) (take k m))
take_end-memcpy_at m k zero bs n h e =
    take_end-put_bytes m k bs n (omega arith) (ground arith)
    ∙ ap (λ i. bs ++ drop i (take k m)) {x = length bs} {y = 0 + length bs} (omega arith)
take_end-memcpy_at [] k (suc offset) bs n h e = absurd (omega arith)
take_end-memcpy_at (x ∷ m) k (suc offset) bs zero h e = absurd (ground arith)
take_end-memcpy_at (x ∷ m) zero (suc offset) bs (suc n) h e = ap (◌∷◌ x) (
    take_end-memcpy_at m 0 offset bs n (omega arith) (ground arith)
    ∙ ap (λ r. take offset m ++ (bs ++ r))
        (drop-nil (offset + length bs) ∙ sym (drop-nil (suc offset + length bs))))
take_end-memcpy_at (x ∷ m) (suc k) (suc offset) bs (suc n) h e = ap (◌∷◌ x) (
    take_end-memcpy_at m k offset bs n (omega arith) (ground arith)
    ∙ ap (λ r. take offset m ++ (bs ++ r))
        (ap (λ i. drop i (x ∷ take k m)) {x = suc (offset + length bs)} {y = suc offset + length bs}
          (omega arith)))

-- A copy can be read back.
pub drop-memcpy_at :
    (m : Bytes) (offset : ℕ) (bs : Bytes)
    → offset + length bs ≤ length m
    → take (length bs) (drop offset (memcpy_at m offset bs)) ≡ bs
drop-memcpy_at m zero bs h =
    take_end-put_bytes m 0 bs (length bs) (omega arith) (ground arith)
    ∙ ap (λ r. bs ++ r) (drop-nil (length bs))
    ∙ append-nil bs
drop-memcpy_at [] (suc offset) bs h = absurd (omega arith)
drop-memcpy_at (x ∷ m) (suc offset) bs h = drop-memcpy_at m offset bs (omega arith)

drop-put_bytes : (m bs : Bytes) (n : ℕ) → length bs ≤ n → drop n (put_bytes m bs) ≡ drop n m
drop-put_bytes [] bs n h = refl
drop-put_bytes (x ∷ m) [] n h = refl
drop-put_bytes (x ∷ m) (b ∷ bs) zero h = absurd (omega arith)
drop-put_bytes (x ∷ m) (b ∷ bs) (suc n) h = drop-put_bytes m bs n (omega arith)

-- What is behind the copy stays.
pub drop_end-memcpy_at :
    (m : Bytes) (offset : ℕ) (bs : Bytes) (n : ℕ)
    → offset + length bs ≤ n
    → drop n (memcpy_at m offset bs) ≡ drop n m
drop_end-memcpy_at m zero bs n h = drop-put_bytes m bs n (omega arith)
drop_end-memcpy_at [] (suc offset) bs n h = refl
drop_end-memcpy_at (x ∷ m) (suc offset) bs zero h = absurd (omega arith)
drop_end-memcpy_at (x ∷ m) (suc offset) bs (suc n) h =
    drop_end-memcpy_at m offset bs n (omega arith)
