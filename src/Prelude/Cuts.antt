-- ===== src/Prelude/Cuts.antt =====
-- How cuts of lists compose.
use rvault.Prelude.{
  ℕ, zero, suc, ◌+◌, ◌-◌, ◌≤◌, ◌≡◌, refl, ap, sym, ◌∙◌, List, [], ◌∷◌, ◌++◌, arith, length, take,
  drop, replicate,
}
use Prim.Native.Nat.{min}

module _ {ℓ} {A : Type ℓ} where
  pub take-drop : (n : ℕ) (xs : List A) → take n xs ++ drop n xs ≡ xs
  take-drop zero xs = refl
  take-drop (suc n) [] = refl
  take-drop (suc n) (x ∷ xs) = ap (◌∷◌ x) (take-drop n xs)

  pub take_nil : (n : ℕ) → take {A = A} n [] ≡ []
  take_nil zero = refl
  take_nil (suc n) = refl

  pub take-append_cut :
      (n : ℕ) (xs ys : List A) → take n (xs ++ ys) ≡ take n xs ++ take (n - length xs) ys
  take-append_cut n [] ys =
      ap (λ i. take i ys) {x = n} {y = n - 0} (omega arith)
      ∙ ap (λ r. r ++ take (n - 0) ys) (sym (take_nil n))
  take-append_cut zero (x ∷ xs) ys =
      ap (λ i. take i ys) {x = 0} {y = 0 - length (x ∷ xs)} (omega arith)
  take-append_cut (suc n) (x ∷ xs) ys = ap (◌∷◌ x) (
      take-append_cut n xs ys
      ∙ ap (λ i. take n xs ++ take i ys) {x = n - length xs} {y = suc n - length (x ∷ xs)}
          (omega arith))

  pub take-take : (n m : ℕ) (xs : List A) → n ≤ m → take n (take m xs) ≡ take n xs
  take-take zero m xs h = refl
  take-take (suc n) zero xs h = absurd (omega arith)
  take-take (suc n) (suc m) [] h = refl
  take-take (suc n) (suc m) (x ∷ xs) h = ap (◌∷◌ x) (take-take n m xs (omega arith))

  take-take-min : (n m : ℕ) (xs : List A) → take n (take m xs) ≡ take (min n m) xs
  take-take-min zero m xs = ap (λ i. take i xs) {x = 0} {y = min 0 m} (omega arith)
  take-take-min (suc n) zero xs = ap (λ i. take i xs) {x = 0} {y = min (suc n) 0} (omega arith)
  take-take-min (suc n) (suc m) [] = sym (take_nil (min (suc n) (suc m)))
  take-take-min (suc n) (suc m) (x ∷ xs) =
      ap (◌∷◌ x) (take-take-min n m xs)
      ∙ ap (λ i. take i (x ∷ xs)) {x = suc (min n m)} {y = min (suc n) (suc m)} (omega arith)

  pub take-drop-take :
      (n k m : ℕ) (xs : List A) → take n (drop k (take m xs)) ≡ take (min n (m - k)) (drop k xs)
  take-drop-take n zero m xs =
      take-take-min n m xs ∙ ap (λ i. take i xs) {x = min n m} {y = min n (m - 0)} (omega arith)
  take-drop-take n (suc k) zero xs =
      take_nil n ∙ ap (λ i. take i (drop (suc k) xs)) {x = 0} {y = min n (0 - suc k)} (omega arith)
  take-drop-take n (suc k) (suc m) [] = take_nil n ∙ sym (take_nil (min n (suc m - suc k)))
  take-drop-take n (suc k) (suc m) (x ∷ xs) =
      take-drop-take n k m xs
      ∙ ap (λ i. take i (drop k xs)) {x = min n (m - k)} {y = min n (suc m - suc k)} (omega arith)

  pub replicate_add : (n m : ℕ) (a : A) → replicate n a ++ replicate m a ≡ replicate (n + m) a
  replicate_add zero m a = ap (λ i. replicate i a) {x = m} {y = 0 + m} (omega arith)
  replicate_add (suc n) m a =
      ap (◌∷◌ a) (replicate_add n m a)
      ∙ ap (λ i. replicate i a) {x = suc (n + m)} {y = suc n + m} (omega arith)

  pub take-replicate : (n m : ℕ) (a : A) → n ≤ m → take n (replicate m a) ≡ replicate n a
  take-replicate zero m a h = refl
  take-replicate (suc n) zero a h = absurd (omega arith)
  take-replicate (suc n) (suc m) a h = ap (◌∷◌ a) (take-replicate n m a (omega arith))

  pub drop-replicate : (n m : ℕ) (a : A) → drop n (replicate m a) ≡ replicate (m - n) a
  drop-replicate zero m a = ap (λ i. replicate i a) {x = m} {y = m - 0} (omega arith)
  drop-replicate (suc n) zero a = ap (λ i. replicate i a) {x = 0} {y = 0 - suc n} (omega arith)
  drop-replicate (suc n) (suc m) a =
      drop-replicate n m a ∙ ap (λ i. replicate i a) {x = m - n} {y = suc m - suc n} (omega arith)

  pub drop-append_cut :
      (n : ℕ) (xs ys : List A) → drop n (xs ++ ys) ≡ drop n xs ++ drop (n - length xs) ys
  drop-append_cut zero [] ys = ap (λ i. drop i ys) {x = 0} {y = 0 - 0} (omega arith)
  drop-append_cut (suc n) [] ys = ap (λ i. drop i ys) {x = suc n} {y = suc n - 0} (omega arith)
  drop-append_cut zero (x ∷ xs) ys =
      ap (λ i. x ∷ xs ++ drop i ys) {x = 0} {y = 0 - length (x ∷ xs)} (omega arith)
  drop-append_cut (suc n) (x ∷ xs) ys =
      drop-append_cut n xs ys
      ∙ ap (λ i. drop n xs ++ drop i ys) {x = n - length xs} {y = suc n - length (x ∷ xs)}
          (omega arith)

  -- A cut inside the first list.
  pub take-append_le : (n : ℕ) (xs ys : List A) → n ≤ length xs → take n (xs ++ ys) ≡ take n xs
  take-append_le zero xs ys h = refl
  take-append_le (suc n) [] ys h = absurd (omega arith)
  take-append_le (suc n) (x ∷ xs) ys h = ap (◌∷◌ x) (take-append_le n xs ys (omega arith))

  pub drop-append_le :
      (n : ℕ) (xs ys : List A) → n ≤ length xs → drop n (xs ++ ys) ≡ drop n xs ++ ys
  drop-append_le zero xs ys h = refl
  drop-append_le (suc n) [] ys h = absurd (omega arith)
  drop-append_le (suc n) (x ∷ xs) ys h = drop-append_le n xs ys (omega arith)

  pub drop_nil : (n : ℕ) → drop {A = A} n [] ≡ []
  drop_nil zero = refl
  drop_nil (suc n) = refl

  pub drop-drop : (n k : ℕ) (xs : List A) → drop k (drop n xs) ≡ drop (n + k) xs
  drop-drop zero k xs = ap (λ i. drop i xs) {x = k} {y = zero + k} (omega arith)
  drop-drop (suc n) k [] = drop_nil k ∙ sym (drop_nil (suc n + k))
  drop-drop (suc n) k (x ∷ xs) =
      drop-drop n k xs ∙ ap (λ i. drop i (x ∷ xs)) {x = suc (n + k)} {y = suc n + k} (omega arith)
