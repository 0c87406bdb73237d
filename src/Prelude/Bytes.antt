-- ===== src/Prelude/Bytes.antt =====
-- Byte sequences, the text literals that stand for them, and checks over all byte values.
use Prim.Native.Nat.{◌+◌, ℕ, zero, suc, ◌<◌}
use Prim.Native.Char.{code}
use Prim.Native.String.{String}
use mathlib.Core.Path.{◌∙◌, ap, ◌≡◌}
use mathlib.Core.Bool.{Bool, true, false, ◌&&◌}
use mathlib.Core.List.{List, [], ◌∷◌}
use native.Mathlib.Omega.{arith}
use rvault.Prelude.Tests.{if◌then◌else◌, ◌==◌}

abbrev pub Bytes : Type 0
Bytes = List ℕ

-- Every element is a value of uint8_t.
abbrev pub AreBytes : Bytes → Type 0
AreBytes [] = Unit
AreBytes (b ∷ bs) = (b < 256) × AreBytes bs

-- The characters of an ASCII literal.
abbrev pub codes : String → Bytes
codes String.[] = []
codes (String.◌∷◌ c s) = code c ∷ codes s

-- The contents of a C string, compared.
unfoldable pub equal : Bytes → Bytes → Bool
equal [] [] = true
equal (x ∷ xs) (y ∷ ys) = x == y && equal xs ys
equal _ _ = false

-- A test of every value from `k` on, of which there are `left`.
unfoldable pub passes : (ℕ → Bool) → (left k : ℕ) → Bool
passes test zero k = true
passes test (suc left) k = if test k then passes test left (k + 1) else false

passes_at :
    (test : ℕ → Bool) (left k i : ℕ) → i < left → passes test left k ≡ true → test (k + i) ≡ true
unfolding passes
passes_at test zero k i lt h = absurd (omega arith)
passes_at test (suc left) k zero lt h = ap test {x = k + 0} {y = k} (omega arith) ∙ ground arith
passes_at test (suc left) k (suc i) lt h =
    ap test {x = k + suc i} {y = k + 1 + i} (omega arith)
    ∙ passes_at test left (k + 1) i (omega arith) (ground arith)

pub passes_byte : (test : ℕ → Bool) → passes test 256 0 ≡ true → (b : ℕ) → b < 256 → test b ≡ true
passes_byte test h b lt = ap test {x = b} {y = 0 + b} (omega arith) ∙ passes_at test 256 0 b lt h
