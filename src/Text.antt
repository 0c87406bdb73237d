-- ===== src/Text.antt =====
-- C strings as lists of characters: the comparisons of the C library that the program uses, and
-- str_tokenize of src/misc/utils.c.
use rvault.Prelude.{ℕ, Bool, true, false, ◌&&◌, ◌||◌, List, [], ◌∷◌, ◌==◌, if◌then◌else◌, take}
use rvault.Prelude.Bytes.{Bytes}
use rvault.Hex.{tolower}

-- strcasecmp(a, b) == 0.
unfoldable pub caseless_equal : Bytes → Bytes → Bool
caseless_equal [] [] = true
caseless_equal (x ∷ xs) (y ∷ ys) = tolower x == tolower y && caseless_equal xs ys
caseless_equal [] (y ∷ ys) = false
caseless_equal (x ∷ xs) [] = false

-- strncasecmp(a, b, strlen(b)) == 0.
unfoldable pub caseless_prefix : Bytes → Bytes → Bool
caseless_prefix a [] = true
caseless_prefix [] (y ∷ ys) = false
caseless_prefix (x ∷ xs) (y ∷ ys) = tolower x == tolower y && caseless_prefix xs ys

abbrev pub is_separator : ℕ → Bool
is_separator c = c == b' ' || c == b'\t'

-- strsep(3), call after call: the tokens between separators, the empty ones too.
abbrev pub cons_token : ℕ → List Bytes → List Bytes
cons_token c [] = (c ∷ []) ∷ []
cons_token c (t ∷ ts) = (c ∷ t) ∷ ts

unfoldable pub strsep_all : Bytes → List Bytes
strsep_all [] = [] ∷ []
strsep_all (c ∷ cs) =
    let rest = strsep_all cs in if is_separator c then [] ∷ rest else cons_token c rest

-- str_tokenize, into at most `n` tokens. The test that is to skip a token is never true: it reads
-- the separators in place of the token, and no token has a separator in it.
unfoldable pub str_tokenize : Bytes → ℕ → List Bytes
unfolding strsep_all
str_tokenize line n = take n (strsep_all line)
