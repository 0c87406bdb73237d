-- ===== src/Resolve/Stack.antt =====
-- The walk of src/core/resolve.c over a path, against a stack of names.
use rvault.Prelude.{
  ℕ, zero, suc, ◌+◌, ◌≡◌, refl, ap, ap₂, ◌∙◌, sym, true, false, Bool, List, [], ◌∷◌, ◌++◌, ◌==◌,
  arith, length, length-append, take, drop, get_or, take-append, drop-append, append_assoc,
}
use rvault.Prelude.Bytes.{Bytes}
use rvault.Prelude.Cuts.{drop-drop}
use rvault.Resolve.Walk.{Stream, put, last_slash, trim}

-- The names so far, the last one first, and whether the last component taken was "..".
pub record Place : Type 0 where
  pub names : List Bytes
  pub trimmed : Bool

-- The names as a path.
unfoldable pub joined : List Bytes → Bytes
joined [] = []
joined (t ∷ ts) = joined ts ++ (b'/' ∷ t)

-- ".." drops the last name, unless a name has not come since the last "..".
unfoldable pub parent : List Bytes → Bool → Place
parent [] t = record { names = []; trimmed = t }
parent (n ∷ ns) true = record { names = n ∷ ns; trimmed = true }
parent (n ∷ ns) false = record { names = ns; trimmed = true }

-- No character is a slash.
abbrev pub NoSlash : Bytes → Type 0
NoSlash b = (i : ℕ) → (get_or b i 0 == b'/') ≡ false

-- The stream holds the names; behind them, after a "..", stands the slash of a name dropped.
pub data Behind : Bool → Bytes → Type 0 where
  clean : (b : Bytes) → NoSlash b → Behind false b
  dropped : (b : Bytes) → NoSlash b → Behind true (b'/' ∷ b)

pub get_or-append : (xs ys : Bytes) (i : ℕ) → get_or (xs ++ ys) (length xs + i) 0 ≡ get_or ys i 0
get_or-append [] ys i = ap (λ j. get_or ys j 0) {x = 0 + i} {y = i} (omega arith)
get_or-append (x ∷ xs) ys i =
    ap (λ j. get_or (x ∷ (xs ++ ys)) j 0) {x = suc (length xs) + i} {y = suc (length xs + i)}
      (omega arith)
    ∙ get_or-append xs ys i

pub NoSlash-nil : NoSlash []
NoSlash-nil i = refl

pub NoSlash-cons : (c : ℕ) (b : Bytes) → (c == b'/') ≡ false → NoSlash b → NoSlash (c ∷ b)
NoSlash-cons c b h n zero = h
NoSlash-cons c b h n (suc i) = n i

pub NoSlash-append : (xs ys : Bytes) → NoSlash xs → NoSlash ys → NoSlash (xs ++ ys)
NoSlash-append [] ys hx hy = hy
NoSlash-append (x ∷ xs) ys hx hy =
    NoSlash-cons x (xs ++ ys) (hx 0) (NoSlash-append xs ys (λ i. hx (suc i)) hy)

NoSlash-drop : (n : ℕ) (b : Bytes) → NoSlash b → NoSlash (drop n b)
NoSlash-drop zero b h = h
NoSlash-drop (suc n) [] h = h
NoSlash-drop (suc n) (c ∷ b) h = NoSlash-drop n b (λ i. h (suc i))

-- The loop back ends at the last slash, or at the start.
last_slash-append :
    (p q : Bytes) (off k : ℕ)
    → NoSlash q
    → off ≡ length p + k
    → last_slash (p ++ (b'/' ∷ q)) off ≡ length p
unfolding last_slash
last_slash-append p q zero k h e = omega arith
last_slash-append p q (suc off) zero h e =
    let at : get_or (p ++ (b'/' ∷ q)) (suc off) 0 ≡ b'/' =
      ap (λ j. get_or (p ++ (b'/' ∷ q)) j 0) e ∙ get_or-append p (b'/' ∷ q) 0 in
    ground arith
last_slash-append p q (suc off) (suc k) h e =
    let at : get_or (p ++ (b'/' ∷ q)) (suc off) 0 ≡ get_or q k 0 =
      ap (λ j. get_or (p ++ (b'/' ∷ q)) j 0) e ∙ get_or-append p (b'/' ∷ q) (suc k) in
    let none_here = h k in let ih = last_slash-append p q off k h (omega arith) in ground arith

-- A stream whose text is `j`, with what is left of older text behind it.
abbrev pub held : Bytes → Bytes → Stream
held j b = record { buf = j ++ b; pos = length j }

put-held : (j b bs : Bytes) → put (held j b) bs ≡ held (j ++ bs) (drop (length bs) b)
put-held j b bs =
    let text : take (length j) (j ++ b) ++ (bs ++ drop (length j + length bs) (j ++ b))
        ≡ (j ++ bs) ++ drop (length bs) b =
      ap₂ (λ x y. x ++ (bs ++ y)) (take-append (length j) j b refl)
        (sym (drop-drop (length j) (length bs) (j ++ b))
          ∙ ap (drop (length bs)) (drop-append (length j) j b refl))
      ∙ sym (append_assoc j bs (drop (length bs) b)) in
    ap₂ (λ x n. record { buf = x; pos = n }) text (sym (length-append j bs))

-- The stream is at the end of the place's names, none of which has a slash.
abbrev pub Slashless : List Bytes → Type 0
Slashless [] = Unit
Slashless (t ∷ ts) = NoSlash t × Slashless ts

pub record Holds (s : Stream) (p : Place) : Type 0 where
  pub b : Bytes
  pub stream : s ≡ held (joined p.names) b
  pub behind : Behind p.trimmed b
  pub slashless : Slashless p.names

behind-drop : (t : Bool) (b : Bytes) → Behind t b → NoSlash (drop 1 b)
behind-drop false _ (clean b h) = NoSlash-drop 1 b h
behind-drop true _ (dropped b h) = h

pub put-Holds :
    (s : Stream) (p : Place) (t : Bytes)
    → Holds s p
    → NoSlash t
    → Holds (put (put s (b'/' ∷ [])) t) (record { names = t ∷ p.names; trimmed = false })
unfolding joined
put-Holds s p t h n =
    let j = joined p.names in
    let rest = drop (length t) (drop 1 h.b) in
    record {
      b = rest;
      stream =
          ap (λ x. put (put x (b'/' ∷ [])) t) h.stream
          ∙ ap (λ x. put x t) (put-held j h.b (b'/' ∷ []))
          ∙ put-held (j ++ (b'/' ∷ [])) (drop 1 h.b) t
          ∙ ap (λ x. held x rest) (append_assoc j (b'/' ∷ []) t);
      behind =
          clean rest (NoSlash-drop (length t) (drop 1 h.b) (behind-drop p.trimmed h.b h.behind));
      slashless = (n, h.slashless);
    }

left_slash : (b : Bytes) → Behind true b → (q : Bytes) × (b ≡ b'/' ∷ q) × NoSlash q
left_slash _ (dropped q h) = (q, refl, h)

left_clean : (b : Bytes) → Behind false b → NoSlash b
left_clean _ (clean b h) = h

trim-held :
    (j q : Bytes) (off k : ℕ)
    → NoSlash q
    → off ≡ length j + k
    → trim (record { buf = j ++ (b'/' ∷ q); pos = off }) ≡ held j (b'/' ∷ q)
trim-held j q off k h e =
    ap (λ n. record { buf = j ++ (b'/' ∷ q); pos = n }) (last_slash-append j q off k h e)

pub trim-Holds :
    (s : Stream) (ns : List Bytes) (t : Bool)
    → Holds s (record { names = ns; trimmed = t })
    → Holds (trim s) (parent ns t)
unfolding joined parent last_slash
trim-Holds s [] t h = record {
  b = h.b;
  stream = ap trim h.stream;
  behind = h.behind;
  slashless = tt;
}
trim-Holds s (n ∷ ns) true h =
    let (q, same, clear) = left_slash h.b h.behind in
    let j = joined (n ∷ ns) in
    record {
      b = h.b;
      stream =
          ap trim (h.stream ∙ ap (held j) same)
          ∙ trim-held j q (length j) 0 clear (omega arith)
          ∙ ap (held j) (sym same);
      behind = h.behind;
      slashless = h.slashless;
    }
trim-Holds s (n ∷ ns) false h =
    let j = joined ns in
    let q = n ++ h.b in
    let whole = joined (n ∷ ns) in
    record {
      b = b'/' ∷ q;
      stream =
          ap trim (
            h.stream
            ∙ ap (λ x. record { buf = x; pos = length whole }) (append_assoc j (b'/' ∷ n) h.b))
          ∙ trim-held j q (length whole) (suc (length n))
              (NoSlash-append n h.b h.slashless.0 (left_clean h.b h.behind))
              (length-append j (b'/' ∷ n));
      behind = dropped q (NoSlash-append n h.b h.slashless.0 (left_clean h.b h.behind));
      slashless = h.slashless.1;
    }
