-- ===== src/FileObj/Overwrite.antt =====
-- File objects as byte sequences: what the expansion of the buffer and the copy into it, as
-- fileobj_pwrite makes them, do to the bytes.
use rvault.Prelude.{
  drop_all, ap₂, length-append, take-append, take_all, ltb, Bool-cases, length-take, length-drop,
  length-replicate, append_assoc, sym, ap, ◌∙◌, ℕ, ◌+◌, ◌-◌, ◌%◌, ◌≤◌, ◌<◌, ◌≡◌, Bool, true, arith,
  inl, inr, length, take, drop, replicate, ◌++◌, append-nil,
}
use rvault.Prelude.Cuts.{
  drop-replicate, drop-append_cut, take-drop, take-append_cut, replicate_add, take-replicate,
}
use rvault.Prelude.Bytes.{Bytes}
use rvault.Buffer.{Sbuffer, contents, sbuffer_move, size_mod, copied}
use rvault.Buffer.Move.{sbuffer_move-Moved}
use rvault.Buffer.Copy.{take_end-memcpy_at, end_of, drop_end-memcpy_at}
use rvault.Crypto.{Ops}
use rvault.Storage.Object.{Lz4}
use rvault.FileObj.{State, expand, store}
use rvault.FileObj.Sound.{IsSound}

-- The bytes of the object, those behind them in its buffer, and an object with zeros there.
abbrev pub bytes : State → Bytes
bytes s = take s.fobj.len (contents s.fobj.sbuf.buf)

abbrev pub behind : State → Bytes
behind s = drop s.fobj.len (contents s.fobj.sbuf.buf)

abbrev pub IsErased : State → Type 0
IsErased s = behind s ≡ replicate (s.fobj.sbuf.buf_size - s.fobj.len) 0

module _ (s : State) (i : IsSound s) where
  pub length-bytes : length (bytes s) ≡ s.fobj.len
  length-bytes = length-take s.fobj.len (contents s.fobj.sbuf.buf) ∙ omega (arith, i.fits, i.whole)

  pub length-behind : length (behind s) ≡ s.fobj.sbuf.buf_size - s.fobj.len
  length-behind = length-drop s.fobj.len (contents s.fobj.sbuf.buf) ∙ omega (arith, i.fits, i.whole)

copied_more :
    (old : Bytes) (len : ℕ)
    → length old ≤ len
    → copied old len ≡ old ++ replicate (len - length old) 0
copied_more old len h = ap (λ r. r ++ replicate (len - length old) 0) (take_all len old h)

-- What expanding does: zeros behind the buffer, and the length to the end of the write.
pub record Expanded (s : State) (endoff : ℕ) (t : State) : Type 0 where
  added : ℕ
  content : contents t.fobj.sbuf.buf ≡ contents s.fobj.sbuf.buf ++ replicate added 0
  new_size : t.fobj.sbuf.buf_size ≡ s.fobj.sbuf.buf_size + added
  new_len : t.fobj.len ≡ end_of s.fobj.len (endoff + 1)
  room : endoff + 1 ≤ t.fobj.sbuf.buf_size

-- What the data are after a write of `buf` at `offset`: its bytes stand there, between those that
-- were before and behind. A write behind the end leaves a gap in front.
pub record Overwritten (s : State) (buf : Bytes) (offset : ℕ) (t : State) : Type 0 where
  pub gap : Bytes
  pub length_gap : length gap ≡ offset - s.fobj.len
  pub new_bytes :
      bytes t ≡ take offset (bytes s) ++ (gap ++ (buf ++ drop (offset + length buf) (bytes s)))

-- The same where the gap is of zeros and the spare part of the buffer is zero.
pub record ZeroFilled (s : State) (buf : Bytes) (offset : ℕ) (t : State) : Type 0 where
  pub filled :
      bytes t
      ≡ take offset (bytes s)
        ++ (replicate (offset - s.fobj.len) 0 ++ (buf ++ drop (offset + length buf) (bytes s)))
  pub erased : IsErased t

module _ (o : Ops) (z : Lz4) where
  pub expand-Expanded :
      (go : Bool) (endoff : ℕ) (s : State)
      → endoff + 1 < size_mod
      → IsSound s
      → (expand o z go endoff s).1 ≡ true
      → Expanded s endoff (expand o z go endoff s).0
  unfolding expand
  expand-Expanded go endoff s small i h = elim (Bool-cases (ltb endoff s.fobj.sbuf.buf_size)) [
    | inl fits ↦ record {
      added = 0;
      content =
          ap (λ b. contents (Sbuffer.buf b)) {x = (expand o z go endoff s).0.fobj.sbuf}
            {y = s.fobj.sbuf} (ground arith)
          ∙ sym (append-nil (contents s.fobj.sbuf.buf));
      new_size = ground arith;
      new_len = ground arith;
      room = ground arith;
    }
    | inr big ↦
        let nlen = (endoff + 1) % size_mod in
        let m = sbuffer_move-Moved go true s.fobj.sbuf nlen i.whole (ground arith) in
        let b = (sbuffer_move go s.fobj.sbuf nlen true).0 in
        record {
          added = b.buf_size - s.fobj.sbuf.buf_size;
          content =
              ap (λ r. contents (Sbuffer.buf r)) {x = (expand o z go endoff s).0.fobj.sbuf} {y = b}
                (ground arith)
              ∙ m.copy
              ∙ copied_more (contents s.fobj.sbuf.buf) b.buf_size (ground (arith, m.size, i.whole))
              ∙ ap (λ k. contents s.fobj.sbuf.buf ++ replicate (b.buf_size - k) 0) i.whole;
          new_size = ground (arith, m.size);
          new_len = ground (arith, i.fits);
          room = ground (arith, m.size);
        }
  ]

  module _ (s t : State) (buf : Bytes) (offset : ℕ) (any : 0 < length buf) (i : IsSound s)
      (x : Expanded s (offset + length buf - 1) t) where
    abbrev rest : Bytes
    rest = behind s ++ replicate x.added 0

    content_split : contents t.fobj.sbuf.buf ≡ bytes s ++ rest
    content_split =
        x.content
        ∙ ap (λ r. r ++ replicate x.added 0) (sym (take-drop s.fobj.len (contents s.fobj.sbuf.buf)))
        ∙ append_assoc (bytes s) (behind s) (replicate x.added 0)

    length-rest : length rest ≡ t.fobj.sbuf.buf_size - s.fobj.len
    length-rest =
        length-append (behind s) (replicate x.added 0)
        ∙ omega (arith, length-behind s i, length-replicate {A = ℕ} x.added 0, i.fits, x.new_size)

    end_is : t.fobj.len ≡ end_of s.fobj.len (offset + length buf)
    end_is = ground (arith, x.new_len, any)

    fits_in : offset + length buf ≤ length (contents t.fobj.sbuf.buf)
    fits_in = omega (
      arith,
      ap length content_split,
      length-append (bytes s) rest,
      length-rest,
      length-bytes s i,
      x.room,
      any,
      i.fits,
      x.new_size,
    )

    new_bytes_are :
        bytes (store o z t buf offset)
        ≡ take offset (bytes s)
          ++ (take (offset - s.fobj.len) rest ++ (buf ++ drop (offset + length buf) (bytes s)))
    new_bytes_are =
        take_end-memcpy_at (contents t.fobj.sbuf.buf) s.fobj.len offset buf t.fobj.len fits_in
          end_is
        ∙ ap (λ r. take offset r ++ (buf ++ drop (offset + length buf) (take s.fobj.len r)))
            content_split
        ∙ ap₂ (λ a b. a ++ (buf ++ drop (offset + length buf) b))
            (take-append_cut offset (bytes s) rest
              ∙ ap (λ n. take offset (bytes s) ++ take (offset - n) rest) (length-bytes s i))
            (take-append s.fobj.len (bytes s) rest (length-bytes s i))
        ∙ append_assoc (take offset (bytes s)) (take (offset - s.fobj.len) rest)
            (buf ++ drop (offset + length buf) (bytes s))

    rest_zero : IsErased s → rest ≡ replicate (t.fobj.sbuf.buf_size - s.fobj.len) 0
    rest_zero clean =
        ap (λ r. r ++ replicate x.added 0) clean
        ∙ replicate_add (s.fobj.sbuf.buf_size - s.fobj.len) x.added 0
        ∙ ap (λ n. replicate n 0) {x = s.fobj.sbuf.buf_size - s.fobj.len + x.added}
            {y = t.fobj.sbuf.buf_size - s.fobj.len} (omega (arith, i.fits, x.new_size))

    store-IsErased : IsErased s → IsErased (store o z t buf offset)
    store-IsErased clean =
        drop_end-memcpy_at (contents t.fobj.sbuf.buf) offset buf t.fobj.len (ground (arith, end_is))
        ∙ ap (drop t.fobj.len) content_split
        ∙ drop-append_cut t.fobj.len (bytes s) rest
        ∙ ap₂ ◌++◌ (drop_all t.fobj.len (bytes s) (ground (arith, length-bytes s i, end_is))) (
            ap (drop (t.fobj.len - length (bytes s))) (rest_zero clean)
            ∙ drop-replicate (t.fobj.len - length (bytes s)) (t.fobj.sbuf.buf_size - s.fobj.len) 0
            ∙ ap (λ n. replicate n 0)
                {x = t.fobj.sbuf.buf_size - s.fobj.len - (t.fobj.len - length (bytes s))}
                {y = t.fobj.sbuf.buf_size - t.fobj.len} (ground (arith, length-bytes s i, end_is)))

    pub store-Overwritten : Overwritten s buf offset (store o z t buf offset)
    store-Overwritten = record {
      gap = take (offset - s.fobj.len) rest;
      length_gap = length-take (offset - s.fobj.len) rest ∙ omega (arith, length-rest, x.room, any);
      new_bytes = new_bytes_are;
    }

    pub store-ZeroFilled : IsErased s → ZeroFilled s buf offset (store o z t buf offset)
    store-ZeroFilled clean = record {
      filled =
          new_bytes_are
          ∙ ap (λ g. take offset (bytes s) ++ (g ++ (buf ++ drop (offset + length buf) (bytes s))))
              (ap (take (offset - s.fobj.len)) (rest_zero clean)
                ∙ take-replicate (offset - s.fobj.len) (t.fobj.sbuf.buf_size - s.fobj.len) 0
                    (omega (arith, x.room, any)));
      erased = store-IsErased clean;
    }
