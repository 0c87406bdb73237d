-- ===== src/FileObj/Refine.antt =====
-- File objects as byte sequences: what reads, writes and resizing do to the data.
use rvault.Prelude.{
  take-append, drop-append, length-append, length-take, append_assoc, drop_all, ltb, subst, sym, ap,
  ◌∙◌, ℕ, ◌+◌, ◌-◌, ◌<◌, ◌≡◌, refl, true, arith, pos, Bool-cases, inl, inr, length, take, drop, [],
  ◌++◌,
}
use rvault.Prelude.Cuts.{take_nil, take-drop-take}
use rvault.Prelude.Bytes.{Bytes}
use rvault.Buffer.{contents, size_mod}
use rvault.Crypto.{Ops, Laws}
use rvault.Storage.Object.{Lz4}
use rvault.FileObj.{
  written_back, fileobj_dataload, State, Env, ok, fileobj_pread, expand, store, fileobj_pwrite,
}
use rvault.FileObj.Branches.{loaded, is_loaded, pwrite_unloaded, pwrite_no_room, pwrite_done}
use rvault.FileObj.Sound.{
  fileobj_pwrite-IsSound, expand-inmem, fileobj_dataload-inmem, IsSound, Kept, written_back-Kept,
  fileobj_dataload-IsSound,
}
use rvault.FileObj.Overwrite.{
  ZeroFilled, store-ZeroFilled, Expanded, bytes, IsErased, Overwritten, store-Overwritten,
  expand-Expanded, length-bytes,
}

IsErased-like :
    (s t : State) → t.fobj.len ≡ s.fobj.len → t.fobj.sbuf ≡ s.fobj.sbuf → IsErased s → IsErased t
IsErased-like s t l b h = rw l (rw b h)

Kept-ZeroFilled :
    {s t u : State} {buf : Bytes} {offset : ℕ}
    → Kept t u
    → ZeroFilled s buf offset t
    → ZeroFilled s buf offset u
Kept-ZeroFilled {s} {t} {u} k w = record {
  filled = (λ i. take (k.same_len i) (contents (k.same_sbuf i).buf)) ∙ w.filled;
  erased = IsErased-like t u k.same_len k.same_sbuf w.erased;
}

Kept-Overwritten :
    {s t u : State} {buf : Bytes} {offset : ℕ}
    → Kept t u
    → Overwritten s buf offset t
    → Overwritten s buf offset u
Kept-Overwritten {s} {t} {u} {buf} {offset} k w = record {
  gap = w.gap;
  length_gap = w.length_gap;
  new_bytes = (λ i. take (k.same_len i) (contents (k.same_sbuf i).buf)) ∙ w.new_bytes;
}

pub dataload_inmem :
    (o : Ops) (z : Lz4) (e : Env) (s : State)
    → s.fobj.inmem ≡ true
    → fileobj_dataload o z e s ≡ (s, true)
unfolding fileobj_dataload
dataload_inmem o z e s h = rw h

module _ (o : Ops) (laws : Laws o) (z : Lz4) (e : Env) (s : State) (i : IsSound s) where
  -- A read that can load the object gives the bytes of the data from its offset on, as many as
  -- it asks for or as there are.
  pub fileobj_pread_lem :
      (len offset : ℕ)
      → is_loaded o z e s ≡ true
      → (fileobj_pread o z e s len (pos offset)).1
        ≡ ok (take len (drop offset (bytes (loaded o z e s))))
  unfolding fileobj_pread
  fileobj_pread_lem len offset l =
      let t = loaded o z e s in
      let m = contents t.fobj.sbuf.buf in
      let ti = fileobj_dataload-IsSound o z laws e s i in
      elim (Bool-cases (ltb offset t.fobj.len)) [
        | inl more ↦ ground (arith, take-drop-take len offset t.fobj.len m)
        | inr end ↦
            let nil : take len (drop offset (bytes t)) ≡ [] =
              ap (take len) (drop_all offset (bytes t) (ground (arith, length-bytes t ti)))
              ∙ take_nil len in
            ground (arith, nil)
      ]

module _ (o : Ops) (laws : Laws o) (z : Lz4) (e : Env) (s : State) (i : IsSound s) where
  -- A write that succeeds has expanded the buffer and copied the bytes before it wrote back.
  record Stored (buf : Bytes) (offset : ℕ) (t : State) : Type 0 where
    room : State
    grew : Expanded (loaded o z e s) (offset + length buf - 1) room
    kept : Kept (store o z room buf offset) t

  -- The steps of a write that succeeds.
  pub pwrite_steps :
      (buf : Bytes) (offset : ℕ)
      → 0 < length buf
      → offset + length buf < size_mod
      → (fileobj_pwrite o z e s buf (pos offset)).1 ≡ ok (length buf)
      → (is_loaded o z e s ≡ true)
        × ((expand o z e.move_ok (offset + length buf - 1) (loaded o z e s)).1 ≡ true)
        × ((fileobj_pwrite o z e s buf (pos offset)).0
            ≡ written_back o z e (
                store o z
                  (expand o z e.move_ok (offset + length buf - 1) (loaded o z e s)).0
                  buf
                  offset))
  pwrite_steps buf offset any small h = elim (Bool-cases (is_loaded o z e s)) [
    | inr l ↦ absurd (cc (pwrite_unloaded o z e s buf offset any small l))
    | inl l ↦
        elim (Bool-cases (expand o z e.move_ok (offset + length buf - 1) (loaded o z e s)).1) [
          | inr r ↦ absurd (cc (pwrite_no_room o z e s buf offset any small l r))
          | inl r ↦ (l, r, ap (λ p. p.0) (pwrite_done o z e s buf offset any small l r))
        ]
  ]

  fileobj_pwrite-Stored :
      (buf : Bytes) (offset : ℕ)
      → 0 < length buf
      → offset + length buf < size_mod
      → (fileobj_pwrite o z e s buf (pos offset)).1 ≡ ok (length buf)
      → Stored buf offset (fileobj_pwrite o z e s buf (pos offset)).0
  fileobj_pwrite-Stored buf offset any small h =
      let t = loaded o z e s in
      let ti = fileobj_dataload-IsSound o z laws e s i in
      let room = (expand o z e.move_ok (offset + length buf - 1) t).0 in
      let (l, r, run) = pwrite_steps buf offset any small h in
      subst (Stored buf offset) (sym run) (record {
        room = room;
        grew = expand-Expanded o z e.move_ok (offset + length buf - 1) t (omega arith) ti r;
        kept = written_back-Kept o z e (store o z room buf offset);
      })

  -- A write that succeeds, of some bytes that end below 2^64, puts them at their offset in the
  -- data and keeps the other data. Behind the end of the data it leaves a gap in front of them.
  pub fileobj_pwrite-Overwritten :
      (buf : Bytes) (offset : ℕ)
      → 0 < length buf
      → offset + length buf < size_mod
      → (fileobj_pwrite o z e s buf (pos offset)).1 ≡ ok (length buf)
      → Overwritten (loaded o z e s) buf offset (fileobj_pwrite o z e s buf (pos offset)).0
  fileobj_pwrite-Overwritten buf offset any small h =
      let w = fileobj_pwrite-Stored buf offset any small h in
      Kept-Overwritten w.kept (
        store-Overwritten o z (loaded o z e s) w.room buf offset any
          (fileobj_dataload-IsSound o z laws e s i) w.grew)

  -- If the spare part of the buffer is zero, the gap that such a write leaves is of zeros, and
  -- the spare part is zero afterwards.
  pub fileobj_pwrite-ZeroFilled :
      (buf : Bytes) (offset : ℕ)
      → 0 < length buf
      → offset + length buf < size_mod
      → (fileobj_pwrite o z e s buf (pos offset)).1 ≡ ok (length buf)
      → IsErased (loaded o z e s)
      → ZeroFilled (loaded o z e s) buf offset (fileobj_pwrite o z e s buf (pos offset)).0
  fileobj_pwrite-ZeroFilled buf offset any small h clean =
      let w = fileobj_pwrite-Stored buf offset any small h in
      Kept-ZeroFilled w.kept (
        store-ZeroFilled o z (loaded o z e s) w.room buf offset any
          (fileobj_dataload-IsSound o z laws e s i) w.grew clean)

  pub pwrite_inmem :
      (buf : Bytes) (offset : ℕ)
      → 0 < length buf
      → offset + length buf < size_mod
      → (fileobj_pwrite o z e s buf (pos offset)).1 ≡ ok (length buf)
      → (fileobj_pwrite o z e s buf (pos offset)).0.fobj.inmem ≡ true
  pwrite_inmem buf offset any small h =
      let t = loaded o z e s in
      let room = (expand o z e.move_ok (offset + length buf - 1) t).0 in
      let (l, r, run) = pwrite_steps buf offset any small h in
      ap (λ u. u.fobj.inmem) run
      ∙ (written_back-Kept o z e (store o z room buf offset)).same_inmem
      ∙ expand-inmem o z e.move_ok (offset + length buf - 1) t
      ∙ fileobj_dataload-inmem o z e s l

  -- What was written is read back, in the same place and length.
  pub fileobj_pread-fileobj_pwrite :
      (e' : Env) (buf : Bytes) (offset : ℕ)
      → 0 < length buf
      → offset + length buf < size_mod
      → (fileobj_pwrite o z e s buf (pos offset)).1 ≡ ok (length buf)
      → (fileobj_pread o z e'
          (fileobj_pwrite o z e s buf (pos offset)).0
          (length buf)
          (pos offset)).1
        ≡ ok buf
  fileobj_pread-fileobj_pwrite e' buf offset any small h =
      let t = loaded o z e s in
      let u = (fileobj_pwrite o z e s buf (pos offset)).0 in
      let ui = fileobj_pwrite-IsSound o z laws e s i buf (pos offset) small in
      let w = fileobj_pwrite-Overwritten buf offset any small h in
      let same = dataload_inmem o z e' u (pwrite_inmem buf offset any small h) in
      let ti = fileobj_dataload-IsSound o z laws e s i in
      let tail = drop (offset + length buf) (bytes t) in
      fileobj_pread_lem o laws z e' u ui (length buf) offset (ap (λ p. p.1) same)
      ∙ ap (λ p. ok (take (length buf) (drop offset (bytes (p.0))))) same
      ∙ ap (λ r. ok (take (length buf) (drop offset r)))
          (w.new_bytes ∙ sym (append_assoc (take offset (bytes t)) w.gap (buf ++ tail)))
      ∙ ap (λ r. ok (take (length buf) r))
          (drop-append offset (take offset (bytes t) ++ w.gap) (buf ++ tail) (
            length-append (take offset (bytes t)) w.gap
            ∙ omega (arith, length-take offset (bytes t), length-bytes t ti, w.length_gap)))
      ∙ ap ok (take-append (length buf) buf tail refl)
