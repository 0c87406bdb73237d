-- ===== src/Recovery/RoundTrip.antt =====
-- A recovery file that was exported is imported with the same contents.
use rvault.Prelude.{
  ℕ, ◌+◌, ◌%◌, ◌≤◌, ◌≡◌, refl, ap, ◌∙◌, inl, inr, true, false, some, List, [], ◌∷◌, ◌++◌,
  append_assoc, arith, ◌==◌, length, length-append, Bool-cases,
}
use rvault.Prelude.Bytes.{Bytes, AreBytes, codes}
use rvault.Hex.{hex_write_wrapped, hex_read_arbitrary}
use rvault.Hex.Lines.{
  Pairs, flat, groups, IsPlain, flat-concat, Tail, no_tail, one, two, hex_read_arbitrary_row,
  IsPlain-groups, IsPlain-Tail, hex_write_wrapped_inner, hex_write_wrapped_end,
}
use rvault.Recovery.{
  SectionId, metadata, ekey, akey, nsections, Sections, filled, fill_section, fill, getlines,
  is_marker, data_line, import_lines, no_sections, Recovered, checked, get_section,
  rvault_recovery_import, rvault_recovery_export, rvault_max_metalen, crypto_max_keylen,
}

getlines-IsPlain :
    (seg rest : Bytes)
    → IsPlain seg
    → getlines (seg ++ (b'\n' ∷ rest)) ≡ (seg ++ b'\n' ∷ []) ∷ getlines rest
unfolding getlines
getlines-IsPlain [] rest p = refl
getlines-IsPlain (c ∷ seg) rest p = rw (p.0.0, getlines-IsPlain seg rest p.1)

is_marker-IsPlain : (seg : Bytes) → IsPlain seg → is_marker (seg ++ b'\n' ∷ []) ≡ false
is_marker-IsPlain [] p = refl
is_marker-IsPlain (c ∷ seg) p = p.0.1

import_lines_step :
    (line : Bytes) (ls : List Bytes) (idx : SectionId) (s t : Sections)
    → is_marker line ≡ false
    → data_line idx s line ≡ some t
    → import_lines (line ∷ ls) idx s ≡ import_lines ls idx t
unfolding import_lines
import_lines_step line ls idx s t m d = ground arith

data_line-fill :
    (idx : SectionId) (s t : Sections) (line : Bytes)
    → fill idx s (hex_read_arbitrary line) ≡ some t
    → data_line idx s line ≡ some t
unfolding data_line fill
data_line-fill metadata s t line h = h
data_line-fill ekey s t line h = h
data_line-fill akey s t line h = h
data_line-fill nsections s t line h = h

-- A line of data that fits is one fill.
import_lines-data :
    (idx : SectionId) (s t : Sections) (seg rest d : Bytes)
    → IsPlain seg
    → hex_read_arbitrary (seg ++ b'\n' ∷ []) ≡ d
    → fill idx s d ≡ some t
    → import_lines (getlines (seg ++ (b'\n' ∷ rest))) idx s ≡ import_lines (getlines rest) idx t
import_lines-data idx s t seg rest d p r f = rw (getlines-IsPlain seg rest p) (
    import_lines_step (seg ++ b'\n' ∷ []) (getlines rest) idx s t (is_marker-IsPlain seg p)
      (data_line-fill idx s t (seg ++ b'\n' ∷ []) (rw r f)))

-- Filling with two parts is filling twice.
fill-append :
    (idx : SectionId) (s : Sections) (x y : Bytes) (t : Sections)
    → fill idx s (x ++ y) ≡ some t
    → (u : Sections) × (fill idx s x ≡ some u) × (fill idx u y ≡ some t)
unfolding fill fill_section
fill-append metadata s x y t h =
    let held = filled s.metadata_sec.buf in
    (
      record s { metadata_sec = record s.metadata_sec { buf = some (held ++ x) } },
      ground (arith, length-append x y),
      ground (arith, length-append x y, length-append held x, append_assoc held x y),
    )
fill-append ekey s x y t h =
    let held = filled s.ekey_sec.buf in
    (
      record s { ekey_sec = record s.ekey_sec { buf = some (held ++ x) } },
      ground (arith, length-append x y),
      ground (arith, length-append x y, length-append held x, append_assoc held x y),
    )
fill-append akey s x y t h =
    let held = filled s.akey_sec.buf in
    (
      record s { akey_sec = record s.akey_sec { buf = some (held ++ x) } },
      ground (arith, length-append x y),
      ground (arith, length-append x y, length-append held x, append_assoc held x y),
    )
fill-append nsections s x y t h = cc

-- The last row of a section.
import_row :
    (idx : SectionId) (s t : Sections) (ps : Pairs) {seg d : Bytes} (rest : Bytes)
    → Tail seg d
    → AreBytes (flat ps)
    → AreBytes d
    → length ps ≤ 12
    → fill idx s (flat ps ++ d) ≡ some t
    → import_lines (getlines (groups ps ++ (seg ++ (b'\n' ∷ rest)))) idx s
      ≡ import_lines (getlines rest) idx t
import_row idx s t ps {seg} {d} rest r h k short f =
    rw (← append_assoc (groups ps) seg (b'\n' ∷ rest)) (
      import_lines-data idx s t (groups ps ++ seg) rest (flat ps ++ d)
        (IsPlain-groups ps seg h (IsPlain-Tail r k))
        (rw (append_assoc (groups ps) seg (b'\n' ∷ [])) (hex_read_arbitrary_row ps r h k short)) f)

AreBytes-append : (x y : Bytes) → AreBytes x → AreBytes y → AreBytes (x ++ y)
AreBytes-append [] y h k = k
AreBytes-append (b ∷ x) y h k = (h.0, AreBytes-append x y h.1 k)

-- All the rows of a section, from the middle of a row on.
import_wrapped :
    (bs : Bytes) (n : ℕ) (ps : Pairs) (idx : SectionId) (s t : Sections) (rest : Bytes)
    → AreBytes (flat ps)
    → AreBytes bs
    → length ps ≡ n % 12
    → fill idx s (flat ps ++ bs) ≡ some t
    → import_lines (getlines (groups ps ++ (hex_write_wrapped n bs ++ (b'\n' ∷ rest)))) idx s
      ≡ import_lines (getlines rest) idx t
import_wrapped [] n ps idx s t rest h k len f =
    unfold hex_write_wrapped in import_row idx s t ps rest no_tail h k (omega arith) f
import_wrapped (a ∷ []) n ps idx s t rest h k len f =
    unfold hex_write_wrapped in import_row idx s t ps rest (one a) h k (omega arith) f
import_wrapped (a ∷ b ∷ bs) n ps idx s t rest h k len f = elim (Bool-cases ((n + 1) % 12 == 0)) [
  | inl last ↦
      let (u, p, q) =
        fill-append idx s (flat ps ++ (a ∷ b ∷ [])) bs t
          (rw (append_assoc (flat ps) (a ∷ b ∷ []) bs) f) in
      rw (hex_write_wrapped_end n a b bs (b'\n' ∷ rest) last) (
        import_row idx s u ps (hex_write_wrapped (n + 1) bs ++ (b'\n' ∷ rest)) (two a b) h
          (k.0, (k.1.0, tt)) (omega arith) p
        ∙ import_wrapped bs (n + 1) [] idx u t rest tt k.1.1 (ground arith) q)
  | inr inner ↦ rw (hex_write_wrapped_inner n ps a b bs (b'\n' ∷ rest) inner) (
      import_wrapped bs (n + 1) (ps ++ (a, b) ∷ []) idx s t rest
        (rw (flat-concat ps a b) (AreBytes-append (flat ps) (a ∷ b ∷ []) h (k.0, (k.1.0, tt))))
        k.1.1 (ground (arith, length-append ps ((a, b) ∷ [])))
        (rw (flat-concat ps a b, append_assoc (flat ps) (a ∷ b ∷ []) bs) f))
]

import_marker :
    (name : Bytes) (ls : List Bytes) (idx from : SectionId) (s : Sections)
    → is_marker name ≡ true
    → get_section name ≡ idx
    → import_lines (name ∷ ls) from s ≡ import_lines ls idx s
unfolding import_lines
import_marker name ls idx from s m g = ground arith

-- A marker line that names a section, and the section's rows behind it.
import_section :
    (name bs : Bytes) (idx from : SectionId) (s t : Sections) (rest : Bytes)
    → ((cs : Bytes) → getlines (name ++ cs) ≡ name ∷ getlines cs)
    → is_marker name ≡ true
    → get_section name ≡ idx
    → AreBytes bs
    → fill idx s bs ≡ some t
    → import_lines (getlines (name ++ (hex_write_wrapped 0 bs ++ (b'\n' ∷ rest)))) from s
      ≡ import_lines (getlines rest) idx t
import_section name bs idx from s t rest l m g k f = rw l (
    import_marker name (getlines (hex_write_wrapped 0 bs ++ (b'\n' ∷ rest))) idx from s m g
    ∙ import_wrapped bs 0 [] idx s t rest tt k refl f)

-- Each marker that the export writes is one line.
getlines_metadata :
    (cs : Bytes) → getlines (codes "# METADATA:\n" ++ cs) ≡ codes "# METADATA:\n" ∷ getlines cs
unfolding getlines
getlines_metadata cs = refl

getlines_ekey : (cs : Bytes) → getlines (codes "# EKEY:\n" ++ cs) ≡ codes "# EKEY:\n" ∷ getlines cs
unfolding getlines
getlines_ekey cs = refl

getlines_akey : (cs : Bytes) → getlines (codes "# AKEY:\n" ++ cs) ≡ codes "# AKEY:\n" ∷ getlines cs
unfolding getlines
getlines_akey cs = refl

import_lines_end : (s : Sections) → import_lines (getlines []) akey s ≡ some s
unfolding getlines import_lines
import_lines_end s = refl

-- The sections after the three have been read.
module _ (r : Recovered) where
  abbrev with_metadata : Sections
  with_metadata = record no_sections {
    metadata_sec = record { buf = some r.metadata_bytes; bufsize = rvault_max_metalen };
  }

  abbrev with_ekey : Sections
  with_ekey = record with_metadata {
    ekey_sec = record { buf = some r.ekey_bytes; bufsize = crypto_max_keylen };
  }

  abbrev with_akey : Sections
  with_akey = record with_ekey {
    akey_sec = record { buf = some r.akey_bytes; bufsize = crypto_max_keylen };
  }

  fill_metadata :
      length r.metadata_bytes ≤ rvault_max_metalen
      → fill metadata no_sections r.metadata_bytes ≡ some with_metadata
  unfolding fill fill_section
  fill_metadata h = ground arith

  fill_ekey :
      length r.ekey_bytes ≤ crypto_max_keylen
      → fill ekey with_metadata r.ekey_bytes ≡ some with_ekey
  unfolding fill fill_section
  fill_ekey h = ground arith

  fill_akey :
      length r.akey_bytes ≤ crypto_max_keylen → fill akey with_ekey r.akey_bytes ≡ some with_akey
  unfolding fill fill_section
  fill_akey h = ground arith

  import_lines-export :
      AreBytes r.metadata_bytes
      → AreBytes r.ekey_bytes
      → AreBytes r.akey_bytes
      → fill metadata no_sections r.metadata_bytes ≡ some with_metadata
      → fill ekey with_metadata r.ekey_bytes ≡ some with_ekey
      → fill akey with_ekey r.akey_bytes ≡ some with_akey
      → import_lines (getlines (rvault_recovery_export r)) nsections no_sections ≡ some with_akey
  unfolding rvault_recovery_export
  import_lines-export hm he ha fm fe fa =
      import_section (codes "# METADATA:\n") r.metadata_bytes metadata nsections no_sections
        with_metadata
        (codes "# EKEY:\n"
          ++ (hex_write_wrapped 0 r.ekey_bytes
              ++ (b'\n'
                  ∷ (codes "# AKEY:\n" ++ (hex_write_wrapped 0 r.akey_bytes ++ (b'\n' ∷ []))))))
        getlines_metadata refl (unfold get_section in refl) hm fm
      ∙ import_section (codes "# EKEY:\n") r.ekey_bytes ekey metadata with_metadata with_ekey
          (codes "# AKEY:\n" ++ (hex_write_wrapped 0 r.akey_bytes ++ (b'\n' ∷ []))) getlines_ekey
          refl (unfold get_section in refl) he fe
      ∙ import_section (codes "# AKEY:\n") r.akey_bytes akey ekey with_ekey with_akey []
          getlines_akey refl (unfold get_section in refl) ha fa
      ∙ import_lines_end with_akey

-- Whatever the vault's metadata and keys, the exported file is imported with the same three
-- contents, provided that they are bytes and no longer than an import accepts.
pub rvault_recovery_import-rvault_recovery_export :
    (r : Recovered)
    → AreBytes r.metadata_bytes
    → AreBytes r.ekey_bytes
    → AreBytes r.akey_bytes
    → length r.metadata_bytes ≤ rvault_max_metalen
    → length r.ekey_bytes ≤ crypto_max_keylen
    → length r.akey_bytes ≤ crypto_max_keylen
    → rvault_recovery_import (rvault_recovery_export r) ≡ some r
unfolding rvault_recovery_import
rvault_recovery_import-rvault_recovery_export r hm he ha lm le la =
    ap checked
      (import_lines-export r hm he ha (fill_metadata r lm) (fill_ekey r le) (fill_akey r la))
