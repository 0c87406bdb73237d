-- ===== src/Recovery.antt =====
-- The recovery file, of src/core/recovery.c: sections of wrapped hexadecimal text, each behind a
-- line that begins with `#` and names it.
pub mod RoundTrip
use rvault.Prelude.{
  ℕ, ◌+◌, Bool, true, false, ◌&&◌, ◌||◌, Option, none, some, List, [], ◌∷◌, ◌++◌, ◌==◌, ltb,
  if◌then◌else◌, length,
}
use rvault.Prelude.Bytes.{Bytes, codes}
use rvault.Hex.{hex_write_wrapped, hex_read_arbitrary, tolower}

-- The index into the array of sections; `nsections` is RECOVERY_NSECTIONS.
pub data SectionId : Type 0 where
  metadata ekey akey nsections : SectionId

-- rsection_t: `buf` is NULL until the first fill, and holds the first `nbytes` bytes then.
pub record Section : Type 0 where
  pub buf : Option Bytes
  pub bufsize : ℕ

pub record Sections : Type 0 where
  pub metadata_sec : Section
  pub ekey_sec : Section
  pub akey_sec : Section

-- strncasecmp(pre, line, strlen(pre)) == 0, for a lower-case `pre`.
unfoldable pub starts_caseless : Bytes → Bytes → Bool
starts_caseless [] line = true
starts_caseless (p ∷ pre) [] = false
starts_caseless (p ∷ pre) (c ∷ line) = p == tolower c && starts_caseless pre line

-- strcasestr(line, needle) != NULL, for a lower-case needle.
unfoldable pub contains_caseless : Bytes → Bytes → Bool
unfolding starts_caseless
contains_caseless [] needle = starts_caseless needle []
contains_caseless (c ∷ line) needle =
    starts_caseless needle (c ∷ line) || contains_caseless line needle

unfoldable pub get_section : Bytes → SectionId
unfolding contains_caseless
get_section line =
    if contains_caseless line (codes "metadata")
    then metadata
    else if contains_caseless line (codes "ekey")
    then ekey
    else if contains_caseless line (codes "akey")
    then akey
    else nsections

-- The bytes held so far.
abbrev pub filled : Option Bytes → Bytes
filled none = []
filled (some bs) = bs

-- fill_section; `none` is its -1.
pub fill_section : Section → Bytes → Option Section
fill_section sec bs =
    let held = filled sec.buf in
    if ltb sec.bufsize (length held + length bs)
    then none
    else some (record sec { buf = some (held ++ bs) })

-- The store into `sections[idx]`.
pub fill : SectionId → Sections → Bytes → Option Sections
fill metadata s bs = elim (fill_section s.metadata_sec bs) [
  | none ↦ none
  | some sec ↦ some (record s { metadata_sec = sec })
]
fill ekey s bs = elim (fill_section s.ekey_sec bs) [
  | none ↦ none
  | some sec ↦ some (record s { ekey_sec = sec })
]
fill akey s bs = elim (fill_section s.akey_sec bs) [
  | none ↦ none
  | some sec ↦ some (record s { akey_sec = sec })
]
fill nsections s bs = none

-- getline(3), call after call: each line with its newline, and what follows the last newline.
abbrev pub cons_line : ℕ → List Bytes → List Bytes
cons_line c [] = (c ∷ []) ∷ []
cons_line c (l ∷ ls) = (c ∷ l) ∷ ls

pub getlines : Bytes → List Bytes
getlines [] = []
getlines (c ∷ cs) =
    let rest = getlines cs in if c == b'\n' then (c ∷ []) ∷ rest else cons_line c rest

abbrev pub is_marker : Bytes → Bool
is_marker [] = false
is_marker (c ∷ line) = c == b'#'

-- What happens to a line that begins no section.
pub data_line : SectionId → Sections → Bytes → Option Sections
data_line nsections s line = none
data_line idx s line = fill idx s (hex_read_arbitrary line)

-- The loop over the lines.
pub import_lines : List Bytes → SectionId → Sections → Option Sections
import_lines [] idx s = some s
import_lines (line ∷ ls) idx s = elim (is_marker line) [
  | true ↦ import_lines ls (get_section line) s
  | false ↦ elim (data_line idx s line) [ none ↦ none | some t ↦ import_lines ls idx t ]
]

abbrev pub rvault_max_metalen : ℕ
rvault_max_metalen = 4096

abbrev pub crypto_max_keylen : ℕ
crypto_max_keylen = 1024

abbrev pub no_sections : Sections
no_sections = record {
  metadata_sec = record { buf = none; bufsize = rvault_max_metalen };
  ekey_sec = record { buf = none; bufsize = crypto_max_keylen };
  akey_sec = record { buf = none; bufsize = crypto_max_keylen };
}

-- The contents of the three sections.
pub record Recovered : Type 0 where
  pub metadata_bytes : Bytes
  pub ekey_bytes : Bytes
  pub akey_bytes : Bytes

-- The check that every section has been filled.
pub all_filled : Option Bytes → Option Bytes → Option Bytes → Option Recovered
all_filled (some m) (some e) (some a) =
    some (record { metadata_bytes = m; ekey_bytes = e; akey_bytes = a })
all_filled _ _ _ = none

pub checked : Option Sections → Option Recovered
checked none = none
checked (some s) = all_filled s.metadata_sec.buf s.ekey_sec.buf s.akey_sec.buf

unfoldable pub rvault_recovery_import : Bytes → Option Recovered
unfolding getlines import_lines data_line fill fill_section checked all_filled get_section
    hex_read_arbitrary
rvault_recovery_import file = checked (import_lines (getlines file) nsections no_sections)

-- rvault_recovery_export, of the metadata file and the two active keys.
unfoldable pub rvault_recovery_export : Recovered → Bytes
unfolding hex_write_wrapped
rvault_recovery_export r =
    codes "# METADATA:\n"
    ++ (hex_write_wrapped 0 r.metadata_bytes
        ++ (b'\n'
            ∷ (codes "# EKEY:\n"
                ++ (hex_write_wrapped 0 r.ekey_bytes
                    ++ (b'\n'
                        ∷ (codes "# AKEY:\n"
                            ++ (hex_write_wrapped 0 r.akey_bytes ++ (b'\n' ∷ []))))))))
