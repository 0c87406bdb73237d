-- ===== src/FileObj/Stat.antt =====
-- fileobj_stat of src/core/fileobj.c: the size of an encrypted file is that of its data.
use Prim.Native.Nat.{bit_and}
use rvault.Prelude.{ℕ, ◌&&◌, Bool, not, Option, none, some, ◌==◌, ltb, if◌then◌else◌}
use rvault.Prelude.Bytes.{Bytes}
use rvault.Storage.Object.{storage_read_length}

-- The fields of struct stat that it reads.
pub record Stat : Type 0 where
  pub st_mode : ℕ
  pub st_size : ℕ

abbrev pub s_ifmt : ℕ
s_ifmt = 0xf000

abbrev pub s_ifreg : ℕ
s_ifreg = 0x8000

-- S_IFMT without S_IFDIR and S_IFREG.
abbrev pub unsupported : ℕ
unsupported = 0x3000

-- fileobj_stat; `st` is what fstat gives, and `found` says that the path could be resolved and
-- opened.
unfoldable pub fileobj_stat : Bool → Option Stat → Bytes → Option Stat
unfolding storage_read_length
fileobj_stat found none file = none
fileobj_stat found (some st) file =
    if not found
    then none
    else if not (bit_and st.st_mode unsupported == 0)
    then none
    else if bit_and st.st_mode s_ifmt == s_ifreg && ltb 0 st.st_size
    then elim (storage_read_length file) [
      | none ↦ none
      | some size ↦ some (record st { st_size = size })
    ]
    else some st
