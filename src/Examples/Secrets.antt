-- ===== src/Examples/Secrets.antt =====
-- A secret set, saved, and printed when the database is opened again.
use rvault.Prelude.{
  ap, sym, ◌<◌, ◌+◌, ◌≤◌, List, ◌≡◌, ◌++◌, refl, true, none, some, Option, [], ◌∷◌, arith, length,
  if◌then◌else◌,
}
use rvault.Prelude.Bytes.{Bytes, codes, equal}
use rvault.Text.{str_tokenize}
use rvault.Crypto.{crypto_encrypt, int_max}
use rvault.Storage.Header.{fileobj_hdr}
use rvault.Storage.Object.{storage_write_data}
use rvault.Sdb.{
  bind_some, print_rows, print_columns, Sqlite, find_cmd, sdb_exec_cmd, sdb_open, sdb_sync,
  cmd_generator, set_query,
}
use rvault.Sdb.Commands.{IsToken}
use rvault.Sdb.Saved.{SqliteLaws}
use rvault.Sdb.Prompt.{Round, Session, prompt, prompt_line, key_lines}
use rvault.Sdb.Session.{get-next_session}
use rvault.Examples.Engine.{
  engine, engine-Laws, packer, packer-Laws, crypto-IsUsable, vault, writes, reads, reads-CanRead,
  hello,
}

-- A database of one row, which is its own image.
abbrev value : Bytes → Bytes
value [] = []
value (mark ∷ val) = val

abbrev saved : Bytes → Option Bytes
saved [] = none
saved (mark ∷ val) = some (mark ∷ val)

abbrev put_row : Bytes → Option Bytes → Bytes
put_row db none = db
put_row db (some val) = 1 ∷ val

abbrev one_row : Sqlite Bytes
one_row = record {
  fresh = some (1 ∷ []);
  deserialize = λ b. some b;
  serialize = saved;
  prepare_v2 = λ db sql. true;
  bind_text = λ db sql i text. true;
  rows = λ db sql key val.
      if equal sql set_query then (put_row db val, []) else (db, (some (value db) ∷ []) ∷ []);
}

saved-image : (db b : Bytes) → saved db ≡ some b → db ≡ b
saved-image [] b h = absurd (ground arith)
saved-image (mark ∷ val) b h = ground arith

length-saved : (db b : Bytes) → saved db ≡ some b → 0 < length b
length-saved [] b h = absurd (ground arith)
length-saved (mark ∷ val) b h = ground arith

one_row-SqliteLaws : SqliteLaws one_row
unfolding equal
one_row-SqliteLaws = record {
  image = λ db b h. ap some (sym (saved-image db b h));
  length-image = λ db b h. length-saved db b h;
  prepared = λ db key val h. refl;
  bound = λ db key val h h1. refl;
  selected = λ db key val h. refl;
}

name-IsToken : IsToken hello
name-IsToken = (refl, (refl, (refl, (refl, (refl, tt)))))

-- A line that is no command, one that is saved in vain, and a secret.
abbrev started : Session Bytes
started = record { vault = vault; file = []; db = []; shown = [] }

abbrev typed : List Round
typed =
    record { line = codes "help"; secret = none; writes = writes }
    ∷ record { line = codes "ls"; secret = none; writes = writes }
    ∷ []

abbrev reached : Session Bytes
reached = prompt one_row engine packer started typed

abbrev finished : Session Bytes
finished =
    prompt one_row engine packer started (
      typed ++ (record { line = codes "SET " ++ hello; secret = some hello; writes = writes } ∷ []))

set_hello : (sdb_exec_cmd one_row (some hello) reached.db (codes "SET " ++ hello)).1 ≡ some []
unfolding prompt str_tokenize find_cmd equal bind_some print_rows print_columns
set_hello = refl

image_hello :
    one_row.serialize (sdb_exec_cmd one_row (some hello) reached.db (codes "SET " ++ hello)).0
    ≡ some (1 ∷ hello)
unfolding prompt str_tokenize find_cmd equal bind_some print_rows print_columns
image_hello = refl

small_image : length (1 ∷ hello) + reached.vault.crypto.block_size ≤ int_max
unfolding prompt str_tokenize find_cmd equal bind_some print_rows print_columns
small_image = omega arith

sync_hello :
    (sdb_sync one_row engine packer writes reached.vault reached.file
      (sdb_exec_cmd one_row (some hello) reached.db (codes "SET " ++ hello)).0).ret
    ≡ some 47
unfolding prompt str_tokenize find_cmd equal bind_some print_rows print_columns storage_write_data
    crypto_encrypt fileobj_hdr
sync_hello = refl

get-next_session_example :
    (db' : Bytes) × (sdb_open one_row engine packer reads true true finished.vault finished.file
      ≡ some db')
    × ((prompt_line one_row engine packer
          (record { vault = finished.vault; file = finished.file; db = db'; shown = [] })
          (record { line = codes "get " ++ hello; secret = none; writes = writes })).shown
        ≡ some (hello ++ codes "\n") ∷ [])
get-next_session_example =
    get-next_session one_row one_row-SqliteLaws engine engine-Laws packer packer-Laws started typed
      hello hello writes reads writes [] (1 ∷ hello) 47 name-IsToken reads-CanRead crypto-IsUsable
      set_hello image_hello small_image sync_hello

-- Two blanks make an empty name.
two_blanks : str_tokenize (codes "GET  name") 2 ≡ codes "GET" ∷ [] ∷ []
unfolding str_tokenize
two_blanks = refl

completed : cmd_generator (codes "s") ≡ codes "SET" ∷ []
unfolding cmd_generator
completed = refl

-- The names that begin with a text, of a database that prints two lines.
named : key_lines 1021 1021 [] (codes "a\nbc\n") ≡ codes "a" ∷ codes "bc" ∷ []
unfolding key_lines
named = refl
