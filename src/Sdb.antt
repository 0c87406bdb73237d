-- ===== src/Sdb.antt =====
-- The secrets database, of src/core/sdb.c: its commands, and its storage as an encrypted object.
-- SQLite and the prompt for a secret are parameters.
pub mod Commands
pub mod Prompt
pub mod Saved
pub mod Session
use rvault.Prelude.{
  ℕ, Bool, true, false, not, ◌&&◌, ◌||◌, ◌++◌, Option, none, some, List, [], ◌∷◌, ◌==◌, ltb,
  if◌then◌else◌, length, take,
}
use rvault.Prelude.Bytes.{Bytes, codes}
use rvault.Text.{caseless_equal, caseless_prefix, str_tokenize}
use rvault.Buffer.{contents}
use rvault.Crypto.{Ops}
use rvault.Storage.Object.{
  Lz4, ReadEnv, WriteEnv, Vault, WriteResult, storage_read_data, storage_write_data,
}

-- The calls of SQLite: a fresh database with its table, one from an image, and the image of one; of
-- a statement, whether it can be prepared, whether a parameter can be bound, and the rows of its
-- steps up to SQLITE_DONE, of each column its text, if it is one.
pub record Sqlite (Db : Type 0) : Type 0 where
  pub fresh : Option Db
  pub deserialize : Bytes → Option Db
  pub serialize : Db → Option Bytes
  pub prepare_v2 : Db → (query : Bytes) → Bool
  pub bind_text : Db → (query : Bytes) → ℕ → Bytes → Bool
  pub rows : Db → (query : Bytes) → (k v : Option Bytes) → Db × List (List (Option Bytes))

-- An entry of sdb_cmds.
pub record Command : Type 0 where
  pub cmd : Bytes
  pub params : ℕ
  pub query : Bytes

abbrev pub get_query : Bytes
get_query = codes "SELECT val FROM sdb WHERE key = ?"

abbrev pub set_query : Bytes
set_query = codes "INSERT OR REPLACE INTO sdb (key, val) VALUES (?, ?)"

abbrev pub sdb_cmds : List Command
sdb_cmds =
    record { cmd = codes "LS"; params = 0; query = codes "SELECT key FROM sdb ORDER BY key" }
    ∷ record { cmd = codes "GET"; params = 1; query = get_query }
    ∷ record { cmd = codes "SET"; params = 2; query = set_query }
    ∷ record { cmd = codes "DEL"; params = 1; query = codes "DELETE FROM sdb WHERE key = ?" }
    ∷ []

-- The loop over the table.
unfoldable pub find_cmd : List Command → Bytes → Option Command
unfolding caseless_equal
find_cmd [] token = none
find_cmd (c ∷ cs) token = if caseless_equal c.cmd token then some c else find_cmd cs token

-- tokens[1], NULL where there is none.
abbrev pub second : List Bytes → Option Bytes
second [] = none
second (key ∷ tokens) = some key

-- cmd_generator, call after call: the commands that a text begins, in any case.
unfoldable pub completions : List Command → Bytes → List Bytes
unfolding caseless_prefix
completions [] text = []
completions (c ∷ cs) text =
    let rest = completions cs text in if caseless_prefix c.cmd text then c.cmd ∷ rest else rest

unfoldable pub cmd_generator : Bytes → List Bytes
unfolding completions
cmd_generator text = completions sdb_cmds text

-- The loop over the columns of a row, and the one over the rows.
unfoldable pub print_columns : List (Option Bytes) → Bytes
print_columns [] = []
print_columns (none ∷ columns) = print_columns columns
print_columns (some text ∷ columns) = text ++ (codes "\n" ++ print_columns columns)

unfoldable pub print_rows : List (List (Option Bytes)) → Bytes
unfolding print_columns
print_rows [] = []
print_rows (columns ∷ rows) = print_columns columns ++ print_rows rows

module _ {Db : Type 0} (q : Sqlite Db) where
  -- A parameter that is not NULL.
  unfoldable pub bind_some : Db → Bytes → ℕ → Option Bytes → Bool
  bind_some db query i none = true
  bind_some db query i (some text) = q.bind_text db query i text

  -- sdb_query: what it prints, or -1. A step that fails is not modelled: the loop does not end.
  unfoldable pub sdb_query : Db → Bytes → (k v : Option Bytes) → Db × Option Bytes
  unfolding bind_some print_rows
  sdb_query db query k v =
      let (after, rows) = q.rows db query k v in
      if q.prepare_v2 db query && (bind_some db query 1 k && bind_some db query 2 v)
      then (after, some (print_rows rows))
      else (db, none)

  -- sdb_exec_cmd: the database afterwards, and what is printed or -1; `secret` is what getpass
  -- gives.
  unfoldable pub sdb_exec_cmd : Option Bytes → Db → Bytes → Db × Option Bytes
  unfolding sdb_query
  sdb_exec_cmd secret db line = elim (str_tokenize line 2) [
    | [] ↦ (db, none)
    | token ∷ tokens ↦ elim (find_cmd sdb_cmds token) [
      | none ↦ (db, none)
      | some c ↦
          sdb_query db c.query (if ltb 0 c.params then second tokens else none)
            (if ltb 1 c.params then secret else none)
    ]
  ]

  module _ (o : Ops) (z : Lz4) where
    -- sdb_open, of the file that was opened or created: the stored database, or a fresh one where
    -- there is no data; `memory` is sqlite3_malloc64 and calloc.
    unfoldable pub sdb_open : ReadEnv → (size_ok memory : Bool) → Vault → Bytes → Option Db
    sdb_open e size_ok memory v file =
        if not size_ok || not memory
        then none
        else if length file == 0
        then q.fresh
        else elim (storage_read_data o z e v file).ret [
          | none ↦ none
          | some (sbuf, len) ↦ elim sbuf.buf [
            | none ↦ q.fresh
            | some buf ↦ q.deserialize (take len buf)
          ]
        ]

    -- sdb_sync: the crypto object, the file, and what is returned; a database without an image
    -- leaves both.
    unfoldable pub sdb_sync : WriteEnv → Vault → Bytes → Db → WriteResult
    sdb_sync e v file db = elim (q.serialize db) [
      | none ↦ record { crypto = v.crypto; file = file; ret = none }
      | some buf ↦ storage_write_data o z e v file buf
    ]
