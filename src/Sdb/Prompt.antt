-- ===== src/Sdb/Prompt.antt =====
-- The prompt of src/core/sdb.c: its loop over the lines, and the completion of names.
use rvault.Prelude.{
  ℕ, suc, zero, Bool, false, Option, none, some, List, [], ◌∷◌, ◌++◌, ◌==◌, if◌then◌else◌, length,
}
use rvault.Prelude.Bytes.{Bytes, codes}
use rvault.Crypto.{Ops, Crypto}
use rvault.Storage.Object.{Lz4, ReadEnv, WriteEnv, Vault, storage_read_data}
use rvault.Vault.Open.{OpenEnv}
use rvault.Cli.Commands.{open_vault}
use rvault.Sdb.{Sqlite, sdb_query, sdb_exec_cmd, sdb_open, sdb_sync, cmd_generator}

-- A line that is typed, with the secret that getpass gives for it and the calls of its saving.
pub record Round : Type 0 where
  pub line : Bytes
  pub secret : Option Bytes
  pub writes : WriteEnv

-- What the prompt holds: the vault, the bytes of the database's file, the database, and what it
-- printed for each line, `none` for the usage text.
pub record Session (Db : Type 0) : Type 0 where
  pub vault : Vault
  pub file : Bytes
  pub db : Db
  pub shown : List (Option Bytes)

-- fgets(3) into a buffer with room for so many characters, call after call, and each line without
-- its last character.
abbrev without_last : Bytes → Bytes
without_last [] = []
without_last (c ∷ []) = []
without_last (c ∷ d ∷ s) = c ∷ without_last (d ∷ s)

unfoldable pub key_lines : (size room : ℕ) → (line : Bytes) → Bytes → List Bytes
key_lines size room [] [] = []
key_lines size room (a ∷ line) [] = without_last (a ∷ line) ∷ []
key_lines size zero line (c ∷ s) = without_last (line ++ (c ∷ [])) ∷ key_lines size size [] s
key_lines size (suc room) line (c ∷ s) =
    let fresh = key_lines size size [] s in
    let more = key_lines size room (line ++ (c ∷ [])) s in
    if c == b'\n' then without_last (line ++ (c ∷ [])) ∷ fresh else more

abbrev pub like_query : Bytes
like_query = codes "SELECT key FROM sdb WHERE key LIKE ?"

module _ {Db : Type 0} (q : Sqlite Db) where
  -- keyname_generator, call after call; its streams of memory do not fail.
  unfoldable pub keyname_generator : Db → Bytes → List Bytes
  unfolding key_lines sdb_query
  keyname_generator db text = elim (sdb_query q db like_query (some (text ++ codes "%")) none).1 [
    | none ↦ []
    | some keys ↦ key_lines 1021 1021 [] keys
  ]

  -- cmd_completion, of the word that starts at a position of the line.
  unfoldable pub cmd_completion : Db → Bytes → (start : ℕ) → List Bytes
  unfolding keyname_generator cmd_generator
  cmd_completion db text start =
      if start == 0 then cmd_generator text else keyname_generator db text

  module _ (o : Ops) (z : Lz4) where
    -- The body of the loop over the lines; whether the database is saved is not reported.
    unfoldable pub prompt_line : Session Db → Round → Session Db
    unfolding sdb_exec_cmd sdb_sync
    prompt_line s r =
        let (db, out) = sdb_exec_cmd q r.secret s.db r.line in
        elim out [
          | none ↦ record s { db = db; shown = s.shown ++ (none ∷ []) }
          | some text ↦
              let w = sdb_sync q o z r.writes s.vault s.file db in
              record {
                vault = record (s.vault) { crypto = w.crypto };
                file = w.file;
                db = db;
                shown = s.shown ++ (some text ∷ []);
              }
        ]

    unfoldable pub prompt : Session Db → List Round → Session Db
    unfolding prompt_line
    prompt s [] = s
    prompt s (r ∷ rounds) = prompt (prompt_line s r) rounds

    -- sdb_cli, to the end of the input: the session, where the vault and the database open, and the
    -- result, -1 however it goes. `file` is what the database's file holds.
    unfoldable pub sdb_cli :
        OpenEnv
        → ReadEnv
        → (size_ok memory : Bool) → (server typed : Option Bytes) → (file : Bytes) → List Round
        → Option (Session Db) × Option ℕ
    unfolding open_vault sdb_open prompt
    sdb_cli w e size_ok memory server typed file rounds = elim (open_vault o w server typed) [
      | none ↦ (none, none)
      | some rv ↦
          let v : Vault = record { compress = false; crypto = rv.crypto } in
          let read : Crypto =
            if length file == 0 then v.crypto else (storage_read_data o z e v file).crypto in
          elim (sdb_open q o z e size_ok memory v file) [
            | none ↦ (none, none)
            | some db ↦ (
              some (
                  prompt
                    (record {
                      vault = record v { crypto = read };
                      file = file;
                      db = db;
                      shown = [];
                    })
                    rounds),
              none,
            )
          ]
    ]
