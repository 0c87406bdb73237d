-- ===== src/Sdb/Commands.antt =====
-- The lines that the prompt of src/core/sdb.c takes apart.
use rvault.Prelude.{
  ◌≡◌, refl, ap, ◌∙◌, false, Option, none, some, [], ◌∷◌, ◌++◌, take, ltb, if◌then◌else◌,
}
use rvault.Prelude.Bytes.{Bytes}
use rvault.Text.{is_separator, strsep_all, str_tokenize}
use rvault.Sdb.{Sqlite, Command, find_cmd, sdb_cmds, sdb_query, sdb_exec_cmd}

-- No white space.
abbrev pub IsToken : Bytes → Type 0
IsToken [] = Unit
IsToken (c ∷ cs) = (is_separator c ≡ false) × IsToken cs

strsep_all-IsToken : (t : Bytes) → IsToken t → strsep_all t ≡ t ∷ []
unfolding strsep_all
strsep_all-IsToken [] h = refl
strsep_all-IsToken (c ∷ t) h = rw (h.0, strsep_all-IsToken t h.1) refl

strsep_all-append :
    (t line : Bytes) → IsToken t → strsep_all (t ++ (b' ' ∷ line)) ≡ t ∷ strsep_all line
unfolding strsep_all
strsep_all-append [] line h = refl
strsep_all-append (c ∷ t) line h = rw (h.0, strsep_all-append t line h.1) refl

str_tokenize-append :
    (t name : Bytes)
    → IsToken t
    → IsToken name
    → str_tokenize (t ++ (b' ' ∷ name)) 2 ≡ t ∷ name ∷ []
unfolding str_tokenize
str_tokenize-append t name ht hn =
    ap (take 2) (strsep_all-append t name ht ∙ ap (◌∷◌ t) (strsep_all-IsToken name hn))

module _ {Db : Type 0} (q : Sqlite Db) where
  -- A command, in any case, and behind one space a name without white space run the command's
  -- query, with the name and the secret where the command has those parameters.
  pub sdb_exec_cmd_lem :
      (cmd name : Bytes) (secret : Option Bytes) (db : Db) (c : Command)
      → IsToken cmd
      → IsToken name
      → find_cmd sdb_cmds cmd ≡ some c
      → sdb_exec_cmd q secret db (cmd ++ (b' ' ∷ name))
        ≡ sdb_query q db c.query
            (if ltb 0 c.params then some name else none)
            (if ltb 1 c.params then secret else none)
  unfolding sdb_exec_cmd
  sdb_exec_cmd_lem cmd name secret db c hc hn found =
      rw (sdb_exec_cmd, str_tokenize-append cmd name hc hn, found) refl
