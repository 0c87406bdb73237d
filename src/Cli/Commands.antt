-- ===== src/Cli/Commands.antt =====
-- The commands of src/core/cli.c, each on what getopt_long made of its arguments: the options, and
-- the arguments behind them.
use rvault.Prelude.{
  ◌&&◌, ◌++◌, ℕ, Bool, true, false, not, Option, none, some, List, [], ◌∷◌, ◌==◌, if◌then◌else◌,
}
use rvault.Prelude.Bytes.{Bytes, codes, equal}
use rvault.Crypto.{Ops}
use rvault.Recovery.{rvault_recovery_export}
use rvault.Files.{Outcome}
use rvault.Storage.Object.{Lz4}
use rvault.FileObj.{State, Env, SyncEnv}
use rvault.Vault.Metadata.{open_metadata_mmap}
use rvault.Vault.Init.{InitEnv, rvault_init}
use rvault.Vault.Open.{Rvault, OpenEnv, rvault_open, rvault_open_ekey}
use rvault.Vault.Recover.{contents_of}
use rvault.Vault.Dirs.{rvault_iter_dir}
use rvault.Resolve.Walk.{rvault_resolve_path}
use rvault.Cli.{put_file, get_file}
use rvault.Cli.Options.{
  Opts, each_option, create_option, MountOpts, mount_option, list_option, Settings, go, printed,
  usage, main_options,
}

-- How create_vault ends: with the usage text, with passphrases that differ, or with what
-- rvault_init gives.
pub data Creation : Type 0 where
  misused mismatched : Creation
  initialized : Bool × Option Bytes → Creation

-- What mount_vault does: the usage text, a vault that does not open, or rvaultfs_run on the vault
-- at the mount point, with the settings.
pub data Mounting : Type 0 where
  misused unopened : Mounting
  serving : Rvault → MountOpts → Bytes → Mounting

-- The loop that asks: up to the first 'y' or 'n' that is typed; at the end of the input it asks
-- for ever, and gives `none`.
unfoldable pub confirmed : List ℕ → Option Bool
confirmed [] = none
confirmed (ch ∷ chars) =
    let rest = confirmed chars in
    if ch == b'y' then some true else if ch == b'n' then some false else rest

-- file_list_iter: the line printed for a name, if there is one.
unfoldable pub file_list_iter : Bool → Bytes → List Bytes
file_list_iter all [] = [] ∷ []
file_list_iter all (c ∷ name) = if not all && c == b'.' then [] else (c ∷ name) ∷ []

unfoldable pub printed_names : Bool → List Bytes → List Bytes
unfolding file_list_iter
printed_names all [] = []
printed_names all (name ∷ names) = file_list_iter all name ++ printed_names all names

module _ (o : Ops) where
  -- create_vault, with the two passphrases that are typed.
  unfoldable pub create_vault :
      InitEnv
      → (server : Option Bytes) → Opts
      → (args : List Bytes) → (passphrase0 passphrase : Bytes) → Creation
  unfolding each_option create_option equal rvault_init
  create_vault e server opts [] passphrase0 passphrase = Creation.misused
  create_vault e server opts (uid ∷ args) passphrase0 passphrase =
      elim (each_option create_option (record { cipher = none; mac = none; flags = 0 }) opts) [
        | none ↦ Creation.misused
        | some s ↦
            if not (equal passphrase0 passphrase)
            then mismatched
            else initialized (rvault_init o e server passphrase uid s.cipher s.mac s.flags)
      ]

  -- open_vault; `none` ends the program.
  unfoldable pub open_vault : OpenEnv → (server typed : Option Bytes) → Option Rvault
  unfolding rvault_open
  open_vault w server none = none
  open_vault w server (some passphrase) = rvault_open o w server passphrase

  -- mount_vault; `recovery` is the text of the file that an option names.
  unfoldable pub mount_vault :
      OpenEnv
      → (recovery : Bytes → Option Bytes) → (server typed : Option Bytes) → Opts
      → (args : List Bytes) → Mounting
  unfolding each_option mount_option open_vault rvault_open_ekey
  mount_vault w recovery server typed opts [] = Mounting.misused
  mount_vault w recovery server typed opts (mountpoint ∷ args) =
      elim (each_option mount_option
        (record {
          compress = false;
          debug = false;
          foreground = false;
          recover = none;
          weak_sync = false;
        })
        opts) [
          | none ↦ Mounting.misused
          | some s ↦
              let vault : Option Rvault = elim s.recover [
                | none ↦ open_vault w server typed
                | some file ↦ rvault_open_ekey o w (recovery file)
              ] in
              elim vault [ none ↦ unopened | some v ↦ serving v s mountpoint ]
        ]

  -- export_key: what standard output takes behind the question, or `none` where the program does
  -- not come to it.
  unfoldable pub export_key : OpenEnv → (server typed : Option Bytes) → List ℕ → Option Bytes
  unfolding confirmed open_vault rvault_recovery_export
  export_key w server typed chars = elim (confirmed chars) [
    | none ↦ none
    | some false ↦ some []
    | some true ↦ elim (open_vault w server typed) [
      | none ↦ none
      | some v ↦ elim (open_metadata_mmap w.map_ok w.location) [
        | none ↦ none
        | some (path, file) ↦ some (rvault_recovery_export (contents_of v file))
      ]
    ]
  ]

  -- file_list_cmd: the lines printed, or `none` for the usage text and a vault that does not open.
  -- `entries` is what the directory at an object's path holds.
  unfoldable pub file_list_cmd :
      OpenEnv
      → (malloc_ok : Bool) → (entries : Bytes → Option (List Bytes)) → (server typed : Option Bytes)
      → Opts
      → (args : List Bytes) → Option (List Bytes)
  unfolding each_option list_option open_vault rvault_resolve_path rvault_iter_dir printed_names
  file_list_cmd w malloc_ok entries server typed opts args =
      elim (each_option list_option false opts) [
        | none ↦ none
        | some all ↦ elim (open_vault w server typed) [
          | none ↦ none
          | some v ↦
              let path : Bytes = elim args [ [] ↦ codes "/" | p ∷ ps ↦ p ] in
              let base : Bytes = elim v.base_path [ none ↦ [] | some b ↦ b ] in
              let (c, vpath) = rvault_resolve_path o v.crypto base path in
              let found : Option (List Bytes) = elim vpath [ none ↦ none | some d ↦ entries d ] in
              some (printed_names all (rvault_iter_dir o malloc_ok c found).1)
        ]
      ]

module _ (o : Ops) (z : Lz4) where
  -- file_read_cmd and file_write_cmd behind the opening of the vault; `opened` is what fileobj_open
  -- gives for a path, and `none` ends the program.
  unfoldable pub file_read_cmd :
      (opened : Bytes → Option State)
      → Env
      → Bool
      → List Outcome
      → (ℕ → SyncEnv)
      → List Bytes
      → Option (State × Bytes × Bool)
  unfolding get_file
  file_read_cmd opened e malloc_ok outs closing [] = none
  file_read_cmd opened e malloc_ok outs closing (target ∷ args) = elim (opened target) [
    | none ↦ none
    | some s ↦ some (get_file o z e malloc_ok outs closing s)
  ]

  unfoldable pub file_write_cmd :
      (opened : Bytes → Option State)
      → List (Env × Option Bytes)
      → Bool
      → (ℕ → SyncEnv)
      → List Bytes
      → Option (State × Bool)
  unfolding put_file
  file_write_cmd opened input malloc_ok closing [] = none
  file_write_cmd opened input malloc_ok closing (target ∷ args) = elim (opened target) [
    | none ↦ none
    | some s ↦ some (put_file o z input malloc_ok closing s)
  ]

-- The commands of process_command, and whether they write the PID file.
pub data Command : Type 0 where
  create export ls sdb mount read write : Command

abbrev pub commands : List (Bytes × Command × Bool)
commands =
    (codes "create", create, false)
    ∷ (codes "export-key", export, false)
    ∷ (codes "ls", ls, false)
    ∷ (codes "sdb", sdb, false)
    ∷ (codes "mount", mount, true)
    ∷ (codes "read", read, false)
    ∷ (codes "write", write, true)
    ∷ []

unfoldable pub find_command : List (Bytes × Command × Bool) → Bytes → Option (Command × Bool)
unfolding equal
find_command [] name = none
find_command ((n, command, setup_pid) ∷ rest) name =
    if equal n name then some (command, setup_pid) else find_command rest name

-- process_command: the PID file, and the command's result as an exit status of success; `run` is
-- the command's function, which gives false for -1. `none` is the usage text.
unfoldable pub process_command : (run : Command → Bool) → Bytes → Option (Bool × Bool)
unfolding find_command
process_command run name = elim (find_command commands name) [
  | none ↦ none
  | some (command, setup_pid) ↦ some (setup_pid, run command)
]

-- How the program ends: with printed lines, with the usage text, or with a command on a data path.
pub data Ending : Type 0 where
  lines : List Bytes → Ending
  shown_usage shown_datapath : Ending
  ran : Settings → Option (Bool × Bool) → Ending

unfoldable pub main :
    (env : Settings) → (run : Settings → Command → Bool) → Opts → (args : List Bytes) → Ending
unfolding main_options process_command
main env run opts args = elim (main_options env opts) [
  | printed text ↦ lines text
  | usage ↦ shown_usage
  | go s ↦ elim args [
    | [] ↦ shown_usage
    | name ∷ rest ↦ elim s.data_path [
      | none ↦ shown_datapath
      | some path ↦ ran s (process_command (run s) name)
    ]
  ]
]
