-- ===== src/Cli/Options.antt =====
-- The options of src/core/cli.c. What getopt_long returns, call after call, is a list: each option
-- character with its argument, if there is one; `?` is an option that it does not know.
use Prim.Native.Nat.{bit_or}
use rvault.Prelude.{
  ℕ, ◌+◌, ◌*◌, ◌-◌, Bool, true, false, not, ◌&&◌, ◌||◌, Option, none, some, List, [], ◌∷◌, ◌++◌,
  ◌==◌, leb, if◌then◌else◌,
}
use rvault.Prelude.Bytes.{Bytes, codes}
use rvault.Hex.{tolower}
use rvault.Text.{caseless_equal}
use rvault.Crypto.{aes_256_gcm}
use rvault.Crypto.Names.{crypto_cipher_id, crypto_cipher_list}
use rvault.Vault.Metadata.{rvault_flag_noauth}

abbrev pub Opts : Type 0
Opts = List (ℕ × Option Bytes)

-- The loop over the options; `none` is the usage text.
unfoldable pub each_option {ℓ} :
    {S : Type ℓ} → (S → ℕ → Option Bytes → Option S) → S → Opts → Option S
each_option step s [] = some s
each_option step s ((ch, optarg) ∷ opts) = elim (step s ch optarg) [
  | none ↦ none
  | some t ↦ each_option step t opts
]

-- create_vault's.
pub record CreateOpts : Type 0 where
  pub cipher : Option Bytes
  pub mac : Option Bytes
  pub flags : ℕ

unfoldable pub create_option : CreateOpts → ℕ → Option Bytes → Option CreateOpts
create_option s ch optarg =
    if ch == b'c'
    then some (record s { cipher = optarg })
    else if ch == b'm'
    then some (record s { mac = optarg })
    else if ch == b'n'
    then some (record s { flags = bit_or s.flags rvault_flag_noauth })
    else none

-- mount_vault's.
pub record MountOpts : Type 0 where
  pub compress : Bool
  pub debug : Bool
  pub foreground : Bool
  pub recover : Option Bytes
  pub weak_sync : Bool

abbrev is_digit : ℕ → Bool
is_digit c = leb b'0' c && leb c b'9'

-- atoi(3), of the digits up to another character; without a sign, and as far as an int holds it.
abbrev digits : ℕ → Bytes → ℕ
digits n [] = n
digits n (c ∷ s) = let rest = digits (n * 10 + (c - b'0')) s in if is_digit c then rest else n

-- isspace(3) in the C locale.
abbrev is_space : ℕ → Bool
is_space c = c == b' ' || leb 9 c && leb c 13

-- Whether atoi(3) gives another value than 0.
unfoldable pub atoi_set : Bytes → Bool
atoi_set [] = false
atoi_set (c ∷ s) =
    let rest = atoi_set s in
    if is_space c
    then rest
    else if c == b'-' || c == b'+'
    then not (digits 0 s == 0)
    else not (digits 0 (c ∷ s) == 0)

-- `tolower(optarg[0]) == 'y'`.
abbrev says_yes : Bytes → Bool
says_yes [] = false
says_yes (c ∷ s) = tolower c == b'y'

unfoldable pub mount_option : MountOpts → ℕ → Option Bytes → Option MountOpts
unfolding atoi_set
mount_option s ch optarg =
    if ch == b'c'
    then some
        (record s { compress = elim optarg [ none ↦ false | some a ↦ atoi_set a || says_yes a ] })
    else if ch == b'd'
    then some (record s { debug = true })
    else if ch == b'f'
    then some (record s { foreground = true })
    else if ch == b'r'
    then some (record s { recover = optarg })
    else if ch == b's'
    then some (record s {
      weak_sync = elim optarg [ none ↦ false | some a ↦ caseless_equal a (codes "weak") ];
    })
    else none

-- file_list_cmd's: FILE_SHOWALL.
unfoldable pub list_option : Bool → ℕ → Option Bytes → Option Bool
list_option all ch optarg = if ch == b'a' then some true else none

abbrev pub log_levels : List (Bytes × ℕ)
log_levels =
    (codes "DEBUG", 7)
    ∷ (codes "INFO", 6)
    ∷ (codes "WARNING", 4)
    ∷ (codes "ERROR", 3)
    ∷ (codes "CRITICAL", 2)
    ∷ []

unfoldable pub find_level : List (Bytes × ℕ) → Bytes → Option ℕ
unfolding caseless_equal
find_level [] name = none
find_level ((n, level) ∷ levels) name =
    if caseless_equal n name then some level else find_level levels name

-- get_log_level; `none` is the usage text.
unfoldable pub get_log_level : Bytes → Option ℕ
unfolding find_level
get_log_level = find_level log_levels

unfoldable pub cipher_lines : List Bytes → List Bytes
unfolding crypto_cipher_id
cipher_lines [] = []
cipher_lines (name ∷ names) =
    (name ++ (if crypto_cipher_id name == aes_256_gcm then codes " (default)" else []))
    ∷ cipher_lines names

-- list_ciphers: the lines printed.
unfoldable pub list_ciphers : List Bytes
unfolding cipher_lines crypto_cipher_list
list_ciphers = cipher_lines crypto_cipher_list

-- main's: the settings, from the environment at first.
pub record Settings : Type 0 where
  pub data_path : Option Bytes
  pub server : Option Bytes
  pub loglevel : ℕ

-- What an option leads to: further options, the printed lines with an exit of success, or the
-- usage text.
pub data Main : Type 0 where
  go : Settings → Main
  printed : List Bytes → Main
  usage : Main

abbrev version_line : Bytes
version_line = codes "rvault version 0.3"

unfoldable pub main_option : Settings → ℕ → Option Bytes → Main
unfolding list_ciphers get_log_level
main_option s ch optarg =
    if ch == b'c'
    then printed list_ciphers
    else if ch == b'd'
    then go (record s { data_path = optarg })
    else if ch == b'l'
    then (elim optarg [
      | none ↦ usage
      | some name ↦ elim (get_log_level name) [
        | none ↦ usage
        | some level ↦ go (record s { loglevel = level })
      ]
    ])
    else if ch == b's'
    then go (record s { server = optarg })
    else if ch == b'v'
    then printed (version_line ∷ [])
    else usage

-- The loop of main over the options in front of the command.
unfoldable pub main_options : Settings → Opts → Main
unfolding main_option
main_options s [] = go s
main_options s ((ch, optarg) ∷ opts) = elim (main_option s ch optarg) [
  | go t ↦ main_options t opts
  | printed lines ↦ printed lines
  | usage ↦ usage
]
