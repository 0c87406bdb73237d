-- ===== src/Cli/Listed.antt =====
-- What the commands of src/core/cli.c do on a vault: it opens as it was created, and its
-- directories are listed.
use rvault.Prelude.{
  bit_or, ◌||◌, if◌then◌else◌, ◌==◌, ◌⊎◌, ℕ, ◌≡◌, ap, ◌∙◌, subst, Bool, true, false, Option, none,
  some, List, [], ◌∷◌, ℕ, refl, ◌⊎◌, ◌==◌, take, ◌||◌, if◌then◌else◌, bit_or, Option-cases, arith,
  Bool-cases, inl, inr,
}
use rvault.Prelude.Bytes.{Bytes, codes, equal}
use rvault.Crypto.{Ops, Laws}
use rvault.Crypto.Inverse.{equal_sound}
use rvault.Resolve.Walk.{rvault_resolve_path}
use rvault.Resolve.Stable.{rvault_resolve_path_frame}
use rvault.Vault.Metadata.{rvault_flag_noauth}
use rvault.Vault.Init.{InitEnv, rvault_init}
use rvault.Vault.Open.{Rvault, OpenEnv, rvault_open}
use rvault.Vault.Dirs.{rvault_iter_dir}
use rvault.Vault.Listing.{Lists, rvault_iter_dir-Lists}
use rvault.Vault.Reopen.{IsReady}
use rvault.Vault.RoundTrip.{Matches, rvault_open-rvault_init_noauth}
use rvault.Cli.Options.{Opts, each_option, CreateOpts, create_option, list_option}
use rvault.Cli.Commands.{
  initialized, create_vault, open_vault, file_list_cmd, file_list_iter, printed_names,
}

abbrev pub no_options : CreateOpts
no_options = record { cipher = none; mac = none; flags = 0 }

created_init :
    (o : Ops) (e : InitEnv) (server : Option Bytes) (opts : Opts) (uid : Bytes) (args : List Bytes)
    (p0 p1 file : Bytes) (s : CreateOpts)
    → each_option create_option no_options opts ≡ some s
    → create_vault o e server opts (uid ∷ args) p0 p1 ≡ initialized (true, some file)
    → (p0 ≡ p1) × (rvault_init o e server p1 uid s.cipher s.mac s.flags ≡ (true, some file))
unfolding create_vault
created_init o e server opts uid args p0 p1 file s parsed h = elim (Bool-cases (equal p0 p1)) [
  | inl same ↦ (equal_sound p0 p1 same, ground arith)
  | inr differ ↦ absurd (ground arith)
]

-- The argument of the last option with a character, or what stands when there is none; and whether
-- an option was given.
abbrev pub last_of : ℕ → Option Bytes → Opts → Option Bytes
last_of ch held [] = held
last_of ch held ((c, optarg) ∷ opts) = last_of ch (if c == ch then optarg else held) opts

abbrev pub is_given : ℕ → Opts → Bool
is_given ch [] = false
is_given ch ((c, optarg) ∷ opts) = c == ch || is_given ch opts

abbrev flags_of : Bool → ℕ → ℕ
flags_of noauth flags = if noauth then bit_or flags rvault_flag_noauth else flags

-- The flags that create starts with or sets.
abbrev IsFlags : CreateOpts → Type 0
IsFlags s = (s.flags ≡ 0) ⊎ (s.flags ≡ rvault_flag_noauth)

with_noauth : (s : CreateOpts) → IsFlags s → bit_or s.flags rvault_flag_noauth ≡ rvault_flag_noauth
with_noauth s (inl e) = ap (λ f. bit_or f rvault_flag_noauth) e
with_noauth s (inr e) = ap (λ f. bit_or f rvault_flag_noauth) e

option_taken :
    (s u : CreateOpts) (ch : ℕ) (optarg : Option Bytes)
    → IsFlags s
    → create_option s ch optarg ≡ some u
    → (u.cipher ≡ (if ch == b'c' then optarg else s.cipher))
      × (u.mac ≡ (if ch == b'm' then optarg else s.mac))
      × (u.flags ≡ (if ch == b'n' then rvault_flag_noauth else s.flags))
unfolding create_option
option_taken s u ch optarg f h =
    let set = with_noauth s f in (ground arith, ground arith, ground arith)

-- What the loop over the options of create leaves.
options_taken :
    (opts : Opts) (s t : CreateOpts)
    → IsFlags s
    → each_option create_option s opts ≡ some t
    → (t.cipher ≡ last_of b'c' s.cipher opts)
      × (t.mac ≡ last_of b'm' s.mac opts)
      × (t.flags ≡ (if is_given b'n' opts then rvault_flag_noauth else s.flags))
unfolding each_option
options_taken [] s t f h = (ground arith, ground arith, ground arith)
options_taken ((ch, optarg) ∷ opts) s t f h = elim (Option-cases (create_option s ch optarg)) [
  | inl e ↦ absurd (ground arith)
  | inr (u, e) ↦
      let (cipher, mac, flags) = option_taken s u ch optarg f e in
      let good : (u.flags ≡ 0) ⊎ (u.flags ≡ rvault_flag_noauth) = elim (Bool-cases (ch == b'n')) [
        | inl n ↦ inr (ground arith)
        | inr other ↦ elim f [ inl z ↦ inl (ground arith) | inr one ↦ inr (ground arith) ]
      ] in
      let (c, m, g) = options_taken opts u t good (ground arith) in
      (
        c ∙ ap (λ x. last_of b'c' x opts) cipher,
        m ∙ ap (λ x. last_of b'm' x opts) mac,
        ground arith,
      )
]

-- A vault that the command create made with the option -n is opened by the commands with the
-- passphrase that was typed first: it has the cipher of the last -c and the HMAC of the last -m, or
-- the defaults where there is none, the user ID of the first argument, and the path. The commands
-- find and map the file, have memory, and compute the same scrypt.
pub open_vault-create_vault :
    (o : Ops) (e : InitEnv) (w : OpenEnv) (server server' : Option Bytes) (opts : Opts)
    (uid : Bytes) (args : List Bytes) (p0 p1 file path : Bytes)
    → is_given b'n' opts ≡ true
    → create_vault o e server opts (uid ∷ args) p0 p1 ≡ initialized (true, some file)
    → IsReady e w path file
    → (v : Rvault) × (open_vault o w server' (some p0) ≡ some v)
      × Matches (last_of b'c' none opts) (last_of b'm' none opts) uid path v
unfolding open_vault create_vault
open_vault-create_vault o e w server server' opts uid args p0 p1 file path noauth made ready =
    elim (Option-cases (each_option create_option no_options opts)) [
      | inl f ↦ absurd (ground arith)
      | inr (s, parsed) ↦
          let (cipher, mac, flags) = options_taken opts no_options s (inl refl) parsed in
          let (same, init) = created_init o e server opts uid args p0 p1 file s parsed made in
          let set : s.flags ≡ rvault_flag_noauth = ground arith in
          let init' =
            subst (λ f. rvault_init o e server p1 uid s.cipher s.mac f ≡ (true, some file)) set
              init in
          let (v, opens, matches, _, _, _) =
            rvault_open-rvault_init_noauth o e w server server' p1 uid s.cipher s.mac file path
              init' ready in
          (
            v,
            ap (rvault_open o w server') same ∙ opens,
            subst (λ x. Matches x (last_of b'm' none opts) uid path v) cipher
                (subst (λ x. Matches s.cipher x uid path v) mac matches),
          )
    ]

-- Names but those that begin with a dot.
abbrev pub without_hidden : List Bytes → List Bytes
without_hidden [] = []
without_hidden (n ∷ ns) =
    let rest = without_hidden ns in if equal (take 1 n) (codes ".") then rest else n ∷ rest

names_printed :
    (ns : List Bytes) → (printed_names true ns ≡ ns) × (printed_names false ns ≡ without_hidden ns)
unfolding printed_names file_list_iter equal
names_printed [] = (refl, refl)
names_printed ([] ∷ ns) = let ih = names_printed ns in (ground arith, ground arith)
names_printed ((c ∷ n) ∷ ns) = let ih = names_printed ns in (ground arith, ground arith)

listed_names :
    (o : Ops) (laws : Laws o) (w : OpenEnv) (entries : Bytes → Option (List Bytes))
    (server : Option Bytes) (pwd base path d : Bytes) (opts : Opts) (args es ns : List Bytes)
    (all : Bool) (v : Rvault)
    → each_option list_option false opts ≡ some all
    → rvault_open o w server pwd ≡ some v
    → v.base_path ≡ some base
    → v.crypto.aad ≡ none
    → (rvault_resolve_path o v.crypto base path).1 ≡ some d
    → entries d ≡ some es
    → Lists o v.crypto es ns
    → file_list_cmd o w true entries server (some pwd) opts (path ∷ args)
      ≡ some (printed_names all ns)
unfolding file_list_cmd open_vault
listed_names o laws w entries server pwd base path d opts args es ns all v parsed opened at clear
      found there lists =
    let c = v.crypto in
    let frame = rvault_resolve_path_frame o c base path clear in
    let listed =
      (rvault_iter_dir-Lists o laws c (rvault_resolve_path o c base path).0.tag es ns clear
        lists).0 in
    let shown : (rvault_iter_dir o true (rvault_resolve_path o c base path).0 (some es)).1 ≡ ns =
      ap (λ x. (rvault_iter_dir o true x (some es)).1) frame ∙ listed in
    ground arith

-- The command ls prints, for a directory of names that the vault printed, the name that each
-- object stands for, with "." and ".." as they are, in the order of the directory: with -a all of
-- them, and with no option those that do not begin with a dot. Litter is not shown. The vault opens
-- and holds no AAD, the path resolves to a directory that can be read, and memory suffices.
pub file_list_cmd-Lists :
    (o : Ops) (laws : Laws o) (w : OpenEnv) (entries : Bytes → Option (List Bytes))
    (server : Option Bytes) (pwd base path d : Bytes) (args es ns : List Bytes) (v : Rvault)
    → rvault_open o w server pwd ≡ some v
    → v.base_path ≡ some base
    → v.crypto.aad ≡ none
    → (rvault_resolve_path o v.crypto base path).1 ≡ some d
    → entries d ≡ some es
    → Lists o v.crypto es ns
    → (file_list_cmd o w true entries server (some pwd) ((b'a', none) ∷ []) (path ∷ args) ≡ some ns)
      × (file_list_cmd o w true entries server (some pwd) [] (path ∷ args)
          ≡ some (without_hidden ns))
unfolding each_option list_option
file_list_cmd-Lists o laws w entries server pwd base path d args es ns v opened at clear found there
      lists =
    (
      listed_names o laws w entries server pwd base path d ((b'a', none) ∷ []) args es ns true v
            refl opened at clear found there lists
          ∙ ap some (names_printed ns).0,
      listed_names o laws w entries server pwd base path d [] args es ns false v refl opened at
            clear found there lists
          ∙ ap some (names_printed ns).1,
    )
