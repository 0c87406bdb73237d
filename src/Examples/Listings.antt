-- ===== src/Examples/Listings.antt =====
-- A vault that the commands create, open and list.
use rvault.Prelude.{
  ap, ◌≡◌, refl, true, false, none, some, Option, List, [], ◌∷◌, ◌++◌, arith, replicate,
}
use rvault.Prelude.Bytes.{Bytes, codes, equal}
use rvault.Hex.{hex_write}
use rvault.Crypto.{crypto_encrypt}
use rvault.Resolve.{get_path_component}
use rvault.Resolve.Sealed.{IsShort}
use rvault.Resolve.Walk.{rvault_resolve_path, walk, walk_component, is_skipped}
use rvault.Vault.Open.{Rvault}
use rvault.Vault.Dirs.{is_dot}
use rvault.Vault.Listing.{Lists, nothing, litter, object}
use rvault.Vault.RoundTrip.{Matches}
use rvault.Cli.Options.{Opts, each_option, create_option, atoi_set, get_log_level, list_ciphers}
use rvault.Cli.Commands.{
  create_vault, open_vault, initialized, file_list_cmd, printed_names, confirmed, find_command,
  commands, Command,
}
use rvault.Cli.Listed.{last_of, without_hidden, open_vault-create_vault, file_list_cmd-Lists}
use rvault.Examples.Engine.{engine_of-Laws, hello}
use rvault.Examples.Vaults.{
  hmac32, uid_str, inits, opens, opened_crypto, vault, metadata, ready, initialised, opened_vault,
}

abbrev noauth : Opts
noauth = (b'n', none) ∷ []

created :
    create_vault hmac32 inits none noauth (uid_str ∷ []) hello hello
    ≡ initialized (true, some (metadata 1))
unfolding create_vault each_option create_option equal
created = ap initialized initialised

open_vault-create_vault_example :
    (v : Rvault) × (open_vault hmac32 (opens 1) none (some hello) ≡ some v)
    × Matches (last_of b'c' none noauth) (last_of b'm' none noauth) uid_str (codes "/v") v
open_vault-create_vault_example =
    open_vault-create_vault hmac32 inits (opens 1) none none noauth uid_str [] hello hello
      (metadata 1) (codes "/v") refl created (ready 1)

abbrev hidden : Bytes
hidden = codes ".a"

abbrev text : Bytes
text = codes "RV:2e61:" ++ hex_write (2 ∷ replicate 31 5)

hidden_printed : (get_path_component hmac32 opened_crypto hidden).1 ≡ some text
unfolding get_path_component crypto_encrypt hex_write
hidden_printed = refl

hidden-IsShort : IsShort opened_crypto hidden
hidden-IsShort = record {
  block_pos = omega arith;
  tag_small = omega arith;
  text_small = omega arith;
  plain = (omega arith, (omega arith, tt));
}

abbrev entries : List Bytes
entries = codes "core" ∷ text ∷ []

listed : Lists hmac32 opened_crypto entries (hidden ∷ [])
unfolding is_dot equal
listed = litter _ _ _ refl refl (object _ hidden _ _ hidden-IsShort hidden_printed nothing)

root_resolved :
    (rvault_resolve_path hmac32 opened_crypto (codes "/v") (codes "/")).1 ≡ some (codes "/v/")
unfolding rvault_resolve_path walk walk_component is_skipped
root_resolved = refl

abbrev ls : Opts → Option (List Bytes)
ls opts =
    file_list_cmd hmac32 (opens 1) true (λ d. some entries) none (some hello) opts (codes "/" ∷ [])

file_list_cmd-Lists_example :
    (ls ((b'a', none) ∷ []) ≡ some (hidden ∷ [])) × (ls [] ≡ some (without_hidden (hidden ∷ [])))
file_list_cmd-Lists_example =
    file_list_cmd-Lists hmac32 (engine_of-Laws 31) (opens 1) (λ d. some entries) none hello
      (codes "/v") (codes "/") (codes "/v/") [] entries (hidden ∷ []) vault opened_vault refl refl
      root_resolved refl listed

-- Without -a a hidden file is not printed.
hidden_skipped : printed_names false (hidden ∷ hello ∷ []) ≡ hello ∷ []
unfolding printed_names
hidden_skipped = refl

compress_yes : atoi_set (codes " +10") ≡ true
unfolding atoi_set
compress_yes = refl

compress_no : atoi_set (codes "0x1") ≡ false
unfolding atoi_set
compress_no = refl

log_info : get_log_level (codes "info") ≡ some 6
unfolding get_log_level
log_info = refl

ciphers_shown :
    list_ciphers
    ≡ codes "aes-256-cbc" ∷ codes "aes-256-gcm (default)" ∷ codes "chacha20-poly1305" ∷ []
unfolding list_ciphers
ciphers_shown = refl

second_answer : confirmed (codes "ano") ≡ some false
unfolding confirmed
second_answer = refl

mounts : find_command commands (codes "mount") ≡ some (Command.mount, true)
unfolding find_command equal
mounts = refl
