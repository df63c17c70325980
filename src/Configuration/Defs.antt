-- ===== src/Configuration/Defs.antt =====
-- The settings, and the lines of the file that change them.
use hyper_graph_streaming_cc.Prelude.{
  ℕ, zero, suc, List, [], ◌∷◌, ◌++◌, Bool, true, false, ◌||◌, Option, none, some, if◌then◌else◌,
  ◌==◌,
}
use hyper_graph_streaming_cc.Exceptions.{Result, ok, throw}
use hyper_graph_streaming_cc.Configuration.Text.{
  codes, same_text, get_lines, key_of, value_of, ℤ, pos, negsuc, stoi,
}

-- The local variables. `set_config` stores the last two for the workers, and the first three are
-- returned.
pub record Configuration : Type 0 where
  pub use_guttertree : Bool
  pub backup_in_mem : Bool
  pub dir : List ℕ
  pub num_groups : ℕ
  pub group_size : ℕ

abbrev pub defaults : Configuration
defaults = record {
  use_guttertree = false;
  backup_in_mem = true;
  dir = codes "./";
  num_groups = 1;
  group_size = 1;
}

-- `if (n < 1) n = 1`
abbrev pub at_least_one : ℤ → ℕ
at_least_one (pos zero) = 1
at_least_one (pos (suc n)) = suc n
at_least_one (negsuc n) = 1

-- A comment. The second test never holds for a line that `getline` gives.
abbrev pub skipped : List ℕ → Bool
skipped [] = false
skipped (c ∷ cs) = c == b'#' || c == b'\n'

abbrev pub has_key : List ℕ → List ℕ → Bool
has_key line key = same_text (key_of line) key

unfoldable pub set_buffering : List ℕ → Configuration → Configuration
unfolding same_text key_of value_of
set_buffering line conf =
    if has_key line (codes "buffering_system")
    then (if same_text (value_of line) (codes "tree")
        then record conf { use_guttertree = true }
        else conf)
    else conf

unfoldable pub set_dir : List ℕ → Configuration → Configuration
unfolding same_text key_of value_of
set_dir line conf =
    if has_key line (codes "disk_dir")
    then record conf { dir = value_of line ++ codes "/" }
    else conf

unfoldable pub set_backup : List ℕ → Configuration → Configuration
unfolding same_text key_of value_of
set_backup line conf =
    if has_key line (codes "backup_in_mem")
    then (if same_text (value_of line) (codes "ON")
        then record conf { backup_in_mem = true }
        else if same_text (value_of line) (codes "OFF")
        then record conf { backup_in_mem = false }
        else conf)
    else conf

unfoldable pub set_num_groups : List ℕ → Configuration → Result Configuration
unfolding same_text key_of value_of stoi
set_num_groups line conf =
    if has_key line (codes "num_groups")
    then (elim (stoi (value_of line)) [
      | throw e ↦ throw e
      | ok n ↦ ok (record conf { num_groups = at_least_one n })
    ])
    else ok conf

unfoldable pub set_group_size : List ℕ → Configuration → Result Configuration
unfolding same_text key_of value_of stoi
set_group_size line conf =
    if has_key line (codes "group_size")
    then (elim (stoi (value_of line)) [
      | throw e ↦ throw e
      | ok n ↦ ok (record conf { group_size = at_least_one n })
    ])
    else ok conf

-- The body of the loop.
unfoldable pub read_line : List ℕ → Configuration → Result Configuration
unfolding set_buffering set_dir set_backup set_num_groups set_group_size
read_line line conf =
    if skipped line
    then ok conf
    else (elim (set_num_groups line (set_backup line (set_dir line (set_buffering line conf)))) [
      | throw e ↦ throw e
      | ok conf' ↦ set_group_size line conf'
    ])

unfoldable pub read_lines : List (List ℕ) → Configuration → Result Configuration
unfolding read_line
read_lines [] conf = ok conf
read_lines (line ∷ lines) conf = elim (read_line line conf) [
  | throw e ↦ throw e
  | ok conf' ↦ read_lines lines conf'
]

-- On the text of the file, or `none` where it could not be opened.
unfoldable pub configure_system : Option (List ℕ) → Result Configuration
unfolding read_lines get_lines
configure_system none = ok defaults
configure_system (some text) = read_lines (get_lines text) defaults
