-- ===== src/Configuration/Bounds.antt =====
-- The settings that `configure_system` can return.
use hyper_graph_streaming_cc.Prelude.{
  ℕ, zero, suc, ◌^◌, ◌<◌, ◌≤◌, ◌≡◌, refl, subst, List, [], ◌∷◌, ◌++◌, Bool, true, false, Option,
  none, some, arith, ltb, leb, ◌==◌, if◌then◌else◌,
}
use hyper_graph_streaming_cc.Exceptions.{Result, ok, throw}
use hyper_graph_streaming_cc.Configuration.Text.{
  codes, same_text, get_lines, value_of, ℤ, pos, negsuc, starts_with_digit, digits_value, to_int,
  signed_int, skip_spaces, stoi,
}
use hyper_graph_streaming_cc.Configuration.Defs.{
  Configuration, defaults, at_least_one, skipped, has_key, set_buffering, set_dir, set_backup,
  set_num_groups, set_group_size, read_line, read_lines, configure_system,
}

-- What `stoi` gives is an `int`.
abbrev IsInt : ℤ → Type 0
IsInt (pos n) = n < 2 ^ 31
IsInt (negsuc n) = n < 2 ^ 31

abbrev GivesInt : Result ℤ → Type 0
GivesInt (ok n) = IsInt n
GivesInt (throw e) = Unit {0}

if-GivesInt :
    (b : Bool) (x y : Result ℤ)
    → (b ≡ true → GivesInt x)
    → (b ≡ false → GivesInt y)
    → GivesInt (if b then x else y)
if-GivesInt true x y yes_case no_case = yes_case refl
if-GivesInt false x y yes_case no_case = no_case refl

to_int-GivesInt : (negative : Bool) (cs : List ℕ) → GivesInt (to_int negative cs)
unfolding to_int
to_int-GivesInt true cs =
    let n = digits_value 0 cs in
    if-GivesInt (starts_with_digit cs) _ _
      (λ h.
        if-GivesInt (n == 0) _ _ (λ e. omega arith)
          (λ e. if-GivesInt (leb n (2 ^ 31)) _ _ (λ l. ground arith) (λ l. tt)))
      (λ h. tt)
to_int-GivesInt false cs =
    if-GivesInt (starts_with_digit cs) _ _
      (λ h. if-GivesInt (ltb (digits_value 0 cs) (2 ^ 31)) _ _ (λ l. ground arith) (λ l. tt))
      (λ h. tt)

signed_int-GivesInt : (cs : List ℕ) → GivesInt (signed_int cs)
unfolding signed_int
signed_int-GivesInt [] = tt
signed_int-GivesInt (c ∷ cs) =
    if-GivesInt (c == b'-') _ _ (λ h. to_int-GivesInt true cs)
      (λ h.
        if-GivesInt (c == b'+') _ _ (λ k. to_int-GivesInt false cs)
          (λ k. to_int-GivesInt false (c ∷ cs)))

stoi-GivesInt : (cs : List ℕ) → GivesInt (stoi cs)
unfolding stoi
stoi-GivesInt cs = signed_int-GivesInt (skip_spaces cs)

at_least_one_bounds : (n : ℤ) → IsInt n → (1 ≤ at_least_one n) × (at_least_one n < 2 ^ 31)
at_least_one_bounds (pos zero) h = omega arith
at_least_one_bounds (pos (suc n)) h = omega arith
at_least_one_bounds (negsuc n) h = omega arith

-- The settings that the constructors of a graph rely on.
pub record IsUsable (conf : Configuration) : Type 0 where
  pub groups : (1 ≤ conf.num_groups) × (conf.num_groups < 2 ^ 31)
  pub threads : (1 ≤ conf.group_size) × (conf.group_size < 2 ^ 31)
  pub parent : List ℕ
  pub directory : conf.dir ≡ parent ++ codes "/"

defaults-IsUsable : IsUsable defaults
defaults-IsUsable = record {
  groups = omega arith;
  threads = omega arith;
  parent = codes ".";
  directory = refl;
}

-- A result that is no exception is usable.
abbrev GivesUsable : Result Configuration → Type 0
GivesUsable (ok conf) = IsUsable conf
GivesUsable (throw e) = Unit {0}

if-IsUsable :
    (b : Bool) (x y : Configuration) → IsUsable x → IsUsable y → IsUsable (if b then x else y)
if-IsUsable true x y h k = h
if-IsUsable false x y h k = k

if-GivesUsable :
    (b : Bool) (x y : Result Configuration)
    → GivesUsable x
    → GivesUsable y
    → GivesUsable (if b then x else y)
if-GivesUsable true x y h k = h
if-GivesUsable false x y h k = k

module _ (line : List ℕ) (conf : Configuration) (h : IsUsable conf) where
  switched : (b c : Bool) → IsUsable (record conf { use_guttertree = b; backup_in_mem = c })
  switched b c = record {
    groups = h.groups;
    threads = h.threads;
    parent = h.parent;
    directory = h.directory;
  }

  set_buffering-IsUsable : IsUsable (set_buffering line conf)
  unfolding set_buffering
  set_buffering-IsUsable =
      if-IsUsable (has_key line (codes "buffering_system")) _ _
        (if-IsUsable (same_text (value_of line) (codes "tree")) _ _
          (switched true conf.backup_in_mem) h)
        h

  set_dir-IsUsable : IsUsable (set_dir line conf)
  unfolding set_dir
  set_dir-IsUsable =
      if-IsUsable (has_key line (codes "disk_dir")) _ _
        (record {
          groups = h.groups;
          threads = h.threads;
          parent = value_of line;
          directory = refl;
        })
        h

  set_backup-IsUsable : IsUsable (set_backup line conf)
  unfolding set_backup
  set_backup-IsUsable =
      if-IsUsable (has_key line (codes "backup_in_mem")) _ _
        (if-IsUsable (same_text (value_of line) (codes "ON")) _ _
          (switched conf.use_guttertree true)
          (if-IsUsable (same_text (value_of line) (codes "OFF")) _ _
            (switched conf.use_guttertree false) h))
        h

  set_num_groups-GivesUsable : GivesUsable (set_num_groups line conf)
  unfolding set_num_groups
  set_num_groups-GivesUsable =
      if-GivesUsable (has_key line (codes "num_groups")) _ _
        (counted (stoi (value_of line)) (stoi-GivesInt (value_of line))) h
    where
      counted :
          (r : Result ℤ)
          → GivesInt r
          → GivesUsable (elim r as (λ _. Result Configuration) [
            | throw e ↦ throw e
            | ok n ↦ ok (record conf { num_groups = at_least_one n })
          ])
      counted (throw e) k = tt
      counted (ok n) k = record {
        groups = at_least_one_bounds n k;
        threads = h.threads;
        parent = h.parent;
        directory = h.directory;
      }

  set_group_size-GivesUsable : GivesUsable (set_group_size line conf)
  unfolding set_group_size
  set_group_size-GivesUsable =
      if-GivesUsable (has_key line (codes "group_size")) _ _
        (counted (stoi (value_of line)) (stoi-GivesInt (value_of line))) h
    where
      counted :
          (r : Result ℤ)
          → GivesInt r
          → GivesUsable (elim r as (λ _. Result Configuration) [
            | throw e ↦ throw e
            | ok n ↦ ok (record conf { group_size = at_least_one n })
          ])
      counted (throw e) k = tt
      counted (ok n) k = record {
        groups = h.groups;
        threads = at_least_one_bounds n k;
        parent = h.parent;
        directory = h.directory;
      }

then-GivesUsable :
    (f : Configuration → Result Configuration) (r : Result Configuration)
    → GivesUsable r
    → ((conf : Configuration) → IsUsable conf → GivesUsable (f conf))
    → GivesUsable (elim r as (λ _. Result Configuration) [ throw e ↦ throw e | ok conf ↦ f conf ])
then-GivesUsable f (throw e) h k = tt
then-GivesUsable f (ok conf) h k = k conf h

read_line-GivesUsable :
    (line : List ℕ) (conf : Configuration) → IsUsable conf → GivesUsable (read_line line conf)
unfolding read_line
read_line-GivesUsable line conf h =
    let buffering = set_buffering line conf in
    let dir = set_dir line buffering in
    let backup = set_backup line dir in
    if-GivesUsable (skipped line) _ _ h (
      then-GivesUsable (set_group_size line) (set_num_groups line backup)
        (set_num_groups-GivesUsable line backup (
          set_backup-IsUsable line dir
            (set_dir-IsUsable line buffering (set_buffering-IsUsable line conf h))))
        (set_group_size-GivesUsable line))

read_lines-GivesUsable :
    (lines : List (List ℕ)) (conf : Configuration)
    → IsUsable conf
    → GivesUsable (read_lines lines conf)
unfolding read_lines
read_lines-GivesUsable [] conf h = h
read_lines-GivesUsable (line ∷ lines) conf h =
    then-GivesUsable (read_lines lines) (read_line line conf) (read_line-GivesUsable line conf h)
      (read_lines-GivesUsable lines)

configure_system-GivesUsable : (file : Option (List ℕ)) → GivesUsable (configure_system file)
unfolding configure_system
configure_system-GivesUsable none = defaults-IsUsable
configure_system-GivesUsable (some text) =
    read_lines-GivesUsable (get_lines text) defaults defaults-IsUsable

-- Whatever the configuration file holds, and also without one, if `configure_system` returns, then the
-- number of worker groups and the size of a group are at least 1 and fit an `int`, and the
-- directory ends with a slash.
pub configure_system_bounds :
    (file : Option (List ℕ)) (conf : Configuration)
    → configure_system file ≡ ok conf
    → ((1 ≤ conf.num_groups) × (conf.num_groups < 2 ^ 31))
      × ((1 ≤ conf.group_size) × (conf.group_size < 2 ^ 31))
      × ((parent : List ℕ) × (conf.dir ≡ parent ++ codes "/"))
configure_system_bounds file conf e =
    let h : IsUsable conf = subst GivesUsable e (configure_system-GivesUsable file) in
    (h.groups, h.threads, (h.parent, h.directory))
