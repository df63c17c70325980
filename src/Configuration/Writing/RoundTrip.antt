-- ===== src/Configuration/Writing/RoundTrip.antt =====
-- The settings that were written are read back.
use mathlib.Core.List.{append_assoc}
use hyper_graph_streaming_cc.Prelude.{
  ℕ, zero, suc, ◌<◌, ◌≤◌, ◌^◌, ◌≡◌, refl, sym, ap, ◌∙◌, List, [], ◌∷◌, ◌++◌, Bool, true, false,
  Option, some, arith, if◌then◌else◌,
}
use hyper_graph_streaming_cc.Exceptions.{ok}
use hyper_graph_streaming_cc.Configuration.Text.{
  codes, get_lines, skip_spaces, signed_int, decimal, pos,
}
use hyper_graph_streaming_cc.Configuration.Defs.{
  Configuration, defaults, at_least_one, read_line, read_lines, configure_system,
}
use hyper_graph_streaming_cc.Configuration.Writing.{disk_dir_of, line_end, write_configuration}
use hyper_graph_streaming_cc.Configuration.Writing.Numbers.{stoi-decimal}
use hyper_graph_streaming_cc.Configuration.Writing.Lines.{
  IsLine, IsLine-append, get_lines-line, disk_dir_of-IsLine, decimal-IsLine,
}

tree_line : Bool → List ℕ
tree_line b = if b then codes "tree" else codes "standalone"

backup_line : Bool → List ℕ
backup_line b = if b then codes "ON" else codes "OFF"

read_tree_line :
    (b : Bool)
    → read_line (codes "buffering_system=" ++ tree_line b) defaults
      ≡ ok (record defaults { use_guttertree = b })
unfolding read_line tree_line
read_tree_line true = refl
read_tree_line false = refl

read_dir_line :
    (dir : List ℕ) (conf : Configuration)
    → read_line (codes "disk_dir=" ++ dir) conf ≡ ok (record conf { dir = dir ++ codes "/" })
unfolding read_line
read_dir_line dir conf = refl

read_backup_line :
    (b : Bool) (conf : Configuration)
    → read_line (codes "backup_in_mem=" ++ backup_line b) conf
      ≡ ok (record conf { backup_in_mem = b })
unfolding read_line backup_line
read_backup_line true conf = refl
read_backup_line false conf = refl

at_least_one-pos : (n : ℕ) → 1 ≤ n → at_least_one (pos n) ≡ n
at_least_one-pos zero h = absurd (omega arith)
at_least_one-pos (suc n) h = refl

read_groups_line :
    (n : ℕ) (conf : Configuration)
    → 1 ≤ n
    → n < 2 ^ 31
    → read_line (codes "num_groups=" ++ decimal 10 n) conf ≡ ok (record conf { num_groups = n })
unfolding read_line
read_groups_line n conf low high =
    let e : signed_int (skip_spaces (decimal 10 n)) ≡ ok (pos n) = stoi-decimal n high in
    rw (e, read_line) (ap (λ m. ok (record conf { num_groups = m })) (at_least_one-pos n low))

read_size_line :
    (n : ℕ) (conf : Configuration)
    → 1 ≤ n
    → n < 2 ^ 31
    → read_line (codes "group_size=" ++ decimal 10 n) conf ≡ ok (record conf { group_size = n })
unfolding read_line
read_size_line n conf low high =
    let e : signed_int (skip_spaces (decimal 10 n)) ≡ ok (pos n) = stoi-decimal n high in
    rw (e, read_line) (ap (λ m. ok (record conf { group_size = m })) (at_least_one-pos n low))

-- The lines of the file.
abbrev written_lines : Option (List ℕ) → Bool → Bool → ℕ → ℕ → List (List ℕ)
written_lines previous use_tree backup_in_mem groups g_size =
    (codes "buffering_system=" ++ tree_line use_tree)
    ∷ (codes "disk_dir=" ++ disk_dir_of previous)
    ∷ (codes "backup_in_mem=" ++ backup_line backup_in_mem)
    ∷ (codes "num_groups=" ++ decimal 10 groups)
    ∷ (codes "group_size=" ++ decimal 10 g_size)
    ∷ []

-- One line of the file, in the form in which it is written.
next_line :
    (key value rest : List ℕ)
    → IsLine key
    → IsLine value
    → get_lines (key ++ (value ++ (line_end ++ rest))) ≡ (key ++ value) ∷ get_lines rest
next_line key value rest h k =
    ap get_lines (sym (append_assoc key value (line_end ++ rest)))
    ∙ get_lines-line (key ++ value) rest (IsLine-append key value h k)

tree_line-IsLine : (b : Bool) → IsLine (tree_line b)
unfolding tree_line
tree_line-IsLine true = ground arith
tree_line-IsLine false = ground arith

backup_line-IsLine : (b : Bool) → IsLine (backup_line b)
unfolding backup_line
backup_line-IsLine true = ground arith
backup_line-IsLine false = ground arith

get_lines-nil : get_lines [] ≡ []
unfolding get_lines
get_lines-nil = refl

get_lines-write_configuration :
    (previous : Option (List ℕ)) (use_tree backup_in_mem : Bool) (groups g_size : ℕ)
    → get_lines (write_configuration previous use_tree backup_in_mem groups g_size)
      ≡ written_lines previous use_tree backup_in_mem groups g_size
unfolding write_configuration tree_line backup_line
get_lines-write_configuration previous use_tree backup_in_mem groups g_size =
    let sizes = codes "group_size=" ++ (decimal 10 g_size ++ line_end) in
    let counts = codes "num_groups=" ++ (decimal 10 groups ++ (line_end ++ sizes)) in
    let backups = codes "backup_in_mem=" ++ (backup_line backup_in_mem ++ (line_end ++ counts)) in
    let dirs = codes "disk_dir=" ++ (disk_dir_of previous ++ (line_end ++ backups)) in
    next_line (codes "buffering_system=") (tree_line use_tree) dirs (ground arith)
      (tree_line-IsLine use_tree)
    ∙ ap (λ ls. (codes "buffering_system=" ++ tree_line use_tree) ∷ ls)
        (next_line (codes "disk_dir=") (disk_dir_of previous) backups (ground arith)
            (disk_dir_of-IsLine previous)
          ∙ ap (λ ls. (codes "disk_dir=" ++ disk_dir_of previous) ∷ ls)
              (next_line (codes "backup_in_mem=") (backup_line backup_in_mem) counts (ground arith)
                  (backup_line-IsLine backup_in_mem)
                ∙ ap (λ ls. (codes "backup_in_mem=" ++ backup_line backup_in_mem) ∷ ls)
                    (next_line (codes "num_groups=") (decimal 10 groups) sizes (ground arith)
                        (decimal-IsLine 10 groups)
                      ∙ ap (λ ls. (codes "num_groups=" ++ decimal 10 groups) ∷ ls)
                          (next_line (codes "group_size=") (decimal 10 g_size) [] (ground arith)
                              (decimal-IsLine 10 g_size)
                            ∙ ap (λ ls. (codes "group_size=" ++ decimal 10 g_size) ∷ ls)
                                get_lines-nil))))

read_lines-next :
    (line : List ℕ) (lines : List (List ℕ)) (conf conf' : Configuration)
    → read_line line conf ≡ ok conf'
    → read_lines (line ∷ lines) conf ≡ read_lines lines conf'
unfolding read_lines
read_lines-next line lines conf conf' e = rw (e, read_lines) refl

read_lines-nil : (conf : Configuration) → read_lines [] conf ≡ ok conf
unfolding read_lines
read_lines-nil conf = refl

configure_system-some :
    (text : List ℕ) → configure_system (some text) ≡ read_lines (get_lines text) defaults
unfolding configure_system
configure_system-some text = refl

-- Whatever file there was before, after `write_configuration` with numbers from 1 up to the largest
-- `int`, `configure_system` returns the settings that were written, with the directory of the first
-- `disk_dir` line of the previous file, or the current directory where that has none.
pub configure_system-write_configuration :
    (previous : Option (List ℕ)) (use_tree backup_in_mem : Bool) (groups g_size : ℕ)
    → 1 ≤ groups
    → groups < 2 ^ 31
    → 1 ≤ g_size
    → g_size < 2 ^ 31
    → configure_system (some (write_configuration previous use_tree backup_in_mem groups g_size))
      ≡ ok (record {
        use_guttertree = use_tree;
        backup_in_mem = backup_in_mem;
        dir = disk_dir_of previous ++ codes "/";
        num_groups = groups;
        group_size = g_size;
      })
configure_system-write_configuration previous use_tree backup_in_mem groups g_size some_groups
      groups-lt some_threads size-lt =
    let with_tree = record defaults { use_guttertree = use_tree } in
    let with_dir = record with_tree { dir = disk_dir_of previous ++ codes "/" } in
    let with_backup = record with_dir { backup_in_mem = backup_in_mem } in
    let with_groups = record with_backup { num_groups = groups } in
    let with_size = record with_groups { group_size = g_size } in
    configure_system-some (write_configuration previous use_tree backup_in_mem groups g_size)
    ∙ ap (λ ls. read_lines ls defaults)
        (get_lines-write_configuration previous use_tree backup_in_mem groups g_size)
    ∙ read_lines-next (codes "buffering_system=" ++ tree_line use_tree) _ defaults with_tree
        (read_tree_line use_tree)
    ∙ read_lines-next (codes "disk_dir=" ++ disk_dir_of previous) _ with_tree with_dir
        (read_dir_line (disk_dir_of previous) with_tree)
    ∙ read_lines-next (codes "backup_in_mem=" ++ backup_line backup_in_mem) _ with_dir with_backup
        (read_backup_line backup_in_mem with_dir)
    ∙ read_lines-next (codes "num_groups=" ++ decimal 10 groups) _ with_backup with_groups
        (read_groups_line groups with_backup some_groups groups-lt)
    ∙ read_lines-next (codes "group_size=" ++ decimal 10 g_size) _ with_groups with_size
        (read_size_line g_size with_groups some_threads size-lt)
    ∙ read_lines-nil with_size
