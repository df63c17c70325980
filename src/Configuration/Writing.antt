-- ===== src/Configuration/Writing.antt =====
-- include/test/write_configuration.h: the file that the tests write, and what is read back from it.
pub mod Numbers
pub mod Lines
pub mod RoundTrip
use hyper_graph_streaming_cc.Prelude.{
  ℕ, zero, suc, ◌+◌, ◌*◌, ◌-◌, ◌/◌, ◌%◌, ◌^◌, ◌<◌, ◌≤◌, ◌≡◌, refl, sym, ap, ◌∙◌, subst, List, [],
  ◌∷◌, ◌++◌, Bool, true, false, Option, none, some, arith, ltb, leb, ◌==◌, if◌then◌else◌,
  Bool-cases, inl, inr,
}
use hyper_graph_streaming_cc.Exceptions.{Result, ok, throw}
use hyper_graph_streaming_cc.Configuration.Text.{
  codes, same_text, get_lines, key_of, value_of, decimal,
}
use hyper_graph_streaming_cc.Configuration.Defs.{Configuration, skipped, has_key, configure_system}

-- The loop over the previous file: the directory of its first `disk_dir` line, or the one given.
unfoldable pub previous_dir : List (List ℕ) → List ℕ
unfolding same_text key_of value_of
previous_dir [] = codes "."
previous_dir (line ∷ lines) =
    let rest = previous_dir lines in
    if skipped line
    then rest
    else if has_key line (codes "disk_dir")
    then (if same_text (value_of line) [] then codes "." else value_of line)
    else rest

abbrev pub line_end : List ℕ
line_end = codes "\n"

unfoldable pub disk_dir_of : Option (List ℕ) → List ℕ
unfolding previous_dir get_lines
disk_dir_of none = codes "."
disk_dir_of (some text) = previous_dir (get_lines text)

-- The new contents of the file, from the previous ones, if there were any. A number takes at most ten
-- digits.
unfoldable pub write_configuration : Option (List ℕ) → Bool → Bool → ℕ → ℕ → List ℕ
write_configuration previous use_tree backup_in_mem groups g_size =
    codes "buffering_system="
    ++ ((if use_tree then codes "tree" else codes "standalone")
        ++ (line_end
            ++ (codes "disk_dir="
                ++ (disk_dir_of previous
                    ++ (line_end
                        ++ (codes "backup_in_mem="
                            ++ ((if backup_in_mem then codes "ON" else codes "OFF")
                                ++ (line_end
                                    ++ (codes "num_groups="
                                        ++ (decimal 10 groups
                                            ++ (line_end
                                                ++ (codes "group_size="
                                                    ++ (decimal 10 g_size ++ line_end)))))))))))))
