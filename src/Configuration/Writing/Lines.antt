-- ===== src/Configuration/Writing/Lines.antt =====
-- The lines that are written are the lines that `getline` gives.
use mathlib.Core.Option.{some-injective}
use hyper_graph_streaming_cc.Prelude.{
  ℕ, ◌≡◌, refl, ap, subst, List, [], ◌∷◌, ◌++◌, Bool, true, false, Option, none, some, arith,
  Option-cases, ◌==◌, if◌then◌else◌, Bool-cases, inl, inr,
}
use hyper_graph_streaming_cc.Configuration.Text.{
  codes, same_text, prepend, get_lines, behind_equals, value_of, decimal,
}
use hyper_graph_streaming_cc.Configuration.Defs.{skipped, has_key}
use hyper_graph_streaming_cc.Configuration.Writing.{previous_dir, disk_dir_of, line_end}
use hyper_graph_streaming_cc.Configuration.Writing.Numbers.{AllDigits, decimal-AllDigits}

-- No character is the end of a line.
abbrev pub IsLine : List ℕ → Type 0
IsLine [] = Unit {0}
IsLine (c ∷ cs) = ((c == b'\n') ≡ false) × IsLine cs

abbrev pub AllLines : List (List ℕ) → Type 0
AllLines [] = Unit {0}
AllLines (l ∷ ls) = IsLine l × AllLines ls

pub IsLine-append : (xs ys : List ℕ) → IsLine xs → IsLine ys → IsLine (xs ++ ys)
IsLine-append [] ys h k = k
IsLine-append (x ∷ xs) ys h k = (h.0, IsLine-append xs ys h.1 k)

pub get_lines-line :
    (line rest : List ℕ)
    → IsLine line
    → get_lines (line ++ (line_end ++ rest)) ≡ line ∷ get_lines rest
unfolding get_lines
get_lines-line [] rest h = refl
get_lines-line (c ∷ line) rest h = rw h.0 (ap (prepend c) (get_lines-line line rest h.1))

prepend-AllLines :
    (c : ℕ) (ls : List (List ℕ)) → (c == b'\n') ≡ false → AllLines ls → AllLines (prepend c ls)
prepend-AllLines c [] e h = ((e, tt), tt)
prepend-AllLines c (l ∷ ls) e h = ((e, h.0), h.1)

get_lines-AllLines : (text : List ℕ) → AllLines (get_lines text)
unfolding get_lines
get_lines-AllLines [] = tt
get_lines-AllLines (c ∷ cs) = elim (Bool-cases (c == b'\n')) [
  | inl e ↦ rw e (tt, get_lines-AllLines cs)
  | inr e ↦ rw e (prepend-AllLines c (get_lines cs) e (get_lines-AllLines cs))
]

behind_equals-IsLine :
    (line value : List ℕ) → IsLine line → behind_equals line ≡ some value → IsLine value
unfolding behind_equals
behind_equals-IsLine [] value h e = cc
behind_equals-IsLine (c ∷ cs) value h e = elim (Bool-cases (c == b'=')) [
  | inl same ↦ subst IsLine (some-injective cs value (rw same at e)) h.1
  | inr other ↦ behind_equals-IsLine cs value h.1 (rw other at e)
]

value_of-IsLine : (line : List ℕ) → IsLine line → IsLine (value_of line)
unfolding value_of
value_of-IsLine line h = elim (Option-cases (behind_equals line)) [
  | inl no_value ↦ rw (no_value, value_of) h
  | inr (value, e) ↦ rw (e, value_of) (behind_equals-IsLine line value h e)
]

previous_dir-IsLine : (lines : List (List ℕ)) → AllLines lines → IsLine (previous_dir lines)
unfolding previous_dir
previous_dir-IsLine [] h = (refl, tt)
previous_dir-IsLine (line ∷ lines) h =
    if-IsLine (skipped line) _ _ (previous_dir-IsLine lines h.1) (
      if-IsLine (has_key line (codes "disk_dir")) _ _
        (if-IsLine (same_text (value_of line) []) _ _ (refl, tt) (value_of-IsLine line h.0))
        (previous_dir-IsLine lines h.1))
  where
    if-IsLine : (b : Bool) (x y : List ℕ) → IsLine x → IsLine y → IsLine (if b then x else y)
    if-IsLine true x y k l = k
    if-IsLine false x y k l = l

pub disk_dir_of-IsLine : (previous : Option (List ℕ)) → IsLine (disk_dir_of previous)
unfolding disk_dir_of
disk_dir_of-IsLine none = (refl, tt)
disk_dir_of-IsLine (some text) = previous_dir-IsLine (get_lines text) (get_lines-AllLines text)

AllDigits-IsLine : (cs : List ℕ) → AllDigits cs → IsLine cs
AllDigits-IsLine [] h = tt
AllDigits-IsLine (c ∷ cs) h = (ground arith, AllDigits-IsLine cs h.1)

pub decimal-IsLine : (fuel n : ℕ) → IsLine (decimal fuel n)
decimal-IsLine fuel n = AllDigits-IsLine (decimal fuel n) (decimal-AllDigits fuel n)
