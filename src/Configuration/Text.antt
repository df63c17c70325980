-- ===== src/Configuration/Text.antt =====
-- What `configure_system` and `write_configuration` use of the string and stream library, on texts as
-- lists of character codes.
use Prim.Native.Char.{code}
use Prim.Native.String.{String}
use hyper_graph_streaming_cc.Prelude.{
  ℕ, zero, suc, ◌+◌, ◌*◌, ◌-◌, ◌/◌, ◌%◌, ◌^◌, List, [], ◌∷◌, ◌++◌, Bool, true, false, ◌&&◌, ◌||◌,
  Option, none, some, if◌then◌else◌, ◌==◌, ltb, leb,
}
use hyper_graph_streaming_cc.Exceptions.{Result, ok, throw, invalid_argument, out_of_range}

abbrev pub codes : String → List ℕ
codes String.[] = []
codes (String.◌∷◌ c s) = code c ∷ codes s

-- Equality of two strings.
unfoldable pub same_text : List ℕ → List ℕ → Bool
same_text [] [] = true
same_text [] (d ∷ ds) = false
same_text (c ∷ cs) [] = false
same_text (c ∷ cs) (d ∷ ds) = c == d && same_text cs ds

-- One more character at the front of the first line.
abbrev pub prepend : ℕ → List (List ℕ) → List (List ℕ)
prepend c [] = (c ∷ []) ∷ []
prepend c (line ∷ lines) = (c ∷ line) ∷ lines

-- What the calls of `getline` give, one after the other.
unfoldable pub get_lines : List ℕ → List (List ℕ)
get_lines [] = []
get_lines (c ∷ cs) = let rest = get_lines cs in if c == b'\n' then [] ∷ rest else prepend c rest

-- `line.substr(0, line.find('='))`
unfoldable pub key_of : List ℕ → List ℕ
key_of [] = []
key_of (c ∷ cs) = let rest = key_of cs in if c == b'=' then [] else c ∷ rest

-- What stands behind the first `=`, if there is one.
unfoldable pub behind_equals : List ℕ → Option (List ℕ)
behind_equals [] = none
behind_equals (c ∷ cs) = let rest = behind_equals cs in if c == b'=' then some cs else rest

-- `line.substr(line.find('=') + 1)`: without a `=` the sum wraps around to 0.
unfoldable pub value_of : List ℕ → List ℕ
unfolding behind_equals
value_of line = elim (behind_equals line) [ none ↦ line | some value ↦ value ]

pub data ℤ : Type 0 where
  pos : ℕ → ℤ
  negsuc : ℕ → ℤ

abbrev pub is_space : ℕ → Bool
is_space c = c == 32 || (leb 9 c && leb c 13)

abbrev pub is_digit : ℕ → Bool
is_digit c = leb 48 c && leb c 57

unfoldable pub skip_spaces : List ℕ → List ℕ
skip_spaces [] = []
skip_spaces (c ∷ cs) = let rest = skip_spaces cs in if is_space c then rest else c ∷ cs

-- The value of the digits at the front, behind digits of the value `acc`.
unfoldable pub digits_value : ℕ → List ℕ → ℕ
digits_value acc [] = acc
digits_value acc (c ∷ cs) =
    let rest = digits_value (acc * 10 + (c - 48)) cs in if is_digit c then rest else acc

unfoldable pub starts_with_digit : List ℕ → Bool
starts_with_digit [] = false
starts_with_digit (c ∷ cs) = is_digit c

-- The `int` of a number with its sign.
unfoldable pub to_int : Bool → List ℕ → Result ℤ
unfolding digits_value starts_with_digit
to_int negative cs =
    let n = digits_value 0 cs in
    if starts_with_digit cs
    then (if negative
        then (if n == 0
            then ok (pos 0)
            else if leb n (2 ^ 31)
            then ok (negsuc (n - 1))
            else throw out_of_range)
        else (if ltb n (2 ^ 31) then ok (pos n) else throw out_of_range))
    else throw invalid_argument

unfoldable pub signed_int : List ℕ → Result ℤ
unfolding to_int
signed_int [] = throw invalid_argument
signed_int (c ∷ cs) =
    if c == b'-'
    then to_int true cs
    else if c == b'+'
    then to_int false cs
    else to_int false (c ∷ cs)

-- `std::stoi`: spaces, a sign, digits, and anything behind them.
unfoldable pub stoi : List ℕ → Result ℤ
unfolding skip_spaces signed_int
stoi cs = signed_int (skip_spaces cs)

-- `out << n` for an `int` that is not negative; one unit of fuel for each digit.
unfoldable pub decimal : ℕ → ℕ → List ℕ
decimal zero n = (48 + n % 10) ∷ []
decimal (suc fuel) n =
    let rest = decimal fuel (n / 10) ++ (48 + n % 10) ∷ [] in
    if ltb n 10 then (48 + n) ∷ [] else rest
