-- ===== src/Api/Env.antt =====
-- SuperAPI._server/src/environment.cpp: the `.env` file and the variables of the environment, which is
-- a map here. The file is its bytes.
pub mod Quoted
use super_voice.Base.{
  ℕ, zero, suc, ◌-◌, Bool, true, false, ◌&&◌, ◌||◌, Option, none, some, List, [], ◌∷◌, ◌++◌, leb,
  ◌==◌, if◌then◌else◌, length,
}
use super_voice.Base.Chars.{is_space, lowered}
use super_voice.Base.Map
use super_voice.Base.Map.{Map}
use super_voice.Base.Text.{text, same}

abbrev pub is_empty : List ℕ → Bool
is_empty [] = true
is_empty (c ∷ cs) = false

unfoldable pub trim_front : List ℕ → List ℕ
unfolding is_space
trim_front [] = []
trim_front (c ∷ cs) = if is_space c then trim_front cs else c ∷ cs

unfoldable pub trim_back : List ℕ → List ℕ
unfolding is_space
trim_back [] = []
trim_back (c ∷ cs) = let rest = trim_back cs in if is_empty rest && is_space c then [] else c ∷ rest

unfoldable pub trim : List ℕ → List ℕ
unfolding trim_front trim_back
trim input = trim_back (trim_front input)

-- `find(c)`: what is before the first `c`, and what is behind it.
unfoldable pub split_at : ℕ → List ℕ → Option (List ℕ × List ℕ)
split_at c [] = none
split_at c (x ∷ xs) =
    let later = split_at c xs in
    if x == c
    then some ([], xs)
    else (elim later [ none ↦ none | some (before, behind) ↦ some (x ∷ before, behind) ])

-- The last byte, or 0 of no bytes.
unfoldable pub last : List ℕ → ℕ
last [] = 0
last (c ∷ cs) = elim cs [ [] ↦ c | d ∷ ds ↦ last cs ]

unfoldable pub drop_last : List ℕ → List ℕ
drop_last [] = []
drop_last (c ∷ cs) = elim cs [ [] ↦ [] | d ∷ ds ↦ c ∷ drop_last cs ]

abbrev pub first : List ℕ → ℕ
first [] = 0
first (c ∷ cs) = c

abbrev pub behind_first : List ℕ → List ℕ
behind_first [] = []
behind_first (c ∷ cs) = cs

-- `value.substr(1, value.size() - 2)` for a value in quotes of one kind.
pub unquote : List ℕ → List ℕ
unfolding last drop_last
unquote value =
    let double = first value == b'"' && last value == b'"' in
    let single = first value == 39 && last value == 39 in
    if leb 2 (length value) && (double || single) then drop_last (behind_first value) else value

-- The variable that a line sets, if it sets one.
pub parse_line : List ℕ → Option (List ℕ × List ℕ)
unfolding split_at trim unquote
parse_line line = if is_empty line || first line == b'#' then none else (elim (split_at b'=' line) [
  | none ↦ none
  | some (before, behind) ↦
      if is_empty (trim before) then none else some (trim before, unquote (trim behind))
])

-- `c_str()` for a function of C: what is before the first NUL.
unfoldable pub c_str : List ℕ → List ℕ
c_str [] = []
c_str (c ∷ cs) = let rest = c_str cs in if c == 0 then [] else c ∷ rest

-- `setenv` refuses an empty name; a name with `=` does not come from `parse_line`.
pub set_env : List ℕ → List ℕ → Map (List ℕ) → Map (List ℕ)
unfolding c_str
set_env key value env =
    if is_empty (c_str key) then env else Map.insert (c_str key) (c_str value) env

-- One line of the file: it sets a variable or nothing.
pub load_line : List ℕ → Map (List ℕ) → Map (List ℕ)
unfolding parse_line set_env
load_line line env = elim (parse_line line) [
  | none ↦ env
  | some (key, value) ↦ set_env key value env
]

pub load_lines : List (List ℕ) → Map (List ℕ) → Map (List ℕ)
unfolding load_line
load_lines [] env = env
load_lines (line ∷ lines) env = load_lines lines (load_line line env)

abbrev pub prepend : ℕ → List (List ℕ) → List (List ℕ)
prepend c [] = (c ∷ []) ∷ []
prepend c (line ∷ lines) = (c ∷ line) ∷ lines

-- The lines that `std::getline` reads: none behind a newline at the end.
unfoldable pub split_lines : List ℕ → List (List ℕ)
split_lines [] = []
split_lines (c ∷ cs) = let rest = split_lines cs in if c == 10 then [] ∷ rest else prepend c rest

-- `none` is a file that cannot be opened.
pub load_dot_env : Option (List ℕ) → Map (List ℕ) → Bool × Map (List ℕ)
unfolding load_lines split_lines
load_dot_env none env = (false, env)
load_dot_env (some contents) env = (true, load_lines (split_lines contents) env)

unfoldable pub get_env : Map (List ℕ) → List ℕ → Option (List ℕ)
unfolding c_str
get_env env key = Map.lookup (c_str key) env

pub get_env_or_default : Map (List ℕ) → List ℕ → List ℕ → List ℕ
unfolding get_env
get_env_or_default env key default_value = elim (get_env env key) [
  | none ↦ default_value
  | some value ↦ if is_empty value then default_value else value
]

abbrev one_of : List ℕ → List (List ℕ) → Bool
one_of value [] = false
one_of value (word ∷ words) = same value word || one_of value words

pub flag_of : List ℕ → Bool → Bool
flag_of value default_value =
    if one_of value (text "true" ∷ text "1" ∷ text "yes" ∷ text "on" ∷ [])
    then true
    else if one_of value (text "false" ∷ text "0" ∷ text "no" ∷ text "off" ∷ [])
    then false
    else default_value

pub get_env_flag : Map (List ℕ) → List ℕ → Bool → Bool
unfolding get_env flag_of
get_env_flag env key default_value = elim (get_env env key) [
  | none ↦ default_value
  | some value ↦ flag_of (lowered value) default_value
]
