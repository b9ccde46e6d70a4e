-- ===== src/Api/Env/Quoted.antt =====
-- What a line with a quoted value sets.
use super_voice.Base.{
  ℕ, ◌≡◌, ◌≢◌, refl, ap, ◌∙◌, true, false, some, List, [], ◌∷◌, ◌++◌, arith, length-append, ◌==◌,
  All, All-append,
}
use super_voice.Base.Chars.{is_space}
use super_voice.Base.Map
use super_voice.Base.Map.{Map, lookup-insert_self}
use super_voice.Api.Env.{
  trim, trim_back, split_at, last, drop_last, unquote, parse_line, c_str, set_env, load_line,
  load_lines, split_lines, load_dot_env, get_env, is_empty, first,
}

abbrev quote : ℕ
quote = b'"'

-- The value between double quotes.
abbrev pub quoted : List ℕ → List ℕ
quoted value = quote ∷ (value ++ (quote ∷ []))

last-append : (xs : List ℕ) (c : ℕ) → last (xs ++ (c ∷ [])) ≡ c
unfolding last
last-append [] c = refl
last-append (x ∷ []) c = refl
last-append (x ∷ y ∷ ys) c = last-append (y ∷ ys) c

drop_last-append : (xs : List ℕ) (c : ℕ) → drop_last (xs ++ (c ∷ [])) ≡ xs
unfolding drop_last
drop_last-append [] c = refl
drop_last-append (x ∷ []) c = refl
drop_last-append (x ∷ y ∷ ys) c = ap (λ (zs : List ℕ). x ∷ zs) (drop_last-append (y ∷ ys) c)

unquote-quoted : (value : List ℕ) → unquote (quoted value) ≡ value
unfolding unquote
unquote-quoted value =
    let ends : last (quoted value) ≡ quote = last-append (quote ∷ value) quote in
    let long = length-append value (quote ∷ []) in
    let body = drop_last-append value quote in ground (arith, ends, long, body)

some_byte : (xs : List ℕ) (c : ℕ) (ys : List ℕ) → is_empty (xs ++ (c ∷ ys)) ≡ false
some_byte [] c ys = refl
some_byte (x ∷ xs) c ys = refl

trim_back_lem :
    (xs : List ℕ) (c : ℕ) → is_space c ≡ false → trim_back (xs ++ (c ∷ [])) ≡ xs ++ (c ∷ [])
unfolding trim_back
trim_back_lem [] c h = rw h refl
trim_back_lem (x ∷ xs) c h = rw (trim_back_lem xs c h, some_byte xs c []) refl

split_at_lem :
    (c : ℕ) (xs ys : List ℕ) → All (λ x. x ≢ c) xs → split_at c (xs ++ (c ∷ ys)) ≡ some (xs, ys)
unfolding split_at
split_at_lem c [] ys h = ground arith
split_at_lem c (x ∷ xs) ys h = ground (arith, h.0, split_at_lem c xs ys h.1)

trim-quoted : (value : List ℕ) → trim (quoted value) ≡ quoted value
unfolding trim is_space
trim-quoted value = trim_back_lem (quote ∷ value) quote refl

-- Bytes without a newline, and bytes without a NUL.
abbrev pub OneLine : List ℕ → Type 0
OneLine xs = All (λ c. c ≢ 10) xs

abbrev pub NoNul : List ℕ → Type 0
NoNul xs = All (λ c. c ≢ 0) xs

-- A key that can stand in a line.
pub record IsKey (key : List ℕ) : Type 0 where
  pub no_equals : All (λ c. c ≢ b'=') key
  pub one_line : OneLine key
  pub no_nul : NoNul key
  pub trimmed : trim key ≡ key
  pub nonempty : is_empty key ≡ false
  pub no_comment : (first key == b'#') ≡ false

parse_line-quoted :
    (key value : List ℕ) → IsKey key → parse_line (key ++ (b'=' ∷ quoted value)) ≡ some (key, value)
unfolding parse_line
parse_line-quoted [] value k = absurd (true-ne-false k.nonempty)
  where
    true-ne-false : true ≢ false
    true-ne-false h = cc
parse_line-quoted (c ∷ cs) value k =
    rw
      (
        k.no_comment,
        split_at_lem b'=' (c ∷ cs) (quoted value) k.no_equals,
        k.trimmed,
        trim-quoted value,
        unquote-quoted value,
      )
      refl

c_str_lem : (xs : List ℕ) → NoNul xs → c_str xs ≡ xs
unfolding c_str
c_str_lem [] h = refl
c_str_lem (x ∷ xs) h = ground (arith, h.0, c_str_lem xs h.1)

load_line-lookup :
    (line key value : List ℕ) (env : Map (List ℕ))
    → IsKey key
    → NoNul value
    → parse_line line ≡ some (key, value)
    → Map.lookup key (load_line line env) ≡ some value
unfolding load_line set_env
load_line-lookup line key value env k nul h =
    rw (h, load_line, set_env, c_str_lem key k.no_nul, c_str_lem value nul, k.nonempty)
      (lookup-insert_self key value env)

load_lines-append :
    (lines : List (List ℕ)) (line key value : List ℕ) (env : Map (List ℕ))
    → IsKey key
    → NoNul value
    → parse_line line ≡ some (key, value)
    → Map.lookup key (load_lines (lines ++ (line ∷ [])) env) ≡ some value
unfolding load_lines
load_lines-append [] line key value env k nul h = load_line-lookup line key value env k nul h
load_lines-append (l ∷ lines) line key value env k nul h =
    load_lines-append lines line key value (load_line l env) k nul h

-- Lines, each with its newline, and a last one without.
abbrev pub file_of : List (List ℕ) → List ℕ → List ℕ
file_of [] last_line = last_line
file_of (line ∷ lines) last_line = line ++ (10 ∷ file_of lines last_line)

split_lines_newline :
    (line rest : List ℕ)
    → OneLine line
    → split_lines (line ++ (10 ∷ rest)) ≡ line ∷ split_lines rest
unfolding split_lines
split_lines_newline [] rest h = refl
split_lines_newline (c ∷ cs) rest h = ground (arith, h.0, split_lines_newline cs rest h.1)

split_lines_last :
    (line : List ℕ) → OneLine line → is_empty line ≡ false → split_lines line ≡ line ∷ []
unfolding split_lines
split_lines_last [] h k = cc
split_lines_last (c ∷ []) h k = ground (arith, h.0)
split_lines_last (c ∷ d ∷ cs) h k = ground (arith, h.0, split_lines_last (d ∷ cs) h.1 refl)

split_lines-file_of :
    (lines : List (List ℕ)) (line : List ℕ)
    → All OneLine lines
    → OneLine line
    → is_empty line ≡ false
    → split_lines (file_of lines line) ≡ lines ++ (line ∷ [])
split_lines-file_of [] line h k some_bytes = split_lines_last line k some_bytes
split_lines-file_of (l ∷ lines) line h k some_bytes =
    split_lines_newline l (file_of lines line) h.0
    ∙ ap (λ (ls : List (List ℕ)). l ∷ ls) (split_lines-file_of lines line h.1 k some_bytes)

quoted-OneLine :
    (key value : List ℕ) → IsKey key → OneLine value → OneLine (key ++ (b'=' ∷ quoted value))
quoted-OneLine key value k h =
    All-append (λ c. c ≢ 10) key (b'=' ∷ quoted value) k.one_line
      (
        (λ e. omega (arith, e)),
        (
          (λ e. omega (arith, e)),
          All-append (λ c. c ≢ 10) value (quote ∷ []) h ((λ e. omega (arith, e)), tt),
        ),
      )

-- A line with a key, `=` and a quoted value, behind any lines: whatever value without a newline and a
-- NUL a variable has, writing it between double quotes as the last line of a file, without a newline
-- behind it, makes that the variable's value. The key has at least one byte, no `=`, no newline and no
-- NUL, does not start with `#` and needs no trimming; the lines in front end in a newline each.
pub load_dot_env-quoted :
    (lines : List (List ℕ)) (key value : List ℕ) (env : Map (List ℕ))
    → All OneLine lines
    → IsKey key
    → OneLine value
    → NoNul value
    → get_env (load_dot_env (some (file_of lines (key ++ (b'=' ∷ quoted value)))) env).1 key
      ≡ some value
unfolding load_dot_env get_env
load_dot_env-quoted lines key value env h k one nul =
    let line = key ++ (b'=' ∷ quoted value) in
    ap (λ (name : List ℕ). Map.lookup name (load_lines (split_lines (file_of lines line)) env))
      (c_str_lem key k.no_nul)
    ∙ ap (λ (ls : List (List ℕ)). Map.lookup key (load_lines ls env))
        (split_lines-file_of lines line h (quoted-OneLine key value k one)
          (some_byte key b'=' (quoted value)))
    ∙ load_lines-append lines line key value env k nul (parse_line-quoted key value k)
