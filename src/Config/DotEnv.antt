-- ===== src/Config/DotEnv.antt =====
-- internal/config/loadenv.go: the parser of `.env` files. The environment of the process is a
-- parameter, errors are without their messages.
use nexus_control.Base.{
  ℕ, zero, suc, Bool, false, ◌&&◌, ◌||◌, not, Option, none, some, List, [], ◌∷◌, ◌++◌, text, eqb,
  ◌==◌, length, if◌then◌else◌,
}
use nexus_control.Config.Bytes.{
  is_latin_space, is_latin_letter, is_decimal, is_ascii_letter, space_width, trim_left_spaces,
  trim_right_spaces, trim_left_blanks, trim_right_blanks, after_prefix, first_line, after_line,
  replace_all,
}

-- The variables read so far, the last value of a key in front.
abbrev pub Vars : Type 0
Vars = List (List ℕ × List ℕ)

unfoldable pub get : List ℕ → Vars → Option (List ℕ)
get key [] = none
get key ((k, v) ∷ vars) = if k == key then some v else get key vars

-- Where the search for a statement is: in a comment, or outside one with bytes of a space to go.
pub data Seek : Type 0 where
  in_comment : Seek
  outside : ℕ → Seek

abbrev after_space : ℕ → ℕ → Option Seek
after_space c (suc k) = some (outside k)
after_space c zero = if eqb c b'#' then some in_comment else none

-- How a byte, here with what follows it, moves the search; `none` is a statement.
unfoldable pub seek : Seek → ℕ → List ℕ → Option Seek
unfolding space_width
seek in_comment c s = some (if eqb c 10 then outside 0 else in_comment)
seek (outside (suc k)) c s = some (outside k)
seek (outside zero) c s = after_space c (space_width (c ∷ s))

unfoldable pub seek_statement : Seek → List ℕ → Option (List ℕ)
unfolding seek
seek_statement at [] = none
seek_statement at (c ∷ s) = elim (seek at c s) [
  | none ↦ some (c ∷ s)
  | some next ↦ seek_statement next s
]

-- `findStatementStart`
unfoldable pub find_statement_start : List ℕ → Option (List ℕ)
unfolding seek_statement
find_statement_start src = seek_statement (outside 0) src

abbrev pub ends_key : ℕ → Bool
ends_key c = eqb c b'=' || eqb c b':'

abbrev pub is_key_char : ℕ → Bool
is_key_char c = is_latin_letter c || is_decimal c || eqb c b'_' || eqb c b'.' || is_latin_space c

abbrev pub prepend : ℕ → Option (List ℕ × List ℕ) → Option (List ℕ × List ℕ)
prepend c none = none
prepend c (some (s, rest)) = some (c ∷ s, rest)

-- The bytes before the sign that ends a key, and those after it.
unfoldable pub scan_key : List ℕ → Option (List ℕ × List ℕ)
scan_key [] = none
scan_key (c ∷ s) =
    let rest = scan_key s in
    if ends_key c then some ([], s) else if is_key_char c then prepend c rest else none

unfoldable pub skip_export : List ℕ → List ℕ
unfolding after_prefix trim_left_blanks
skip_export s = elim (after_prefix (text "export ") s) [
  | none ↦ s
  | some rest ↦ trim_left_blanks rest
]

abbrev pub named : List ℕ → List ℕ → Option (List ℕ × List ℕ)
named [] rest = none
named (c ∷ key) rest = some (c ∷ key, trim_left_blanks rest)

-- `locateKeyName`
unfoldable pub locate_key_name : List ℕ → Option (List ℕ × List ℕ)
unfolding scan_key skip_export trim_left_spaces trim_right_spaces trim_left_blanks
locate_key_name src = elim (scan_key (skip_export (trim_left_spaces src))) [
  | none ↦ none
  | some (key, rest) ↦ named (trim_right_spaces key) rest
]

-- The bytes up to the closing quote, which no backslash stands before, and those after it.
unfoldable pub scan_quoted : ℕ → ℕ → List ℕ → Option (List ℕ × List ℕ)
scan_quoted quote before [] = none
scan_quoted quote before (c ∷ s) =
    let rest = scan_quoted quote c s in
    if eqb c quote && not (eqb before b'\\') then some ([], s) else prepend c rest

-- `escapeRegex`: a backslash and a character of the same line.
unfoldable pub escape : List ℕ → Option (List ℕ × ℕ)
escape (c ∷ d ∷ s) =
    if eqb c b'\\' && not (eqb d 10)
    then some (
      (if eqb d b'n'
          then 10 ∷ []
          else if eqb d b'r'
          then 13 ∷ []
          else if eqb d b't'
          then 9 ∷ []
          else c ∷ d ∷ []),
      1,
    )
    else none
escape _ = none

-- `unescapeCharsRegex`: a backslash and a character that is not a dollar sign.
unfoldable pub unescape : List ℕ → Option (List ℕ × ℕ)
unescape (c ∷ d ∷ s) = if eqb c b'\\' && not (eqb d b'$') then some (d ∷ [], 1) else none
unescape _ = none

-- `expandEscapes`
unfoldable pub expand_escapes : List ℕ → List ℕ
unfolding replace_all escape unescape
expand_escapes s = replace_all unescape 0 (replace_all escape 0 s)

abbrev pub starts_name : ℕ → Bool
starts_name c = is_ascii_letter c || eqb c b'_'

unfoldable pub name_rest : List ℕ → List ℕ
name_rest [] = []
name_rest (c ∷ s) = let rest = name_rest s in if starts_name c || is_decimal c then c ∷ rest else []

-- `[A-Za-z_][A-Za-z0-9_]*` at the start, the longest.
unfoldable pub name_at : List ℕ → Option (List ℕ)
unfolding name_rest
name_at [] = none
name_at (c ∷ s) = if starts_name c then some (c ∷ name_rest s) else none

abbrev closes : List ℕ → List ℕ → Bool
closes [] (c ∷ s) = eqb c b'}'
closes (n ∷ name) (c ∷ s) = closes name s
closes _ [] = false

-- `\$\{([A-Za-z_][A-Za-z0-9_]*)\}` at the start.
unfoldable pub braced : List ℕ → Option (List ℕ)
unfolding name_at
braced (c ∷ d ∷ s) =
    if eqb c b'$' && eqb d b'{'
    then (elim (name_at s) [ none ↦ none | some name ↦ if closes name s then some name else none ])
    else none
braced _ = none

abbrev map_option : {A B : Type 0} → (A → B) → Option A → Option B
map_option f none = none
map_option f (some a) = some (f a)

module _ (lookup_env : List ℕ → Option (List ℕ)) (vars : Vars) where
  abbrev or_env : List ℕ → Option (List ℕ) → Option (List ℕ)
  or_env name (some v) = some v
  or_env name none = lookup_env name

  unfoldable pub value_of : List ℕ → Option (List ℕ)
  unfolding get
  value_of name = or_env name (get name vars)

  abbrev or_text : List ℕ → Option (List ℕ) → List ℕ
  or_text s none = s
  or_text s (some v) = v

  -- What stands for a match of `expandVarRegex`.
  unfoldable pub expand_braced : List ℕ → Option (List ℕ × ℕ)
  unfolding braced value_of
  expand_braced [] = none
  expand_braced (c ∷ s) =
      if eqb c b'\\'
      then map_option (λ name. (text "${" ++ (name ++ text "}"), suc (suc (suc (length name)))))
          (braced s)
      else map_option (λ name. (or_text [] (value_of name), suc (suc (length name))))
          (braced (c ∷ s))

  -- What stands for a match of `simpleVarRegex`.
  unfoldable pub expand_simple : List ℕ → Option (List ℕ × ℕ)
  unfolding name_at value_of
  expand_simple [] = none
  expand_simple (c ∷ s) =
      if eqb c b'$'
      then map_option (λ name. (or_text (c ∷ name) (value_of name), length name)) (name_at s)
      else none

  -- `expandVariables`
  unfoldable pub expand_variables : List ℕ → List ℕ
  unfolding replace_all expand_braced expand_simple
  expand_variables v = replace_all expand_simple 0 (replace_all expand_braced 0 v)

-- The line without a comment that a blank stands before: `strings.Cut(line, " #")`.
unfoldable pub before_comment : List ℕ → List ℕ
before_comment [] = []
before_comment (c ∷ []) = c ∷ []
before_comment (c ∷ d ∷ s) =
    let rest = before_comment (d ∷ s) in if eqb c 32 && eqb d b'#' then [] else c ∷ rest

abbrev pub or_line : List ℕ → List ℕ → List ℕ
or_line line [] = line
or_line line (c ∷ s) = c ∷ s

abbrev pub is_quote : ℕ → Bool
is_quote c = eqb c b'\'' || eqb c b'"'

abbrev pub carriage_return : List ℕ → Option (List ℕ × ℕ)
carriage_return (c ∷ d ∷ s) = if eqb c 13 && eqb d 10 then some (10 ∷ [], 1) else none
carriage_return _ = none

-- `bytes.ReplaceAll(src, "\r\n", "\n")`
unfoldable pub unix_lines : List ℕ → List ℕ
unfolding replace_all
unix_lines src = replace_all carriage_return 0 src

-- What the loop of the parser comes to, within a number of rounds.
pub data Outcome : Type 0 where
  ran_out refused : Outcome
  parsed : Vars → Outcome

module _ (lookup_env : List ℕ → Option (List ℕ)) where
  abbrev pub unquoted : Vars → List ℕ → List ℕ × List ℕ
  unquoted vars src = (
    expand_variables lookup_env vars
        (trim_right_blanks (or_line (first_line src) (before_comment (first_line src)))),
    after_line src,
  )

  abbrev quoted : Vars → ℕ → List ℕ × List ℕ → List ℕ × List ℕ
  quoted vars quote (raw, rest) = (
    (if eqb quote b'"' then expand_variables lookup_env vars (expand_escapes raw) else raw),
    after_line rest,
  )

  -- `extractVarValue`
  unfoldable pub extract_var_value : List ℕ → Vars → Option (List ℕ × List ℕ)
  unfolding scan_quoted first_line after_line before_comment trim_right_blanks
  extract_var_value [] vars = some ([], [])
  extract_var_value (c ∷ s) vars =
      if is_quote c
      then (elim (scan_quoted c c s) [ none ↦ none | some found ↦ some (quoted vars c found) ])
      else some (unquoted vars (c ∷ s))

  -- The loop of `parseEnvBytes`.
  unfoldable pub parse_statements : ℕ → List ℕ → Vars → Outcome
  parse_statements zero src vars = ran_out
  parse_statements (suc fuel) src vars = elim (find_statement_start src) [
    | none ↦ parsed vars
    | some statement ↦ elim (locate_key_name statement) [
      | none ↦ refused
      | some (key, left) ↦ elim (extract_var_value left vars) [
        | none ↦ refused
        | some (value, rest) ↦ parse_statements fuel rest ((key, value) ∷ vars)
      ]
    ]
  ]

  -- `parseEnvBytes`: a round reads at least one byte.
  unfoldable pub parse_env_bytes : List ℕ → Outcome
  parse_env_bytes src = parse_statements (suc (length (unix_lines src))) (unix_lines src) []
