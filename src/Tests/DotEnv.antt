-- ===== src/Tests/DotEnv.antt =====
-- A `.env` file with a comment, an exported variable, quotes, escapes and references.
use nexus_control.Base.{
  ℕ, ◌≡◌, ◌≢◌, refl, Option, none, List, [], ◌∷◌, ◌++◌, text, length, ◌<◌, arith, dec_text,
}
use nexus_control.Config.Bytes.{
  space_width, space_width_back, drop_runes, trim_left_spaces, trim_right_spaces, trim_left_blanks,
  trim_right_blanks, after_prefix, first_line, after_line, replace_all,
}
use nexus_control.Config.DotEnv.{
  find_statement_start, seek_statement, seek, locate_key_name, scan_key, skip_export,
  extract_var_value, scan_quoted, expand_escapes, escape, unescape, expand_variables, expand_braced,
  expand_simple, braced, name_at, name_rest, value_of, get, before_comment, Vars, parsed, refused,
  ran_out, parse_env_bytes, parse_statements, unix_lines,
}
use nexus_control.Config.DotEnvRoundTrip.{lines_of, read_onto, parse_env_bytes-lines_of}
use nexus_control.Config.DotEnvBounds.{parse_env_bytes-ends}

-- No variable is set in the environment.
abbrev unset : List ℕ → Option (List ℕ)
unset name = none

abbrev file : List ℕ
file =
    text "# hosts"
    ++ (10 ∷ text "export A = one  # first")
    ++ (13 ∷ 10 ∷ text "B=\"$A-${A}\"" ++ (10 ∷ text "C=" ++ (10 ∷ text "D='$A'")))

parse_file :
    parse_env_bytes unset file
    ≡ parsed (
        (text "D", text "$A")
        ∷ (text "C", [])
        ∷ (text "B", text "one-one")
        ∷ (text "A", text "one")
        ∷ [])
unfolding parse_env_bytes parse_statements unix_lines find_statement_start seek_statement seek
    locate_key_name scan_key skip_export extract_var_value scan_quoted expand_escapes escape
    unescape expand_variables expand_braced expand_simple braced name_at name_rest value_of get
    before_comment drop_runes space_width space_width_back trim_left_spaces trim_right_spaces
    trim_left_blanks trim_right_blanks after_prefix first_line after_line replace_all dec_text
parse_file = refl

few_lines : length (unix_lines (text "A=1")) < 9
unfolding unix_lines replace_all
few_lines = omega arith

parse_env_bytes-ends_example :
    (parse_env_bytes unset (text "A=1") ≢ ran_out)
    × (parse_statements unset 9 (unix_lines (text "A=1")) [] ≡ parse_env_bytes unset (text "A=1"))
parse_env_bytes-ends_example = parse_env_bytes-ends unset (text "A=1") 9 few_lines

-- A line without a sign is joined with the next one into a key.
joined_lines :
    parse_env_bytes unset (text "FOO" ++ (10 ∷ text "BAR=1"))
    ≡ parsed ((text "FOO" ++ (10 ∷ text "BAR"), text "1") ∷ [])
unfolding parse_env_bytes parse_statements unix_lines find_statement_start seek_statement seek
    locate_key_name scan_key skip_export extract_var_value scan_quoted expand_escapes escape
    unescape expand_variables expand_braced expand_simple braced name_at name_rest value_of get
    before_comment drop_runes space_width space_width_back trim_left_spaces trim_right_spaces
    trim_left_blanks trim_right_blanks after_prefix first_line after_line replace_all dec_text
joined_lines = refl

-- A quote after an escaped backslash does not close the value.
unclosed : parse_env_bytes unset (text "A=\"x\\\\\"") ≡ refused
unfolding parse_env_bytes parse_statements unix_lines find_statement_start seek_statement seek
    locate_key_name scan_key skip_export extract_var_value scan_quoted expand_escapes escape
    unescape expand_variables expand_braced expand_simple braced name_at name_rest value_of get
    before_comment drop_runes space_width space_width_back trim_left_spaces trim_right_spaces
    trim_left_blanks trim_right_blanks after_prefix first_line after_line replace_all dec_text
unclosed = refl

abbrev written : Vars
written = (text "PORT", text "8080") ∷ (text "HOST", text "#1") ∷ (text "PORT", []) ∷ []

parse_env_bytes-lines_of_example :
    parse_env_bytes unset (lines_of written) ≡ parsed (read_onto [] written)
parse_env_bytes-lines_of_example = parse_env_bytes-lines_of unset written refl
