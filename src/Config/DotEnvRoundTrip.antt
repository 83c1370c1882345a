-- ===== src/Config/DotEnvRoundTrip.antt =====
-- Files of plain lines, written and read.
use nexus_control.Base.{
  ℕ, zero, suc, ◌<◌, ◌≤◌, ◌≡◌, ap, ◌∙◌, refl, Bool, true, false, ◌&&◌, not, Option, none, List, [],
  ◌∷◌, ◌++◌, arith, length, eqb,
}
use nexus_control.Config.DotEnv.{
  Vars, seek_statement, find_statement_start, carriage_return, parsed, parse_statements,
  parse_env_bytes, unix_lines,
}
use nexus_control.Config.PlainText.{
  all_are, is_name, is_visible, is_plain, replace_all-none, visible_plain, visible_name,
}
use nexus_control.Config.PlainLines.{parse_statements-line}

-- Plain lines, and the variables that they stand for: a key has a character at least.
abbrev pub is_entry : List ℕ × List ℕ → Bool
is_entry ([], v) = false
is_entry (c ∷ key, v) = all_are is_name (c ∷ key) && all_are is_plain v

abbrev pub are_entries : Vars → Bool
are_entries [] = true
are_entries (e ∷ es) = is_entry e && are_entries es

abbrev pub lines_of : Vars → List ℕ
lines_of [] = []
lines_of ((key, v) ∷ es) = key ++ (b'=' ∷ (v ++ (10 ∷ lines_of es)))

-- The last line in front.
abbrev pub read_onto : Vars → Vars → Vars
read_onto vars [] = vars
read_onto vars (e ∷ es) = read_onto (e ∷ vars) es

abbrev no_return : ℕ → Bool
no_return c = not (eqb c 13)

visible_no_return : (s : List ℕ) → all_are is_visible s ≡ true → all_are no_return s ≡ true
visible_no_return [] h = refl
visible_no_return (c ∷ s) h = ground (arith, h, visible_no_return s)

all_are-append : (p : ℕ → Bool) (s t : List ℕ) → all_are p (s ++ t) ≡ all_are p s && all_are p t
all_are-append p [] t = refl
all_are-append p (c ∷ s) t = ground (arith, all_are-append p s t)

lines_of-no_return : (es : Vars) → are_entries es ≡ true → all_are no_return (lines_of es) ≡ true
lines_of-no_return [] h = refl
lines_of-no_return (([], v) ∷ es) h = cc
lines_of-no_return ((c ∷ key, v) ∷ es) h = ground (
  arith,
  h,
  lines_of-no_return es,
  all_are-append no_return (c ∷ key) (b'=' ∷ (v ++ (10 ∷ lines_of es))),
  all_are-append no_return v (10 ∷ lines_of es),
  visible_no_return (c ∷ key),
  visible_name (c ∷ key),
  visible_no_return v,
  visible_plain v,
)

carriage_return-none :
    (c : ℕ) (s : List ℕ)
    → no_return c ≡ true
    → all_are no_return s ≡ true
    → carriage_return (c ∷ s) ≡ none
carriage_return-none c [] h k = refl
carriage_return-none c (d ∷ s) h k = ground (arith, h)

unix_lines-lines_of : (es : Vars) → are_entries es ≡ true → unix_lines (lines_of es) ≡ lines_of es
unfolding unix_lines
unix_lines-lines_of es h =
    replace_all-none carriage_return no_return carriage_return-none (lines_of es)
      (lines_of-no_return es h)

length_append : (s t : List ℕ) → length t ≤ length (s ++ t)
length_append [] t = omega arith
length_append (c ∷ s) t = ground (arith, length_append s t)

module _ (lookup_env : List ℕ → Option (List ℕ)) where
  parse_statements-lines_of :
      (fuel : ℕ) (es vars : Vars)
      → are_entries es ≡ true
      → length (lines_of es) < fuel
      → parse_statements lookup_env fuel (lines_of es) vars ≡ parsed (read_onto vars es)
  unfolding parse_statements find_statement_start seek_statement
  parse_statements-lines_of zero es vars h l = absurd (omega (arith, l))
  parse_statements-lines_of (suc fuel) [] vars h l = refl
  parse_statements-lines_of (suc fuel) (([], v) ∷ es) vars h l = cc
  parse_statements-lines_of (suc fuel) ((c ∷ key, v) ∷ es) vars h l =
      parse_statements-line lookup_env fuel c key v (lines_of es) vars (ground (arith, h))
        (ground (arith, h))
      ∙ parse_statements-lines_of fuel es ((c ∷ key, v) ∷ vars) (ground (arith, h)) (
          ground (
            arith,
            l,
            length_append key (b'=' ∷ (v ++ (10 ∷ lines_of es))),
            length_append v (10 ∷ lines_of es),
          ))

  -- A file of lines `KEY=value`, its keys of letters, digits and `_` and its values of visible ASCII
  -- without quotes and dollar signs, is read as these keys with these values, the last in front.
  pub parse_env_bytes-lines_of :
      (es : Vars)
      → are_entries es ≡ true
      → parse_env_bytes lookup_env (lines_of es) ≡ parsed (read_onto [] es)
  unfolding parse_env_bytes
  parse_env_bytes-lines_of es h =
      ap (λ t. parse_statements lookup_env (suc (length t)) t []) (unix_lines-lines_of es h)
      ∙ parse_statements-lines_of (suc (length (lines_of es))) es [] h (omega arith)
