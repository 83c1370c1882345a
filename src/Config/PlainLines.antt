-- ===== src/Config/PlainLines.antt =====
-- How the parser of `.env` files reads a plain line.
use nexus_control.Base.{
  ℕ, suc, ◌≡◌, ap, ◌∙◌, refl, true, false, Option, none, some, List, [], ◌∷◌, ◌++◌, arith, text,
  any,
}
use nexus_control.Config.Bytes.{
  trim_left_spaces, trim_right_spaces, trim_left_blanks, trim_right_blanks, after_prefix,
  first_line, space_width,
}
use nexus_control.Config.DotEnv.{
  Vars, find_statement_start, scan_key, skip_export, locate_key_name, or_line, is_quote, unquoted,
  before_comment, expand_variables, extract_var_value, parse_statements,
}
use nexus_control.Config.PlainText.{
  all_are, is_name, is_visible, is_plain, space_width-visible, drop_runes-visible,
  find_statement_start-visible, trim_right_spaces-visible, trim_right_blanks-visible,
  after_prefix-key, scan_key-key, expand_variables-plain, first_line-visible, after_line-visible,
  before_comment-visible, visible_plain, visible_name,
}

trim_left_blanks-line :
    (v rest : List ℕ)
    → all_are is_visible v ≡ true
    → trim_left_blanks (v ++ 10 ∷ rest) ≡ v ++ 10 ∷ rest
unfolding trim_left_blanks
trim_left_blanks-line [] rest h = refl
trim_left_blanks-line (c ∷ v) rest h = ground (arith, h)

locate_of :
    (src a key t k : List ℕ) (c : ℕ)
    → skip_export (trim_left_spaces src) ≡ a
    → scan_key a ≡ some (key, t)
    → trim_right_spaces key ≡ c ∷ k
    → locate_key_name src ≡ some (c ∷ k, trim_left_blanks t)
unfolding locate_key_name
locate_of src a key t k c e f g = ground (arith, e, f, g)

skip_export-none : (s : List ℕ) → after_prefix (text "export ") s ≡ none → skip_export s ≡ s
unfolding skip_export
skip_export-none s e = ground (arith, e)

trim_left_spaces-visible :
    (c : ℕ) (s : List ℕ) → is_visible c ≡ true → trim_left_spaces (c ∷ s) ≡ c ∷ s
unfolding trim_left_spaces
trim_left_spaces-visible c s v = drop_runes-visible c v space_width s (space_width-visible c v s)

locate_key_name-line :
    (c : ℕ) (key t : List ℕ)
    → all_are is_name (c ∷ key) ≡ true
    → locate_key_name (c ∷ (key ++ b'=' ∷ t)) ≡ some (c ∷ key, trim_left_blanks t)
unfolding any
locate_key_name-line c key t h =
    let v = visible_name (c ∷ key) h in
    locate_of (c ∷ (key ++ b'=' ∷ t)) (c ∷ (key ++ b'=' ∷ t)) (c ∷ key) t key c
      (ap skip_export (trim_left_spaces-visible c (key ++ b'=' ∷ t) (ground (arith, v)))
        ∙ skip_export-none (c ∷ (key ++ b'=' ∷ t))
            (after_prefix-key (text "export ") (c ∷ key) t h refl refl))
      (scan_key-key (c ∷ key) t h) (trim_right_spaces-visible (c ∷ key) v)

is_quote-plain : (c : ℕ) → is_plain c ≡ true → is_quote c ≡ false
is_quote-plain c h = ground (arith, h)

or_line-same : (v : List ℕ) → or_line v v ≡ v
or_line-same [] = refl
or_line-same (c ∷ v) = refl

module _ (lookup_env : List ℕ → Option (List ℕ)) where
  value_line :
      (v w : List ℕ) (vars : Vars)
      → all_are is_plain v ≡ true
      → w ≡ v
      → expand_variables lookup_env vars (trim_right_blanks (or_line w (before_comment w))) ≡ v
  value_line v w vars h e =
      let s = visible_plain v h in
      rw e (
        rw (before_comment-visible v s) (
          rw (or_line-same v)
            (rw (trim_right_blanks-visible v s) (expand_variables-plain lookup_env vars v h))))

  unquoted-line :
      (v rest : List ℕ) (vars : Vars)
      → all_are is_plain v ≡ true
      → unquoted lookup_env vars (v ++ 10 ∷ rest) ≡ (v, rest)
  unquoted-line v rest vars h =
      let s = visible_plain v h in
      λ i. (
        value_line v (first_line (v ++ 10 ∷ rest)) vars h (first_line-visible v rest s) i,
        after_line-visible v rest s i,
      )

  extract_var_value-line :
      (v rest : List ℕ) (vars : Vars)
      → all_are is_plain v ≡ true
      → extract_var_value lookup_env (v ++ 10 ∷ rest) vars ≡ some (v, rest)
  unfolding extract_var_value
  extract_var_value-line [] rest vars h = ap some (unquoted-line [] rest vars h)
  extract_var_value-line (c ∷ v) rest vars h =
      rw (is_quote-plain c (ground (arith, h))) (ap some (unquoted-line (c ∷ v) rest vars h))

  statement_of :
      (fuel : ℕ) (src s key left value rest : List ℕ) (vars : Vars)
      → find_statement_start src ≡ some s
      → locate_key_name s ≡ some (key, left)
      → extract_var_value lookup_env left vars ≡ some (value, rest)
      → parse_statements lookup_env (suc fuel) src vars
        ≡ parse_statements lookup_env fuel rest ((key, value) ∷ vars)
  unfolding parse_statements
  statement_of fuel src s key left value rest vars a b d = ground (arith, a, b, d)

  pub parse_statements-line :
      (fuel c : ℕ) (key v rest : List ℕ) (vars : Vars)
      → all_are is_name (c ∷ key) ≡ true
      → all_are is_plain v ≡ true
      → parse_statements lookup_env (suc fuel) (c ∷ (key ++ b'=' ∷ (v ++ 10 ∷ rest))) vars
        ≡ parse_statements lookup_env fuel rest ((c ∷ key, v) ∷ vars)
  parse_statements-line fuel c key v rest vars k h =
      let w = visible_name (c ∷ key) k in
      statement_of fuel _ _ (c ∷ key) (v ++ 10 ∷ rest) v rest vars
        (find_statement_start-visible c (ground (arith, w)) (key ++ b'=' ∷ (v ++ 10 ∷ rest))
          (ground (arith, k)))
        (locate_key_name-line c key (v ++ 10 ∷ rest) k
          ∙ ap (λ t. some (c ∷ key, t)) (trim_left_blanks-line v rest (visible_plain v h)))
        (extract_var_value-line v rest vars h)
