-- ===== src/Config/DotEnvBounds.antt =====
-- The loop of the parser of `.env` files: how much of the file a round reads.
use nexus_control.Base.{
  ℕ, zero, suc, ◌<◌, ◌≤◌, ◌≡◌, ◌≢◌, sym, refl, Option, some, List, [], ◌∷◌, arith, length, text,
  inl, inr, ◌⊎◌, Option-cases,
}
use nexus_control.Config.Bytes.{
  drop_runes, trim_left_spaces, trim_right_spaces, trim_left_blanks, after_prefix, after_line,
  space_width,
}
use nexus_control.Config.DotEnv.{
  Vars, Seek, outside, seek, seek_statement, find_statement_start, scan_key, skip_export,
  locate_key_name, scan_quoted, extract_var_value, ran_out, parse_statements, parse_env_bytes,
  unix_lines, named,
}

ℕ-cases : (n : ℕ) → (n ≡ 0) ⊎ ((k : ℕ) × (n ≡ suc k))
ℕ-cases zero = inl refl
ℕ-cases (suc k) = inr (k, refl)

drop_runes_shortens :
    (width : List ℕ → ℕ) (k : ℕ) (s : List ℕ) → length (drop_runes width k s) ≤ length s
unfolding drop_runes
drop_runes_shortens width k [] = omega arith
drop_runes_shortens width (suc k) (c ∷ s) = ground (arith, drop_runes_shortens width k s)
drop_runes_shortens width zero (c ∷ s) = elim (ℕ-cases (width (c ∷ s))) [
  | inl f ↦ ground (arith, f)
  | inr (k, f) ↦ ground (arith, f, drop_runes_shortens width k s)
]

trim_left_blanks_shortens : (s : List ℕ) → length (trim_left_blanks s) ≤ length s
unfolding trim_left_blanks
trim_left_blanks_shortens [] = omega arith
trim_left_blanks_shortens (c ∷ s) = ground (arith, trim_left_blanks_shortens s)

after_line_shortens : (s : List ℕ) → length (after_line s) ≤ length s
unfolding after_line
after_line_shortens [] = omega arith
after_line_shortens (c ∷ s) = ground (arith, after_line_shortens s)

after_prefix_shortens : (p s r : List ℕ) → after_prefix p s ≡ some r → length r ≤ length s
unfolding after_prefix
after_prefix_shortens [] s r e = ground (arith, e)
after_prefix_shortens (p ∷ q) [] r e = cc
after_prefix_shortens (p ∷ q) (c ∷ s) r e = ground (arith, e, after_prefix_shortens q s r)

seek_statement_shortens :
    (at : Seek) (s r : List ℕ) → seek_statement at s ≡ some r → length r ≤ length s
unfolding seek_statement
seek_statement_shortens at [] r e = cc
seek_statement_shortens at (c ∷ s) r e = elim (Option-cases (seek at c s)) [
  | inl f ↦ ground (arith, e, f)
  | inr (next, f) ↦ ground (arith, e, f, seek_statement_shortens next s r)
]

scan_key_shortens : (s key r : List ℕ) → scan_key s ≡ some (key, r) → length r < length s
unfolding scan_key
scan_key_shortens [] key r e = cc
scan_key_shortens (c ∷ s) key r e = elim (Option-cases (scan_key s)) [
  | inl f ↦ ground (arith, e, f)
  | inr ((k, rest), f) ↦ ground (arith, e, f, scan_key_shortens s k rest f)
]

scan_quoted_shortens :
    (quote before : ℕ) (s raw r : List ℕ)
    → scan_quoted quote before s ≡ some (raw, r)
    → length r < length s
unfolding scan_quoted
scan_quoted_shortens quote before [] raw r e = cc
scan_quoted_shortens quote before (c ∷ s) raw r e = elim (Option-cases (scan_quoted quote c s)) [
  | inl f ↦ ground (arith, e, f)
  | inr ((k, rest), f) ↦ ground (arith, e, f, scan_quoted_shortens quote c s k rest f)
]

skip_export_shortens : (s : List ℕ) → length (skip_export s) ≤ length s
unfolding skip_export
skip_export_shortens s = elim (Option-cases (after_prefix (text "export ") s)) [
  | inl f ↦ ground (arith, f)
  | inr (r, f) ↦
      ground (arith, f, after_prefix_shortens (text "export ") s r f, trim_left_blanks_shortens r)
]

named_shortens : (key rest k r : List ℕ) → named key rest ≡ some (k, r) → length r ≤ length rest
named_shortens [] rest k r e = cc
named_shortens (c ∷ key) rest k r e = ground (arith, e, trim_left_blanks_shortens rest)

locate_key_name_shortens :
    (s key r : List ℕ) → locate_key_name s ≡ some (key, r) → length r < length s
unfolding locate_key_name trim_left_spaces
locate_key_name_shortens s key r e =
    elim (Option-cases (scan_key (skip_export (trim_left_spaces s)))) [
      | inl f ↦ ground (arith, e, f)
      | inr ((k, rest), f) ↦ ground (
        arith,
        f,
        named_shortens (trim_right_spaces k) rest key r (ground (arith, e, f)),
        scan_key_shortens (skip_export (trim_left_spaces s)) k rest f,
        skip_export_shortens (trim_left_spaces s),
        drop_runes_shortens space_width 0 s,
      )
    ]

extract_var_value_shortens :
    (lookup_env : List ℕ → Option (List ℕ)) (s : List ℕ) (vars : Vars) (value r : List ℕ)
    → extract_var_value lookup_env s vars ≡ some (value, r)
    → length r ≤ length s
unfolding extract_var_value
extract_var_value_shortens lookup_env [] vars value r e = ground (arith, e)
extract_var_value_shortens lookup_env (c ∷ s) vars value r e =
    elim (Option-cases (scan_quoted c c s)) [
      | inl f ↦ ground (arith, e, f, after_line_shortens (c ∷ s))
      | inr ((raw, rest), f) ↦ ground (
        arith,
        e,
        f,
        after_line_shortens rest,
        after_line_shortens (c ∷ s),
        scan_quoted_shortens c c s raw rest f,
      )
    ]

module _ (lookup_env : List ℕ → Option (List ℕ)) where
  round_shortens :
      (src s key left value rest : List ℕ) (vars : Vars)
      → find_statement_start src ≡ some s
      → locate_key_name s ≡ some (key, left)
      → extract_var_value lookup_env left vars ≡ some (value, rest)
      → length rest < length src
  unfolding find_statement_start
  round_shortens src s key left value rest vars f k v = omega (
    arith,
    seek_statement_shortens (outside 0) src s f,
    locate_key_name_shortens s key left k,
    extract_var_value_shortens lookup_env left vars value rest v,
  )

  abbrev Same : ℕ → ℕ → List ℕ → Vars → Type 0
  Same f g src vars =
      (parse_statements lookup_env f src vars ≡ parse_statements lookup_env g src vars)
      × (parse_statements lookup_env f src vars ≢ ran_out)

  later :
      (f g : ℕ) (src rest : List ℕ) (vars : Vars) {s key left value : List ℕ}
      → find_statement_start src ≡ some s
      → locate_key_name s ≡ some (key, left)
      → extract_var_value lookup_env left vars ≡ some (value, rest)
      → Same f g rest ((key, value) ∷ vars)
      → Same (suc f) (suc g) src vars
  unfolding parse_statements
  later f g src rest vars a b d (same, ends) =
      (ground (arith, a, b, d, same), λ e. ground (arith, a, b, d, ends, e))

  parse_statements-Same :
      (f g : ℕ) (src : List ℕ) (vars : Vars) → length src < f → length src < g → Same f g src vars
  unfolding parse_statements
  parse_statements-Same zero g src vars l m = absurd (omega (arith, l))
  parse_statements-Same (suc f) zero src vars l m = absurd (omega (arith, m))
  parse_statements-Same (suc f) (suc g) src vars l m =
      elim (Option-cases (find_statement_start src)) [
        | inl a ↦ (ground (arith, a), λ e. ground (arith, a, e))
        | inr (s, a) ↦ elim (Option-cases (locate_key_name s)) [
          | inl b ↦ (ground (arith, a, b), λ e. ground (arith, a, b, e))
          | inr ((key, left), b) ↦ elim (Option-cases (extract_var_value lookup_env left vars)) [
            | inl d ↦ (ground (arith, a, b, d), λ e. ground (arith, a, b, d, e))
            | inr ((value, rest), d) ↦ later f g src rest vars a b d (
                parse_statements-Same f g rest ((key, value) ∷ vars)
                  (omega (arith, l, round_shortens src s key left value rest vars a b d))
                  (omega (arith, m, round_shortens src s key left value rest vars a b d)))
          ]
        ]
      ]

  -- The parser of a `.env` file ends with the variables or with an error, never for want of rounds,
  -- and more rounds than the file has bytes come to the same.
  pub parse_env_bytes-ends :
      (src : List ℕ) (fuel : ℕ)
      → length (unix_lines src) < fuel
      → (parse_env_bytes lookup_env src ≢ ran_out)
        × (parse_statements lookup_env fuel (unix_lines src) [] ≡ parse_env_bytes lookup_env src)
  unfolding parse_env_bytes
  parse_env_bytes-ends src fuel l =
      let (same, ends) =
        parse_statements-Same (suc (length (unix_lines src))) fuel (unix_lines src) [] (omega arith)
          l in
      (ends, sym same)
