-- ===== src/Config/PlainText.antt =====
-- Plain characters in a `.env` file, and what the parser does with them.
use nexus_control.Base.{
  ℕ, ◌≡◌, ap, ◌∙◌, refl, Bool, true, false, ◌&&◌, ◌||◌, not, Option, none, some, List, [], ◌∷◌,
  ◌++◌, arith, eqb, leb, any,
}
use nexus_control.Config.Bytes.{
  drop_runes, trim_right_spaces, trim_left_blanks, trim_right_blanks, after_prefix, first_line,
  after_line, space_width, space_width_back, replace_all, reverse_onto, is_decimal,
}
use nexus_control.Config.DotEnv.{
  Vars, seek, seek_statement, find_statement_start, scan_key, braced, ends_key, is_key_char,
  starts_name, before_comment, expand_braced, expand_simple, expand_variables,
}

abbrev pub all_are : (ℕ → Bool) → List ℕ → Bool
all_are p [] = true
all_are p (c ∷ s) = p c && all_are p s

-- A character of a key, and one of a value: visible ASCII, neither a quote nor a dollar sign.
abbrev pub is_name : ℕ → Bool
is_name c = starts_name c || is_decimal c

abbrev pub is_visible : ℕ → Bool
is_visible c = leb 33 c && leb c 126

abbrev pub is_plain : ℕ → Bool
is_plain c = is_visible c && not (eqb c b'"' || (eqb c b'\'' || eqb c b'$'))

module _ (c : ℕ) (v : is_visible c ≡ true) where
  pub space_width-visible : (s : List ℕ) → space_width (c ∷ s) ≡ 0
  unfolding space_width
  space_width-visible [] = ground (arith, v)
  space_width-visible (d ∷ []) = ground (arith, v)
  space_width-visible (d ∷ e ∷ s) = ground (arith, v)

  space_width_back-visible : (s : List ℕ) → space_width_back (c ∷ s) ≡ 0
  unfolding space_width_back
  space_width_back-visible [] = ground (arith, v)
  space_width_back-visible (d ∷ []) = ground (arith, v)
  space_width_back-visible (d ∷ e ∷ s) = ground (arith, v)

  pub drop_runes-visible :
      (width : List ℕ → ℕ) (s : List ℕ) → width (c ∷ s) ≡ 0 → drop_runes width 0 (c ∷ s) ≡ c ∷ s
  unfolding drop_runes
  drop_runes-visible width s h = ground (arith, h)

  pub find_statement_start-visible :
      (s : List ℕ) → eqb c b'#' ≡ false → find_statement_start (c ∷ s) ≡ some (c ∷ s)
  unfolding find_statement_start seek_statement seek
  find_statement_start-visible s h = ground (arith, h, space_width-visible s)

reverse_onto-twice : (s a b : List ℕ) → reverse_onto (reverse_onto s a) b ≡ reverse_onto a (s ++ b)
reverse_onto-twice [] a b = refl
reverse_onto-twice (c ∷ s) a b = reverse_onto-twice s (c ∷ a) b

append_nil : (s : List ℕ) → s ++ [] ≡ s
append_nil [] = refl
append_nil (c ∷ s) = ap (λ t. c ∷ t) (append_nil s)

reversed : (s : List ℕ) → reverse_onto (reverse_onto s []) [] ≡ s
reversed s = reverse_onto-twice s [] [] ∙ append_nil s

all_are-reverse :
    (p : ℕ → Bool) (s a : List ℕ) → all_are p (reverse_onto s a) ≡ all_are p s && all_are p a
all_are-reverse p [] a = refl
all_are-reverse p (c ∷ s) a = ground (arith, all_are-reverse p s (c ∷ a))

drop_back : (s : List ℕ) → all_are is_visible s ≡ true → drop_runes space_width_back 0 s ≡ s
unfolding drop_runes
drop_back [] h = refl
drop_back (c ∷ s) h =
    drop_runes-visible c (ground (arith, h)) space_width_back s
      (space_width_back-visible c (ground (arith, h)) s)

blanks_back : (s : List ℕ) → all_are is_visible s ≡ true → trim_left_blanks s ≡ s
unfolding trim_left_blanks
blanks_back [] h = refl
blanks_back (c ∷ s) h = ground (arith, h)

pub trim_right_spaces-visible : (s : List ℕ) → all_are is_visible s ≡ true → trim_right_spaces s ≡ s
unfolding trim_right_spaces
trim_right_spaces-visible s h =
    ap (λ t. reverse_onto t [])
      (drop_back (reverse_onto s []) (all_are-reverse is_visible s [] ∙ ground (arith, h)))
    ∙ reversed s

pub trim_right_blanks-visible : (s : List ℕ) → all_are is_visible s ≡ true → trim_right_blanks s ≡ s
unfolding trim_right_blanks
trim_right_blanks-visible s h =
    ap (λ t. reverse_onto t [])
      (blanks_back (reverse_onto s []) (all_are-reverse is_visible s [] ∙ ground (arith, h)))
    ∙ reversed s

pub after_prefix-key :
    (p key t : List ℕ)
    → all_are is_name key ≡ true
    → any (λ c. eqb c b'=') p ≡ false
    → any (λ c. not (is_name c)) p ≡ true
    → after_prefix p (key ++ b'=' ∷ t) ≡ none
unfolding after_prefix any
after_prefix-key [] key t k n m = absurd (cc)
after_prefix-key (c ∷ p) [] t k n m = ground (arith, n)
after_prefix-key (c ∷ p) (d ∷ key) t k n m = ground (arith, n, m, k, after_prefix-key p key t)

ends_key-name : (c : ℕ) → is_name c ≡ true → ends_key c ≡ false
ends_key-name c h = ground (arith, h)

is_key_char-name : (c : ℕ) → is_name c ≡ true → is_key_char c ≡ true
is_key_char-name c h = ground (arith, h)

scan_step :
    (c : ℕ) (s key t : List ℕ)
    → ends_key c ≡ false
    → is_key_char c ≡ true
    → scan_key s ≡ some (key, t)
    → scan_key (c ∷ s) ≡ some (c ∷ key, t)
unfolding scan_key
scan_step c s key t e k h = rw e (rw k (rw h refl))

pub scan_key-key :
    (key t : List ℕ) → all_are is_name key ≡ true → scan_key (key ++ b'=' ∷ t) ≡ some (key, t)
unfolding scan_key
scan_key-key [] t k = refl
scan_key-key (c ∷ key) t k =
    scan_step c _ key t (ends_key-name c (ground (arith, k)))
      (is_key_char-name c (ground (arith, k))) (scan_key-key key t (ground (arith, k)))

pub replace_all-none :
    (found : List ℕ → Option (List ℕ × ℕ)) (p : ℕ → Bool)
    → ((c : ℕ) (s : List ℕ) → p c ≡ true → all_are p s ≡ true → found (c ∷ s) ≡ none)
    → (s : List ℕ) → all_are p s ≡ true
    → replace_all found 0 s ≡ s
unfolding replace_all
replace_all-none found p n [] h = refl
replace_all-none found p n (c ∷ s) h = ground (
  arith,
  h,
  n c s (ground (arith, h)) (ground (arith, h)),
  replace_all-none found p n s (ground (arith, h)),
)

module _ (lookup_env : List ℕ → Option (List ℕ)) (vars : Vars) where
  expand_simple-plain :
      (c : ℕ) (s : List ℕ)
      → is_plain c ≡ true
      → all_are is_plain s ≡ true
      → expand_simple lookup_env vars (c ∷ s) ≡ none
  unfolding expand_simple
  expand_simple-plain c s h k = ground (arith, h)

  braced-plain : (s : List ℕ) → all_are is_plain s ≡ true → braced s ≡ none
  unfolding braced
  braced-plain [] k = refl
  braced-plain (c ∷ []) k = refl
  braced-plain (c ∷ d ∷ s) k = ground (arith, k)

  expand_braced-plain :
      (c : ℕ) (s : List ℕ)
      → is_plain c ≡ true
      → all_are is_plain s ≡ true
      → expand_braced lookup_env vars (c ∷ s) ≡ none
  unfolding expand_braced
  expand_braced-plain c s h k =
      ground (arith, h, braced-plain s k, braced-plain (c ∷ s) (ground (arith, h, k)))

  pub expand_variables-plain :
      (s : List ℕ) → all_are is_plain s ≡ true → expand_variables lookup_env vars s ≡ s
  unfolding expand_variables
  expand_variables-plain s h =
      ap (replace_all (expand_simple lookup_env vars) 0)
        (replace_all-none (expand_braced lookup_env vars) is_plain expand_braced-plain s h)
      ∙ replace_all-none (expand_simple lookup_env vars) is_plain expand_simple-plain s h

pub first_line-visible :
    (v rest : List ℕ) → all_are is_visible v ≡ true → first_line (v ++ 10 ∷ rest) ≡ v
unfolding first_line
first_line-visible [] rest h = refl
first_line-visible (c ∷ v) rest h = ground (arith, h, first_line-visible v rest)

pub after_line-visible :
    (v rest : List ℕ) → all_are is_visible v ≡ true → after_line (v ++ 10 ∷ rest) ≡ rest
unfolding after_line
after_line-visible [] rest h = refl
after_line-visible (c ∷ v) rest h = ground (arith, h, after_line-visible v rest)

pub before_comment-visible : (v : List ℕ) → all_are is_visible v ≡ true → before_comment v ≡ v
unfolding before_comment
before_comment-visible [] h = refl
before_comment-visible (c ∷ []) h = refl
before_comment-visible (c ∷ d ∷ v) h = ground (arith, h, before_comment-visible (d ∷ v))

pub visible_plain : (s : List ℕ) → all_are is_plain s ≡ true → all_are is_visible s ≡ true
visible_plain [] h = refl
visible_plain (c ∷ s) h = ground (arith, h, visible_plain s)

pub visible_name : (s : List ℕ) → all_are is_name s ≡ true → all_are is_visible s ≡ true
visible_name [] h = refl
visible_name (c ∷ s) h = ground (arith, h, visible_name s)
