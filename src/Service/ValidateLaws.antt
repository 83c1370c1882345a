-- ===== src/Service/ValidateLaws.antt =====
-- What passes the checks of internal/service/auth/validate.go.
use nexus_control.Base.{
  ℕ, ◌≤◌, ◌≡◌, refl, sym, ap, ◌∙◌, inl, inr, Bool, true, false, ◌||◌, some, [], ◌∷◌, Text, ltb,
  arith, Bool-cases,
}
use nexus_control.Strings.{
  is_space, trim_left, keep_before, trim_right, trim_space, len, trim_space_idem,
}
use nexus_control.Service.Validate.{
  lower, to_lower, username_char, request_char, every_char, checked, normalize_username,
  normalize_request_id,
}

within :
    (low high : ℕ) (ok_char : ℕ → Bool) (s u : Text)
    → (ltb (len s) low || ltb high (len s)) ≡ false
    → every_char ok_char s ≡ true
    → s ≡ u
    → (s ≡ u) × (low ≤ len u) × (len u ≤ high) × (every_char ok_char u ≡ true)
within low high ok_char s u good every e =
    (e, rw (sym e) (ground (arith, good)), rw (sym e) (ground (arith, good)), rw (sym e) every)

every_char-cons :
    (ok_char : ℕ → Bool) (c : ℕ) (s : Text)
    → every_char ok_char (c ∷ s) ≡ true
    → (ok_char c ≡ true) × (every_char ok_char s ≡ true)
unfolding every_char
every_char-cons ok_char c s h = (ground (arith, h), ground (arith, h))

trim_left_ink : (c : ℕ) (s : Text) → is_space c ≡ false → trim_left (c ∷ s) ≡ c ∷ s
unfolding trim_left
trim_left_ink c s h = ground (arith, h)

keep_before_ink : (c : ℕ) (s : Text) → is_space c ≡ false → keep_before c s ≡ c ∷ s
unfolding keep_before
keep_before_ink c [] h = ground (arith, h)
keep_before_ink c (d ∷ s) h = refl

-- What `checked` lets through is the text itself, within its bounds and its characters.
checked-some :
    (low high : ℕ) (ok_char : ℕ → Bool) (s u : Text)
    → checked low high ok_char s ≡ some u
    → (s ≡ u) × (low ≤ len u) × (len u ≤ high) × (every_char ok_char u ≡ true)
unfolding checked
checked-some low high ok_char s u h = elim (Bool-cases (ltb (len s) low || ltb high (len s))) [
  | inl bad ↦ ground (arith, bad, h)
  | inr good ↦ elim (Bool-cases (every_char ok_char s)) [
    | inl every ↦ within low high ok_char s u good every (ground (arith, good, every, h))
    | inr none_of ↦ ground (arith, good, none_of, h)
  ]
]

username_char-is_space : (c : ℕ) → username_char c ≡ true → is_space c ≡ false
unfolding username_char is_space
username_char-is_space c h = ground (arith, h)

username_char-lower : (c : ℕ) → username_char c ≡ true → lower c ≡ c
unfolding username_char lower
username_char-lower c h = ground (arith, h)

to_lower-username : (s : Text) → every_char username_char s ≡ true → to_lower s ≡ s
unfolding to_lower
to_lower-username [] h = refl
to_lower-username (c ∷ s) h =
    let (one, rest) = every_char-cons username_char c s h in
    λ i. username_char-lower c one i ∷ to_lower-username s rest i

trim_right-username : (s : Text) → every_char username_char s ≡ true → trim_right s ≡ s
unfolding trim_right
trim_right-username [] h = refl
trim_right-username (c ∷ s) h =
    let (one, rest) = every_char-cons username_char c s h in
    ap (keep_before c) (trim_right-username s rest)
    ∙ keep_before_ink c s (username_char-is_space c one)

trim_space-username : (s : Text) → every_char username_char s ≡ true → trim_space s ≡ s
unfolding trim_space
trim_space-username [] h = refl
trim_space-username (c ∷ s) h =
    let (one, rest) = every_char-cons username_char c s h in
    ap trim_right (trim_left_ink c s (username_char-is_space c one)) ∙ trim_right-username (c ∷ s) h

checked-again :
    (low high : ℕ) (ok_char : ℕ → Bool) (u : Text)
    → low ≤ len u
    → len u ≤ high
    → every_char ok_char u ≡ true
    → checked low high ok_char u ≡ some u
unfolding checked
checked-again low high ok_char u a b e = ground (arith, a, b, e)

-- A username that is accepted has 3 to 64 bytes, consists of letters in lower case, digits and
-- `-_.`, and is accepted again as it is.
pub normalize_username_idem :
    (value u : Text)
    → normalize_username value ≡ some u
    → (3 ≤ len u)
      × (len u ≤ 64)
      × (every_char username_char u ≡ true)
      × (normalize_username u ≡ some u)
unfolding normalize_username
normalize_username_idem value u h =
    let (e, a, b, every) = checked-some 3 64 username_char (to_lower (trim_space value)) u h in
    (
      a,
      b,
      every,
      ap (λ x. checked 3 64 username_char (to_lower x)) (trim_space-username u every)
          ∙ (ap (checked 3 64 username_char) (to_lower-username u every)
              ∙ checked-again 3 64 username_char u a b every),
    )

-- A request number that is accepted has 8 to 128 bytes of letters, digits and `._:-`, and is
-- accepted again as it is.
pub normalize_request_id_idem :
    (value u : Text)
    → normalize_request_id value ≡ some u
    → (8 ≤ len u)
      × (len u ≤ 128)
      × (every_char request_char u ≡ true)
      × (normalize_request_id u ≡ some u)
unfolding normalize_request_id
normalize_request_id_idem value u h =
    let (e, a, b, every) = checked-some 8 128 request_char (trim_space value) u h in
    (
      a,
      b,
      every,
      ap (checked 8 128 request_char) (ap trim_space (sym e) ∙ (trim_space_idem value ∙ e))
          ∙ checked-again 8 128 request_char u a b every,
    )
