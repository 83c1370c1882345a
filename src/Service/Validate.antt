-- ===== src/Service/Validate.antt =====
-- internal/service/auth/validate.go: the input that the service accepts. A text that is refused is
-- `none`, whatever its message.
use nexus_control.Base.{
  ℕ, ◌+◌, Bool, true, ◌&&◌, ◌||◌, not, Option, none, some, [], ◌∷◌, Text, text, leb, ltb, eqb, ◌==◌,
  if◌then◌else◌,
}
use nexus_control.Strings.{trim_space, len}
use nexus_control.Schema.{Role, role_owner, role_admin, role_member}

-- `unicode.ToLower` where its value is ASCII: the letters A to Z, İ and the Kelvin sign. Any other
-- code point stays outside ASCII, and so stays itself here.
unfoldable pub lower : ℕ → ℕ
lower c =
    if leb 65 c && leb c 90
    then c + 32
    else if eqb c 0x130
    then 105
    else if eqb c 0x212A
    then 107
    else c

-- `strings.ToLower`
unfoldable pub to_lower : Text → Text
unfolding lower
to_lower [] = []
to_lower (c ∷ s) = lower c ∷ to_lower s

abbrev pub is_lower_letter : ℕ → Bool
is_lower_letter c = leb 97 c && leb c 122

abbrev pub is_digit : ℕ → Bool
is_digit c = leb 48 c && leb c 57

-- A letter in lower case, a digit, or one of `-_.`.
unfoldable pub username_char : ℕ → Bool
username_char c = is_lower_letter c || (is_digit c || (eqb c 45 || (eqb c 95 || eqb c 46)))

-- A letter, a digit, or one of `._:-`.
unfoldable pub request_char : ℕ → Bool
request_char c =
    is_lower_letter c
    || (leb 65 c && leb c 90 || (is_digit c || (eqb c 46 || (eqb c 95 || (eqb c 58 || eqb c 45)))))

-- The loop over the runes of a text.
unfoldable pub every_char : (ℕ → Bool) → Text → Bool
every_char ok_char [] = true
every_char ok_char (c ∷ s) = ok_char c && every_char ok_char s

unfoldable pub checked : ℕ → ℕ → (ℕ → Bool) → Text → Option Text
checked low high ok_char s =
    if ltb (len s) low || ltb high (len s)
    then none
    else (if every_char ok_char s then some s else none)

-- `normalizeUsername`
unfoldable pub normalize_username : Text → Option Text
unfolding checked
normalize_username value = checked 3 64 username_char (to_lower (trim_space value))

-- `normalizeRequestID`
unfoldable pub normalize_request_id : Text → Option Text
unfolding checked
normalize_request_id value = checked 8 128 request_char (trim_space value)

-- `validatePassword`: whether the password is accepted.
unfoldable pub validate_password : Text → Bool
validate_password value = not (ltb (len value) 8) && not (ltb 1024 (len value))

-- `normalizeRole`
unfoldable pub role_of_text : Text → Option Role
role_of_text value =
    if value == [] || value == text "member"
    then some role_member
    else if value == text "owner"
    then some role_owner
    else if value == text "admin"
    then some role_admin
    else none

unfoldable pub normalize_role : Text → Option Role
unfolding role_of_text
normalize_role value = role_of_text (trim_space value)
