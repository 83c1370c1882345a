-- ===== src/Config/Bytes.antt =====
-- What internal/config/loadenv.go uses of Go's packages bytes, strings, unicode and regexp, on
-- sequences of bytes.
use nexus_control.Base.{
  ℕ, zero, suc, Bool, ◌&&◌, ◌||◌, Option, none, some, List, [], ◌∷◌, ◌++◌, leb, eqb, if◌then◌else◌,
}

-- `unicode.IsSpace` of a rune below 256.
abbrev pub is_latin_space : ℕ → Bool
is_latin_space c = leb 9 c && leb c 13 || eqb c 32 || eqb c 0x85 || eqb c 0xA0

-- `unicode.IsLetter` of a rune below 256.
abbrev pub is_latin_letter : ℕ → Bool
is_latin_letter c =
    leb b'A' c && leb c b'Z'
    || leb b'a' c && leb c b'z'
    || eqb c 0xAA
    || eqb c 0xB5
    || eqb c 0xBA
    || leb 0xC0 c && leb c 0xD6
    || leb 0xD8 c && leb c 0xF6
    || leb 0xF8 c && leb c 0xFF

abbrev pub is_decimal : ℕ → Bool
is_decimal c = leb b'0' c && leb c b'9'

abbrev pub is_ascii_letter : ℕ → Bool
is_ascii_letter c = leb b'A' c && leb c b'Z' || leb b'a' c && leb c b'z'

abbrev ascii_space : ℕ → Bool
ascii_space c = leb 9 c && leb c 13 || eqb c 32

-- The spaces that UTF-8 encodes in two and in three bytes.
abbrev two_byte_space : ℕ → ℕ → Bool
two_byte_space c d = eqb c 0xC2 && (eqb d 0x85 || eqb d 0xA0)

abbrev three_byte_space : ℕ → ℕ → ℕ → Bool
three_byte_space c d e =
    eqb c 0xE1 && (eqb d 0x9A && eqb e 0x80)
    || eqb c 0xE2
      && (eqb d 0x80 && (leb 0x80 e && leb e 0x8A || eqb e 0xA8 || eqb e 0xA9 || eqb e 0xAF)
          || eqb d 0x81 && eqb e 0x9F)
    || eqb c 0xE3 && (eqb d 0x80 && eqb e 0x80)

-- The number of bytes of the space at the start, 0 if there is none.
unfoldable pub space_width : List ℕ → ℕ
space_width [] = 0
space_width (c ∷ []) = if ascii_space c then 1 else 0
space_width (c ∷ d ∷ []) = if ascii_space c then 1 else if two_byte_space c d then 2 else 0
space_width (c ∷ d ∷ e ∷ s) =
    if ascii_space c
    then 1
    else if two_byte_space c d
    then 2
    else if three_byte_space c d e
    then 3
    else 0

-- The same at the end, for the reversed bytes.
unfoldable pub space_width_back : List ℕ → ℕ
space_width_back [] = 0
space_width_back (c ∷ []) = if ascii_space c then 1 else 0
space_width_back (d ∷ c ∷ []) = if ascii_space d then 1 else if two_byte_space c d then 2 else 0
space_width_back (e ∷ d ∷ c ∷ s) =
    if ascii_space e
    then 1
    else if two_byte_space d e
    then 2
    else if three_byte_space c d e
    then 3
    else 0

-- Bytes are dropped as long as `width` gives their number; `k` of them are still to go.
unfoldable pub drop_runes : (List ℕ → ℕ) → ℕ → List ℕ → List ℕ
drop_runes width k [] = []
drop_runes width (suc k) (c ∷ s) = drop_runes width k s
drop_runes width zero (c ∷ s) = elim (width (c ∷ s)) [ zero ↦ c ∷ s | suc k ↦ drop_runes width k s ]

-- `bytes.TrimLeftFunc(s, unicode.IsSpace)`.
unfoldable pub trim_left_spaces : List ℕ → List ℕ
unfolding drop_runes space_width
trim_left_spaces s = drop_runes space_width 0 s

abbrev pub reverse_onto : List ℕ → List ℕ → List ℕ
reverse_onto [] r = r
reverse_onto (c ∷ s) r = reverse_onto s (c ∷ r)

-- `strings.TrimRightFunc(s, unicode.IsSpace)`.
unfoldable pub trim_right_spaces : List ℕ → List ℕ
unfolding drop_runes space_width_back
trim_right_spaces s = reverse_onto (drop_runes space_width_back 0 (reverse_onto s [])) []

abbrev pub is_blank : ℕ → Bool
is_blank c = eqb c 32 || eqb c 9

-- `TrimLeft(s, " \t")` and `TrimRight(s, " \t")`.
unfoldable pub trim_left_blanks : List ℕ → List ℕ
trim_left_blanks [] = []
trim_left_blanks (c ∷ s) = if is_blank c then trim_left_blanks s else c ∷ s

unfoldable pub trim_right_blanks : List ℕ → List ℕ
unfolding trim_left_blanks
trim_right_blanks s = reverse_onto (trim_left_blanks (reverse_onto s [])) []

-- `bytes.HasPrefix(s, prefix)` and `s[len(prefix):]`, if it has.
unfoldable pub after_prefix : List ℕ → List ℕ → Option (List ℕ)
after_prefix [] s = some s
after_prefix (p ∷ prefix) [] = none
after_prefix (p ∷ prefix) (c ∷ s) = if eqb p c then after_prefix prefix s else none

-- The bytes before the first newline, and those after it.
unfoldable pub first_line : List ℕ → List ℕ
first_line [] = []
first_line (c ∷ s) = if eqb c 10 then [] else c ∷ first_line s

unfoldable pub after_line : List ℕ → List ℕ
after_line [] = []
after_line (c ∷ s) = if eqb c 10 then s else after_line s

-- `ReplaceAll`: from left to right, what `found` finds at a position is replaced by the text that it
-- gives; the match ends the number of bytes that it gives behind its first. `k` bytes of a match are
-- still to go.
unfoldable pub replace_all : (List ℕ → Option (List ℕ × ℕ)) → ℕ → List ℕ → List ℕ
replace_all found k [] = []
replace_all found (suc k) (c ∷ s) = replace_all found k s
replace_all found zero (c ∷ s) = elim (found (c ∷ s)) [
  | none ↦ c ∷ replace_all found zero s
  | some (r, k) ↦ r ++ replace_all found k s
]
