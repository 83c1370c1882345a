-- ===== src/Strings.antt =====
-- What the program uses of Go's packages strings and unicode, over code points, and
-- `nullableString` of internal/storage/auth/repository.go.
use Prim.Native.Nat.{◌/◌, ◌%◌}
use nexus_control.Base.{
  List, ◌++◌, ℕ, ◌+◌, ◌≡◌, refl, ap, ◌∙◌, Bool, true, false, ◌&&◌, ◌||◌, Option, none, some, [],
  ◌∷◌, Text, arith, leb, ltb, eqb, inl, inr, Bool-cases, if◌then◌else◌,
}

-- `unicode.IsSpace`.
unfoldable pub is_space : ℕ → Bool
is_space c =
    leb 9 c && leb c 13
    || eqb c 32
    || eqb c 0x85
    || eqb c 0xA0
    || eqb c 0x1680
    || leb 0x2000 c && leb c 0x200A
    || eqb c 0x2028
    || eqb c 0x2029
    || eqb c 0x202F
    || eqb c 0x205F
    || eqb c 0x3000

unfoldable pub trim_left : Text → Text
unfolding is_space
trim_left [] = []
trim_left (c ∷ s) = if is_space c then trim_left s else c ∷ s

-- The last step of a right trim: a space goes if nothing is left behind it.
unfoldable pub keep_before : ℕ → Text → Text
unfolding is_space
keep_before c [] = if is_space c then [] else c ∷ []
keep_before c (d ∷ s) = c ∷ d ∷ s

unfoldable pub trim_right : Text → Text
unfolding keep_before
trim_right [] = []
trim_right (c ∷ s) = keep_before c (trim_right s)

-- `strings.TrimSpace`.
unfoldable pub trim_space : Text → Text
unfolding trim_left trim_right
trim_space s = trim_right (trim_left s)

-- The bytes that UTF-8 takes for a code point, and `len` of a Go string.
unfoldable pub width : ℕ → ℕ
width c = if ltb c 0x80 then 1 else if ltb c 0x800 then 2 else if ltb c 0x10000 then 3 else 4

unfoldable pub len : Text → ℕ
unfolding width
len [] = 0
len (c ∷ s) = width c + len s

-- `[]byte(s)`: the bytes of UTF-8.
unfoldable pub utf8_char : ℕ → List ℕ
utf8_char c =
    if ltb c 0x80
    then c ∷ []
    else if ltb c 0x800
    then (0xC0 + c / 64) ∷ (0x80 + c % 64) ∷ []
    else if ltb c 0x10000
    then (0xE0 + c / 4096) ∷ (0x80 + c / 64 % 64) ∷ (0x80 + c % 64) ∷ []
    else (0xF0 + c / 262144) ∷ (0x80 + c / 4096 % 64) ∷ (0x80 + c / 64 % 64) ∷ (0x80 + c % 64) ∷ []

unfoldable pub utf8 : Text → List ℕ
unfolding utf8_char
utf8 [] = []
utf8 (c ∷ s) = utf8_char c ++ utf8 s

-- A text is blank if it is empty after `strings.TrimSpace`.
unfoldable pub is_empty : Text → Bool
is_empty [] = true
is_empty (c ∷ s) = false

-- `nullableString`: NULL for a blank text, the trimmed text otherwise.
unfoldable pub nullable_string : Text → Option Text
unfolding trim_space is_empty
nullable_string s = if is_empty (trim_space s) then none else some (trim_space s)

keep_before-trim_left :
    (c : ℕ) (s : Text) → is_space c ≡ false → trim_left (keep_before c s) ≡ keep_before c s
unfolding trim_left keep_before
keep_before-trim_left c [] h = ground arith
keep_before-trim_left c (d ∷ s) h = ground arith

trim_right-keep_before :
    (c : ℕ) (s : Text) → trim_right s ≡ s → trim_right (keep_before c s) ≡ keep_before c s
unfolding trim_right keep_before
trim_right-keep_before c [] h = ground arith
trim_right-keep_before c (d ∷ s) h = ap (keep_before c) h

trim_right_idem : (s : Text) → trim_right (trim_right s) ≡ trim_right s
unfolding trim_right
trim_right_idem [] = refl
trim_right_idem (c ∷ s) = trim_right-keep_before c (trim_right s) (trim_right_idem s)

trim_left-trim_right : (s : Text) → trim_left (trim_right (trim_left s)) ≡ trim_right (trim_left s)
unfolding trim_left trim_right
trim_left-trim_right [] = refl
trim_left-trim_right (c ∷ s) = elim (Bool-cases (is_space c)) [
  | inl blank ↦ rw blank (trim_left-trim_right s)
  | inr inked ↦ rw inked (keep_before-trim_left c (trim_right s) inked)
]

-- Trimming again changes nothing.
pub trim_space_idem : (s : Text) → trim_space (trim_space s) ≡ trim_space s
unfolding trim_space
trim_space_idem s = ap trim_right (trim_left-trim_right s) ∙ trim_right_idem (trim_left s)
