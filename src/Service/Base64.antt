-- ===== src/Service/Base64.antt =====
-- What internal/service/auth uses of Go's encoding/base64: the encodings without padding. A byte
-- is a number below 256; `high` is the pair of characters for the last two digits.
use Prim.Native.Nat.{◌/◌, ◌%◌}
use nexus_control.Base.{
  ℕ, ◌+◌, ◌-◌, ◌*◌, ◌&&◌, ◌||◌, Option, none, some, List, [], ◌∷◌, Text, leb, ltb, eqb,
  if◌then◌else◌,
}

pub record Alphabet : Type 0 where
  pub char_62 : ℕ
  pub char_63 : ℕ

-- `base64.RawStdEncoding`
abbrev pub std : Alphabet
std = record { char_62 = b'+'; char_63 = b'/' }

-- `base64.RawURLEncoding`
abbrev pub url : Alphabet
url = record { char_62 = b'-'; char_63 = b'_' }

module _ (high : Alphabet) where
  unfoldable pub sextet_char : ℕ → ℕ
  sextet_char n =
      if ltb n 26
      then b'A' + n
      else if ltb n 52
      then n + 71
      else if ltb n 62
      then n - 4
      else if ltb n 63
      then high.char_62
      else high.char_63

  unfoldable pub char_sextet : ℕ → Option ℕ
  char_sextet c =
      if leb b'A' c && leb c b'Z'
      then some (c - b'A')
      else if leb b'a' c && leb c b'z'
      then some (c - 71)
      else if leb b'0' c && leb c b'9'
      then some (c + 4)
      else if eqb c high.char_62
      then some 62
      else if eqb c high.char_63
      then some 63
      else none

  unfoldable pub encode : List ℕ → Text
  unfolding sextet_char
  encode [] = []
  encode (a ∷ []) = sextet_char (a / 4) ∷ sextet_char (a % 4 * 16) ∷ []
  encode (a ∷ b ∷ []) =
      sextet_char (a / 4) ∷ sextet_char (a % 4 * 16 + b / 16) ∷ sextet_char (b % 16 * 4) ∷ []
  encode (a ∷ b ∷ c ∷ s) =
      sextet_char (a / 4)
      ∷ sextet_char (a % 4 * 16 + b / 16)
      ∷ sextet_char (b % 16 * 4 + c / 64)
      ∷ sextet_char (c % 64)
      ∷ encode s

  -- The six-bit digits of a text; line ends are skipped.
  unfoldable pub sextets : Text → Option (List ℕ)
  unfolding char_sextet
  sextets [] = some []
  sextets (c ∷ s) =
      if eqb c 10 || eqb c 13 then sextets s else add_sextet (char_sextet c) (sextets s)
    where
      add_sextet : Option ℕ → Option (List ℕ) → Option (List ℕ)
      add_sextet (some n) (some l) = some (n ∷ l)
      add_sextet _ _ = none

  unfoldable pub add_bytes : ℕ → ℕ → ℕ → Option (List ℕ) → Option (List ℕ)
  add_bytes a b c none = none
  add_bytes a b c (some s) = some (a ∷ b ∷ c ∷ s)

  -- Four digits are three bytes; what is left over is two or three digits.
  unfoldable pub join_sextets : List ℕ → Option (List ℕ)
  unfolding add_bytes
  join_sextets [] = some []
  join_sextets (a ∷ []) = none
  join_sextets (a ∷ b ∷ []) = some ((a * 4 + b / 16) ∷ [])
  join_sextets (a ∷ b ∷ c ∷ []) = some ((a * 4 + b / 16) ∷ (b % 16 * 16 + c / 4) ∷ [])
  join_sextets (a ∷ b ∷ c ∷ d ∷ s) =
      add_bytes (a * 4 + b / 16) (b % 16 * 16 + c / 4) (c % 4 * 64 + d) (join_sextets s)

  unfoldable pub decoded : Option (List ℕ) → Option (List ℕ)
  unfolding join_sextets
  decoded none = none
  decoded (some l) = join_sextets l

  unfoldable pub decode : Text → Option (List ℕ)
  unfolding sextets decoded
  decode s = decoded (sextets s)
