-- ===== src/Service/Base64Laws.antt =====
-- Encoding and decoding of base64.
use Prim.Native.Nat.{◌/◌, ◌%◌}
use nexus_control.Base.{
  ℕ, ◌+◌, ◌*◌, ◌<◌, ◌≡◌, refl, ap, false, ◌||◌, some, List, [], ◌∷◌, Text, arith, eqb, All,
}
use nexus_control.Service.Base64.{
  Alphabet, std, url, sextet_char, char_sextet, encode, sextets, add_bytes, join_sextets, decoded,
  decode,
}

-- Each digit of the alphabet is read back, and none is a line end.
pub record IsAlphabet (high : Alphabet) : Type 0 where
  pub reads : (n : ℕ) → n < 64 → char_sextet high (sextet_char high n) ≡ some n
  pub inked : (n : ℕ) → n < 64 → eqb (sextet_char high n) 10 || eqb (sextet_char high n) 13 ≡ false

pub std-IsAlphabet : IsAlphabet std
unfolding char_sextet sextet_char
std-IsAlphabet = record { reads = λ n h. ground arith; inked = λ n h. ground arith }

pub url-IsAlphabet : IsAlphabet url
unfolding char_sextet sextet_char
url-IsAlphabet = record { reads = λ n h. ground arith; inked = λ n h. ground arith }

-- The six-bit digits of bytes.
unfoldable digits_of : List ℕ → List ℕ
digits_of [] = []
digits_of (a ∷ []) = a / 4 ∷ a % 4 * 16 ∷ []
digits_of (a ∷ b ∷ []) = a / 4 ∷ (a % 4 * 16 + b / 16) ∷ b % 16 * 4 ∷ []
digits_of (a ∷ b ∷ c ∷ s) =
    a / 4 ∷ (a % 4 * 16 + b / 16) ∷ (b % 16 * 4 + c / 64) ∷ c % 64 ∷ digits_of s

abbrev pub AreBytes : List ℕ → Type 0
AreBytes = All (λ b. b < 256)

module _ (high : Alphabet) (law : IsAlphabet high) where
  sextets-cons :
      (n : ℕ) (s : Text) (l : List ℕ)
      → n < 64
      → sextets high s ≡ some l
      → sextets high (sextet_char high n ∷ s) ≡ some (n ∷ l)
  unfolding sextets
  sextets-cons n s l h e = ground (arith, law.inked n h, law.reads n h, e)

  sextets-encode : (l : List ℕ) → AreBytes l → sextets high (encode high l) ≡ some (digits_of l)
  unfolding encode digits_of
  sextets-encode [] h = unfold sextets in refl
  sextets-encode (a ∷ []) (ha, _) =
      sextets-cons _ _ _ (omega arith) (sextets-cons _ _ _ (omega arith) (unfold sextets in refl))
  sextets-encode (a ∷ b ∷ []) (ha, (hb, _)) =
      sextets-cons _ _ _ (omega arith) (
        sextets-cons _ _ _ (omega arith)
          (sextets-cons _ _ _ (omega arith) (unfold sextets in refl)))
  sextets-encode (a ∷ b ∷ c ∷ s) (ha, (hb, (hc, hs))) = sextets-cons _ _ _ (omega arith) (
      sextets-cons _ _ _ (omega arith)
        (sextets-cons _ _ _ (omega arith) (sextets-cons _ _ _ (omega arith) (sextets-encode s hs))))

  join-digits_of : (l : List ℕ) → AreBytes l → join_sextets high (digits_of l) ≡ some l
  unfolding join_sextets digits_of add_bytes
  join-digits_of [] h = refl
  join-digits_of (a ∷ []) (ha, _) = ap (λ x. some (x ∷ [])) (omega arith)
  join-digits_of (a ∷ b ∷ []) (ha, (hb, _)) = ground arith
  join-digits_of (a ∷ b ∷ c ∷ s) (ha, (hb, (hc, hs))) = ground (arith, join-digits_of s hs)

  -- Bytes are read back from their encoding.
  pub decode-encode : (l : List ℕ) → AreBytes l → decode high (encode high l) ≡ some l
  unfolding decode decoded
  decode-encode l h = rw (sextets-encode l h) (join-digits_of l h)
