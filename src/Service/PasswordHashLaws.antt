-- ===== src/Service/PasswordHashLaws.antt =====
-- The check of a password against an encoded hash.
use Prim.Native.Nat.{◌/◌, ◌%◌}
use nexus_control.Base.{
  ℕ, zero, suc, ◌+◌, ◌*◌, ◌<◌, ◌≡◌, ◌≢◌, refl, ap, ◌∙◌, Bool, true, false, ◌&&◌, not, some, List,
  [], ◌∷◌, ◌++◌, Text, text, arith, eqb, length, dec_text,
}
use nexus_control.Strings.{utf8, trim_space, trim_left, trim_right, is_space, keep_before}
use nexus_control.Service.Validate.{is_digit, every_char}
use nexus_control.Service.Base64.{std, sextet_char, encode, decode}
use nexus_control.Service.Base64Laws.{AreBytes, decode-encode, std-IsAlphabet}
use nexus_control.Service.PasswordHash.{
  Argon, split, digits_on, decimal, scan_digits, whole, unsigned, atoi, encoded_hash,
  verify_password, compare_key, same_bytes, nonempty_bytes,
}

-- A text whose characters are neither blanks nor the separator.
abbrev inked : ℕ → Bool
inked c = not (is_space c)

abbrev field_test : ℕ → Bool
field_test c = not (is_space c) && not (eqb c b'$')

abbrev pub IsField : Text → Type 0
IsField s = every_char (λ c. not (is_space c) && not (eqb c b'$')) s ≡ true

split_field :
    (s rest : Text)
    → IsField s
    → split b'$' (s ++ (b'$' ∷ rest)) ≡ (s, (split b'$' rest).0 ∷ (split b'$' rest).1)
unfolding split every_char
split_field [] rest h = refl
split_field (c ∷ s) rest h = ground (arith, split_field s rest (ground (arith, h)))

abbrev front : Text → Text × List Text → Text × List Text
front s p = (s, p.0 ∷ p.1)

split_last : (s : Text) → IsField s → split b'$' s ≡ (s, [])
unfolding split every_char
split_last [] h = refl
split_last (c ∷ s) h = ground (arith, split_last s (ground (arith, h)))

-- A text without blanks is trimmed already.
trim_right_field : (s : Text) → every_char (λ c. not (is_space c)) s ≡ true → trim_right s ≡ s
unfolding trim_right keep_before every_char
trim_right_field [] h = refl
trim_right_field (c ∷ []) h = ground arith
trim_right_field (c ∷ d ∷ s) h = rw (trim_right_field (d ∷ s) (ground (arith, h))) refl

trim_space_field : (s : Text) → every_char (λ c. not (is_space c)) s ≡ true → trim_space s ≡ s
unfolding trim_space trim_left every_char
trim_space_field [] h = unfold trim_right in refl
trim_space_field (c ∷ s) h =
    ap trim_right (trim_left_field c s (ground (arith, h))) ∙ trim_right_field (c ∷ s) h
  where
    trim_left_field : (c : ℕ) (s : Text) → is_space c ≡ false → trim_left (c ∷ s) ≡ c ∷ s
    trim_left_field c s h = ground (arith, h)

field_char : ℕ → Bool
field_char c = not (is_space c) && not (eqb c b'$')

sextet_char-field : (n : ℕ) → n < 64 → field_char (sextet_char std n) ≡ true
unfolding field_char is_space sextet_char
sextet_char-field n h = ground arith

encode-IsField : (l : List ℕ) → AreBytes l → IsField (encode std l)
unfolding encode every_char field_char
encode-IsField [] h = refl
encode-IsField (a ∷ []) (ha, _) =
    ground
      (arith, sextet_char-field (a / 4) (omega arith), sextet_char-field (a % 4 * 16) (omega arith))
encode-IsField (a ∷ b ∷ []) (ha, (hb, _)) = ground (
  arith,
  sextet_char-field (a / 4) (omega arith),
  sextet_char-field (a % 4 * 16 + b / 16) (omega arith),
  sextet_char-field (b % 16 * 4) (omega arith),
)
encode-IsField (a ∷ b ∷ c ∷ s) (ha, (hb, (hc, hs))) = ground (
  arith,
  sextet_char-field (a / 4) (omega arith),
  sextet_char-field (a % 4 * 16 + b / 16) (omega arith),
  sextet_char-field (b % 16 * 4 + c / 64) (omega arith),
  sextet_char-field (c % 64) (omega arith),
  encode-IsField s hs,
)

-- Decimal digits are read back.
scan-digits_on :
    (f n : ℕ) (out : Text) → n < f → scan_digits 0 (digits_on f n out) ≡ scan_digits n out
unfolding digits_on scan_digits
scan-digits_on zero n out h = absurd (omega arith)
scan-digits_on (suc f) n out h = ground (arith, scan-digits_on f (n / 10) ((b'0' + n % 10) ∷ out))

digits_on-digits :
    (f n : ℕ) (out : Text)
    → every_char is_digit out ≡ true
    → every_char is_digit (digits_on f n out) ≡ true
unfolding digits_on every_char
digits_on-digits zero n out h = h
digits_on-digits (suc f) n out h =
    ground (arith, digits_on-digits f (n / 10) ((b'0' + n % 10) ∷ out), h)

digits_on-ne_nil : (f n : ℕ) (out : Text) → n < f → digits_on f n out ≢ []
unfolding digits_on
digits_on-ne_nil zero n out h = absurd (omega arith)
digits_on-ne_nil (suc f) n out h =
    ground (arith, digits_on-ne_nil f (n / 10) ((b'0' + n % 10) ∷ out))

atoi-digits : (s : Text) → s ≢ [] → every_char is_digit s ≡ true → atoi s ≡ whole (scan_digits 0 s)
unfolding atoi unsigned every_char
atoi-digits [] ne h = absurd (ne refl)
atoi-digits (c ∷ s) ne h = ground (arith, h)

-- A number is read back from its decimal digits.
pub atoi-decimal : (n : ℕ) → atoi (decimal n) ≡ some n
unfolding decimal
atoi-decimal n =
    atoi-digits _ (digits_on-ne_nil (suc n) n [] (omega arith))
      (digits_on-digits (suc n) n [] (unfold every_char in refl))
    ∙ (ap whole (scan-digits_on (suc n) n [] (omega arith))
        ∙ (unfold scan_digits in unfold whole in refl))

digits-IsField : (s : Text) → every_char is_digit s ≡ true → IsField s
unfolding every_char is_space
digits-IsField [] h = refl
digits-IsField (c ∷ s) h = ground (arith, digits-IsField s, h)

same_bytes_refl : (s : List ℕ) → same_bytes s s ≡ true
unfolding same_bytes
same_bytes_refl [] = refl
same_bytes_refl (b ∷ s) = ground (arith, same_bytes_refl s)

field_inked : (s : Text) → IsField s → every_char (λ c. not (is_space c)) s ≡ true
unfolding every_char
field_inked [] h = refl
field_inked (c ∷ s) h = ground (arith, field_inked s (ground (arith, h)))

every_char-append :
    (p : ℕ → Bool) (s t : Text)
    → every_char p s ≡ true
    → every_char p t ≡ true
    → every_char p (s ++ t) ≡ true
unfolding every_char
every_char-append p [] t h k = k
every_char-append p (c ∷ s) t h k = ground (arith, h, every_char-append p s t (ground (arith, h)) k)

nonempty : (s : List ℕ) → s ≢ [] → nonempty_bytes (some s) ≡ some s
nonempty [] ne = absurd (ne refl)
nonempty (b ∷ s) ne = refl

module _ (argon : Argon) (password : Text) (salt : List ℕ) where
  abbrev key_of : Text → List ℕ
  key_of p = argon.id_key (utf8 p) salt 3 65536 2 32

  abbrev version_field : Text
  version_field = decimal argon.version

  abbrev key_field : Text
  key_field = encode std (key_of password)

  abbrev from_salt : Text
  from_salt = encode std salt ++ (text "$" ++ key_field)

  abbrev from_cost : Text
  from_cost = text "$m=65536,t=3,p=2$" ++ from_salt

  version-IsField : IsField version_field
  unfolding decimal
  version-IsField =
      digits-IsField _
        (digits_on-digits (suc argon.version) argon.version [] (unfold every_char in refl))

  module _ (bytes : AreBytes salt) (derived : AreBytes (key_of password)) where
    -- The encoded hash splits into its six parts.
    split-encoded_hash : split b'$' (encoded_hash argon password salt) ≡ (
      [],
      text "argon2id"
          ∷ (text "v=" ++ version_field)
          ∷ text "m=65536,t=3,p=2"
          ∷ encode std salt
          ∷ key_field
          ∷ [],
    )
    unfolding encoded_hash every_char is_space
    split-encoded_hash =
        split_field [] _ refl
        ∙ ap (front []) (
            split_field (text "argon2id") _ refl
            ∙ ap (front (text "argon2id")) (
                split_field (text "v=" ++ version_field) _
                  (every_char-append field_test (text "v=") version_field refl version-IsField)
                ∙ ap (front (text "v=" ++ version_field)) (
                    split_field (text "m=65536,t=3,p=2") _ refl
                    ∙ ap (front (text "m=65536,t=3,p=2")) (
                        split_field (encode std salt) _ (encode-IsField salt bytes)
                        ∙ ap (front (encode std salt))
                            (split_last key_field (encode-IsField _ derived))))))

    -- It has no blanks to trim.
    trim-encoded_hash :
        trim_space (encoded_hash argon password salt) ≡ encoded_hash argon password salt
    unfolding encoded_hash every_char is_space
    trim-encoded_hash = trim_space_field _ (
        every_char-append inked (text "$argon2id$v=") (version_field ++ from_cost) refl (
          every_char-append inked version_field from_cost
            (field_inked version_field version-IsField)
            (every_char-append inked (text "$m=65536,t=3,p=2$") from_salt refl (
              every_char-append inked (encode std salt) (text "$" ++ key_field)
                (field_inked (encode std salt) (encode-IsField salt bytes))
                (every_char-append inked (text "$") key_field refl
                  (field_inked key_field (encode-IsField _ derived)))))))

    -- Another password verifies exactly if it has the same key.
    verify-encoded_hash :
        (other : Text)
        → salt ≢ []
        → length (key_of password) ≡ 32
        → verify_password argon other (encoded_hash argon password salt)
          ≡ some (same_bytes (key_of other) (key_of password))
    unfolding verify_password
    verify-encoded_hash other salted full =
        rw (trim-encoded_hash, split-encoded_hash)
          (unfold dec_text in
            rw (version_read, salt_read, key_read) (unfold compare_key in rw full (ground arith)))
      where
        version_read : atoi version_field ≡ some argon.version
        version_read = atoi-decimal argon.version

        salt_read : nonempty_bytes (decode std (encode std salt)) ≡ some salt
        salt_read =
            ap nonempty_bytes (decode-encode std std-IsAlphabet salt bytes) ∙ nonempty salt salted

        key_read : nonempty_bytes (decode std key_field) ≡ some (key_of password)
        key_read =
            ap nonempty_bytes (decode-encode std std-IsAlphabet (key_of password) derived)
            ∙ nonempty (key_of password) (λ e. omega (arith, full, ap length e))

-- The encoded hash of a password, with a salt that is not empty and a derived key of 32 bytes, is
-- read back: the password verifies against it, and the check of any other text has no error and is the
-- comparison of the two derived keys.
pub verify_password-encoded_hash :
    (argon : Argon) (password other : Text) (salt : List ℕ)
    → AreBytes salt
    → salt ≢ []
    → AreBytes (argon.id_key (utf8 password) salt 3 65536 2 32)
    → length (argon.id_key (utf8 password) salt 3 65536 2 32) ≡ 32
    → (verify_password argon password (encoded_hash argon password salt) ≡ some true)
      × (verify_password argon other (encoded_hash argon password salt)
          ≡ some (
              same_bytes
                (argon.id_key (utf8 other) salt 3 65536 2 32)
                (argon.id_key (utf8 password) salt 3 65536 2 32)))
verify_password-encoded_hash argon password other salt bytes salted derived full = (
  verify-encoded_hash argon password salt bytes derived password salted full
      ∙ ap some (same_bytes_refl (key_of argon password salt password)),
  verify-encoded_hash argon password salt bytes derived other salted full,
)
