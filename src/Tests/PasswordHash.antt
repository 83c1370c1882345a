-- ===== src/Tests/PasswordHash.antt =====
-- Encoded hashes with a readable key derivation.
use nexus_control.Base.{ℕ, ◌≡◌, refl, true, some, List, [], ◌∷◌, text, arith}
use nexus_control.Strings.{utf8}
use nexus_control.Service.PasswordHash.{Argon, encoded_hash, verify_password, same_bytes}
use nexus_control.Service.PasswordHashLaws.{verify_password-encoded_hash}

abbrev zeros : List ℕ
zeros =
    0 ∷ 0 ∷ 0 ∷ 0 ∷ 0 ∷ 0 ∷ 0 ∷ 0 ∷ 0 ∷ 0 ∷ 0 ∷ 0 ∷ 0 ∷ 0 ∷ 0 ∷ 0 ∷ 0 ∷ 0 ∷ 0 ∷ 0 ∷ 0 ∷ 0 ∷ 0 ∷ 0
    ∷ 0 ∷ 0 ∷ 0 ∷ 0 ∷ 0 ∷ 0 ∷ 0 ∷ []

abbrev first : List ℕ → ℕ
first [] = 0
first (b ∷ s) = b

-- A key of 32 bytes that shows the first byte of the password.
abbrev plain : Argon
plain = record { version = 19; id_key = λ password salt t m p l. first password ∷ zeros }

abbrev salt : List ℕ
salt = 200 ∷ 1 ∷ 255 ∷ 7 ∷ []

verify_password-encoded_hash_example :
    (verify_password plain (text "secret") (encoded_hash plain (text "secret") salt) ≡ some true)
    × (verify_password plain (text "other") (encoded_hash plain (text "secret") salt)
        ≡ some (
            same_bytes
              (plain.id_key (utf8 (text "other")) salt 3 65536 2 32)
              (plain.id_key (utf8 (text "secret")) salt 3 65536 2 32)))
unfolding utf8
verify_password-encoded_hash_example =
    verify_password-encoded_hash plain (text "secret") (text "other") salt (omega arith) (λ e. cc)
      (omega arith) refl
