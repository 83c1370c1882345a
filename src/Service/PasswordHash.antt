-- ===== src/Service/PasswordHash.antt =====
-- internal/service/auth/password.go: the encoded hash of a password. `argon2` of
-- golang.org/x/crypto is a parameter: the version that it implements and its key derivation.
use Prim.Native.Nat.{◌/◌, ◌%◌, ◌^◌}
use nexus_control.Base.{
  length, ℕ, zero, suc, ◌+◌, ◌-◌, ◌*◌, Bool, true, false, ◌&&◌, not, Option, none, some, List, [],
  ◌∷◌, ◌++◌, Text, text, ltb, eqb, ◌==◌, if◌then◌else◌,
}
use nexus_control.Strings.{utf8, trim_space, is_space}
use nexus_control.Service.Validate.{is_digit}
use nexus_control.Service.Base64.{std, encode, decode}

-- `argon2.Version` and `argon2.IDKey`: the password, the salt, the iterations, the memory, the
-- parallelism and the length of the key.
pub record Argon : Type 0 where
  pub version : ℕ
  pub id_key : List ℕ → List ℕ → ℕ → ℕ → ℕ → ℕ → List ℕ

-- `strings.Split` by a character: the part before the first one, and the parts behind it.
unfoldable pub split : ℕ → Text → Text × List Text
split sep [] = ([], [])
split sep (c ∷ s) =
    let rest = split sep s in if eqb c sep then ([], rest.0 ∷ rest.1) else (c ∷ rest.0, rest.1)

-- The digits of `%d`, with `n` as the fuel of at most `n + 1` digits.
unfoldable pub digits_on : ℕ → ℕ → Text → Text
digits_on zero n out = out
digits_on (suc f) n out =
    let rest = digits_on f (n / 10) ((b'0' + n % 10) ∷ out) in
    if ltb n 10 then (b'0' + n) ∷ out else rest

unfoldable pub decimal : ℕ → Text
unfolding digits_on
decimal n = digits_on (suc n) n []

-- The number that the leading digits of a text spell behind `n`, and what follows them.
unfoldable pub scan_digits : ℕ → Text → ℕ × Text
scan_digits n [] = (n, [])
scan_digits n (c ∷ s) =
    let rest = scan_digits (n * 10 + (c - b'0')) s in if is_digit c then rest else (n, c ∷ s)

-- `strconv.Atoi` as far as it can be the version: digits behind an optional plus sign. A number
-- behind a minus sign is no version, and so it is `none` here, with the error beyond an int.
unfoldable pub whole : ℕ × Text → Option ℕ
whole (n, []) = some n
whole (n, c ∷ s) = none

unfoldable pub unsigned : Text → Option ℕ
unfolding scan_digits whole
unsigned [] = none
unsigned (c ∷ s) = if is_digit c then whole (scan_digits 0 (c ∷ s)) else none

unfoldable pub atoi : Text → Option ℕ
unfolding unsigned
atoi [] = none
atoi (c ∷ s) = if eqb c b'+' then unsigned s else unsigned (c ∷ s)

-- The prefix of a text, and what follows it.
unfoldable pub strip : Text → Text → Option Text
strip [] s = some s
strip (p ∷ ps) [] = none
strip (p ∷ ps) (c ∷ s) = let rest = strip ps s in if eqb p c then rest else none

abbrev pub or_whole : Text → Option Text → Text
or_whole s none = s
or_whole s (some rest) = rest

-- `strings.TrimPrefix`
unfoldable pub trim_prefix : Text → Text → Text
unfolding strip
trim_prefix prefix s = or_whole s (strip prefix s)

-- `%d` of `fmt.Sscanf` into an unsigned integer of `bits` bits: blanks but no line end, then
-- digits whose value fits.
unfoldable pub scan_uint : ℕ → Text → Option (ℕ × Text)
unfolding scan_digits
scan_uint bits [] = none
scan_uint bits (c ∷ s) =
    let rest = scan_uint bits s in
    if is_digit c
    then fitting (scan_digits 0 (c ∷ s))
    else if is_space c && not (eqb c 10)
    then rest
    else none
  where
    fitting : ℕ × Text → Option (ℕ × Text)
    fitting (n, s) = if ltb n (2 ^ bits) then some (n, s) else none

-- A literal of the format and the integer behind it.
abbrev pub scan_behind : ℕ → Option Text → Option (ℕ × Text)
scan_behind bits none = none
scan_behind bits (some s) = scan_uint bits s

unfoldable pub scan_field : Text → ℕ → Text → Option (ℕ × Text)
unfolding strip scan_uint
scan_field literal bits s = scan_behind bits (strip literal s)

-- `passwordMemory`, `passwordIterations`, `passwordParallelism`: the parameters of a hash.
pub record Cost : Type 0 where
  pub memory : ℕ
  pub iterations : ℕ
  pub parallelism : ℕ

abbrev pub password_cost : Cost
password_cost = record { memory = 65536; iterations = 3; parallelism = 2 }

abbrev pub password_key_length : ℕ
password_key_length = 32

-- `fmt.Sscanf(…, "m=%d,t=%d,p=%d", …)`; what follows the last number is ignored.
unfoldable pub scan_cost : Text → Option Cost
unfolding scan_field
scan_cost s = elim (scan_field (text "m=") 32 s) [
  | none ↦ none
  | some (m, s) ↦ elim (scan_field (text ",t=") 32 s) [
    | none ↦ none
    | some (t, s) ↦ elim (scan_field (text ",p=") 8 s) [
      | none ↦ none
      | some (p, s) ↦ some (record { memory = m; iterations = t; parallelism = p })
    ]
  ]
]

abbrev pub positive_cost : Cost → Bool
positive_cost c = not (eqb c.memory 0) && (not (eqb c.iterations 0) && not (eqb c.parallelism 0))

abbrev pub is_version : ℕ → Option ℕ → Bool
is_version v none = false
is_version v (some n) = eqb n v

-- `subtle.ConstantTimeCompare`
unfoldable pub same_bytes : List ℕ → List ℕ → Bool
same_bytes [] [] = true
same_bytes (a ∷ s) (b ∷ t) = eqb a b && same_bytes s t
same_bytes _ _ = false

abbrev pub nonempty_bytes : Option (List ℕ) → Option (List ℕ)
nonempty_bytes (some (b ∷ s)) = some (b ∷ s)
nonempty_bytes _ = none

module _ (argon : Argon) where
  -- `hashPassword` with the salt that was drawn.
  unfoldable pub encoded_hash : Text → List ℕ → Text
  unfolding decimal encode
  encoded_hash password salt =
      text "$argon2id$v="
      ++ (decimal argon.version
          ++ (text "$m=65536,t=3,p=2$"
              ++ (encode std salt
                  ++ (text "$" ++ encode std (argon.id_key (utf8 password) salt 3 65536 2 32)))))

  -- The comparison with a key derived anew.
  unfoldable pub compare_key : Text → Option Cost → Option (List ℕ) → Option (List ℕ) → Option Bool
  unfolding same_bytes
  compare_key password (some c) (some salt) (some want) =
      if positive_cost c
      then some (
          same_bytes
            (argon.id_key (utf8 password) salt c.iterations c.memory c.parallelism (length want))
            want)
      else none
  compare_key _ _ _ _ = none

  -- The six parts of an encoded hash; no answer is an error.
  unfoldable pub verify_parts : Text → Text × List Text → Option Bool
  unfolding atoi trim_prefix scan_cost decode compare_key
  verify_parts password ([], name ∷ version ∷ cost ∷ salt ∷ key ∷ []) =
      if name == text "argon2id"
        && is_version argon.version (atoi (trim_prefix (text "v=") version))
      then compare_key password (scan_cost cost) (nonempty_bytes (decode std salt))
          (nonempty_bytes (decode std key))
      else none
  verify_parts _ _ = none

  -- `verifyPassword`
  unfoldable pub verify_password : Text → Text → Option Bool
  unfolding split verify_parts
  verify_password password hash = verify_parts password (split b'$' (trim_space hash))
