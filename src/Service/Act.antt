-- ===== src/Service/Act.antt =====
-- An operation of internal/service/auth: a run of store operations, each a transaction of its own,
-- of readings of the clock and of draws from the random source. What other requests do to the
-- database between two of them is a parameter.
use nexus_control.Base.{ℕ, suc, Bool, true, false, Option, none, some, ◌++◌, Text, List, text}
use nexus_control.Strings.{utf8, trim_space}
use nexus_control.Service.PasswordHash.{Argon, encoded_hash}
use nexus_control.Schema.{Db}
use nexus_control.Tx.{StoreError, Result, ok, err}

-- The errors of internal/service/auth/model.go. `internal` is an error of the store that the
-- service passes on, `err_other` an error without a variable of its own.
pub data ServiceError : Type 0 where
  err_already_setup err_invalid_credentials err_current_password : ServiceError
  err_unauthenticated err_forbidden err_conflict err_not_found err_plan_not_found : ServiceError
  err_request_invalid err_request_not_applied err_invitation_invalid err_other : ServiceError
  internal : StoreError → ServiceError

pub data Reply (A : Type 0) : Type 0 where
  done : A → Reply A
  failed : ServiceError → Reply A

-- The surroundings of an operation, by the number of the step that meets them: the clock, what
-- other requests have done since the step before, and the random source, which may fail. With them
-- SHA-256 in hexadecimal and Argon2.
pub record Env : Type 0 where
  pub clock : ℕ → ℕ
  pub others : ℕ → Db → Db
  pub random_id : ℕ → Text
  pub random_token : ℕ → Option Text
  pub random_salt : ℕ → Option (List ℕ)
  pub sha256 : List ℕ → Text
  pub argon : Argon

pub record World : Type 0 where
  pub turn : ℕ
  pub db : Db

abbrev pub Act : Type 0 → Type 0
Act A = World → Reply A × World

unfoldable pub continue : {A B : Type 0} → (A → Act B) → Reply A × World → Reply B × World
continue f (done a, w) = f a w
continue f (failed e, w) = (failed e, w)

infixl 5 ◌>>=◌ ◌>>◌
unfoldable pub ◌>>=◌ : {A B : Type 0} → Act A → (A → Act B) → Act B
unfolding continue
◌>>=◌ m f w = continue f (m w)

abbrev pub ◌>>◌ : {B : Type 0} → Act (Unit {0}) → Act B → Act B
m >> k = m >>= λ _. k

-- An error that is handled in place.
unfoldable pub either_case :
    {A B : Type 0} → (ServiceError → Act B) → (A → Act B) → Reply A × World → Reply B × World
either_case h f (done a, w) = f a w
either_case h f (failed e, w) = h e w

abbrev pub either_way : {A B : Type 0} → (ServiceError → Act B) → (A → Act B) → Act A → Act B
either_way h f m w = either_case h f (m w)

unfoldable pub pure : {A : Type 0} → A → Act A
pure a w = (done a, w)

unfoldable pub fail : {A : Type 0} → ServiceError → Act A
fail e w = (failed e, w)

-- `if !condition { return …, e }`
unfoldable pub guard : Bool → ServiceError → Act (Unit {0})
guard true e w = (done tt, w)
guard false e w = (failed e, w)

-- A value that may be missing, with the error that is returned then.
unfoldable pub some_or : {A : Type 0} → Option A → ServiceError → Act A
some_or none e w = (failed e, w)
some_or (some a) e w = (done a, w)

-- The error of a store operation as the service returns it.
unfoldable pub reply_of : {A : Type 0} → (StoreError → ServiceError) → Result A → Reply A
reply_of h (ok a) = done a
reply_of h (err e) = failed (h e)

module _ (env : Env) where
  abbrev pub met : World → Db
  met w = env.others w.turn w.db

  abbrev pub moved : World → Db → World
  moved w d = record { turn = suc w.turn; db = d }

  -- `s.now()`
  unfoldable pub now : Act ℕ
  now w = (done (env.clock w.turn), moved w w.db)

  -- A query of the store.
  unfoldable pub ask : {A : Type 0} → (Db → A) → Act A
  ask f w = (done (f (met w)), moved w (met w))

  -- A statement of the store without a result.
  unfoldable pub change : (Db → Db) → Act (Unit {0})
  change f w = (done tt, moved w (f (met w)))

  -- A transaction of the store, and how its errors are passed on.
  unfoldable pub command : {A : Type 0} → (Db → Result A × Db) → (StoreError → ServiceError) → Act A
  unfolding reply_of
  command f h w = (reply_of h (f (met w)).0, moved w (f (met w)).1)

  -- `newID`
  unfoldable pub new_id : Text → Act Text
  new_id prefix w = (done (prefix ++ (text "_" ++ env.random_id w.turn)), moved w w.db)

  abbrev pub drawn : Option Text → Reply Text
  drawn none = failed err_other
  drawn (some s) = done s

  -- `newToken`
  unfoldable pub new_token : Act Text
  new_token w = (drawn (env.random_token w.turn), moved w w.db)

  -- `hashToken`
  unfoldable pub hash_token : Text → Text
  hash_token value = env.sha256 (utf8 (trim_space value))

  -- `hashPassword`
  unfoldable pub hash_password : Text → Act Text
  unfolding encoded_hash
  hash_password password w = (hashed (env.random_salt w.turn), moved w w.db)
    where
      hashed : Option (List ℕ) → Reply Text
      hashed none = failed err_other
      hashed (some salt) = done (encoded_hash env.argon password salt)
