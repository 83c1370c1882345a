-- ===== src/Store/Passwords.antt =====
-- internal/storage/auth/password.go: the change of a password, keyed by a request number.
use nexus_control.Base.{
  ℕ, Bool, ◌&&◌, not, Option, none, some, [], ◌∷◌, ◌++◌, Text, ◌==◌, any, find, update,
}
use nexus_control.Schema.{Db, Credential, User, Status, Receipt, Effect, committed}
use nexus_control.Tx.{
  Tx, Result, ok, constraint, pure, read, write, require, return_early, when, transaction, ◌>>=◌,
  ◌>>◌,
}
use nexus_control.Store.Nodes.{revoke_user_nodes}

-- `PasswordAttempt`
pub data PasswordAttempt : Type 0 where
  attempt_committed attempt_existing attempt_credential_changed : PasswordAttempt

abbrev pub receipt_of : Text → Text → Receipt → Bool
receipt_of user request r = r.user_id == user && r.request_id == request

abbrev pub new_receipt : Text → Text → Effect → ℕ → Receipt
new_receipt user request effect now = record {
  user_id = user;
  request_id = request;
  effect = effect;
  resolved_at = now;
  created_at = now;
}

unfoldable pub credential_row : Option Credential → Option User → Option (Text × Status)
credential_row (some c) (some u) = some (c.password_hash, u.status)
credential_row _ _ = none

-- `PasswordCredential`; no row is `ErrNotFound`.
unfoldable pub password_credential : Text → Db → Option (Text × Status)
unfolding credential_row
password_credential user db =
    credential_row (find (λ c. c.user_id == user) db.credentials)
      (find (λ u. u.user_id == user) db.users)

unfoldable pub effect_of : Option Receipt → Option Effect
effect_of none = none
effect_of (some r) = some r.effect

-- `PasswordChangeOutcome`; no receipt is the empty text in Go.
unfoldable pub password_change_outcome : Text → Text → Db → Option Effect
unfolding effect_of
password_change_outcome user request db = effect_of (find (receipt_of user request) db.receipts)

abbrev pub credential_of : Text → Text → Credential → Bool
credential_of user hash c = c.user_id == user && c.password_hash == hash

abbrev pub with_password : Text → ℕ → Credential → Credential
with_password hash now c = record c {
  password_hash = hash;
  password_updated_at = now;
  updated_at = now;
}

unfoldable pub try_commit_body : Text → Text → Text → Text → ℕ → Tx PasswordAttempt PasswordAttempt
try_commit_body user request current next_hash now = do
  claimed ← read λ db. any (receipt_of user request) db.receipts
  when claimed (return_early (ok attempt_existing))
  known ← read λ db. any (λ u. u.user_id == user) db.users
  require known constraint
  write λ db. record db { receipts = db.receipts ++ new_receipt user request committed now ∷ [] }
  hit ← read λ db. any (credential_of user current) db.credentials
  when (not hit) (return_early (ok attempt_credential_changed))
  write λ db. record db {
    credentials = update (credential_of user current) (with_password next_hash now) db.credentials;
  }
  revoke_user_nodes user now
  pure attempt_committed

-- `TryCommitPasswordChange`
unfoldable pub try_commit_password_change :
    Text → Text → Text → Text → ℕ → Db → Result PasswordAttempt × Db
try_commit_password_change user request current next_hash now =
    transaction (try_commit_body user request current next_hash now)

unfoldable pub settle_body : Text → Text → Effect → ℕ → Tx (Unit {0}) (Unit {0})
settle_body user request effect now = do
  claimed ← read λ db. any (receipt_of user request) db.receipts
  when (not claimed) do
    known ← read λ db. any (λ u. u.user_id == user) db.users
    require known constraint
    write λ db. record db { receipts = db.receipts ++ new_receipt user request effect now ∷ [] }

-- `SettlePasswordChange`
unfoldable pub settle_password_change : Text → Text → Effect → ℕ → Db → Result (Unit {0}) × Db
settle_password_change user request effect now = transaction (settle_body user request effect now)
