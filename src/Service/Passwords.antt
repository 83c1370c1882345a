-- ===== src/Service/Passwords.antt =====
-- internal/service/auth/user.go: the change of a password, keyed by a request number.
use nexus_control.Base.{◌&&◌, ◌||◌, not, Option, none, some, Text, if◌then◌else◌}
use nexus_control.Strings.{trim_space, is_empty}
use nexus_control.Schema.{Status, Effect, committed, not_applied, is_active}
use nexus_control.Store.Passwords.{
  PasswordAttempt, attempt_committed, attempt_existing, attempt_credential_changed,
  password_credential, password_change_outcome, try_commit_password_change, settle_password_change,
}
use nexus_control.Service.Validate.{normalize_request_id, validate_password}
use nexus_control.Service.PasswordHash.{verify_password}
use nexus_control.Service.Records.{UserView, ChangePasswordInput}
use nexus_control.Service.Sessions.{is_true, user_for}
use nexus_control.Service.Act.{
  Env, World, Act, Reply, failed, ServiceError, err_current_password, err_request_invalid,
  err_request_not_applied, err_other, internal, ◌>>=◌, ◌>>◌, fail, guard, some_or, now, ask,
  command, hash_password, either_way,
}

-- `errors.Is(err, ErrRequestNotApplied)`: the rejection in its place.
unfoldable pub rejecting : {A : Type 0} → ServiceError → Reply A → Reply A
rejecting e (failed err_request_not_applied) = failed e
rejecting e r = r

module _ (env : Env) where
  -- `Service.PasswordChangeOutcome`; no outcome is `unknown`.
  unfoldable pub outcome_for : Text → Text → Act (Option Effect)
  outcome_for user request = do
    id ← some_or (normalize_request_id request) err_request_invalid
    ask env (password_change_outcome (trim_space user) id)

  -- `settlePasswordChange`
  unfoldable pub settle_for : Text → Text → Effect → Act (Unit {0})
  settle_for user request effect = do
    t ← now env
    command env (settle_password_change user request effect t) internal

  -- The `switch` of `resolvePasswordChange`.
  unfoldable pub answer : Text → Option Effect → Act UserView
  answer user (some committed) = user_for env user
  answer user (some not_applied) = fail err_request_not_applied
  answer user none = fail err_other

  -- `resolvePasswordChange`
  unfoldable pub resolve_change : Text → Text → Act UserView
  resolve_change user request = do outcome ← outcome_for user request; answer user outcome

  abbrev pub after : ServiceError → Reply UserView × World → Reply UserView × World
  after e (r, w) = (rejecting e r, w)

  -- `rejectPasswordChange`
  unfoldable pub reject_change : Text → Text → ServiceError → Act UserView
  reject_change user request rejection = do
    settle_for user request not_applied
    λ w. after rejection (resolve_change user request w)

  -- The `switch` on the attempt.
  unfoldable pub attempted : Text → Text → PasswordAttempt → Act UserView
  attempted user request attempt_committed = user_for env user
  attempted user request attempt_existing = resolve_change user request
  attempted user request attempt_credential_changed =
      reject_change user request err_current_password

  unfoldable pub commit_change : Text → Text → Text → Text → Act UserView
  commit_change user request current next = do
    t ← now env
    attempt ← command env (try_commit_password_change user request current next t) internal
    attempted user request attempt

  -- From the credential on.
  unfoldable pub change_checked :
      ChangePasswordInput → Text → Text → Option (Text × Status) → Act UserView
  change_checked input user request none = reject_change user request err_current_password
  change_checked input user request (some (hash, status)) =
      if is_true (verify_password env.argon input.current_password hash) && is_active status
      then either_way (reject_change user request) (commit_change user request hash)
          (hash_password env input.new_password)
      else reject_change user request err_current_password

  -- From the outcome on: a settled request is answered, an acceptable one is tried.
  unfoldable pub change_settled : ChangePasswordInput → Text → Text → Option Effect → Act UserView
  change_settled input user request (some committed) = user_for env user
  change_settled input user request (some not_applied) = fail err_request_not_applied
  change_settled input user request none =
      if is_empty (trim_space input.current_password) || not (validate_password input.new_password)
      then reject_change user request err_request_invalid
      else (ask env (password_credential user) >>= change_checked input user request)

  -- `ChangePassword`
  unfoldable pub change_password : ChangePasswordInput → Act UserView
  change_password input = do
    let user = trim_space input.user_id
    guard (not (is_empty user)) err_request_invalid
    request ← some_or (normalize_request_id input.request_id) err_request_invalid
    outcome ← outcome_for user request
    change_settled input user request outcome

  -- `SettlePasswordChangeNotApplied`
  unfoldable pub settle_not_applied : Text → Text → Act (Option Effect)
  settle_not_applied user request = do
    id ← some_or (normalize_request_id request) err_request_invalid
    settle_for (trim_space user) id not_applied
    outcome_for user id
