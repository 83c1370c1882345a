-- ===== src/Service/Refinement/Passwords.antt =====
-- The operations on passwords over the operations of the store.
use nexus_control.Base.{Option, none, some, Text}
use nexus_control.Schema.{Status, Effect, committed, not_applied}
use nexus_control.Store.Passwords.{
  PasswordAttempt, attempt_committed, attempt_existing, attempt_credential_changed,
}
use nexus_control.Store.Reachable.{tries, settles}
use nexus_control.Service.Records.{ChangePasswordInput}
use nexus_control.Service.Act.{Env, ServiceError, err_request_not_applied}
use nexus_control.Service.Sessions.{user_for}
use nexus_control.Service.Refinement.Rules.{
  IsFair, Tame, Tame-fail, Tame-bind, Tame-if, Tame-either_way, Tame-hash_password, tame_rules,
}
use nexus_control.Service.Passwords.{
  outcome_for, settle_for, answer, resolve_change, reject_change, attempted, commit_change,
  change_checked, change_settled, change_password, settle_not_applied,
}

module _ (env : Env) (fair : IsFair env) where
  user_for-Tame : (user : Text) → Tame (user_for env user)
  unfolding user_for
  user_for-Tame user = search tame_rules depth 30

  outcome_for-Tame : (user request : Text) → Tame (outcome_for env user request)
  unfolding outcome_for
  outcome_for-Tame user request = search tame_rules depth 30

  settle_for-Tame : (user request : Text) (e : Effect) → Tame (settle_for env user request e)
  unfolding settle_for
  settle_for-Tame user request e = search (tame_rules, settles) depth 30

  answer-Tame : (user : Text) (o : Option Effect) → Tame (answer env user o)
  unfolding answer
  answer-Tame user (some committed) = user_for-Tame user
  answer-Tame user (some not_applied) = Tame-fail err_request_not_applied
  answer-Tame user none = Tame-fail _

  resolve_change-Tame : (user request : Text) → Tame (resolve_change env user request)
  unfolding resolve_change
  resolve_change-Tame user request = search (tame_rules, outcome_for-Tame, answer-Tame) depth 30

  reject_change-Tame :
      (user request : Text) (e : ServiceError) → Tame (reject_change env user request e)
  unfolding reject_change
  reject_change-Tame user request e =
      Tame-bind _ _ (settle_for-Tame user request not_applied)
        λ _. record { at = λ w. (resolve_change-Tame user request).at w }

  attempted-Tame : (user request : Text) (a : PasswordAttempt) → Tame (attempted env user request a)
  unfolding attempted
  attempted-Tame user request attempt_committed = user_for-Tame user
  attempted-Tame user request attempt_existing = resolve_change-Tame user request
  attempted-Tame user request attempt_credential_changed = reject_change-Tame user request _

  commit_change-Tame :
      (user request current next : Text) → Tame (commit_change env user request current next)
  unfolding commit_change
  commit_change-Tame user request current next = search (tame_rules, attempted-Tame, tries) depth 30

  change_checked-Tame :
      (input : ChangePasswordInput) (user request : Text) (c : Option (Text × Status))
      → Tame (change_checked env input user request c)
  unfolding change_checked
  change_checked-Tame input user request none = reject_change-Tame user request _
  change_checked-Tame input user request (some (hash, status)) =
      Tame-if _ _ _
        (Tame-either_way _ _ _ (reject_change-Tame user request)
          (commit_change-Tame user request hash) (Tame-hash_password env _))
        (reject_change-Tame user request _)

  change_settled-Tame :
      (input : ChangePasswordInput) (user request : Text) (o : Option Effect)
      → Tame (change_settled env input user request o)
  unfolding change_settled
  change_settled-Tame input user request (some committed) = user_for-Tame user
  change_settled-Tame input user request (some not_applied) = Tame-fail _
  change_settled-Tame input user request none =
      search (tame_rules, reject_change-Tame, change_checked-Tame) depth 30

  pub change_password-Tame : (input : ChangePasswordInput) → Tame (change_password env input)
  unfolding change_password
  change_password-Tame input = search (tame_rules, outcome_for-Tame, change_settled-Tame) depth 30

  pub settle_not_applied-Tame : (user request : Text) → Tame (settle_not_applied env user request)
  unfolding settle_not_applied
  settle_not_applied-Tame user request =
      search (tame_rules, settle_for-Tame, outcome_for-Tame) depth 30
