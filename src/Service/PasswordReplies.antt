-- ===== src/Service/PasswordReplies.antt =====
-- The replies to a change of a password and the outcome of the request, with other requests running in
-- between.
use nexus_control.Base.{
  arith, ℕ, ◌≡◌, refl, sym, subst, false, ◌&&◌, ◌||◌, not, Option, none, some, Text,
}
use nexus_control.Strings.{trim_space, is_empty, trim_space_idem}
use nexus_control.Schema.{Db, Status, Effect, committed, not_applied, is_active}
use nexus_control.Tx.{ok}
use nexus_control.Store.Passwords.{
  PasswordAttempt, attempt_committed, attempt_existing, attempt_credential_changed,
  password_credential, password_change_outcome, try_commit_password_change,
}
use nexus_control.Store.PasswordOutcomes.{try_commit_password_change-settles}
use nexus_control.Service.Validate.{normalize_request_id, validate_password}
use nexus_control.Service.PasswordHash.{verify_password}
use nexus_control.Service.ValidateLaws.{normalize_request_id_idem}
use nexus_control.Service.Records.{UserView, ChangePasswordInput}
use nexus_control.Service.Sessions.{is_true, user_for}
use nexus_control.Service.Passwords.{
  rejecting, outcome_for, settle_for, answer, resolve_change, after, reject_change, attempted,
  commit_change, change_checked, change_settled, change_password,
}
use nexus_control.Service.Act.{
  Env, World, Act, hash_password, Reply, done, failed, ServiceError, err_already_setup,
  err_invalid_credentials, err_unauthenticated, err_forbidden, err_conflict, err_not_found,
  err_plan_not_found, err_invitation_invalid, err_other, internal, ◌>>=◌, continue, some_or, ask,
  err_current_password, err_request_invalid, err_request_not_applied, met, moved, either_way,
  hash_password,
}
use nexus_control.Service.Ensures.{
  Ensures, Ensures-if, Ensures-guard, Ensures-some_or, Ensures-bind, Ensures-now, Ensures-ask,
  Ensures-command, Ensures-last, Ensures-either_way, Ensures-pure, Ensures-fail,
}

-- Other requests settle no request anew: what is settled stays as it is.
abbrev pub IsSteady : Env → Type 0
IsSteady env =
    (n : ℕ) (db : Db) (user request : Text) (e : Effect)
    → password_change_outcome user request db ≡ some e
    → password_change_outcome user request (env.others n db) ≡ some e

-- A reply with the user says that the change is committed; a refusal for the password, for the
-- input or for the request says that it is not and never will be. Other errors say nothing.
abbrev pub Told : Reply UserView → Option Effect → Type 0
Told (done u) o = o ≡ some committed
Told (failed err_request_not_applied) o = o ≡ some not_applied
Told (failed err_current_password) o = o ≡ some not_applied
Told (failed err_request_invalid) o = o ≡ some not_applied
Told (failed _) o = Unit

Told-not_applied : (e : ServiceError) (o : Option Effect) → o ≡ some not_applied → Told (failed e) o
Told-not_applied err_request_not_applied o h = h
Told-not_applied err_current_password o h = h
Told-not_applied err_request_invalid o h = h
Told-not_applied err_already_setup o h = tt
Told-not_applied err_invalid_credentials o h = tt
Told-not_applied err_unauthenticated o h = tt
Told-not_applied err_forbidden o h = tt
Told-not_applied err_conflict o h = tt
Told-not_applied err_not_found o h = tt
Told-not_applied err_plan_not_found o h = tt
Told-not_applied err_invitation_invalid o h = tt
Told-not_applied err_other o h = tt
Told-not_applied (internal e) o h = tt

module _ (env : Env) (steady : IsSteady env) (user request : Text)
    (trimmed : trim_space user ≡ user)
    (accepted : normalize_request_id request ≡ some request) where
  abbrev Tells : Reply UserView → World → Type 0
  Tells r w = Told r (password_change_outcome user request w.db)

  user_for-Tells :
      (w : World)
      → password_change_outcome user request w.db ≡ some committed
      → Ensures Tells (user_for env user w)
  unfolding user_for
  user_for-Tells w h = Ensures-ask env _ _ w (
      Ensures-some_or _ _ _ _ (λ e. tt)
        λ u e. Ensures-pure _ _ (steady w.turn w.db user request committed h))

  answer-Tells :
      (o : Option Effect) (w : World)
      → password_change_outcome user request w.db ≡ o
      → Ensures Tells (answer env user o w)
  unfolding answer
  answer-Tells (some committed) w h = user_for-Tells w h
  answer-Tells (some not_applied) w h = Ensures-fail _ w h
  answer-Tells none w h = Ensures-fail _ w tt

  -- The outcome that is read is that of the database.
  read_outcome :
      {S : Reply UserView → World → Type 0} (k : Option Effect → Act UserView) (w : World)
      → Ensures S (k (password_change_outcome user request (met env w)) (moved env w (met env w)))
      → Ensures S ((outcome_for env user request >>= k) w)
  unfolding outcome_for some_or ask ◌>>=◌ continue
  read_outcome {S} k w h =
      subst
        (λ o. Ensures S (
          ((some_or o err_request_invalid >>= λ id.
          ask env (password_change_outcome (trim_space user) id))
              >>= k)
            w))
        (sym accepted)
        (subst
          (λ u.
            Ensures S (k (password_change_outcome u request (met env w)) (moved env w (met env w))))
          (sym trimmed) h)

  resolve_change-Tells : (w : World) → Ensures Tells (resolve_change env user request w)
  unfolding resolve_change
  resolve_change-Tells w = read_outcome _ w (answer-Tells _ _ refl)

  after-Tells :
      (e : ServiceError) (x : Reply UserView × World)
      → Ensures Tells x
      → Ensures Tells (after env e x)
  unfolding rejecting
  after-Tells e (done u, w) h = h
  after-Tells e (failed err_already_setup, w) h = h
  after-Tells e (failed err_invalid_credentials, w) h = h
  after-Tells e (failed err_unauthenticated, w) h = h
  after-Tells e (failed err_forbidden, w) h = h
  after-Tells e (failed err_conflict, w) h = h
  after-Tells e (failed err_not_found, w) h = h
  after-Tells e (failed err_plan_not_found, w) h = h
  after-Tells e (failed err_invitation_invalid, w) h = h
  after-Tells e (failed err_other, w) h = h
  after-Tells e (failed err_current_password, w) h = h
  after-Tells e (failed err_request_invalid, w) h = h
  after-Tells e (failed (internal x), w) h = h
  after-Tells e (failed err_request_not_applied, w) h = record {
    holds = Told-not_applied e _ h.holds;
  }

  -- A settlement that fails says nothing.
  abbrev Silent : Reply (Unit {0}) → World → Type 0
  Silent (done _) w = Unit
  Silent (failed e) w = Tells (failed e) w

  settle_for-Silent : (e : Effect) (w : World) → Ensures Silent (settle_for env user request e w)
  unfolding settle_for
  settle_for-Silent e w =
      Ensures-now env _ w (Ensures-last env _ _ _ (λ x d run. tt) (λ u d run. tt))

  reject_change-Tells :
      (e : ServiceError) (w : World) → Ensures Tells (reject_change env user request e w)
  unfolding reject_change
  reject_change-Tells e w =
      Ensures-bind Silent _ _ w (settle_for-Silent not_applied w)
        (λ u w' q. after-Tells e _ (resolve_change-Tells w')) (λ x w' q. q)

  commit_change-Tells :
      (current next : Text) (w : World)
      → Ensures Tells (commit_change env user request current next w)
  unfolding commit_change
  commit_change-Tells current next w =
      Ensures-now env _ w (Ensures-command env _ _ _ _ (λ e d run. tt) attempted-Tells)
    where
      attempted-Tells :
          (a : PasswordAttempt) (d : Db)
          → try_commit_password_change user request current next
              (env.clock w.turn)
              (met env (moved env w w.db))
            ≡ (ok a, d)
          → Ensures Tells (attempted env user request a (moved env (moved env w w.db) d))
      attempted-Tells attempt_committed d run =
          unfold attempted in
          user_for-Tells _ (try_commit_password_change-settles user request current next _ _ d run)
      attempted-Tells attempt_existing d run = unfold attempted in resolve_change-Tells _
      attempted-Tells attempt_credential_changed d run = unfold attempted in reject_change-Tells _ _

  change_checked-Tells :
      (input : ChangePasswordInput) (c : Option (Text × Status)) (w : World)
      → Ensures Tells (change_checked env input user request c w)
  unfolding change_checked
  change_checked-Tells input none w = reject_change-Tells _ w
  change_checked-Tells input (some (hash, status)) w =
      Ensures-if
        (is_true (verify_password env.argon input.current_password hash) && is_active status)
        (either_way (reject_change env user request) (commit_change env user request hash)
          (hash_password env input.new_password))
        (reject_change env user request err_current_password) w
        (λ _.
          Ensures-either_way _ _ (hash_password env input.new_password) w reject_change-Tells
            (commit_change-Tells hash))
        (λ _. reject_change-Tells _ w)

  change_settled-Tells :
      (input : ChangePasswordInput) (o : Option Effect) (w : World)
      → password_change_outcome user request w.db ≡ o
      → Ensures Tells (change_settled env input user request o w)
  unfolding change_settled
  change_settled-Tells input (some committed) w h = user_for-Tells w h
  change_settled-Tells input (some not_applied) w h = Ensures-fail _ w h
  change_settled-Tells input none w h =
      Ensures-if
        (is_empty (trim_space input.current_password) || not (validate_password input.new_password))
        (reject_change env user request err_request_invalid)
        (ask env (password_credential user) >>= change_checked env input user request) w
        (λ _. reject_change-Tells _ w) (λ _. Ensures-ask env _ _ w (change_checked-Tells input _ _))

-- With other requests running in between that settle no request anew, the reply to a change of a
-- password says what has become of the request, under the trimmed user and the accepted number: where
-- the reply is the user, the change is committed; where it is a refusal of the password, of the input
-- or of the request, the request is settled as not applied. The user is not blank.
pub change_password-Tells :
    (env : Env) (input : ChangePasswordInput) (request : Text) (w : World)
    → IsSteady env
    → is_empty (trim_space input.user_id) ≡ false
    → normalize_request_id input.request_id ≡ some request
    → Told (change_password env input w).0 (
        password_change_outcome
          (trim_space input.user_id)
          request
          (change_password env input w).1.db)
unfolding change_password
change_password-Tells env input request w steady named accepted = told.holds
  where
    S : Reply UserView → World → Type 0
    S r v = Told r (password_change_outcome (trim_space input.user_id) request v.db)

    again : normalize_request_id request ≡ some request
    again = (normalize_request_id_idem input.request_id request accepted).3

    settled : Ensures S (
        (outcome_for env (trim_space input.user_id) request
            >>= change_settled env input (trim_space input.user_id) request)
          w)
    settled = read_outcome env steady _ request (trim_space_idem input.user_id) again _ w (
        change_settled-Tells env steady _ request (trim_space_idem input.user_id) again input _ _
          refl)

    told : Ensures S (change_password env input w)
    told =
        Ensures-guard _ _ _ w (λ f. absurd (ground (arith, f, named)))
          λ t.
            Ensures-some_or _ _ _ w (λ n. absurd (ground (arith, n, accepted)))
              λ q e.
                subst
                  (λ q. Ensures S (
                    (outcome_for env (trim_space input.user_id) q
                        >>= change_settled env input (trim_space input.user_id) q)
                      w))
                  (ground (arith, e, accepted)) settled
