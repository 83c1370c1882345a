-- ===== src/Service/Refinement/Sessions.antt =====
-- The operations on sessions over the operations of the store.
use nexus_control.Base.{ℕ, Option, none, some, Text}
use nexus_control.Store.Principals.{PrincipalRecord}
use nexus_control.Store.Reachable.{sets_up, draws, touches, logs_in, logs_out}
use nexus_control.Service.Records.{Principal, SetupOwnerInput, LoginInput}
use nexus_control.Service.Act.{Env}
use nexus_control.Service.Sessions.{
  Service, entitlement_for, attach_entitlement, setup_owner, login, logout, resolved_principal,
  principal_if_found, resolve_token, verify_bound_human, sign_principal, exchange_bound_human,
  token_if_found, exchange_principal, user_for, set_avatar,
}
use nexus_control.Service.Refinement.Rules.{IsFair, Tame, Tame-pure, Tame-named, tame_rules}

module _ (env : Env) (fair : IsFair env) where
  pub entitlement_for-Tame : (deployment user : Text) → Tame (entitlement_for env deployment user)
  unfolding entitlement_for
  entitlement_for-Tame deployment user = search tame_rules depth 30

  attach_entitlement-Tame : (p : Principal) → Tame (attach_entitlement env p)
  unfolding attach_entitlement
  attach_entitlement-Tame p = search (tame_rules, entitlement_for-Tame) depth 30

  pub login-Tame : (s : Service) (input : LoginInput) → Tame (login env s input)
  unfolding login
  login-Tame s input = search (tame_rules, attach_entitlement-Tame, logs_in) depth 40

  pub logout-Tame : (token : Text) → Tame (logout env token)
  unfolding logout
  logout-Tame token = search (tame_rules, logs_out) depth 40

  resolved_principal-Tame : (t : ℕ) (r : PrincipalRecord) → Tame (resolved_principal env t r)
  unfolding resolved_principal
  resolved_principal-Tame t r = search (tame_rules, attach_entitlement-Tame, touches) depth 30

  principal_if_found-Tame :
      (t : ℕ) (found : Option PrincipalRecord) → Tame (principal_if_found env t found)
  unfolding principal_if_found
  principal_if_found-Tame t none = search tame_rules depth 30
  principal_if_found-Tame t (some r) = search (tame_rules, resolved_principal-Tame) depth 30

  pub resolve_token-Tame : (token : Text) → Tame (resolve_token env token)
  unfolding resolve_token
  resolve_token-Tame token = search (tame_rules, principal_if_found-Tame) depth 30

  pub verify_bound_human-Tame : (user session : Text) → Tame (verify_bound_human env user session)
  unfolding verify_bound_human
  verify_bound_human-Tame user session = search (tame_rules, resolved_principal-Tame) depth 30

  sign_principal-Tame :
      (s : Service) (p : Principal) (audience : Text) → Tame (sign_principal env s p audience)
  unfolding sign_principal
  sign_principal-Tame s p audience = search tame_rules depth 30

  pub exchange_bound_human-Tame :
      (s : Service) (user session audience : Text)
      → Tame (exchange_bound_human env s user session audience)
  unfolding exchange_bound_human
  exchange_bound_human-Tame s user session audience =
      search (tame_rules, verify_bound_human-Tame, sign_principal-Tame) depth 30

  token_if_found-Tame :
      (s : Service) (audience : Text) (p : Option Principal)
      → Tame (token_if_found env s audience p)
  unfolding token_if_found
  token_if_found-Tame s audience none = Tame-pure _
  token_if_found-Tame s audience (some p) = search (tame_rules, sign_principal-Tame) depth 30

  pub exchange_principal-Tame :
      (s : Service) (token audience : Text) → Tame (exchange_principal env s token audience)
  unfolding exchange_principal
  exchange_principal-Tame s token audience =
      search (tame_rules, resolve_token-Tame, token_if_found-Tame) depth 30

  pub set_avatar-Tame : (user avatar : Text) → Tame (set_avatar env user avatar)
  unfolding set_avatar user_for
  set_avatar-Tame user avatar = search (tame_rules, draws) depth 40

  pub setup_owner-Tame : (input : SetupOwnerInput) → Tame (setup_owner env input)
  unfolding setup_owner
  setup_owner-Tame input =
      search (tame_rules, attach_entitlement-Tame, sets_up, Tame-named) depth 60
