-- ===== src/Tests/SessionRoundTrip.antt =====
-- A login after the setup, and its token.
use nexus_control.Service.Act.{World, Reply, done, failed}
use nexus_control.Service.Records.{LoginResult, Principal}
use nexus_control.Store.LoginRoundTrip.{IsKeyed}
use nexus_control.Service.SessionRoundTrip.{DrawsTokens, login-resolve_token}
use nexus_control.Service.Serving.{set_up}
use nexus_control.Tests.Fixtures.{ann, principal}
use nexus_control.Schema.{role_owner}
use nexus_control.Tests.Surroundings.{alone, service, at_start}
use nexus_control.Tests.Serving.{ann_starts, ann_enters}
use nexus_control.Strings.{
  is_space, trim_left, keep_before, trim_right, trim_space, width, len, utf8_char, utf8, is_empty,
  nullable_string,
}
use nexus_control.Service.Act.{
  continue, ◌>>=◌, either_case, pure, fail, guard, some_or, reply_of, now, ask, change, command,
  new_id, new_token, hash_token, hash_password,
}
use nexus_control.Service.Sessions.{
  new_service, admits, entitlement_for, attach_entitlement, state, setup_owner, login, logout,
  resolved_principal, principal_if_found, resolve_token, verify_bound_human, sign_principal,
  exchange_bound_human, token_if_found, exchange_principal, role_for, user_for, set_avatar,
}
use nexus_control.Service.PasswordHash.{
  split, digits_on, decimal, scan_digits, whole, unsigned, atoi, strip, trim_prefix, scan_uint,
  scan_field, scan_cost, same_bytes, encoded_hash, compare_key, verify_parts, verify_password,
}
use nexus_control.Service.Base64.{
  sextet_char, char_sextet, encode, sextets, add_bytes, join_sextets, decoded, decode,
}
use nexus_control.Service.Validate.{
  lower, to_lower, username_char, request_char, every_char, checked, normalize_username,
  normalize_request_id, validate_password, role_of_text, normalize_role,
}
use nexus_control.Service.Records.{
  entitlement_from_record, principal_from_record, principal_record, manages, manages_organization,
  user_from_record, member_from_record,
}
use nexus_control.Service.Serving.{serve, serve_all}
use nexus_control.Store.Setup.{
  insert_deployment, insert_organization, insert_owner, create_owner_body, create_owner,
}
use nexus_control.Store.Accounts.{
  scan_deployment_member, insert_user, insert_identity, insert_credential,
  insert_deployment_membership, lock_deployment, rename_user, unchanged_since,
}
use nexus_control.Store.Memberships.{
  memberships_ok, upsert_membership, write_memberships, join_organization, set_role,
  accept_invitation_row, revoke_organization_member,
}
use nexus_control.Store.Plans.{
  plan_key_of, list_subscription_plans, upsert_plan, entitlement_users,
  upsert_subscription_plan_row, append_entitlement_events, insert_default_plans, upsert_plan_body,
  upsert_subscription_plan,
}
use nexus_control.Store.Entitlements.{
  scan_entitlement, effective_entitlement, upsert_entitlement, set_entitlement_body,
  set_member_entitlement,
}
use nexus_control.Store.Invitations.{
  with_organization, select_invitation, organization_invitation_by_token,
  organization_invitation_by_id, create_invitation_body, create_organization_invitation,
  require_invitation_manager, use_invitation, insert_membership, revoke_invitation_body,
  revoke_organization_invitation, delete_invitation_body, delete_organization_invitation,
  accept_invitation_body, accept_organization_invitation,
}
use nexus_control.Store.Registration.{
  oldest, register_account_body, register_account, setup_required, role_of_row, active_role,
  update_avatar_body, update_avatar,
}
use nexus_control.Store.Resolution.{
  joined_membership, joined_organization, principal_row, earliest, login_row, login_user,
  login_record, stands, resolved_row, resolved_session, resolve_session,
  resolve_session_by_token_hash, resolve_session_by_id, resolve_node_owner,
}
use nexus_control.Store.Sessions.{
  purgeable, purge_sessions, create_session_body, create_session, revoke_session_body,
  revoke_session, touch_session,
}
use nexus_control.Store.Principals.{
  active_user, active_deployment, active_organization, active_member, may_manage, live_manager,
  require_organization_manager, require_deployment_manager,
}
use nexus_control.Tx.{transaction}
use nexus_control.Base.{true}
use nexus_control.Base.{
  ltb, suc, ◌+◌, find, any, select, count, update, delete, dec_text, arith, refl, ◌≡◌, [], some,
}

abbrev start : Principal
start = principal_from_record (principal ann role_owner)

abbrev morning : World
morning = serve alone service (set_up ann_starts) at_start

abbrev entered : Reply LoginResult × World
entered = login alone service ann_enters morning

-- What a reply reports; no reply here is a failure.
abbrev reported : Reply LoginResult → LoginResult
reported (done r) = r
reported (failed e) = record { session_token = []; principal = start }

entered_runs : entered ≡ (done (reported entered.0), entered.1)
unfolding is_space trim_left keep_before trim_right trim_space width len utf8_char utf8 is_empty
    nullable_string continue ◌>>=◌ either_case pure fail guard some_or reply_of now ask change
    command new_id new_token hash_token hash_password new_service admits entitlement_for
    attach_entitlement state setup_owner login logout resolved_principal principal_if_found
    resolve_token verify_bound_human sign_principal exchange_bound_human token_if_found
    exchange_principal role_for user_for set_avatar split digits_on decimal scan_digits whole
    unsigned atoi strip trim_prefix scan_uint scan_field scan_cost same_bytes encoded_hash
    compare_key verify_parts verify_password sextet_char char_sextet encode sextets add_bytes
    join_sextets decoded decode lower to_lower username_char request_char every_char checked
    normalize_username normalize_request_id validate_password role_of_text normalize_role
    entitlement_from_record principal_from_record principal_record manages manages_organization
    user_from_record member_from_record serve serve_all insert_deployment insert_organization
    insert_owner create_owner_body create_owner scan_deployment_member insert_user insert_identity
    insert_credential insert_deployment_membership lock_deployment rename_user unchanged_since
    memberships_ok upsert_membership write_memberships join_organization set_role
    accept_invitation_row revoke_organization_member plan_key_of list_subscription_plans upsert_plan
    entitlement_users upsert_subscription_plan_row append_entitlement_events insert_default_plans
    upsert_plan_body upsert_subscription_plan scan_entitlement effective_entitlement
    upsert_entitlement set_entitlement_body set_member_entitlement with_organization
    select_invitation organization_invitation_by_token organization_invitation_by_id
    create_invitation_body create_organization_invitation require_invitation_manager use_invitation
    insert_membership revoke_invitation_body revoke_organization_invitation delete_invitation_body
    delete_organization_invitation accept_invitation_body accept_organization_invitation oldest
    register_account_body register_account setup_required role_of_row active_role update_avatar_body
    update_avatar joined_membership joined_organization principal_row earliest login_row login_user
    login_record stands resolved_row resolved_session resolve_session resolve_session_by_token_hash
    resolve_session_by_id resolve_node_owner purgeable purge_sessions create_session_body
    create_session revoke_session_body revoke_session touch_session active_user active_deployment
    active_organization active_member may_manage live_manager require_organization_manager
    require_deployment_manager transaction find any select count update delete dec_text
entered_runs = refl

morning-IsKeyed : IsKeyed morning.db
unfolding is_space trim_left keep_before trim_right trim_space width len utf8_char utf8 is_empty
    nullable_string continue ◌>>=◌ either_case pure fail guard some_or reply_of now ask change
    command new_id new_token hash_token hash_password new_service admits entitlement_for
    attach_entitlement state setup_owner login logout resolved_principal principal_if_found
    resolve_token verify_bound_human sign_principal exchange_bound_human token_if_found
    exchange_principal role_for user_for set_avatar split digits_on decimal scan_digits whole
    unsigned atoi strip trim_prefix scan_uint scan_field scan_cost same_bytes encoded_hash
    compare_key verify_parts verify_password sextet_char char_sextet encode sextets add_bytes
    join_sextets decoded decode lower to_lower username_char request_char every_char checked
    normalize_username normalize_request_id validate_password role_of_text normalize_role
    entitlement_from_record principal_from_record principal_record manages manages_organization
    user_from_record member_from_record serve serve_all insert_deployment insert_organization
    insert_owner create_owner_body create_owner scan_deployment_member insert_user insert_identity
    insert_credential insert_deployment_membership lock_deployment rename_user unchanged_since
    memberships_ok upsert_membership write_memberships join_organization set_role
    accept_invitation_row revoke_organization_member plan_key_of list_subscription_plans upsert_plan
    entitlement_users upsert_subscription_plan_row append_entitlement_events insert_default_plans
    upsert_plan_body upsert_subscription_plan scan_entitlement effective_entitlement
    upsert_entitlement set_entitlement_body set_member_entitlement with_organization
    select_invitation organization_invitation_by_token organization_invitation_by_id
    create_invitation_body create_organization_invitation require_invitation_manager use_invitation
    insert_membership revoke_invitation_body revoke_organization_invitation delete_invitation_body
    delete_organization_invitation accept_invitation_body accept_organization_invitation oldest
    register_account_body register_account setup_required role_of_row active_role update_avatar_body
    update_avatar joined_membership joined_organization principal_row earliest login_row login_user
    login_record stands resolved_row resolved_session resolve_session resolve_session_by_token_hash
    resolve_session_by_id resolve_node_owner purgeable purge_sessions create_session_body
    create_session revoke_session_body revoke_session touch_session active_user active_deployment
    active_organization active_member may_manage live_manager require_organization_manager
    require_deployment_manager transaction find any select count update delete dec_text
morning-IsKeyed = record {
  user_key = λ user. ground arith;
  membership_key = λ deployment user. ground arith;
}

token_inked : DrawsTokens alone
unfolding is_empty trim_space trim_left trim_right keep_before is_space
token_inked n token e = ground (arith, e)

abbrev noon : World
noon = record { turn = 100; db = entered.1.db }

before_noon :
    ltb
      (alone.clock noon.turn)
      (alone.clock (suc (suc (suc (suc morning.turn)))) + service.session_ttl)
    ≡ true
unfolding is_space trim_left keep_before trim_right trim_space width len utf8_char utf8 is_empty
    nullable_string continue ◌>>=◌ either_case pure fail guard some_or reply_of now ask change
    command new_id new_token hash_token hash_password new_service admits entitlement_for
    attach_entitlement state setup_owner login logout resolved_principal principal_if_found
    resolve_token verify_bound_human sign_principal exchange_bound_human token_if_found
    exchange_principal role_for user_for set_avatar split digits_on decimal scan_digits whole
    unsigned atoi strip trim_prefix scan_uint scan_field scan_cost same_bytes encoded_hash
    compare_key verify_parts verify_password sextet_char char_sextet encode sextets add_bytes
    join_sextets decoded decode lower to_lower username_char request_char every_char checked
    normalize_username normalize_request_id validate_password role_of_text normalize_role
    entitlement_from_record principal_from_record principal_record manages manages_organization
    user_from_record member_from_record serve serve_all insert_deployment insert_organization
    insert_owner create_owner_body create_owner scan_deployment_member insert_user insert_identity
    insert_credential insert_deployment_membership lock_deployment rename_user unchanged_since
    memberships_ok upsert_membership write_memberships join_organization set_role
    accept_invitation_row revoke_organization_member plan_key_of list_subscription_plans upsert_plan
    entitlement_users upsert_subscription_plan_row append_entitlement_events insert_default_plans
    upsert_plan_body upsert_subscription_plan scan_entitlement effective_entitlement
    upsert_entitlement set_entitlement_body set_member_entitlement with_organization
    select_invitation organization_invitation_by_token organization_invitation_by_id
    create_invitation_body create_organization_invitation require_invitation_manager use_invitation
    insert_membership revoke_invitation_body revoke_organization_invitation delete_invitation_body
    delete_organization_invitation accept_invitation_body accept_organization_invitation oldest
    register_account_body register_account setup_required role_of_row active_role update_avatar_body
    update_avatar joined_membership joined_organization principal_row earliest login_row login_user
    login_record stands resolved_row resolved_session resolve_session resolve_session_by_token_hash
    resolve_session_by_id resolve_node_owner purgeable purge_sessions create_session_body
    create_session revoke_session_body revoke_session touch_session active_user active_deployment
    active_organization active_member may_manage live_manager require_organization_manager
    require_deployment_manager transaction find any select count update delete dec_text
before_noon = refl

login-resolve_token_example :
    (resolve_token alone (reported entered.0).session_token noon).0
    ≡ done (some (reported entered.0).principal)
login-resolve_token_example =
    login-resolve_token alone service ann_enters morning entered.1 noon (reported entered.0)
      (λ n db. refl) token_inked morning-IsKeyed entered_runs refl before_noon
