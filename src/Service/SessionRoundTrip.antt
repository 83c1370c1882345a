-- ===== src/Service/SessionRoundTrip.antt =====
-- A login, and the principal behind its token.
use nexus_control.Base.{
  ℕ, suc, ◌+◌, ◌≡◌, refl, ap, sym, subst, ◌∙◌, true, false, ◌||◌, not, some, Text, text, ltb, arith,
  inl, inr,
}
use nexus_control.Schema.{Db, is_active, is_current}
use nexus_control.Tx.{ok}
use nexus_control.Strings.{trim_space, is_empty}
use nexus_control.Store.Principals.{PrincipalRecord}
use nexus_control.Store.Resolution.{
  LoginRecord, login_record, principal_row, resolve_session_by_token_hash,
}
use nexus_control.Store.Plans.{plan_key_of}
use nexus_control.Store.Sessions.{purge_sessions, SessionRecord, create_session, touch_session}
use nexus_control.Store.LoginLaws.{logged_in, create_session_cases}
use nexus_control.Store.LoginRoundTrip.{IsKeyed, login_record-rows, create_session-resolve}
use nexus_control.Store.Entitlements.{EntitlementRecord, effective_entitlement}
use nexus_control.Service.Records.{
  Entitlement, entitlement_from_record, Principal, principal_from_record, principal_record,
  LoginInput, LoginResult,
}
use nexus_control.Service.Sessions.{
  Service, admits, entitlement_for, attach_entitlement, login, resolved_principal,
  principal_if_found, resolve_token,
}
use nexus_control.Service.Act.{
  Env, World, Act, Reply, done, failed, hash_token, moved, ◌>>=◌, continue, pure, guard, some_or,
  ask, now, change, command, new_token, internal, ◌>>◌,
}
use nexus_control.Service.Ensures.{
  Ensures, Ensures-guard, Ensures-some_or, Ensures-bind, Ensures-now, Ensures-ask, Ensures-command,
  Ensures-pure, Ensures-new_id, Ensures-new_token,
}

-- The surroundings without the other requests.
abbrev pub quiet : Env → Env
quiet env = record env { others = λ n db. db }

-- The tokens that are drawn are not blank: `newToken` writes 64 hexadecimal digits.
abbrev pub DrawsTokens : Env → Type 0
DrawsTokens env =
    (n : ℕ) (token : Text) → env.random_token n ≡ some token → is_empty (trim_space token) ≡ false

-- The entitlement that is attached to a principal.
record Attached (db : Db) (p : Principal) (q : Principal) : Type 0 where
  record_of : EntitlementRecord
  named : not (is_empty (trim_space p.deployment_id) || is_empty (trim_space p.user_id)) ≡ true
  found :
      effective_entitlement (trim_space p.deployment_id) (trim_space p.user_id) db ≡ some record_of
  same : q ≡ record p { entitlement = entitlement_from_record record_of }

continue-done :
    {A B : Type 0} (f : A → Act B) (x : Reply A × World) (a : A)
    → x.0 ≡ done a
    → continue f x ≡ f a x.1
unfolding continue
continue-done f (done b, w) a e = ground (arith, e)
continue-done f (failed b, w) a e = absurd (cc)

module _ (env : Env) where
  abbrev AttachedAt : World → Principal → Reply Principal → World → Type 0
  AttachedAt w p (done q) v = Attached w.db p q × (v ≡ moved (quiet env) w w.db)
  AttachedAt w p (failed e) v = Unit

  attach-Attached :
      (p : Principal) (w : World) → Ensures (AttachedAt w p) (attach_entitlement (quiet env) p w)
  unfolding attach_entitlement entitlement_for
  attach-Attached p w =
      Ensures-bind Given _ _ w
        (Ensures-guard _ _ _ w (λ f. tt)
          λ t.
            Ensures-ask (quiet env) _ _ w
              (Ensures-some_or _ _ _ _ (λ f. tt) λ r f. Ensures-pure _ _ ((r, t, f, refl, refl))))
        (λ e v (r, t, f, same, at). Ensures-pure _ _ (
          record {
            record_of = r;
            named = t;
            found = f;
            same = ap (λ x. record p { entitlement = x }) same;
          },
          at,
        ))
        (λ e v q. tt)
    where
      Given : Reply Entitlement → World → Type 0
      Given (done e) v =
          (r : EntitlementRecord) × (not
              (is_empty (trim_space p.deployment_id) || is_empty (trim_space p.user_id))
            ≡ true)
          × (effective_entitlement (trim_space p.deployment_id) (trim_space p.user_id) w.db
              ≡ some r)
          × (e ≡ entitlement_from_record r)
          × (v ≡ moved (quiet env) w w.db)
      Given (failed e) v = Unit

  attach-again :
      (p q : Principal) (w : World)
      → Attached w.db p q
      → (attach_entitlement (quiet env) p w).0 ≡ done q
  unfolding attach_entitlement entitlement_for ◌>>=◌ continue guard some_or ask pure
  attach-again p q w a = ground (arith, a.named, a.found, a.same)

  -- Nothing that a login writes changes the entitlement.
  Attached-logged_in :
      (r : SessionRecord) (id : Text) (t : ℕ) (db : Db) (p q : Principal)
      → Attached db p q
      → Attached (touch_session id t (logged_in r db)) p q
  unfolding effective_entitlement touch_session purge_sessions plan_key_of
  Attached-logged_in r id t db p q a = record {
    record_of = a.record_of;
    named = a.named;
    found = a.found;
    same = a.same;
  }

  -- A token that resolves in the store resolves in the service.
  resolve_token-found :
      (token : Text) (v : World) (p : PrincipalRecord) (q : Principal)
      → is_empty (trim_space token) ≡ false
      → resolve_session_by_token_hash (hash_token (quiet env) token) (env.clock v.turn) v.db
        ≡ some p
      → Attached (touch_session p.session_id (env.clock v.turn) v.db) (principal_from_record p) q
      → (resolve_token (quiet env) token v).0 ≡ done (some q)
  unfolding resolve_token principal_if_found resolved_principal ◌>>=◌ continue ask now change pure
      hash_token
  resolve_token-found token v p q inked e a =
      rw (inked, e)
        (ap (λ x. x.0)
          (continue-done (λ q. pure (some q))
            (attach_entitlement (quiet env) (principal_from_record p) (record {
              turn = suc (suc (suc v.turn));
              db = touch_session p.session_id (env.clock v.turn) v.db;
            }))
            q (attach-again (principal_from_record p) q _ a)))

  -- The row that a login writes.
  abbrev new_session : Service → LoginInput → Principal → Text → Text → ℕ → SessionRecord
  new_session s input q id token t = record {
    session_id = id;
    token_hash = hash_token (quiet env) token;
    principal = principal_record q;
    expires_at = t + s.session_ttl;
    client_ip = input.client_ip;
    user_agent = input.user_agent;
    created_at = t;
  }

  -- The principal that a login starts from.
  abbrev entering : PrincipalRecord → Text → Principal
  entering p id = record (principal_from_record p) {
    auth_method = text "password";
    session_id = id;
  }

  module _ (s : Service) (input : LoginInput) (username id token : Text) (t : ℕ) (db d : Db)
      (r : LoginRecord) (q : Principal) (key : IsKeyed db)
      (known : login_record username db ≡ some r)
      (ok_login : admits (quiet env) input.password r ≡ true)
      (attached : Attached db (entering r.principal id) q)
      (inked : is_empty (trim_space token) ≡ false)
      (run : create_session (new_session s input q id token t) db ≡ (ok tt, d)) where
    admits-active : (is_active r.user_status ≡ true) × (is_current r.membership_state ≡ true)
    unfolding admits
    admits-active = (ground (arith, ok_login), ground (arith, ok_login))

    written : d ≡ logged_in (new_session s input q id token t) db
    written = elim (create_session_cases (new_session s input q id token t) db) [
      | inl (fresh, went) ↦ cc
      | inr refused ↦ absurd (cc)
    ]

    login-resolves :
        (v : World)
        → v.db ≡ d
        → ltb (env.clock v.turn) (t + s.session_ttl) ≡ true
        → (resolve_token (quiet env) token v).0 ≡ done (some q)
    unfolding principal_row principal_from_record principal_record
    login-resolves v later soon =
        let (u, m, iu, im, joined, same, us, ms) = login_record-rows username db r known in
        let p : PrincipalRecord = principal_row u m (text "password") id db in
        let a : Attached db (principal_from_record p) q =
          subst (λ x. Attached db x q) (ap (λ x. entering x id) same) attached in
        let resolved =
          create_session-resolve (new_session s input q id token t) db u m key iu im
            (ap (λ x. x.user_id) a.same) (ap (λ x. x.deployment_id) a.same) (ground (arith, joined))
            (ap is_active (sym us) ∙ admits-active.0) (ap is_current (sym ms) ∙ admits-active.1)
            (ground (arith, joined)) (env.clock v.turn) d run soon
          ∙ ap (λ x. some (principal_row u m x id db)) (ap (λ x. x.auth_method) a.same) in
        resolve_token-found token v p q inked
          (subst
            (λ x.
              resolve_session_by_token_hash (hash_token (quiet env) token) (env.clock v.turn) x
              ≡ some p)
            (sym later) resolved)
          (subst
            (λ x.
              Attached (touch_session p.session_id (env.clock v.turn) x) (principal_from_record p)
                q)
            (sym (later ∙ written))
            (Attached-logged_in (new_session s input q id token t) p.session_id (env.clock v.turn)
              db (principal_from_record p) q a))

  -- A login that succeeds hands out a token for the principal that it reports.
  abbrev Promises : Service → World → Reply LoginResult → World → Type 0
  Promises s w (done r) w' =
      (v : World)
      → v.db ≡ w'.db
      → ltb (env.clock v.turn) (env.clock (suc (suc (suc (suc w.turn)))) + s.session_ttl) ≡ true
      → (resolve_token (quiet env) r.session_token v).0 ≡ done (some r.principal)
  Promises s w (failed e) w' = Unit

  -- The end of a login, from the token on.
  abbrev admitted : Service → LoginInput → Text → Principal → Act LoginResult
  admitted s input id q = do
    token ← new_token (quiet env)
    t ← now (quiet env)
    command (quiet env) (create_session (new_session s input q id token t)) internal
    pure (record { session_token = token; principal = q })

  pub login-Promises :
      (s : Service) (input : LoginInput) (w : World)
      → DrawsTokens env
      → IsKeyed w.db
      → Ensures (Promises s w) (login (quiet env) s input w)
  unfolding login
  login-Promises s input w draws key =
      Ensures-some_or _ _ _ w (λ f. tt)
        λ username eu.
          Ensures-guard _ _ _ w (λ f. tt)
            λ fits. Ensures-ask (quiet env) _ _ w (
              Ensures-some_or _ _ _ _ (λ f. tt)
                λ r known.
                  Ensures-guard _ _ _ _ (λ f. tt)
                    λ welcome. Ensures-new_id (quiet env) _ _ _ λ id.
                      Ensures-bind (AttachedAt _ (entering r.principal id)) _ _ _
                        (attach-Attached (entering r.principal id) _)
                        (λ q v (a, at).
                          subst (λ x. Ensures (Promises s w) (admitted s input id q x)) (sym at)
                            (Ensures-new_token (quiet env) _ _ tt λ token drawn_so.
                              Ensures-now (quiet env) _ _ (
                                Ensures-command (quiet env) _ _ _ _ (λ e d run. tt)
                                  λ _ d run. Ensures-pure _ _ (
                                    login-resolves s input username id token _ w.db d r q key known
                                      welcome a (draws _ token drawn_so) run))))
                        (λ e v f. tt))

-- Where nobody else writes in between, users and deployment memberships have their keys and the
-- tokens that are drawn are not blank, a login that succeeds hands out a token that resolves, on the
-- database that the login leaves and before the session expires, to the very principal that the login
-- reports, its entitlement included. The session starts at the fifth step of the login.
pub login-resolve_token :
    (env : Env) (s : Service) (input : LoginInput) (w w' v : World) (r : LoginResult)
    → ((n : ℕ) (db : Db) → env.others n db ≡ db)
    → DrawsTokens env
    → IsKeyed w.db
    → login env s input w ≡ (done r, w')
    → v.db ≡ w'.db
    → ltb (env.clock v.turn) (env.clock (suc (suc (suc (suc w.turn)))) + s.session_ttl) ≡ true
    → (resolve_token env r.session_token v).0 ≡ done (some r.principal)
login-resolve_token env s input w w' v r still draws key run later soon =
    subst (λ e. (resolve_token e r.session_token v).0 ≡ done (some r.principal)) calm
      ((subst (Ensures (Promises env s w)) run_quiet (login-Promises env s input w draws key)).holds
        v later soon)
  where
    calm : quiet env ≡ env
    calm = λ i. record env { others = λ n db. sym (still n db) i }

    run_quiet : login (quiet env) s input w ≡ (done r, w')
    run_quiet = subst (λ e. login e s input w ≡ (done r, w')) (sym calm) run
