-- ===== src/Service/MemberChecks.antt =====
-- The checks of a list of members and of a list of agents.
use nexus_control.Base.{
  ap, ◌<◌, ◌≡◌, refl, Bool, true, false, ◌&&◌, ◌||◌, not, some, List, [], ◌∷◌, Text, ltb, arith,
  any, count, length, ◌==◌, Option-cases, inl, inr, if◌then◌else◌,
}
use nexus_control.Strings.{trim_space, is_empty, len}
use nexus_control.Store.Accounts.{DeploymentMemberRecord}
use nexus_control.Store.Listings.{list_active_members}
use nexus_control.Service.Act.{
  Env, World, Act, Reply, done, failed, met, guard, ask, ServiceError, pure, ◌>>=◌, continue,
}
use nexus_control.Service.Agents.{distinct_ids}
use nexus_control.Service.Members.{verify_each, verify_organization_members}

-- What the members are asked to be, independently of the loop.
abbrev every : (Text → Bool) → List Text → Bool
every p [] = true
every p (id ∷ ids) = p id && every p ids

abbrev pub is_sized : Text → Bool
is_sized id = not (is_empty (trim_space id) || ltb 128 (len (trim_space id)))

abbrev pub is_listed : List DeploymentMemberRecord → Text → Bool
is_listed active id = any (λ r. r.user_id == trim_space id) active

abbrev pub accepted_by : List DeploymentMemberRecord → List Text → Bool
accepted_by active = every (λ id. is_sized id && is_listed active id)

abbrev pub is_done : {A : Type 0} → Reply A → Bool
is_done (done a) = true
is_done (failed e) = false

guard-done :
    {A : Type 0} (b x : Bool) (e : ServiceError) (k : Unit {0} → Act A) (w : World)
    → is_done (k tt w).0 ≡ x
    → is_done ((guard b e >>= k) w).0 ≡ b && x
unfolding ◌>>=◌ continue guard
guard-done true x e k w h = h
guard-done false x e k w h = refl

verify_each-done :
    (active : List DeploymentMemberRecord) (ids : List Text) (w : World) (env : Env)
    → is_done (verify_each env active ids w).0 ≡ accepted_by active ids
unfolding verify_each ◌>>=◌ continue guard pure
verify_each-done active [] w env = refl
verify_each-done active (id ∷ ids) w env = ground (arith, verify_each-done active ids w env)

-- A list of users is confirmed exactly if the deployment and the organization are named, the list has
-- at most 100 entries, and each entry, trimmed, has 1 to 128 bytes and is the user of an active member
-- of the organization as the store lists them.
pub verify_organization_members-done :
    (env : Env) (deployment org : Text) (ids : List Text) (w : World)
    → is_done (verify_organization_members env deployment org ids w).0
      ≡ not
          (is_empty (trim_space deployment) || (is_empty (trim_space org) || ltb 100 (length ids)))
        && accepted_by
            (list_active_members (trim_space deployment) (trim_space org) (met env w))
            ids
unfolding verify_organization_members ask
verify_organization_members-done env deployment org ids w =
    guard-done _ _ _ _ w (unfold ◌>>=◌ in unfold continue in verify_each-done _ ids _ env)

same_text : (s t : Text) → s == t ≡ true → s ≡ t
same_text s t h = ground (arith, h)

abbrev pub lists : List Text → Text → Bool
lists ids t = any (λ id. id == t) ids

lists_same : (s t : Text) (seen : List Text) → s == t ≡ true → lists seen s ≡ lists seen t
lists_same s t seen h = ap (lists seen) (same_text s t h)

count_none : (t : Text) (l : List Text) → lists l t ≡ false → count (λ id. id == t) l ≡ 0
unfolding any count
count_none t [] h = refl
count_none t (id ∷ l) h = ground (arith, h, count_none t l)

count_some : (t : Text) (l : List Text) → lists l t ≡ true → 0 < count (λ id. id == t) l
unfolding any count
count_some t [] h = cc
count_some t (id ∷ l) h = ground (arith, h, count_some t l)

module _ (t : Text) where
  distinct_ids-lists :
      (ids seen r : List Text)
      → distinct_ids seen ids ≡ some r
      → lists r t ≡ not (lists seen t) && any (λ id. trim_space id == t) ids
  unfolding distinct_ids any
  distinct_ids-lists [] seen r e = ground (arith, e)
  distinct_ids-lists (id ∷ ids) seen r e =
      elim (Option-cases (distinct_ids (trim_space id ∷ seen) ids)) [
        | inl f ↦ absurd (ground (arith, e, f))
        | inr (l, f) ↦ ground (
          arith,
          e,
          f,
          distinct_ids-lists ids (trim_space id ∷ seen) l f,
          lists_same (trim_space id) t seen,
        )
      ]

  distinct_ids-once :
      (ids seen r : List Text) → distinct_ids seen ids ≡ some r → count (λ id. id == t) r < 2
  unfolding distinct_ids count any
  distinct_ids-once [] seen r e = ground (arith, e)
  distinct_ids-once (id ∷ ids) seen r e =
      elim (Option-cases (distinct_ids (trim_space id ∷ seen) ids)) [
        | inl f ↦ absurd (ground (arith, e, f))
        | inr (l, f) ↦ ground (
          arith,
          e,
          f,
          distinct_ids-lists ids (trim_space id ∷ seen) l f,
          distinct_ids-once ids (trim_space id ∷ seen) l f,
          count_none t l,
        )
      ]

-- Where a list of agents is accepted, what the store is asked for has each trimmed identifier of the
-- list exactly once and nothing else.
pub distinct_ids_lem :
    (ids r : List Text) (t : Text)
    → distinct_ids [] ids ≡ some r
    → count (λ id. id == t) r ≡ (if any (λ id. trim_space id == t) ids then 1 else 0)
unfolding any
distinct_ids_lem ids r t e = ground (
  arith,
  distinct_ids-lists t ids [] r e,
  distinct_ids-once t ids [] r e,
  count_none t r,
  count_some t r,
)
