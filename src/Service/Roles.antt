-- ===== src/Service/Roles.antt =====
-- The tests of roles in internal/service/auth against the rule of the store.
use nexus_control.Base.{
  ℕ, zero, suc, ℤ, pos, negsuc, ◌+◌, ◌*◌, not, ◌&&◌, ◌≡◌, ◌≤◌, refl, true, false, arith, Option,
  none, some,
}
use nexus_control.Schema.{Role, is_owner, is_member}
use nexus_control.Store.Principals.{may_manage}
use nexus_control.Service.Records.{manages, manages_organization}
use nexus_control.Service.Members.{admin_limited}
use nexus_control.Service.Invitations.{invitation_hours, hour, by_admin}
use nexus_control.Service.Duties.{may, leads}

pub leads-manages : (r : Role) → manages r ≡ true → leads (some r) ≡ true
unfolding manages may_manage
leads-manages r h = ground (arith, h)

pub leads-manages_organization : (r : Option Role) → manages_organization r ≡ true → leads r ≡ true
unfolding manages_organization manages may_manage
leads-manages_organization none h = cc
leads-manages_organization (some r) h = ground (arith, h)

pub leads_some : (r : Role) → manages_organization (some r) ≡ manages r
unfolding manages_organization
leads_some r = refl

pub invite_may :
    (r : Option Role) (target : Role)
    → manages_organization r ≡ true
    → is_owner target ≡ false
    → not (by_admin r && not (is_member target)) ≡ true
    → may r target ≡ true
unfolding manages_organization manages may_manage
invite_may none target m o h = cc
invite_may (some r) target m o h = ground (arith, m, o, h)

pub limited_may :
    (r : Option Role) (target next : Role)
    → manages_organization r ≡ true
    → is_owner target ≡ false
    → is_owner next ≡ false
    → admin_limited r target next ≡ true
    → (may r target ≡ true) × (may r next ≡ true)
unfolding manages_organization manages may_manage admin_limited
limited_may none target next m o p h = cc
limited_may (some r) target next m o p h = (ground (arith, m, o, h), ground (arith, m, p, h))

pub invitation_hours_le : (z : ℤ) (h : ℕ) → invitation_hours z ≡ some h → h ≤ 720
unfolding invitation_hours
invitation_hours_le (pos zero) h e = ground (arith, e)
invitation_hours_le (pos (suc n)) h e = ground (arith, e)
invitation_hours_le (negsuc n) h e = cc

pub in_time : (t h : ℕ) → h ≤ 720 → t + h * hour ≤ t + 720 * hour
in_time t h e = omega (arith, e)
