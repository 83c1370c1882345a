-- ===== src/Tests/Listings.antt =====
-- The directory of the fixture.
use nexus_control.Base.{
  ◌≡◌, refl, true, ◌&&◌, ◌==◌, dec_text, any, find, select, sort_by, insert_by,
}
use nexus_control.Schema.{is_current}
use nexus_control.Store.Principals.{active_user, active_organization, active_member}
use nexus_control.Store.Memberships.{membership_of}
use nexus_control.Store.Accounts.{scan_deployment_member}
use nexus_control.Store.Listings.{collect, list_active_members}
use nexus_control.Store.ListingLaws.{list_active_members_lem}
use nexus_control.Tests.Fixtures.{bob, dep, org, office}

bob_listed : any (λ r. r.user_id == bob) (list_active_members dep org office) ≡ true
unfolding list_active_members collect scan_deployment_member active_user active_organization any
    find select sort_by insert_by dec_text
bob_listed = refl

list_active_members_lem_example :
    (active_member dep bob office ≡ true)
    × (active_organization dep org office ≡ true)
    × (any (λ m. membership_of org bob m && is_current m.status) office.organization_memberships
        ≡ true)
    × (active_user bob office ≡ true)
list_active_members_lem_example = list_active_members_lem dep org bob office bob_listed
