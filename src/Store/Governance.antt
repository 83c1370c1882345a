-- ===== src/Store/Governance.antt =====
-- `MutateOrganization` and the ownership of organizations.
mod Own
mod Joining
mod Leaving
mod Renaming
use nexus_control.Base.{
  ◌≡◌, refl, ◌≢◌, Bool, true, ◌&&◌, not, [], Text, ◌==◌, arith, eqb, any, count, find,
}
use nexus_control.Schema.{Db, is_current}
use nexus_control.Tx.{
  Post, stops, Post-bind, Post-read, Post-require, Post-when, Post-write, Post-pure,
  transaction-Post, return_early,
}
use nexus_control.Store.Events.{append_organization_invalidation}
use nexus_control.Store.Organization.{
  Action, create, join, leave, transfer, rename, dissolve, other, OrganizationCommand, read_current,
  in_place, dispatch, organization_body, mutate_organization,
}
use nexus_control.Store.Owners.{IsGoverned}
use Own.{Governed}
use Joining.{create_action-Post, join_action-Post}
use Leaving.{leave_action-Post, transfer_action-Post}
use Renaming.{append_event-IsGoverned, rename_action-Post, dissolve_action-Post}

module _ (c : OrganizationCommand) (db : Db) (g : IsGoverned db)
    (named : c.action ≡ create → c.organization_id ≢ []) where
  dispatch-Post :
      (a : Action)
      → c.action ≡ a
      → in_place a (read_current c db).org c.actor.organization_id ≡ true
      → Post Governed (dispatch c a (read_current c db) db)
  unfolding dispatch in_place return_early
  dispatch-Post create is_create h = create_action-Post c db g (named is_create)
  dispatch-Post join e h = join_action-Post c db g (unfold in_place in h)
  dispatch-Post leave e h = leave_action-Post c db g (ground arith)
  dispatch-Post transfer e h = transfer_action-Post c db g
  dispatch-Post rename e h = rename_action-Post c db g
  dispatch-Post dissolve e h = dissolve_action-Post c db g
  dispatch-Post (other _) e h = stops

  organization_body-Post : Post Governed (organization_body c db)
  unfolding organization_body append_organization_invalidation
  organization_body-Post = Post-read _ _ db (
      Post-require _ _ _ db λ active. Post-read _ _ db (
        Post-require _ _ _ db λ placed.
          Post-bind Governed _ _ db (dispatch-Post c.action refl placed) λ org d h.
            Post-when _ _ d h (Post-write _ d (append_event-IsGoverned _ _ _ _ c.now _ _ h))))

-- Whatever command is run by whomever, each user stays in one organization at a time, each
-- organization has at most one active owner, each active organization has one, and no organization
-- has the empty identifier. A command that creates an organization carries an identifier that is not
-- empty.
pub mutate_organization-IsGoverned :
    (c : OrganizationCommand) (db : Db)
    → (c.action ≡ create → c.organization_id ≢ [])
    → IsGoverned db
    → IsGoverned (mutate_organization c db).1
unfolding mutate_organization
mutate_organization-IsGoverned c db named g =
    transaction-Post IsGoverned (organization_body c) db g (organization_body-Post c db g named)
