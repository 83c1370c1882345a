-- ===== src/Store/Events.antt =====
-- internal/storage/auth/identity_invalidation.go, with the other appends to the event sequence.
use Prim.Native.Nat.{max}
use nexus_control.Base.{
  ℕ, suc, Bool, false, ◌&&◌, Option, none, List, [], ◌∷◌, ◌++◌, Text, ltb, ◌==◌, select, take,
}
use nexus_control.Strings.{trim_space, nullable_string}
use nexus_control.Schema.{
  Db, DeploymentMembership, Invalidation, Reason, profile_changed, organization_changed, is_current,
}
use nexus_control.Tx.{Tx, write, pure, read, ◌>>=◌, ◌>>◌}

-- The row goes in with the next number of the sequence.
unfoldable pub append_event : Text → Text → Option Text → Reason → ℕ → Text → Bool → Db → Db
append_event deployment user session reason now org revoked db = record db {
  invalidations = db.invalidations ++ event ∷ [];
  next_event_id = suc db.next_event_id;
}
  where
    event : Invalidation
    event = record {
      event_id = db.next_event_id;
      deployment_id = deployment;
      user_id = user;
      session_id = session;
      reason = reason;
      created_at = now;
      organization_id = org;
      membership_revoked = revoked;
    }

module _ {R : Type 0} where
  -- `appendIdentityInvalidation`
  unfoldable pub append_identity_invalidation : Text → Text → Text → Reason → ℕ → Tx R (Unit {0})
  append_identity_invalidation deployment user session reason now =
      write (append_event deployment user (nullable_string session) reason now [] false)

  -- `appendOrganizationInvalidation`
  unfoldable pub append_organization_invalidation : Text → Text → Text → Bool → ℕ → Tx R (Unit {0})
  append_organization_invalidation deployment org user revoked now =
      write (append_event deployment user none organization_changed now org revoked)

  -- The loop of `appendProfileInvalidations` over the deployments that it has read.
  unfoldable pub append_profile_events : List DeploymentMembership → Text → ℕ → Tx R (Unit {0})
  append_profile_events [] user now = pure tt
  append_profile_events (m ∷ ms) user now = do
    append_identity_invalidation m.deployment_id user [] profile_changed now
    append_profile_events ms user now

  -- `appendProfileInvalidations`
  unfoldable pub append_profile_invalidations : Text → ℕ → Tx R (Unit {0})
  append_profile_invalidations user now = do
    ms ← read λ db. select (λ m. m.user_id == trim_space user && is_current m.status) db.memberships
    append_profile_events ms (trim_space user) now

-- `LatestIdentityInvalidationID`: the largest event number, 0 for none.
unfoldable pub latest_event : List Invalidation → ℕ
latest_event [] = 0
latest_event (e ∷ es) = max e.event_id (latest_event es)

unfoldable pub latest_identity_invalidation_id : Db → ℕ
unfolding latest_event
latest_identity_invalidation_id db = latest_event db.invalidations

-- `ListIdentityInvalidations`: the table is kept in the order of `event_id`.
unfoldable pub list_identity_invalidations : ℕ → ℕ → Db → List Invalidation
list_identity_invalidations after limit db =
    take limit (select (λ e. ltb after e.event_id) db.invalidations)
