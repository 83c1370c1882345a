-- ===== src/Tests/Events.antt =====
-- The event sequence on the fixture.
use nexus_control.Base.{◌≡◌, refl, false, none, [], ◌∷◌, arith, any}
use nexus_control.Schema.{Invalidation, principal_changed}
use nexus_control.Store.Events.{
  append_event, latest_identity_invalidation_id, list_identity_invalidations,
}
use nexus_control.Store.EventLaws.{IsNumbered, append_event-list}
use nexus_control.Tests.Fixtures.{bob, dep, office}

office-IsNumbered : IsNumbered office
unfolding any
office-IsNumbered = (omega arith, refl)

append_event-list_example :
    (e : Invalidation) × (list_identity_invalidations
        (latest_identity_invalidation_id office)
        100
        (append_event dep bob none principal_changed 10 [] false office)
      ≡ e ∷ [])
    × (e.event_id ≡ 1)
    × (e.deployment_id ≡ dep)
    × (e.user_id ≡ bob)
    × (e.reason ≡ principal_changed)
append_event-list_example =
    append_event-list dep bob none principal_changed 10 [] false 99 office office-IsNumbered
