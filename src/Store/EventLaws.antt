-- ===== src/Store/EventLaws.antt =====
-- The event sequence of internal/storage/auth/identity_invalidation.go, as a client reads it.
use nexus_control.Base.{
  ℕ, zero, suc, ◌<◌, ◌≤◌, ◌≡◌, refl, Bool, true, false, Option, List, [], ◌∷◌, ◌++◌, Text, leb, ltb,
  any, select, take, arith, any-append_row, any_weaken,
}
use nexus_control.Schema.{Db, Invalidation, Reason}
use nexus_control.Store.Events.{
  append_event, latest_event, latest_identity_invalidation_id, list_identity_invalidations,
}

-- The sequence has started, and it is ahead of every number given out.
abbrev pub IsNumbered : Db → Type 0
IsNumbered db =
    (0 < db.next_event_id) × any (λ e. leb db.next_event_id e.event_id) db.invalidations ≡ false

select-append_hit :
    (p : Invalidation → Bool) (es : List Invalidation) (e : Invalidation)
    → any p es ≡ false
    → p e ≡ true
    → select p (es ++ e ∷ []) ≡ e ∷ []
unfolding select any
select-append_hit p [] e none_old h = ground arith
select-append_hit p (x ∷ es) e none_old h = ground (arith, select-append_hit p es e)

-- No event is numbered above the latest.
latest_event-greatest :
    (es : List Invalidation) (bound : ℕ)
    → latest_event es ≤ bound
    → any (λ e. ltb bound e.event_id) es ≡ false
unfolding latest_event any
latest_event-greatest [] bound h = refl
latest_event-greatest (e ∷ es) bound h =
    ground (arith, h, latest_event-greatest es bound (omega (arith, h)))

-- The latest number is behind the sequence.
latest_event-bounded :
    (es : List Invalidation) (next : ℕ)
    → 0 < next
    → any (λ e. leb next e.event_id) es ≡ false
    → latest_event es < next
unfolding latest_event any
latest_event-bounded [] next pos h = omega (arith, pos)
latest_event-bounded (e ∷ es) next pos h = ground (arith, latest_event-bounded es next pos)

take-one : (limit : ℕ) (e : Invalidation) → take (suc limit) (e ∷ []) ≡ e ∷ []
unfolding take
take-one zero e = refl
take-one (suc n) e = refl

module _ (deployment user : Text) (session : Option Text) (reason : Reason) (now : ℕ) (org : Text)
    (revoked : Bool) where
  abbrev written : Db → Invalidation
  written db = record {
    event_id = db.next_event_id;
    deployment_id = deployment;
    user_id = user;
    session_id = session;
    reason = reason;
    created_at = now;
    organization_id = org;
    membership_revoked = revoked;
  }

  pub append_event-IsNumbered :
      (db : Db)
      → IsNumbered db
      → IsNumbered (append_event deployment user session reason now org revoked db)
  unfolding append_event
  append_event-IsNumbered db (pos, below) = (
    omega arith,
    rw (any-append_row (λ e. leb (suc db.next_event_id) e.event_id) db.invalidations) (
        ground (
          arith,
          any_weaken (λ e. leb db.next_event_id e.event_id)
              (λ e. leb (suc db.next_event_id) e.event_id) db.invalidations (λ e. ground arith)
              below,
        )),
  )

  -- A client that has read up to the latest number, and asks for at least one event after a change
  -- has been written, gets the event of the change and nothing else. The sequence has started,
  -- and it is ahead of every number given out.
  pub append_event-list :
      (limit : ℕ) (db : Db)
      → IsNumbered db
      → (e : Invalidation) × (list_identity_invalidations
            (latest_identity_invalidation_id db)
            (suc limit)
            (append_event deployment user session reason now org revoked db)
          ≡ e ∷ [])
        × (e.event_id ≡ db.next_event_id)
        × (e.deployment_id ≡ deployment)
        × (e.user_id ≡ user)
        × (e.reason ≡ reason)
  unfolding append_event list_identity_invalidations latest_identity_invalidation_id
  append_event-list limit db (pos, below) = (
    written db,
    rw
        (select-append_hit (λ e. ltb (latest_event db.invalidations) e.event_id) db.invalidations
          (written db)
          (latest_event-greatest db.invalidations (latest_event db.invalidations) (omega arith))
          (ground (arith, latest_event-bounded db.invalidations db.next_event_id pos below)))
        (take-one limit (written db)),
    refl,
    refl,
    refl,
    refl,
  )
