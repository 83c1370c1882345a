-- ===== src/Tests/Nodes.antt =====
-- Execution nodes on the fixture.
use nexus_control.Base.{
  dec_text, ◌≡◌, refl, ◌<◌, none, [], text, arith, any, count, find, update, ◌==◌,
}
use nexus_control.Schema.{Db, Node}
use nexus_control.Tx.{StoreError, ok, err, transaction}
use nexus_control.Store.Events.{append_event, append_identity_invalidation}
use nexus_control.Store.Nodes.{insert_node, get_node, register_node, revoke_node_body, revoke_node}
use nexus_control.Store.NodeLaws.{rests, registers, revoke_node-register}
use nexus_control.Tests.Fixtures.{bob, dep, org, office}

abbrev laptop : Node
laptop = record {
  node_id = text "node";
  deployment_id = dep;
  organization_id = org;
  owner_user_id = bob;
  parent_session_id = text "sess";
  credential_hash = text "machine";
  name = text "laptop";
  agent_ids = [];
  created_at = 20;
  revoked_at = none;
}

abbrev revoked : Db
revoked = (revoke_node dep org bob (text "sess") (text "node") 10 office).1

no_node : count (λ n. n.node_id == text "node") office.nodes < 2
unfolding count
no_node = ground arith

bob_revokes : revoke_node dep org bob (text "sess") (text "node") 10 office ≡ (ok tt, revoked)
unfolding revoke_node transaction revoke_node_body insert_node get_node append_identity_invalidation
    append_event any find update dec_text
bob_revokes = refl

-- After two more registrations.
abbrev later : Db
later =
    (register_node (record laptop { node_id = text "tablet" }) (register_node laptop revoked).1).1

-- The node was not known when it was revoked.
revoke_node-register_example : (e : StoreError) × (register_node laptop later ≡ (err e, later))
revoke_node-register_example =
    revoke_node-register dep org bob (text "sess") 10 laptop office revoked later no_node
      bob_revokes (registers (registers rests laptop) (record laptop { node_id = text "tablet" }))
