-- ===== src/Store/NodeStatements.antt =====
-- The statements of a registration and a revocation in internal/storage/auth/node.go.
use nexus_control.Base.{
  ◌≡◌, refl, subst, ap, ◌∙◌, inl, inr, true, false, ◌&&◌, none, some, List, [], ◌∷◌, ◌++◌, Text,
  ◌==◌, is_none, any, find, arith, if◌then◌else◌, any_mono, find_narrow, find-some-any,
}
use nexus_control.Schema.{Db, Node}
use nexus_control.Tx.{
  err, StoreError, Post, Post-bind, Post-weaken, Post-read, Post-row_or, Post-require, Post-write,
  Post-pure, transaction_cases,
}
use nexus_control.Store.Nodes.{
  node_conflict, same_node, require_agents, insert_node, register_node_body, register_node,
}

-- The node's number is in the table, revoked in every row.
abbrev pub IsRevoked : Text → Db → Type 0
IsRevoked node db =
    (any (λ n. n.node_id == node) db.nodes ≡ true)
    × (any (λ n. n.node_id == node && is_none n.revoked_at) db.nodes ≡ false)

module _ {R : Type 0} where
  -- The loop over the agents only looks, and does the same wherever the tables are the same.
  require_agents-Post :
      (node : Node) (ids : List Text) (db : Db)
      → Post (λ _ d. d ≡ db) (require_agents {R = R} node ids db)
  unfolding require_agents
  require_agents-Post node [] db = Post-pure tt db refl
  require_agents-Post node (id ∷ ids) db =
      Post-read _ _ db (Post-require _ _ _ db λ active. require_agents-Post node ids db)

  pub insert_node-Post :
      (node : Node) (db : Db)
      → Post
          (λ _ d. d ≡ record db {
            nodes = if any (node_conflict node) db.nodes then db.nodes else db.nodes ++ node ∷ [];
          })
          (insert_node {R = R} node db)
  unfolding insert_node
  insert_node-Post node db =
      Post-read _ _ db (Post-read _ _ db (Post-require _ _ _ db λ known. Post-write _ db refl))

-- The table of nodes after an INSERT … ON CONFLICT DO NOTHING.
abbrev pub with_node : Node → Db → Db
with_node node db = record db {
  nodes = if any (node_conflict node) db.nodes then db.nodes else db.nodes ++ node ∷ [];
}

-- What a registration that succeeds has stored and returned.
abbrev Registered : Node → Db → Node → Db → Type 0
Registered node db stored d =
    (find (λ n. n.node_id == node.node_id) d.nodes ≡ some stored)
    × (same_node stored node ≡ true)
    × (d ≡ with_node (record node { revoked_at = none }) db)

pub register_body-Post :
    (node : Node) (db : Db) → Post (Registered node db) (register_node_body node db)
unfolding register_node_body
register_body-Post node db = Post-read _ _ db (
    Post-require _ _ _ db λ active.
      Post-bind (λ _ d. d ≡ db) _ _ db (require_agents-Post node node.agent_ids db)
        λ _ d same.
          Post-bind (λ _ e. e ≡ with_node (record node { revoked_at = none }) db) _ _ d
            (Post-weaken (insert_node-Post _ d) λ _ e k. k ∙ ap (with_node _) same)
            λ _ e k. Post-read _ _ e (
              Post-row_or _ _ _ e
                λ stored found. Post-require _ _ _ e λ equal. Post-pure stored e (found, equal, k)))

not-Registered :
    (node stored : Node) (db d : Db) → IsRevoked node.node_id db → ¬ Registered node db stored d
unfolding same_node
not-Registered node stored db d (here, gone) (found, equal, same) = ground (
  arith,
  gone,
  find-some-any (λ n. n.node_id == node.node_id && is_none n.revoked_at) db.nodes stored
      (find_narrow (λ n. n.node_id == node.node_id) (λ n. is_none n.revoked_at) db.nodes stored
        (subst (λ x. find (λ n. n.node_id == node.node_id) x ≡ some stored) kept found)
        (ground (arith, equal))),
)
  where
    kept : d.nodes ≡ db.nodes
    kept =
        ap (λ x. x.nodes) same
        ∙ rw
            (any_mono (λ n. n.node_id == node.node_id)
              (node_conflict (record node { revoked_at = none })) db.nodes (λ n. ground arith) here)
            refl

-- A registration of a number that stands revoked in the table fails and changes nothing, whatever
-- the rest of it.
pub register_node-revoked :
    (node : Node) (db : Db)
    → IsRevoked node.node_id db
    → (e : StoreError) × (register_node node db ≡ (err e, db))
unfolding register_node
register_node-revoked node db gone =
    elim (transaction_cases (Registered node db) (register_node_body node) db
      (register_body-Post node db)) [
        | inl (stored, d, run, h) ↦ elim (not-Registered node stored db d gone h) [ ]
        | inr e ↦ e
      ]
