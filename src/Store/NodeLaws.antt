-- ===== src/Store/NodeLaws.antt =====
-- The registration and the revocation of execution nodes in internal/storage/auth/node.go.
use nexus_control.Base.{
  ℕ, ◌<◌, ◌≡◌, refl, ap, ◌∙◌, inl, inr, true, false, ◌&&◌, some, List, Text, ◌==◌, is_none, any,
  count, arith, any_weaken, any_mono, any-update_clear, any-update_same, find_unique,
  count-append_new, Bool-cases, find-some-any, Bool, update, any-append_row, any-update_none,
}
use nexus_control.Schema.{Db, Node}
use nexus_control.Tx.{
  ok, err, StoreError, Post, Post-bind, Post-weaken, Post-read, Post-row_or, Post-write, Post-then,
  Post-if, Post-when, transaction-ok, transaction-Post,
}
use nexus_control.Store.Events.{append_event, append_identity_invalidation}
use nexus_control.Store.Nodes.{
  node_conflict, node_of, insert_node, register_node_body, register_node, get_node, tombstone,
  revoke_node_body, revoke_node,
}
use nexus_control.Store.Passwords.{receipt_of, try_commit_password_change}
use nexus_control.Store.PasswordLaws.{live_node, try_commit-existing, try_commit_cases}
use nexus_control.Store.NodeStatements.{
  IsRevoked, insert_node-Post, with_node, register_body-Post, register_node-revoked,
}

abbrev OneNode : Text → Db → Type 0
OneNode node d = count (λ n. n.node_id == node) d.nodes < 2

insert_node-OneNode :
    {R : Type 0} (node : Node) (d : Db)
    → OneNode node.node_id d
    → Post (λ _ e. OneNode node.node_id e) (insert_node {R = R} node d)
insert_node-OneNode node d one = Post-weaken (insert_node-Post node d) λ _ e same.
    rw same (elim (Bool-cases (any (node_conflict node) d.nodes)) [
      | inl taken ↦ rw taken one
      | inr free ↦ rw free (
          count-append_new (λ n. n.node_id == node.node_id) d.nodes node
            (any_weaken (node_conflict node) _ d.nodes (λ n. ground arith) free))
    ])

found_node :
    (deployment org owner node : Text) (d : Db) (n : Node)
    → get_node deployment org owner node d ≡ some n
    → any (node_of deployment org owner node) d.nodes ≡ true
unfolding get_node
found_node deployment org owner node d n e =
    find-some-any (node_of deployment org owner node) d.nodes n e

-- The row that a revocation reads is the only one of the node.
IsRevoked-stored :
    (deployment org owner node : Text) (d : Db) (n : Node)
    → OneNode node d
    → get_node deployment org owner node d ≡ some n
    → is_none n.revoked_at ≡ false
    → IsRevoked node d
unfolding get_node
IsRevoked-stored deployment org owner node d n one e gone = (
  any_mono (node_of deployment org owner node) _ d.nodes (λ x. ground arith)
      (find-some-any (node_of deployment org owner node) d.nodes n e),
  find_unique (λ x. x.node_id == node) (node_of deployment org owner node)
      (λ x. is_none x.revoked_at) d.nodes n (λ x. ground arith) one e gone,
)

revoke_body-Post :
    (deployment org owner session node : Text) (now : ℕ) (db : Db)
    → OneNode node db
    → Post (λ _ d. IsRevoked node d) (revoke_node_body deployment org owner session node now db)
unfolding revoke_node_body append_identity_invalidation append_event
revoke_body-Post deployment org owner session node now db one = Post-read _ _ db (
    Post-bind (λ _ d. OneNode node d) _ _ db
      (Post-when _ _ db one
        (insert_node-OneNode (tombstone deployment org owner session node now) db one))
      λ _ d one'. Post-read _ _ d (
        Post-row_or _ _ _ d λ stored found.
          Post-if _ _ d (IsRevoked-stored deployment org owner node d stored one' found) λ live.
            Post-then _ _ d (
              Post-write _ _ (
                any-update_same _ _ _ d.nodes (λ n. refl)
                    ∙ any_mono (node_of deployment org owner node) _ d.nodes (λ x. ground arith)
                        (found_node deployment org owner node d stored found),
                any-update_clear _ _ _ d.nodes (λ n. ground arith) (λ n. ground arith),
              ))))

-- Registrations and revocations, of any nodes by anyone, and password changes.
pub data NodeRun : Db → Db → Type 0 where
  rests : {db : Db} → NodeRun db db
  registers : {db d : Db} → NodeRun db d → (node : Node) → NodeRun db (register_node node d).1
  revokes :
      {db d : Db}
      → NodeRun db d
      → (deployment org owner session node : Text) (now : ℕ)
      → NodeRun db (revoke_node deployment org owner session node now d).1
  passes :
      {db d : Db}
      → NodeRun db d
      → (user request current next_hash : Text) (now : ℕ)
      → NodeRun db (try_commit_password_change user request current next_hash now d).1

insert_node-IsRevoked :
    (id : Text) (node : Node) (db d : Db) → IsRevoked id db → d ≡ with_node node db → IsRevoked id d
insert_node-IsRevoked id node db d (here, gone) same =
    rw same (elim (Bool-cases (any (node_conflict node) db.nodes)) [
      | inl taken ↦ rw taken (here, gone)
      | inr free ↦ rw free (
        rw (any-append_row (λ n. n.node_id == id) db.nodes node) (rw here refl),
        rw (any-append_row (λ n. n.node_id == id && is_none n.revoked_at) db.nodes node)
            (ground (arith, gone, other free)),
      )
    ])
  where
    other : any (node_conflict node) db.nodes ≡ false → node.node_id == id ≡ false
    other free = elim (Bool-cases (node.node_id == id)) [
      | inl e ↦ ground (
        arith,
        here,
        free,
        any_mono (λ n. n.node_id == id) (node_conflict node) db.nodes (λ n. ground (arith, e)) here,
      )
      | inr e ↦ e
    ]

-- A write that only sets the time of a revocation.
update-IsRevoked :
    (id : Text) (q : Node → Bool) (now : ℕ) (db : Db) (ns : List Node)
    → IsRevoked id db
    → ns ≡ update q (λ n. record n { revoked_at = some now }) db.nodes
    → (any (λ n. n.node_id == id) ns ≡ true)
      × (any (λ n. n.node_id == id && is_none n.revoked_at) ns ≡ false)
update-IsRevoked id q now db ns (here, gone) same = rw same (
  any-update_same _ q _ db.nodes (λ n. refl) ∙ here,
  any-update_none _ q _ db.nodes (λ n. ground arith) gone,
)

revoke_body-IsRevoked :
    (id deployment org owner session node : Text) (now : ℕ) (db : Db)
    → IsRevoked id db
    → Post (λ _ d. IsRevoked id d) (revoke_node_body deployment org owner session node now db)
unfolding revoke_node_body append_identity_invalidation append_event
revoke_body-IsRevoked id deployment org owner session node now db h = Post-read _ _ db (
    Post-bind (λ _ d. IsRevoked id d) _ _ db
      (Post-when _ _ db h (
        Post-weaken (insert_node-Post (tombstone deployment org owner session node now) db)
          λ _ e same. insert_node-IsRevoked id _ db e h same))
      λ _ d h'. Post-read _ _ d (
        Post-row_or _ _ _ d λ stored found.
          Post-if _ _ d (λ done. h')
            λ live.
              Post-then _ _ d
                (Post-write _ _ (update-IsRevoked id (λ n. n.node_id == node) now d _ h' refl))))

try_commit-IsRevoked :
    (id user request current next_hash : Text) (now : ℕ) (db : Db)
    → IsRevoked id db
    → IsRevoked id (try_commit_password_change user request current next_hash now db).1
try_commit-IsRevoked id user request current next_hash now db h =
    elim (Bool-cases (any (receipt_of user request) db.receipts)) [
      | inl old ↦ rw (try_commit-existing user request current next_hash now db old) h
      | inr new ↦ elim (try_commit_cases user request current next_hash now db new) [
        | inl run ↦ rw run h
        | inr (inl run) ↦ rw run h
        | inr (inr (d, run, same, hit, known)) ↦
            rw run (update-IsRevoked id (live_node user) now db d.nodes h (ap (λ v. v.nodes) same))
      ]
    ]

NodeRun-IsRevoked : (id : Text) (db d : Db) → NodeRun db d → IsRevoked id db → IsRevoked id d
unfolding register_node revoke_node
NodeRun-IsRevoked id db d rests h = h
NodeRun-IsRevoked id db d (registers {d = e} run node) h =
    let k = NodeRun-IsRevoked id db e run h in
    transaction-Post (IsRevoked id) (register_node_body node) e k (
      Post-weaken (register_body-Post node e)
        λ stored f (found, equal, same). insert_node-IsRevoked id _ e f k same)
NodeRun-IsRevoked id db d (revokes {d = e} run deployment org owner session node now) h =
    let k = NodeRun-IsRevoked id db e run h in
    transaction-Post (IsRevoked id) (revoke_node_body deployment org owner session node now) e k
      (revoke_body-IsRevoked id deployment org owner session node now e k)
NodeRun-IsRevoked id db d (passes {d = e} run user request current next_hash now) h =
    try_commit-IsRevoked id user request current next_hash now e (NodeRun-IsRevoked id db e run h)

-- Where a revocation succeeds, and only registrations and revocations of nodes and password changes
-- follow, by anyone and in any order, a registration with the node's number fails and changes
-- nothing, whatever the rest of it. This holds of a node that was unknown before, too. The table of
-- nodes has its primary key.
pub revoke_node-register :
    (deployment org owner session : Text) (now : ℕ) (node : Node) (db db' later : Db)
    → count (λ n. n.node_id == node.node_id) db.nodes < 2
    → revoke_node deployment org owner session node.node_id now db ≡ (ok tt, db')
    → NodeRun db' later
    → (e : StoreError) × (register_node node later ≡ (err e, later))
unfolding revoke_node
revoke_node-register deployment org owner session now node db db' later one run between =
    register_node-revoked node later (
      NodeRun-IsRevoked node.node_id db' later between (
        transaction-ok (λ _ d. IsRevoked node.node_id d)
          (revoke_node_body deployment org owner session node.node_id now) db db' tt
          (revoke_body-Post deployment org owner session node.node_id now db one) run))
