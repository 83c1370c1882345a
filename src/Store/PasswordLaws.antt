-- ===== src/Store/PasswordLaws.antt =====
-- The settlement of a password change in internal/storage/auth/password.go.
use nexus_control.Base.{
  ℕ, ◌≡◌, refl, ◌⊎◌, inl, inr, Bool, true, false, ◌&&◌, some, List, [], ◌∷◌, ◌++◌, Text, ◌==◌,
  is_none, any, update, arith, Bool-cases,
}
use nexus_control.Schema.{Db, User, Credential, Receipt, Node, committed}
use nexus_control.Tx.{next, Result, ok, err, constraint, transaction}
use nexus_control.Store.Events.{append_event, append_identity_invalidation}
use nexus_control.Store.Nodes.{append_node_events, revoke_user_nodes}
use nexus_control.Store.Passwords.{
  PasswordAttempt, attempt_committed, attempt_existing, attempt_credential_changed, receipt_of,
  new_receipt, credential_of, with_password, try_commit_body, try_commit_password_change,
}

-- The tables that a change of password writes, without the events.
pub record Vault : Type 0 where
  pub users : List User
  pub credentials : List Credential
  pub receipts : List Receipt
  pub nodes : List Node

abbrev pub vault : Db → Vault
vault db = record {
  users = db.users;
  credentials = db.credentials;
  receipts = db.receipts;
  nodes = db.nodes;
}

abbrev pub live_node : Text → Node → Bool
live_node user n = n.owner_user_id == user && is_none n.revoked_at

abbrev end_node : ℕ → Node → Node
end_node now n = record n { revoked_at = some now }

append_node_events_run :
    {R : Type 0} (ns : List Node) (user : Text) (now : ℕ) (db : Db)
    → (d : Db) × (append_node_events {R = R} ns user now db ≡ next tt d) × (vault d ≡ vault db)
unfolding append_node_events append_identity_invalidation append_event transaction
append_node_events_run [] user now db = (db, refl, refl)
append_node_events_run (n ∷ ns) user now db = append_node_events_run ns user now _

revoke_user_nodes_run :
    {R : Type 0} (user : Text) (now : ℕ) (db : Db)
    → (d : Db) × (revoke_user_nodes {R = R} user now db ≡ next tt d)
      × (vault d ≡ record (vault db) { nodes = update (live_node user) (end_node now) db.nodes })
unfolding revoke_user_nodes transaction
revoke_user_nodes_run user now db = append_node_events_run _ user now _

module _ (user request current next_hash : Text) (now : ℕ) (db : Db) where
  abbrev attempt : Result PasswordAttempt × Db
  attempt = try_commit_password_change user request current next_hash now db

  -- The tables after a change that goes through.
  abbrev pub changed : Vault
  changed = record {
    users = db.users;
    credentials = update (credential_of user current) (with_password next_hash now) db.credentials;
    receipts = db.receipts ++ new_receipt user request committed now ∷ [];
    nodes = update (live_node user) (end_node now) db.nodes;
  }

  pub try_commit-existing :
      any (receipt_of user request) db.receipts ≡ true → attempt ≡ (ok attempt_existing, db)
  unfolding try_commit_password_change transaction try_commit_body
  try_commit-existing e = ground (arith, e)

  -- A request that is not settled either changes the password or changes nothing.
  pub try_commit_cases :
      any (receipt_of user request) db.receipts ≡ false
      → (attempt ≡ (err constraint, db))
        ⊎ ((attempt ≡ (ok attempt_credential_changed, db))
            ⊎ ((d : Db) × (attempt ≡ (ok attempt_committed, d))
                × (vault d ≡ changed)
                × (any (credential_of user current) db.credentials ≡ true)
                × (any (λ u. u.user_id == user) db.users ≡ true)))
  unfolding try_commit_password_change transaction try_commit_body
  try_commit_cases e = elim (Bool-cases (any (λ u. u.user_id == user) db.users)) [
    | inr f ↦ inl (ground (arith, e, f))
    | inl f ↦ elim (Bool-cases (any (credential_of user current) db.credentials)) [
      | inr g ↦ inr (inl (ground (arith, e, f, g)))
      | inl g ↦
          let (d, run, same) = revoke_user_nodes_run {R = PasswordAttempt} user now (record db {
            receipts = db.receipts ++ new_receipt user request committed now ∷ [];
            credentials =
                update (credential_of user current) (with_password next_hash now) db.credentials;
          }) in
          inr (inr (d, ground (arith, e, f, g, run), same, g, f))
    ]
  ]
