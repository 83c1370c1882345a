-- ===== src/Tests/Passwords.antt =====
-- Password changes on the fixture.
use nexus_control.Base.{
  dec_text, count, arith, ◌<◌, ◌≡◌, refl, ◌&&◌, false, some, text, Text, any, find, update, select,
  ◌==◌, is_none,
}
use nexus_control.Schema.{Db, Status, committed, not_applied}
use nexus_control.Tx.{ok, transaction}
use nexus_control.Store.Nodes.{revoke_user_nodes, append_node_events}
use nexus_control.Store.Passwords.{
  attempt_committed, attempt_existing, password_credential, password_change_outcome,
  try_commit_body, try_commit_password_change, settle_password_change,
}
use nexus_control.Store.PasswordOutcomes.{
  try_commit_password_change-once, try_commit_password_change-outcome,
  settle_password_change-outcome,
}
use nexus_control.Tests.Fixtures.{bob, office}

abbrev hash : Text
hash = text "hash"

abbrev next_hash : Text
next_hash = text "hash2"

abbrev request : Text
request = text "request"

abbrev changed : Db
changed = (try_commit_password_change bob request hash next_hash 10 office).1

bob_changes :
    try_commit_password_change bob request hash next_hash 10 office
    ≡ (ok attempt_committed, changed)
unfolding try_commit_password_change transaction try_commit_body revoke_user_nodes
    append_node_events any update select dec_text
bob_changes = refl

bob_outcome : password_change_outcome bob request changed ≡ some committed
unfolding password_change_outcome try_commit_password_change transaction try_commit_body
    revoke_user_nodes append_node_events any update select find dec_text
bob_outcome = refl

one_credential : count (λ c. c.user_id == bob) office.credentials < 2
unfolding count
one_credential = ground arith

try_commit_password_change-once_example :
    (password_change_outcome bob request changed ≡ some committed)
    × ((status : Status) × (password_credential bob office ≡ some (hash, status))
        × (password_credential bob changed ≡ some (next_hash, status)))
    × (any (λ n. n.owner_user_id == bob && is_none n.revoked_at) changed.nodes ≡ false)
    × (try_commit_password_change bob request next_hash hash 20 changed
        ≡ (ok attempt_existing, changed))
try_commit_password_change-once_example =
    try_commit_password_change-once bob request hash next_hash next_hash hash 10 20 office changed
      one_credential bob_changes

try_commit_password_change-outcome_example :
    password_change_outcome bob request
      (try_commit_password_change bob (text "other") next_hash hash 20 changed).1
    ≡ some committed
try_commit_password_change-outcome_example =
    try_commit_password_change-outcome bob request bob (text "other") next_hash hash 20 changed
      committed bob_outcome

settle_password_change-outcome_example :
    password_change_outcome bob request
      (settle_password_change bob request not_applied 20 changed).1
    ≡ some committed
settle_password_change-outcome_example =
    settle_password_change-outcome bob request bob request not_applied 20 changed committed
      bob_outcome
