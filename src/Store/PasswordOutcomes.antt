-- ===== src/Store/PasswordOutcomes.antt =====
-- The outcome of a password request in internal/storage/auth/password.go.
use nexus_control.Base.{
  ℕ, ◌≡◌, ◌<◌, refl, count, update, find-update_found, find-In, find-key, find_holds, find-none-any,
  sym, ap, ◌∙◌, ◌⊎◌, inl, inr, true, false, ◌&&◌, some, List, [], ◌∷◌, ◌++◌, Text, ◌==◌, is_none,
  any, find, arith, Bool-cases, Option-cases, find-append_old, find-append_new, any-append_row,
  any-update_clear,
}
use nexus_control.Schema.{Db, Receipt, Effect, Credential, Status, committed}
use nexus_control.Tx.{ok, transaction}
use nexus_control.Store.Passwords.{
  attempt_committed, attempt_existing, receipt_of, new_receipt, password_change_outcome,
  credential_of, credential_row, password_credential, with_password, try_commit_password_change,
  settle_body, settle_password_change,
}
use nexus_control.Store.PasswordLaws.{vault, changed, try_commit-existing, try_commit_cases}

-- What `some (r : PasswordChangeOutcome)` says of the receipts.
outcome_receipt :
    (user request : Text) (db : Db) (e : Effect)
    → password_change_outcome user request db ≡ some e
    → (r : Receipt) × (find (receipt_of user request) db.receipts ≡ some r) × (r.effect ≡ e)
unfolding password_change_outcome
outcome_receipt user request db e h =
    elim (Option-cases (find (receipt_of user request) db.receipts)) [
      | inl f ↦ ground (arith, f, h)
      | inr (r, f) ↦ (r, f, ground (arith, f, h))
    ]

-- A further receipt does not change an outcome.
outcome-append :
    (user request : Text) (db d : Db) (rs : List Receipt) (e : Effect)
    → d.receipts ≡ db.receipts ++ rs
    → password_change_outcome user request db ≡ some e
    → password_change_outcome user request d ≡ some e
unfolding password_change_outcome
outcome-append user request db d rs e same h =
    let (r, f, g) = outcome_receipt user request db e h in
    rw same (rw (find-append_old (receipt_of user request) db.receipts rs r f) (rw g refl))

-- No later attempt, of this request or another one, changes the outcome of a settled request.
pub try_commit_password_change-outcome :
    (user request other_user other current next_hash : Text) (now : ℕ) (db : Db) (e : Effect)
    → password_change_outcome user request db ≡ some e
    → password_change_outcome user request
        (try_commit_password_change other_user other current next_hash now db).1
      ≡ some e
try_commit_password_change-outcome user request other_user other current next_hash now db e h =
    elim (Bool-cases (any (receipt_of other_user other) db.receipts)) [
      | inl old ↦ rw (try_commit-existing other_user other current next_hash now db old) h
      | inr new ↦ elim (try_commit_cases other_user other current next_hash now db new) [
        | inl run ↦ rw run h
        | inr (inl run) ↦ rw run h
        | inr (inr (d, run, same, hit, known)) ↦
            rw run (outcome-append user request db d _ e (ap (λ v. v.receipts) same) h)
      ]
    ]

settle_cases :
    (user request : Text) (effect : Effect) (now : ℕ) (db : Db)
    → ((settle_password_change user request effect now db).1 ≡ db)
      ⊎ ((settle_password_change user request effect now db).1
          ≡ record db { receipts = db.receipts ++ new_receipt user request effect now ∷ [] })
unfolding settle_password_change transaction settle_body
settle_cases user request effect now db =
    elim (Bool-cases (any (receipt_of user request) db.receipts)) [
      | inl e ↦ inl (ground (arith, e))
      | inr e ↦ elim (Bool-cases (any (λ u. u.user_id == user) db.users)) [
        | inl f ↦ inr (ground (arith, e, f))
        | inr f ↦ inl (ground (arith, e, f))
      ]
    ]

-- No later settlement, of this request or another one, changes the outcome of a settled request.
pub settle_password_change-outcome :
    (user request other_user other : Text) (effect : Effect) (now : ℕ) (db : Db) (e : Effect)
    → password_change_outcome user request db ≡ some e
    → password_change_outcome user request (settle_password_change other_user other effect now db).1
      ≡ some e
settle_password_change-outcome user request other_user other effect now db e h =
    elim (settle_cases other_user other effect now db) [
      | inl run ↦ rw run h
      | inr run ↦ rw run (outcome-append user request db _ _ e refl h)
    ]

committed_outcome :
    (user request : Text) (now : ℕ) (db d : Db)
    → any (receipt_of user request) db.receipts ≡ false
    → d.receipts ≡ db.receipts ++ new_receipt user request committed now ∷ []
    → (password_change_outcome user request d ≡ some committed)
      × (any (receipt_of user request) d.receipts ≡ true)
unfolding password_change_outcome
committed_outcome user request now db d new same = rw same (
  rw
      (find-append_new (receipt_of user request) db.receipts
        (new_receipt user request committed now) new (ground arith))
      refl,
  rw (any-append_row (receipt_of user request) db.receipts) (ground arith),
)

try_commit_password_change-committed :
    (user request current next_hash : Text) (now : ℕ) (db db' : Db)
    → try_commit_password_change user request current next_hash now db ≡ (ok attempt_committed, db')
    → (any (receipt_of user request) db.receipts ≡ false)
      × (any (credential_of user current) db.credentials ≡ true)
      × (any (λ u. u.user_id == user) db.users ≡ true)
      × (vault db' ≡ changed user request current next_hash now db)
try_commit_password_change-committed user request current next_hash now db db' run =
    elim (Bool-cases (any (receipt_of user request) db.receipts)) [
      | inl old ↦ ground (arith, try_commit-existing user request current next_hash now db old, run)
      | inr new ↦ elim (try_commit_cases user request current next_hash now db new) [
        | inl stop ↦ ground (arith, stop, run)
        | inr (inl stop) ↦ ground (arith, stop, run)
        | inr (inr (d, done, same, hit, known)) ↦
            (new, hit, known, ap (λ x. vault x.1) (sym run ∙ done) ∙ same)
      ]
    ]

-- Where a change is committed, its outcome is `committed`.
pub try_commit_password_change-settles :
    (user request current next_hash : Text) (now : ℕ) (db db' : Db)
    → try_commit_password_change user request current next_hash now db ≡ (ok attempt_committed, db')
    → password_change_outcome user request db' ≡ some committed
try_commit_password_change-settles user request current next_hash now db db' run =
    let (new, hit, known, same) =
      try_commit_password_change-committed user request current next_hash now db db' run in
    (committed_outcome user request now db db' new (ap (λ v. v.receipts) same)).0

-- The credential of a user, where no two rows are of the same user.
the_credential :
    (user hash : Text) (cs : List Credential)
    → count (λ c. c.user_id == user) cs < 2
    → any (credential_of user hash) cs ≡ true
    → (c : Credential) × (find (λ c. c.user_id == user) cs ≡ some c)
      × (credential_of user hash c ≡ true)
the_credential user hash cs one hit = elim (Option-cases (find (credential_of user hash) cs)) [
  | inl e ↦ ground (arith, hit, find-none-any (credential_of user hash) cs e)
  | inr (c, e) ↦
      let held = find_holds (credential_of user hash) cs c e in
      (
        c,
        find-key (λ c. c.user_id == user) cs c (find-In (credential_of user hash) cs c e)
            (ground (arith, held)) one,
        held,
      )
]

replaced :
    (user current next_hash : Text) (now : ℕ) (db db' : Db)
    → count (λ c. c.user_id == user) db.credentials < 2
    → any (credential_of user current) db.credentials ≡ true
    → any (λ u. u.user_id == user) db.users ≡ true
    → db'.users ≡ db.users
    → db'.credentials
      ≡ update (credential_of user current) (with_password next_hash now) db.credentials
    → (status : Status) × (password_credential user db ≡ some (current, status))
      × (password_credential user db' ≡ some (next_hash, status))
unfolding password_credential credential_row
replaced user current next_hash now db db' one hit known users same =
    let (c, e, held) = the_credential user current db.credentials one hit in
    elim (Option-cases (find (λ u. u.user_id == user) db.users)) [
      | inl f ↦ ground (arith, known, find-none-any (λ u. u.user_id == user) db.users f)
      | inr (u, f) ↦ (
        u.status,
        ground (arith, e, f, held),
        ground (
          arith,
          users,
          same,
          f,
          find-update_found (λ c. c.user_id == user) (credential_of user current)
              (with_password next_hash now) db.credentials c (λ x. refl) e held,
        ),
      )
    ]

-- Where a change is committed, its outcome is `committed`, the password hash of the user, which was
-- the one that the caller had checked, is the new one, and the user has no live node left; and a
-- second attempt with the request number, whatever its passwords and its time, changes nothing. The
-- table of credentials has its unique key.
pub try_commit_password_change-once :
    (user request current next_hash current' next_hash' : Text) (now later : ℕ) (db db' : Db)
    → count (λ c. c.user_id == user) db.credentials < 2
    → try_commit_password_change user request current next_hash now db ≡ (ok attempt_committed, db')
    → (password_change_outcome user request db' ≡ some committed)
      × ((status : Status) × (password_credential user db ≡ some (current, status))
          × (password_credential user db' ≡ some (next_hash, status)))
      × (any (λ n. n.owner_user_id == user && is_none n.revoked_at) db'.nodes ≡ false)
      × (try_commit_password_change user request current' next_hash' later db'
          ≡ (ok attempt_existing, db'))
try_commit_password_change-once user request current next_hash current' next_hash' now later db db'
      one run =
    let (new, hit, known, same) =
      try_commit_password_change-committed user request current next_hash now db db' run in
    let (outcome, settled) =
      committed_outcome user request now db db' new (ap (λ v. v.receipts) same) in
    (
      outcome,
      replaced user current next_hash now db db' one hit known (ap (λ v. v.users) same)
          (ap (λ v. v.credentials) same),
      rw (ap (λ v. v.nodes) same) (any-update_clear _ _ _ db.nodes (λ n h. h) (λ n. ground arith)),
      try_commit-existing user request current' next_hash' later db' settled,
    )
