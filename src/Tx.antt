-- ===== src/Tx.antt =====
-- A transaction of internal/storage/auth: the statements between `beginIdentityWrite` (or
-- `BeginTx`) and `tx.Commit`. The row lock of `lockControlState` makes each transaction one step.
-- `quit` is a `return` before the commit: the deferred `tx.Rollback` undoes what was written.
use nexus_control.Base.{Bool, true, false, Option, none, some, ◌≡◌, refl, sym, subst, ◌⊎◌, inl, inr}
use nexus_control.Schema.{Db}

-- The errors of internal/storage/auth/model.go; `constraint` is a statement that the schema refuses.
pub data StoreError : Type 0 where
  already_setup username_conflict not_found plan_not_found last_owner : StoreError
  state_conflict invitation_invalid constraint : StoreError

pub data Result (A : Type 0) : Type 0 where
  ok : A → Result A
  err : StoreError → Result A

-- `R` is what the Go function returns.
pub data Exit (R A : Type 0) : Type 0 where
  next : A → Db → Exit R A
  quit : Result R → Exit R A

abbrev pub Tx : Type 0 → Type 0 → Type 0
Tx R A = Db → Exit R A

-- The parts of a transaction stay shut, so that the rules below match the code; `transaction`
-- opens them.
infixl 5 ◌>>=◌ ◌>>◌
unfoldable pub ◌>>=◌ : {R A B : Type 0} → Tx R A → (A → Tx R B) → Tx R B
◌>>=◌ m f db = elim (m db) [ next a db' ↦ f a db' | quit r ↦ quit r ]

abbrev pub ◌>>◌ : {R B : Type 0} → Tx R (Unit {0}) → Tx R B → Tx R B
m >> k = m >>= λ _. k

module _ {R : Type 0} where
  unfoldable pub pure : {A : Type 0} → A → Tx R A
  pure a db = next a db

  unfoldable pub return_early : {A : Type 0} → Result R → Tx R A
  return_early r db = quit r

  unfoldable pub read : {A : Type 0} → (Db → A) → Tx R A
  read f db = next (f db) db

  unfoldable pub write : (Db → Db) → Tx R (Unit {0})
  write f db = next tt (f db)

  -- `if !condition { return …, e }`
  unfoldable pub require : Bool → StoreError → Tx R (Unit {0})
  require true e db = next tt db
  require false e db = quit (err e)

  -- `sql.ErrNoRows` as the error `e`.
  unfoldable pub row_or : {A : Type 0} → Option A → StoreError → Tx R A
  row_or none e db = quit (err e)
  row_or (some a) e db = next a db

  -- `sql.ErrNoRows` as an early return of `r`.
  unfoldable pub row_or_return : {A : Type 0} → Option A → Result R → Tx R A
  row_or_return none r db = quit r
  row_or_return (some a) r db = next a db

  unfoldable pub when : Bool → Tx R (Unit {0}) → Tx R (Unit {0})
  when true m db = m db
  when false m db = next tt db

  -- The transaction as a whole: the body's last value is returned after the commit.
  unfoldable pub transaction : Tx R R → Db → Result R × Db
  unfolding ◌>>=◌ pure return_early read write require row_or row_or_return when
  transaction body db = elim (body db) [ next r db' ↦ (ok r, db') | quit r ↦ (r, db) ]

-- What holds of the value and the database where the statements go on. Where they stop, it is with
-- an error: the two transactions that return early with a value are characterised by their cases.
pub data Post {R A : Type 0} (Q : A → Db → Type 0) : Exit R A → Type 0 where
  goes_on : {a : A} {db : Db} → Q a db → Post Q (next a db)
  stops : {e : StoreError} → Post Q (quit (err e))

module _ {R : Type 0} where
  pub Post-weaken :
      {A : Type 0} {Q S : A → Db → Type 0} {x : Exit R A}
      → Post Q x
      → ((a : A) (d : Db) → Q a d → S a d)
      → Post S x
  Post-weaken {x = next a d} (goes_on q) f = goes_on (f a d q)
  Post-weaken {x = quit (err e)} stops f = stops
  Post-weaken {x = quit (ok r)} h f = elim h [ ]

  pub Post-bind :
      {A B : Type 0} (Q : A → Db → Type 0) {S : B → Db → Type 0} (m : Tx R A) (f : A → Tx R B)
      (db : Db)
      → Post Q (m db)
      → ((a : A) (db' : Db) → Q a db' → Post S (f a db'))
      → Post S ((m >>= f) db)
  unfolding ◌>>=◌
  Post-bind {A} Q {S} m f db h k = go (m db) h
    where
      go : (x : Exit R A) → Post Q x → Post S (◌>>=◌ (λ _. x) f db)
      go (next a db') (goes_on q) = k a db' q
      go (quit (err e)) stops = stops
      go (quit (ok r)) x = elim x [ ]

  pub Post-pure :
      {A : Type 0} {S : A → Db → Type 0} (a : A) (db : Db) → S a db → Post S (pure {R = R} a db)
  unfolding pure
  Post-pure a db h = goes_on h

  pub Post-write :
      {S : Unit {0} → Db → Type 0} (f : Db → Db) (db : Db)
      → S tt (f db)
      → Post S (write {R = R} f db)
  unfolding write
  Post-write f db h = goes_on h

  pub Post-when :
      {S : Unit {0} → Db → Type 0} (b : Bool) (m : Tx R (Unit {0})) (db : Db)
      → S tt db
      → Post S (m db)
      → Post S (when b m db)
  unfolding when
  Post-when true m db h k = k
  Post-when false m db h k = goes_on h

  -- The same, with the outcome of the test.
  pub Post-if :
      {S : Unit {0} → Db → Type 0} (b : Bool) (m : Tx R (Unit {0})) (db : Db)
      → (b ≡ false → S tt db)
      → (b ≡ true → Post S (m db))
      → Post S (when b m db)
  unfolding when
  Post-if true m db h k = k refl
  Post-if false m db h k = goes_on (h refl)

  module _ {B : Type 0} {S : B → Db → Type 0} where
    pub Post-read :
        {A : Type 0} (f : Db → A) (k : A → Tx R B) (db : Db)
        → Post S (k (f db) db)
        → Post S ((read f >>= k) db)
    unfolding ◌>>=◌ read
    Post-read f k db h = h

    pub Post-then :
        (f : Db → Db) (k : Unit {0} → Tx R B) (db : Db)
        → Post S (k tt (f db))
        → Post S ((write f >>= k) db)
    unfolding ◌>>=◌ write
    Post-then f k db h = h

    pub Post-require :
        (b : Bool) (e : StoreError) (k : Unit {0} → Tx R B) (db : Db)
        → (b ≡ true → Post S (k tt db))
        → Post S ((require b e >>= k) db)
    unfolding ◌>>=◌ require
    Post-require true e k db h = h refl
    Post-require false e k db h = stops

    pub Post-row_or :
        {A : Type 0} (o : Option A) (e : StoreError) (k : A → Tx R B) (db : Db)
        → ((a : A) → o ≡ some a → Post S (k a db))
        → Post S ((row_or o e >>= k) db)
    unfolding ◌>>=◌ row_or
    Post-row_or none e k db h = stops
    Post-row_or (some a) e k db h = h a refl

    -- A statement that only looks, and what it makes sure of.
    pub Post-check :
        {P : Type 0} (m : Tx R (Unit {0})) (k : Unit {0} → Tx R B) (db : Db)
        → Post (λ _ d. (d ≡ db) × P) (m db)
        → (P → Post S (k tt db))
        → Post S ((m >>= k) db)
    Post-check {P} m k db h f =
        Post-bind (λ _ d. (d ≡ db) × P) m k db h
          λ _ d (e, p). subst (λ x. Post S (k tt x)) (sym e) (f p)

  pub require-Post :
      (b : Bool) (e : StoreError) (db : Db)
      → Post (λ _ d. (d ≡ db) × (b ≡ true)) (require {R = R} b e db)
  unfolding require
  require-Post true e db = goes_on (refl, refl)
  require-Post false e db = stops

  -- A property that the commit brings about and that the rollback keeps.
  pub transaction-Post :
      (P : Db → Type 0) (body : Tx R R) (db : Db)
      → P db
      → Post (λ _. P) (body db)
      → P (transaction body db).1
  unfolding transaction
  transaction-Post P body db old new = go (body db) new
    where
      go : (x : Exit R R) → Post (λ _. P) x → P (transaction (λ _. x) db).1
      go (next r db') (goes_on h) = h
      go (quit (err e)) stops = old
      go (quit (ok r)) x = elim x [ ]

  -- What is asked of a transaction that succeeds.
  abbrev pub Succeeds : (R → Db → Type 0) → Result R × Db → Type 0
  Succeeds S (ok r, db) = S r db
  Succeeds S (err e, db) = Unit

  -- What the commit brings about holds wherever the transaction succeeds.
  pub transaction-ok :
      (S : R → Db → Type 0) (body : Tx R R) (db db' : Db) (r : R)
      → Post S (body db)
      → transaction body db ≡ (ok r, db')
      → S r db'
  unfolding transaction
  transaction-ok S body db db' r h e = subst (Succeeds S) e (go (body db) h)
    where
      go : (x : Exit R R) → Post S x → Succeeds S (transaction (λ _. x) db)
      go (next a d) (goes_on q) = q
      go (quit (err x)) stops = tt
      go (quit (ok a)) x = elim x [ ]

  -- Every transaction succeeds with what its body brings about, or fails and changes nothing.
  pub transaction_cases :
      (S : R → Db → Type 0) (body : Tx R R) (db : Db)
      → Post S (body db)
      → ((r : R) × (d : Db) × (transaction body db ≡ (ok r, d)) × S r d)
        ⊎ ((e : StoreError) × (transaction body db ≡ (err e, db)))
  unfolding transaction
  transaction_cases S body db h = go (body db) h
    where
      go :
          (x : Exit R R)
          → Post S x
          → ((r : R) × (d : Db) × (transaction (λ _. x) db ≡ (ok r, d)) × S r d)
            ⊎ ((e : StoreError) × (transaction (λ _. x) db ≡ (err e, db)))
      go (next a d) (goes_on q) = inl (a, d, refl, q)
      go (quit (err e)) stops = inr (e, refl)
      go (quit (ok a)) x = elim x [ ]
