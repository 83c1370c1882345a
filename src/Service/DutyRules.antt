-- ===== src/Service/DutyRules.antt =====
-- What a request may do to the database: one rule for each statement that an operation of the service
-- is made of.
use nexus_control.Base.{
  ℕ, suc, ◌+◌, ◌≤◌, arith, subst, ◌≡◌, refl, Bool, true, false, Option, none, some, Text,
}
use nexus_control.Schema.{Db}
use nexus_control.Tx.{StoreError, Result}
use nexus_control.Service.Act.{
  Env, World, Act, Reply, done, failed, ServiceError, continue, ◌>>=◌, pure, guard, some_or, now,
  ask, command, new_id, new_token, hash_password,
}

-- A number of steps against the one that is aimed at: the same where the reply is a value, at most that
-- where it is an error.
abbrev pub Counts : ℕ → ℕ → Bool → Type 0
Counts aim n true = n ≡ aim
Counts aim n false = n ≤ aim

abbrev pub is_done : {A : Type 0} → Reply A → Bool
is_done (done a) = true
is_done (failed e) = false

quiet : {A : Type 0} (r : Reply A) → Counts 0 0 (is_done r)
quiet (done a) = refl
quiet (failed e) = omega arith

single : {A : Type 0} (r : Reply A) → Counts 1 1 (is_done r)
single (done a) = refl
single (failed e) = omega arith

module _ (env : Env) (P : Db → Db → Type 0) where
  -- A number of steps that `P` allows, and what other requests do in between.
  pub data Run : ℕ → Db → Db → Type 0 where
    stays : {db : Db} → Run 0 db db
    meets : {n : ℕ} {db d : Db} → Run n db d → (k : ℕ) → Run n db (env.others k d)
    acts : {n : ℕ} {db d e : Db} → Run n db d → P d e → Run (suc n) db e

  -- An operation whose own steps are allowed and, where it succeeds, as many as it aims at.
  pub record Only (aim : ℕ) {A : Type 0} (m : Act A) : Type 0 where
    pub at : (w : World) → (n : ℕ) × Run n w.db (m w).1.db × Counts aim n (is_done (m w).0)

  Run-trans : {m n : ℕ} {a b c : Db} → Run m a b → Run n b c → Run (m + n) a c
  Run-trans {m} {a} {c} p stays = subst (λ x. Run x a c) (omega arith) p
  Run-trans p (meets q k) = meets (Run-trans p q) k
  Run-trans {m} {a} {c} p (acts {n} q s) =
      subst (λ x. Run x a c) (omega arith) (acts (Run-trans p q) s)

  continue-Run :
      {A B : Type 0} (j k aim : ℕ) (f : A → Act B) (r : Reply A) (w : World) (db : Db) (m : ℕ)
      → aim ≡ j + k
      → ((a : A) → Only k (f a))
      → Run m db w.db
      → Counts j m (is_done r)
      → (n : ℕ) × Run n db (continue f (r, w)).1.db × Counts aim n (is_done (continue f (r, w)).0)
  unfolding continue
  continue-Run j k aim f (done a) w db m total h p c =
      let (n, q, d) = (h a).at w in (m + n, Run-trans p q, added (is_done (f a w).0) n d)
    where
      added : (b : Bool) (n : ℕ) → Counts k n b → Counts aim (m + n) b
      added true n d = omega (arith, c, d, total)
      added false n d = omega (arith, c, d, total)
  continue-Run j k aim f (failed e) w db m total h p c = (m, p, omega (arith, c, total))

module _ {env : Env} {P : Db → Db → Type 0} where
  -- A statement that takes no step, and what follows it.
  pub Only-look :
      {A B : Type 0} {aim : ℕ} {m : Act A} {f : A → Act B}
      → Only env P 0 m
      → ((a : A) → Only env P aim (f a))
      → Only env P aim (m >>= f)
  unfolding ◌>>=◌
  Only-look {aim} {m} {f} hm hf = record {
    at = λ w.
        let (n, p, c) = hm.at w in
        continue-Run env P 0 aim aim f (m w).0 (m w).1 w.db n (omega arith) hf p c;
  }

  -- A statement that takes the step, and what follows it.
  pub Only-step :
      {A B : Type 0} {m : Act A} {f : A → Act B}
      → Only env P 1 m
      → ((a : A) → Only env P 0 (f a))
      → Only env P 1 (m >>= f)
  unfolding ◌>>=◌
  Only-step {m} {f} hm hf = record {
    at = λ w.
        let (n, p, c) = hm.at w in
        continue-Run env P 1 0 1 f (m w).0 (m w).1 w.db n (omega arith) hf p c;
  }

  pub Only-pure : {A : Type 0} (a : A) → Only env P 0 (pure a)
  unfolding pure
  Only-pure a = record { at = λ w. (0, stays, refl) }

  pub Only-guard :
      {B : Type 0} {aim : ℕ} (b : Bool) (e : ServiceError) (k : Unit {0} → Act B)
      → (b ≡ true → Only env P aim (k tt))
      → Only env P aim (guard b e >>= k)
  unfolding ◌>>=◌ guard continue
  Only-guard true e k h = record { at = λ w. (h refl).at w }
  Only-guard false e k h = record { at = λ w. (0, stays, omega arith) }

  pub Only-some_or :
      {A B : Type 0} {aim : ℕ} (o : Option A) (e : ServiceError) (k : A → Act B)
      → ((a : A) → o ≡ some a → Only env P aim (k a))
      → Only env P aim (some_or o e >>= k)
  unfolding ◌>>=◌ some_or continue
  Only-some_or none e k h = record { at = λ w. (0, stays, omega arith) }
  Only-some_or (some a) e k h = record { at = λ w. (h a refl).at w }

  -- A test at the end.
  pub Only-when : (b : Bool) (e : ServiceError) → Only env P 0 (guard b e)
  unfolding guard
  Only-when true e = record { at = λ w. (0, stays, refl) }
  Only-when false e = record { at = λ w. (0, stays, omega arith) }

  pub Only-now : Only env P 0 (now env)
  unfolding now
  Only-now = record { at = λ w. (0, stays, refl) }

  pub Only-new_id : (prefix : Text) → Only env P 0 (new_id env prefix)
  unfolding new_id
  Only-new_id prefix = record { at = λ w. (0, stays, refl) }

  pub Only-new_token : Only env P 0 (new_token env)
  unfolding new_token
  Only-new_token = record { at = λ w. (0, stays, quiet (new_token env w).0) }

  pub Only-hash_password : (password : Text) → Only env P 0 (hash_password env password)
  unfolding hash_password
  Only-hash_password password = record {
    at = λ w. (0, stays, quiet (hash_password env password w).0);
  }

  pub Only-ask : {A : Type 0} (f : Db → A) → Only env P 0 (ask env f)
  unfolding ask
  Only-ask f = record { at = λ w. (0, meets stays w.turn, refl) }

  pub Only-command :
      {A : Type 0} (f : Db → Result A × Db) (h : StoreError → ServiceError)
      → ((db : Db) → P db (f db).1)
      → Only env P 1 (command env f h)
  unfolding command
  Only-command f h s = record {
    at = λ w. (1, acts (meets stays w.turn) (s _), single (command env f h w).0);
  }
