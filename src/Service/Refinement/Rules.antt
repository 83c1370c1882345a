-- ===== src/Service/Refinement/Rules.antt =====
-- One rule for each way to build an operation of the service.
use nexus_control.Base.{ℕ, ◌≢◌, Bool, true, false, Option, none, some, [], ◌∷◌, Text, if◌then◌else◌}
use nexus_control.Schema.{Db}
use nexus_control.Tx.{StoreError, Result}
use nexus_control.Store.Reachable.{Step, Reachable, steps}
use nexus_control.Service.Act.{
  Env, World, Act, Reply, done, failed, ServiceError, continue, either_case, either_way, ◌>>=◌,
  pure, fail, guard, some_or, now, ask, change, command, new_id, new_token, hash_password,
}

-- The reflexive and transitive closure of the steps of the store.
pub data Leads : Db → Db → Type 0 where
  stays : {db : Db} → Leads db db
  goes : {db db' db'' : Db} → Leads db db' → Step db' db'' → Leads db db''

pub Leads-trans : {a b c : Db} → Leads a b → Leads b c → Leads a c
Leads-trans p stays = p
Leads-trans p (goes q s) = goes (Leads-trans p q) s

pub Leads-Reachable : {a b : Db} → Leads a b → Reachable a → Reachable b
Leads-Reachable stays r = r
Leads-Reachable (goes p s) r = steps (Leads-Reachable p r) s

-- What other requests do is a sequence of steps of the store, too.
abbrev pub IsFair : Env → Type 0
IsFair env = (n : ℕ) (db : Db) → Leads db (env.others n db)

-- An operation that goes through the store's operations alone.
pub record Tame {A : Type 0} (m : Act A) : Type 0 where
  pub at : (w : World) → Leads w.db (m w).1.db

pub Tame-pure : {A : Type 0} (a : A) → Tame (pure a)
unfolding pure
Tame-pure a = record { at = λ w. stays }

pub Tame-fail : {A : Type 0} (e : ServiceError) → Tame (fail {A = A} e)
unfolding fail
Tame-fail e = record { at = λ w. stays }

pub Tame-guard : (b : Bool) (e : ServiceError) → Tame (guard b e)
unfolding guard
Tame-guard true e = record { at = λ w. stays }
Tame-guard false e = record { at = λ w. stays }

pub Tame-some_or : {A : Type 0} (o : Option A) (e : ServiceError) → Tame (some_or o e)
unfolding some_or
Tame-some_or none e = record { at = λ w. stays }
Tame-some_or (some a) e = record { at = λ w. stays }

pub Tame-if : {A : Type 0} (b : Bool) (m k : Act A) → Tame m → Tame k → Tame (if b then m else k)
Tame-if true m k h i = h
Tame-if false m k h i = i

continue-Leads :
    {A B : Type 0} (f : A → Act B) (r : Reply A) (w : World) (db : Db)
    → ((a : A) → Tame (f a))
    → Leads db w.db
    → Leads db (continue f (r, w)).1.db
unfolding continue
continue-Leads f (done a) w db h p = Leads-trans p ((h a).at w)
continue-Leads f (failed e) w db h p = p

pub Tame-bind :
    {A B : Type 0} (m : Act A) (f : A → Act B) → Tame m → ((a : A) → Tame (f a)) → Tame (m >>= f)
unfolding ◌>>=◌
Tame-bind m f hm hf = record { at = λ w. continue-Leads f (m w).0 (m w).1 w.db hf (hm.at w) }

either_case-Leads :
    {A B : Type 0} (h : ServiceError → Act B) (f : A → Act B) (r : Reply A) (w : World) (db : Db)
    → ((e : ServiceError) → Tame (h e))
    → ((a : A) → Tame (f a))
    → Leads db w.db
    → Leads db (either_case h f (r, w)).1.db
unfolding either_case
either_case-Leads h f (done a) w db th tf p = Leads-trans p ((tf a).at w)
either_case-Leads h f (failed e) w db th tf p = Leads-trans p ((th e).at w)

pub Tame-either_way :
    {A B : Type 0} (h : ServiceError → Act B) (f : A → Act B) (m : Act A)
    → ((e : ServiceError) → Tame (h e))
    → ((a : A) → Tame (f a))
    → Tame m
    → Tame (either_way h f m)
Tame-either_way h f m th tf tm = record {
  at = λ w. either_case-Leads h f (m w).0 (m w).1 w.db th tf (tm.at w);
}

module _ (env : Env) where
  pub Tame-now : Tame (now env)
  unfolding now
  Tame-now = record { at = λ w. stays }

  pub Tame-new_id : (prefix : Text) → Tame (new_id env prefix)
  unfolding new_id
  Tame-new_id prefix = record { at = λ w. stays }

  -- What is done with a new identifier may rely on it not being empty.
  pub Tame-named :
      {B : Type 0} (c : ℕ) (prefix : Text) (f : Text → Act B)
      → ((id : Text) → id ≢ [] → Tame (f id))
      → Tame (new_id env (c ∷ prefix) >>= f)
  unfolding ◌>>=◌ new_id continue
  Tame-named c prefix f h = record { at = λ w. (h _ (λ e. cc)).at _ }

  pub Tame-new_token : Tame (new_token env)
  unfolding new_token
  Tame-new_token = record { at = λ w. stays }

  pub Tame-hash_password : (password : Text) → Tame (hash_password env password)
  unfolding hash_password
  Tame-hash_password password = record { at = λ w. stays }

  module _ (fair : IsFair env) where
    pub Tame-ask : {A : Type 0} (f : Db → A) → Tame (ask env f)
    unfolding ask
    Tame-ask f = record { at = λ w. fair w.turn w.db }

    pub Tame-change : (f : Db → Db) → ((db : Db) → Step db (f db)) → Tame (change env f)
    unfolding change
    Tame-change f s = record { at = λ w. goes (fair w.turn w.db) (s _) }

    pub Tame-command :
        {A : Type 0} (f : Db → Result A × Db) (h : StoreError → ServiceError)
        → ((db : Db) → Step db (f db).1)
        → Tame (command env f h)
    unfolding command
    Tame-command f h s = record { at = λ w. goes (fair w.turn w.db) (s _) }

pub ruleset tame_rules = (
  Tame-pure, Tame-fail, Tame-guard, Tame-some_or, Tame-if, Tame-now, Tame-new_id, Tame-new_token,
  Tame-hash_password, Tame-ask, Tame-change, Tame-command, Tame-bind,
)
