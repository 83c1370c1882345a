-- ===== src/Service/Ensures.antt =====
-- What holds of the reply and of the world after an operation of the service: one rule for each
-- statement that an operation is made of.
use nexus_control.Base.{Text, ◌≡◌, refl, Bool, true, false, Option, none, some, ℕ, if◌then◌else◌}
use nexus_control.Schema.{Db}
use nexus_control.Tx.{StoreError, Result, ok, err}
use nexus_control.Service.Act.{
  new_id, new_token, drawn, err_other, either_case, either_way, Env, World, Act, Reply, done,
  failed, ServiceError, continue, ◌>>=◌, pure, fail, guard, some_or, reply_of, now, ask, change,
  command, met, moved,
}

pub record Ensures {A : Type 0} (S : Reply A → World → Type 0) (x : Reply A × World) : Type 0 where
  pub holds : S x.0 x.1

module _ {A : Type 0} {S : Reply A → World → Type 0} where
  pub Ensures-if :
      (b : Bool) (m k : Act A) (w : World)
      → (b ≡ true → Ensures S (m w))
      → (b ≡ false → Ensures S (k w))
      → Ensures S ((if b then m else k) w)
  Ensures-if true m k w h i = h refl
  Ensures-if false m k w h i = i refl

  pub Ensures-guard :
      (b : Bool) (e : ServiceError) (k : Unit {0} → Act A) (w : World)
      → (b ≡ false → S (failed e) w)
      → (b ≡ true → Ensures S (k tt w))
      → Ensures S ((guard b e >>= k) w)
  unfolding ◌>>=◌ continue guard
  Ensures-guard true e k w h i = i refl
  Ensures-guard false e k w h i = record { holds = h refl }

  pub Ensures-some_or :
      {B : Type 0} (o : Option B) (e : ServiceError) (k : B → Act A) (w : World)
      → (o ≡ none → S (failed e) w)
      → ((b : B) → o ≡ some b → Ensures S (k b w))
      → Ensures S ((some_or o e >>= k) w)
  unfolding ◌>>=◌ continue some_or
  Ensures-some_or none e k w h i = record { holds = h refl }
  Ensures-some_or (some b) e k w h i = i b refl

  -- The value of an operation, whatever it is, with a property that its proof gives.
  pub Ensures-bind :
      {B : Type 0} (Q : Reply B → World → Type 0) (m : Act B) (k : B → Act A) (w : World)
      → Ensures Q (m w)
      → ((b : B) (w' : World) → Q (done b) w' → Ensures S (k b w'))
      → ((e : ServiceError) (w' : World) → Q (failed e) w' → S (failed e) w')
      → Ensures S ((m >>= k) w)
  unfolding ◌>>=◌ continue
  Ensures-bind {B} Q m k w q h i = go (m w) q
    where
      go : (x : Reply B × World) → Ensures Q x → Ensures S (continue k x)
      go (done b, w') q = h b w' q.holds
      go (failed e, w') q = record { holds = i e w' q.holds }

  module _ (env : Env) where
    pub Ensures-now :
        (k : ℕ → Act A) (w : World)
        → Ensures S (k (env.clock w.turn) (moved env w w.db))
        → Ensures S ((now env >>= k) w)
    unfolding ◌>>=◌ continue now
    Ensures-now k w h = h

    pub Ensures-ask :
        {B : Type 0} (f : Db → B) (k : B → Act A) (w : World)
        → Ensures S (k (f (met env w)) (moved env w (met env w)))
        → Ensures S ((ask env f >>= k) w)
    unfolding ◌>>=◌ continue ask
    Ensures-ask f k w h = h

    pub Ensures-change :
        (f : Db → Db) (k : Unit {0} → Act A) (w : World)
        → Ensures S (k tt (moved env w (f (met env w))))
        → Ensures S ((change env f >>= k) w)
    unfolding ◌>>=◌ continue change
    Ensures-change f k w h = h

    pub Ensures-command :
        {B : Type 0} (f : Db → Result B × Db) (h : StoreError → ServiceError) (k : B → Act A)
        (w : World)
        → ((e : StoreError) (d : Db)
            → f (met env w) ≡ (err e, d)
            → S (failed (h e)) (moved env w d))
        → ((b : B) (d : Db) → f (met env w) ≡ (ok b, d) → Ensures S (k b (moved env w d)))
        → Ensures S ((command env f h >>= k) w)
    unfolding ◌>>=◌ continue command reply_of
    Ensures-command {B} f h k w bad good = go (f (met env w)) bad good
      where
        go :
            (x : Result B × Db)
            → ((e : StoreError) (d : Db) → x ≡ (err e, d) → S (failed (h e)) (moved env w d))
            → ((b : B) (d : Db) → x ≡ (ok b, d) → Ensures S (k b (moved env w d)))
            → Ensures S (continue k (reply_of h x.0, moved env w x.1))
        go (ok b, d) bad good = good b d refl
        go (err e, d) bad good = record { holds = bad e d refl }

module _ {A : Type 0} {S : Reply A → World → Type 0} where
  pub Ensures-pure : (a : A) (w : World) → S (done a) w → Ensures S (pure a w)
  unfolding pure
  Ensures-pure a w h = record { holds = h }

  pub Ensures-fail : (e : ServiceError) (w : World) → S (failed e) w → Ensures S (fail e w)
  unfolding fail
  Ensures-fail e w h = record { holds = h }

  -- A transaction as the last statement.
  pub Ensures-last :
      (env : Env) (f : Db → Result A × Db) (h : StoreError → ServiceError) (w : World)
      → ((e : StoreError) (d : Db) → f (met env w) ≡ (err e, d) → S (failed (h e)) (moved env w d))
      → ((a : A) (d : Db) → f (met env w) ≡ (ok a, d) → S (done a) (moved env w d))
      → Ensures S (command env f h w)
  unfolding command reply_of
  Ensures-last env f h w bad good = go (f (met env w)) bad good
    where
      go :
          (x : Result A × Db)
          → ((e : StoreError) (d : Db) → x ≡ (err e, d) → S (failed (h e)) (moved env w d))
          → ((a : A) (d : Db) → x ≡ (ok a, d) → S (done a) (moved env w d))
          → Ensures S (reply_of h x.0, moved env w x.1)
      go (ok a, d) bad good = record { holds = good a d refl }
      go (err e, d) bad good = record { holds = bad e d refl }

  -- An error that is handled in place.
  pub Ensures-either_way :
      {B : Type 0} (h : ServiceError → Act A) (f : B → Act A) (m : Act B) (w : World)
      → ((e : ServiceError) (w' : World) → Ensures S (h e w'))
      → ((b : B) (w' : World) → Ensures S (f b w'))
      → Ensures S (either_way h f m w)
  unfolding either_case
  Ensures-either_way {B} h f m w th tf = go (m w)
    where
      go : (x : Reply B × World) → Ensures S (either_case h f x)
      go (done b, w') = tf b w'
      go (failed e, w') = th e w'

module _ {A : Type 0} {S : Reply A → World → Type 0} (env : Env) where
  pub Ensures-new_id :
      (prefix : Text) (k : Text → Act A) (w : World)
      → ((id : Text) → Ensures S (k id (moved env w w.db)))
      → Ensures S ((new_id env prefix >>= k) w)
  unfolding ◌>>=◌ continue new_id
  Ensures-new_id prefix k w h = h _

  pub Ensures-new_token :
      (k : Text → Act A) (w : World)
      → S (failed err_other) (moved env w w.db)
      → ((token : Text)
          → env.random_token w.turn ≡ some token
          → Ensures S (k token (moved env w w.db)))
      → Ensures S ((new_token env >>= k) w)
  unfolding ◌>>=◌ continue new_token
  Ensures-new_token k w bad good = go (env.random_token w.turn) good
    where
      go :
          (o : Option Text)
          → ((token : Text) → o ≡ some token → Ensures S (k token (moved env w w.db)))
          → Ensures S (continue k (drawn env o, moved env w w.db))
      go none good = record { holds = bad }
      go (some token) good = good token refl
