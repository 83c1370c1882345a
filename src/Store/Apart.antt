-- ===== src/Store/Apart.antt =====
-- The statements and transactions of internal/storage/auth and the tables of organizations, wherever
-- they stop: one rule for each way to build a transaction.
pub mod Operations
use nexus_control.Base.{◌≡◌, refl, ◌∙◌, ap, Bool, true, false, Option, none, some, List, Text, ℕ}
use nexus_control.Schema.{Db, Organization, OrganizationMembership}
use nexus_control.Tx.{
  StoreError, Exit, next, quit, Tx, Result, pure, return_early, read, write, require, row_or,
  row_or_return, when, transaction, ◌>>=◌,
}
use nexus_control.Store.Owners.{IsGoverned, IsGoverned-frame}

-- The two tables.
pub record Orgs : Type 0 where
  pub organizations : List Organization
  pub organization_memberships : List OrganizationMembership

abbrev pub orgs : Db → Orgs
orgs db = record {
  organizations = db.organizations;
  organization_memberships = db.organization_memberships;
}

abbrev pub Leaves : {R A : Type 0} → Orgs → Exit R A → Type 0
Leaves o (next a d) = orgs d ≡ o
Leaves o (quit r) = Unit

pub record Apart {R A : Type 0} (m : Tx R A) : Type 0 where
  pub at : (db : Db) → Leaves (orgs db) (m db)

module _ {R : Type 0} where
  pub Apart-pure : {A : Type 0} (a : A) → Apart (pure {R = R} a)
  unfolding pure
  Apart-pure a = record { at = λ db. refl }

  pub Apart-return_early : {A : Type 0} (r : Result R) → Apart (return_early {A = A} r)
  unfolding return_early
  Apart-return_early r = record { at = λ db. tt }

  pub Apart-read : {A : Type 0} (f : Db → A) → Apart (read {R = R} f)
  unfolding read
  Apart-read f = record { at = λ db. refl }

  pub Apart-write : (f : Db → Db) → ((db : Db) → orgs (f db) ≡ orgs db) → Apart (write {R = R} f)
  unfolding write
  Apart-write f h = record { at = h }

  pub Apart-require : (b : Bool) (e : StoreError) → Apart (require {R = R} b e)
  unfolding require
  Apart-require true e = record { at = λ db. refl }
  Apart-require false e = record { at = λ db. tt }

  pub Apart-row_or : {A : Type 0} (o : Option A) (e : StoreError) → Apart (row_or {R = R} o e)
  unfolding row_or
  Apart-row_or none e = record { at = λ db. tt }
  Apart-row_or (some a) e = record { at = λ db. refl }

  pub Apart-row_or_return :
      {A : Type 0} (o : Option A) (r : Result R) → Apart (row_or_return {R = R} o r)
  unfolding row_or_return
  Apart-row_or_return none r = record { at = λ db. tt }
  Apart-row_or_return (some a) r = record { at = λ db. refl }

  pub Apart-when : (b : Bool) (m : Tx R (Unit {0})) → Apart m → Apart (when b m)
  unfolding when
  Apart-when true m h = record { at = λ db. h.at db }
  Apart-when false m h = record { at = λ db. refl }

  pub Apart-bind :
      {A B : Type 0} (m : Tx R A) (f : A → Tx R B)
      → Apart m
      → ((a : A) → Apart (f a))
      → Apart (m >>= f)
  unfolding ◌>>=◌
  Apart-bind {A} {B} m f hm hf = record { at = λ db. go (m db) db (hm.at db) }
    where
      go :
          (x : Exit R A) (db : Db)
          → Leaves (orgs db) x
          → Leaves (orgs db) (◌>>=◌ {B = B} (λ _. x) f db)
      go (next a d) db e = follow (f a d) e ((hf a).at d)
        where
          follow : (y : Exit R B) → orgs d ≡ orgs db → Leaves (orgs d) y → Leaves (orgs db) y
          follow (next b d') e h = h ∙ e
          follow (quit r) e h = tt
      go (quit r) db e = tt

  pub Apart-transaction :
      (body : Tx R R) → Apart body → (db : Db) → orgs (transaction body db).1 ≡ orgs db
  unfolding transaction
  Apart-transaction body h db = go (body db) (h.at db)
    where
      go : (x : Exit R R) → Leaves (orgs db) x → orgs (transaction (λ _. x) db).1 ≡ orgs db
      go (next r d) e = e
      go (quit r) e = refl

pub ruleset apart_rules = (
  Apart-pure, Apart-return_early, Apart-read, Apart-write, Apart-require, Apart-row_or,
  Apart-row_or_return, Apart-when, Apart-bind,
)

-- The ownership of organizations is a matter of the two tables.
pub orgs-IsGoverned : (d e : Db) → orgs e ≡ orgs d → IsGoverned d → IsGoverned e
orgs-IsGoverned d e k =
    IsGoverned-frame (ap (λ t. t.organizations) k) (ap (λ t. t.organization_memberships) k)
