-- ===== src/Base/InLaws.antt =====
-- Rows of a table, and the row that a unique key finds.
use Prim.Native.Nat.{◌<◌}
use mathlib.Core.Path.{◌≡◌, sym}
use mathlib.Core.Logic.{◌⊎◌, inl, inr}
use mathlib.Core.Bool.{Bool, true}
use mathlib.Core.Option.{some}
use mathlib.Core.List.{List, [], ◌∷◌}
use native.Mathlib.Omega.{arith}
use nexus_control.Base.Tests.{Bool-cases}
use nexus_control.Base.Rows.{any, find, select, count}

module _ {A : Type 0} where
  abbrev pub In : A → List A → Type 0
  In x [] = ⊥
  In x (y ∷ ys) = (y ≡ x) ⊎ In x ys

  pub find-In : (p : A → Bool) (xs : List A) (x : A) → find p xs ≡ some x → In x xs
  unfolding find
  find-In p [] x e = cc
  find-In p (y ∷ ys) x e = elim (Bool-cases (p y)) [
    | inl h ↦ inl (ground (arith, e, h))
    | inr h ↦ inr (find-In p ys x (ground (arith, e, h)))
  ]

  pub select-In : (p : A → Bool) (xs : List A) (x : A) → In x (select p xs) → In x xs × (p x ≡ true)
  unfolding select
  select-In p [] x h = absurd h
  select-In p (y ∷ ys) x h = elim (Bool-cases (p y)) [
    | inl e ↦ from_head e (select-In p ys x) (rw e at h)
    | inr e ↦ let (i, t) = select-In p ys x (rw e at h) in (inr i, t)
  ]
    where
      from_head :
          p y ≡ true
          → (In x (select p ys) → In x ys × (p x ≡ true))
          → (y ≡ x) ⊎ In x (select p ys)
          → ((y ≡ x) ⊎ In x ys) × (p x ≡ true)
      from_head e later (inl same) = (inl same, rw (sym same) e)
      from_head e later (inr i) = let (j, t) = later i in (inr j, t)

  count-In : (p : A → Bool) (xs : List A) (x : A) → In x xs → p x ≡ true → 0 < count p xs
  unfolding count
  count-In p [] x h e = absurd h
  count-In p (y ∷ ys) x (inl same) e = ground (arith, same, e)
  count-In p (y ∷ ys) x (inr i) e = ground (arith, count-In p ys x i e)

  -- A row that has a key which no two rows share is the one that the key finds.
  pub find-key :
      (p : A → Bool) (xs : List A) (x : A)
      → In x xs
      → p x ≡ true
      → count p xs < 2
      → find p xs ≡ some x
  unfolding find count
  find-key p [] x h e one = absurd h
  find-key p (y ∷ ys) x (inl same) e one = ground (arith, same, e)
  find-key p (y ∷ ys) x (inr i) e one =
      ground (arith, count-In p ys x i e, find-key p ys x i e, one)

  pub any-In : (p : A → Bool) (xs : List A) (x : A) → In x xs → p x ≡ true → any p xs ≡ true
  unfolding any
  any-In p [] x h e = absurd h
  any-In p (y ∷ ys) x (inl same) e = ground (arith, same, e)
  any-In p (y ∷ ys) x (inr i) e = ground (arith, any-In p ys x i e)
