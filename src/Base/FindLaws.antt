-- ===== src/Base/FindLaws.antt =====
-- Laws of the rows that a condition finds, of updates by key, and of orders.
use Prim.Native.Nat.{◌<◌}
use mathlib.Core.Path.{◌≡◌, refl, ap, ◌∙◌}
use mathlib.Core.Bool.{Bool, true, false, ◌||◌, ◌&&◌, not}
use mathlib.Core.Option.{some}
use mathlib.Core.List.{List, [], ◌∷◌, ◌++◌}
use native.Mathlib.Omega.{arith}
use nexus_control.Base.Rows.{find, any, count, update, select, insert_by, sort_by}

module _ {ℓ} {A : Type ℓ} where
  -- The first row also satisfies a narrower condition that is true of it.
  pub find_narrow :
      (p r : A → Bool) (xs : List A) (m : A)
      → find p xs ≡ some m
      → r m ≡ true
      → find (λ x. p x && r x) xs ≡ some m
  unfolding find
  find_narrow p r [] m e h = cc
  find_narrow p r (x ∷ xs) m e h = ground (arith, find_narrow p r xs m)

  -- An update of other rows leaves a row as it was.
  pub find-update_other :
      (p q : A → Bool) (f : A → A) (xs : List A)
      → ((x : A) → q x ≡ true → p (f x) ≡ p x)
      → ((x : A) → p x ≡ true → q x ≡ false)
      → find p (update q f xs) ≡ find p xs
  unfolding find update
  find-update_other p q f [] h k = refl
  find-update_other p q f (x ∷ xs) h k = ground (arith, h x, k x, find-update_other p q f xs h k)

  pub find-update_miss :
      (p q : A → Bool) (f : A → A) (xs : List A)
      → ((x : A) → q x ≡ true → p (f x) ≡ false)
      → any (λ x. q x && p x) xs ≡ false
      → find p (update q f xs) ≡ find p xs
  unfolding find any update
  find-update_miss p q f [] h e = refl
  find-update_miss p q f (x ∷ xs) h e = ground (arith, h x, find-update_miss p q f xs h)

  -- An update that reaches every row of `p` and clears a narrower condition.
  pub any-update_all :
      (p p' q : A → Bool) (f : A → A) (xs : List A)
      → ((x : A) → p' x ≡ true → p x ≡ true)
      → ((x : A) → q x ≡ true → p' (f x) ≡ false)
      → any (λ x. p x && not (q x)) xs ≡ false
      → any p' (update q f xs) ≡ false
  unfolding any update
  any-update_all p p' q f [] h k e = refl
  any-update_all p p' q f (x ∷ xs) h k e = ground (arith, h x, k x, any-update_all p p' q f xs h k)

  pub count-append_new :
      (p : A → Bool) (xs : List A) (x : A) → any p xs ≡ false → count p (xs ++ x ∷ []) < 2
  unfolding any count
  count-append_new p [] x e = ground arith
  count-append_new p (y ∷ xs) x e = ground (arith, count-append_new p xs x)

  pub find-update_hit :
      (p : A → Bool) (f : A → A) (xs : List A) (m : A)
      → ((x : A) → p x ≡ true → p (f x) ≡ true)
      → find p xs ≡ some m
      → find p (update p f xs) ≡ some (f m)
  unfolding find update
  find-update_hit p f [] m h e = cc
  find-update_hit p f (x ∷ xs) m h e = ground (arith, h x, find-update_hit p f xs m h)

  -- An update that reaches the row that was found.
  pub find-update_found :
      (p q : A → Bool) (f : A → A) (xs : List A) (m : A)
      → ((x : A) → p (f x) ≡ p x)
      → find p xs ≡ some m
      → q m ≡ true
      → find p (update q f xs) ≡ some (f m)
  unfolding find update
  find-update_found p q f [] m h e t = cc
  find-update_found p q f (x ∷ xs) m h e t = ground (arith, h x, find-update_found p q f xs m h)

  any-insert_by :
      (p : A → Bool) (before : A → A → Bool) (x : A) (ys : List A)
      → any p (insert_by before x ys) ≡ (p x || any p ys)
  unfolding any insert_by
  any-insert_by p before x [] = refl
  any-insert_by p before x (y ∷ ys) = ground (arith, any-insert_by p before x ys)

  -- An order changes no set of rows.
  pub any-sort_by :
      (p : A → Bool) (before : A → A → Bool) (xs : List A) → any p (sort_by before xs) ≡ any p xs
  unfolding any sort_by
  any-sort_by p before [] = refl
  any-sort_by p before (x ∷ xs) =
      any-insert_by p before x (sort_by before xs) ∙ ap (λ b. p x || b) (any-sort_by p before xs)

  pub any-select : (p q : A → Bool) (xs : List A) → any p (select q xs) ≡ any (λ x. q x && p x) xs
  unfolding any select
  any-select p q [] = refl
  any-select p q (x ∷ xs) = ground (arith, any-select p q xs)
