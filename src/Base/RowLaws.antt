-- ===== src/Base/RowLaws.antt =====
-- Laws of the reads and writes of a table.
use Prim.Native.Nat.{◌+◌, ◌≤◌, ◌<◌}
use mathlib.Core.Path.{◌≡◌, refl}
use mathlib.Core.Logic.{inl, inr}
use mathlib.Core.Bool.{Bool, true, false, ◌||◌, ◌&&◌, not}
use mathlib.Core.Option.{none, some}
use mathlib.Core.List.{List, [], ◌∷◌, ◌++◌}
use native.Mathlib.Omega.{arith}
use nexus_control.Base.Tests.{is_none, Option-cases}
use nexus_control.Base.Rows.{find, any, count, update, delete}

module _ {ℓ} {A : Type ℓ} where
  -- No row satisfies what no value satisfies.
  pub any_none : (p : A → Bool) (xs : List A) → ((x : A) → p x ≡ false) → any p xs ≡ false
  unfolding any
  any_none p [] h = refl
  any_none p (x ∷ xs) h = ground (arith, h x, any_none p xs h)

  -- A stronger condition selects no more.
  pub any_weaken :
      (p r : A → Bool) (xs : List A)
      → ((x : A) → r x ≡ true → p x ≡ true)
      → any p xs ≡ false
      → any r xs ≡ false
  unfolding any
  any_weaken p r [] h e = refl
  any_weaken p r (x ∷ xs) h e = ground (arith, h x, any_weaken p r xs h)

  pub any_mono :
      (p r : A → Bool) (xs : List A)
      → ((x : A) → p x ≡ true → r x ≡ true)
      → any p xs ≡ true
      → any r xs ≡ true
  unfolding any
  any_mono p r [] h e = e
  any_mono p r (x ∷ xs) h e = ground (arith, h x, any_mono p r xs h)

  pub any-append_row :
      (p : A → Bool) (xs : List A) (x : A) → any p (xs ++ x ∷ []) ≡ (any p xs || p x)
  unfolding any
  any-append_row p [] x = ground arith
  any-append_row p (y ∷ xs) x = ground (arith, any-append_row p xs x)

  pub any-append_back :
      (p : A → Bool) (xs : List A) (x : A)
      → any p (xs ++ x ∷ []) ≡ true
      → p x ≡ false
      → any p xs ≡ true
  any-append_back p xs x h miss = ground (arith, any-append_row p xs x)

  pub find-none-any : (p : A → Bool) (xs : List A) → find p xs ≡ none → any p xs ≡ false
  unfolding any find
  find-none-any p [] e = refl
  find-none-any p (x ∷ xs) e = ground (arith, find-none-any p xs)

  pub find-some-any : (p : A → Bool) (xs : List A) (m : A) → find p xs ≡ some m → any p xs ≡ true
  unfolding any find
  find-some-any p [] m e = cc
  find-some-any p (x ∷ xs) m e = ground (arith, find-some-any p xs m)

  pub any-find-none : (p : A → Bool) (xs : List A) → any p xs ≡ false → find p xs ≡ none
  unfolding any find
  any-find-none p [] e = refl
  any-find-none p (x ∷ xs) e = ground (arith, any-find-none p xs)

  -- A deletion of rows outside `p` does not change the row that `p` finds.
  pub find-delete :
      (p q : A → Bool) (xs : List A)
      → ((x : A) → p x ≡ true → q x ≡ false)
      → find p (delete q xs) ≡ find p xs
  unfolding find delete
  find-delete p q [] h = refl
  find-delete p q (x ∷ xs) h = ground (arith, h x, find-delete p q xs h)

  pub any-delete_none :
      (p q : A → Bool) (xs : List A) → any p xs ≡ false → any p (delete q xs) ≡ false
  unfolding any delete
  any-delete_none p q [] e = e
  any-delete_none p q (x ∷ xs) e = ground (arith, any-delete_none p q xs)

  pub find-append_old :
      (p : A → Bool) (xs ys : List A) (m : A) → find p xs ≡ some m → find p (xs ++ ys) ≡ some m
  unfolding find
  find-append_old p [] ys m e = cc
  find-append_old p (x ∷ xs) ys m e = ground (arith, find-append_old p xs ys m)

  pub find-append_new :
      (p : A → Bool) (xs : List A) (x : A)
      → any p xs ≡ false
      → p x ≡ true
      → find p (xs ++ x ∷ []) ≡ some x
  unfolding find any
  find-append_new p [] x e h = ground arith
  find-append_new p (y ∷ xs) x e h = ground (arith, find-append_new p xs x)

  -- Two conditions that agree find the same row.
  pub find_ext : (p q : A → Bool) (xs : List A) → ((x : A) → p x ≡ q x) → find p xs ≡ find q xs
  unfolding find
  find_ext p q [] h = refl
  find_ext p q (x ∷ xs) h = ground (arith, h x, find_ext p q xs h)

  -- An update that keeps a condition does not change whether a row satisfies it.
  pub any-update_same :
      (p q : A → Bool) (f : A → A) (xs : List A)
      → ((x : A) → p (f x) ≡ p x)
      → any p (update q f xs) ≡ any p xs
  unfolding any update
  any-update_same p q f [] h = refl
  any-update_same p q f (x ∷ xs) h = ground (arith, h x, any-update_same p q f xs h)

  pub find-found : (p : A → Bool) (xs : List A) → not (is_none (find p xs)) ≡ true → any p xs ≡ true
  find-found p xs h = elim (Option-cases (find p xs)) [
    | inl e ↦ ground (arith, e)
    | inr (m, e) ↦ find-some-any p xs m e
  ]

  pub find_holds : (p : A → Bool) (xs : List A) (m : A) → find p xs ≡ some m → p m ≡ true
  unfolding find
  find_holds p [] m e = cc
  find_holds p (x ∷ xs) m e = ground (arith, find_holds p xs m)

  -- An update that touches no row of `p` keeps one.
  pub any-update_keep :
      (p q : A → Bool) (f : A → A) (xs : List A)
      → any (λ x. p x && q x) xs ≡ false
      → any p xs ≡ true
      → any p (update q f xs) ≡ true
  unfolding any update
  any-update_keep p q f [] h e = e
  any-update_keep p q f (x ∷ xs) h e = ground (arith, any-update_keep p q f xs)

  -- An update that hits a row and makes it one of `p`.
  pub any-update_hit :
      (p q r : A → Bool) (f : A → A) (xs : List A)
      → ((x : A) → q x ≡ true → r x ≡ true → p (f x) ≡ true)
      → any (λ x. q x && r x) xs ≡ true
      → any p (update q f xs) ≡ true
  unfolding any update
  any-update_hit p q r f [] h e = e
  any-update_hit p q r f (x ∷ xs) h e = ground (arith, h x, any-update_hit p q r f xs h)

  -- An update that makes no row one of `p` finds none where there was none.
  pub any-update_none :
      (p q : A → Bool) (f : A → A) (xs : List A)
      → ((x : A) → q x ≡ true → p (f x) ≡ true → p x ≡ true)
      → any p xs ≡ false
      → any p (update q f xs) ≡ false
  unfolding any update
  any-update_none p q f [] h e = refl
  any-update_none p q f (x ∷ xs) h e = ground (arith, h x, any-update_none p q f xs h)

  -- An update that clears every row of `p`.
  pub any-update_clear :
      (p q : A → Bool) (f : A → A) (xs : List A)
      → ((x : A) → q x ≡ false → p x ≡ false)
      → ((x : A) → q x ≡ true → p (f x) ≡ false)
      → any p (update q f xs) ≡ false
  unfolding any update
  any-update_clear p q f [] h k = refl
  any-update_clear p q f (x ∷ xs) h k = ground (arith, h x, k x, any-update_clear p q f xs h k)

  -- What such an update leaves was there before.
  pub any-update_back :
      (p q : A → Bool) (f : A → A) (xs : List A)
      → ((x : A) → q x ≡ true → p (f x) ≡ true → p x ≡ true)
      → any p (update q f xs) ≡ true
      → any p xs ≡ true
  unfolding any update
  any-update_back p q f [] h e = e
  any-update_back p q f (x ∷ xs) h e = ground (arith, h x, any-update_back p q f xs h)

  -- Such an update counts no more rows.
  pub count-update_le :
      (p q : A → Bool) (f : A → A) (xs : List A)
      → ((x : A) → q x ≡ true → p (f x) ≡ true → p x ≡ true)
      → count p (update q f xs) ≤ count p xs
  unfolding count update
  count-update_le p q f [] h = omega arith
  count-update_le p q f (x ∷ xs) h = ground (arith, h x, count-update_le p q f xs h)

  pub count-append : (p : A → Bool) (xs ys : List A) → count p (xs ++ ys) ≡ count p xs + count p ys
  unfolding count
  count-append p [] ys = omega arith
  count-append p (x ∷ xs) ys = ground (arith, count-append p xs ys)

  pub count-append_miss :
      (p : A → Bool) (xs : List A) (x : A) → p x ≡ false → count p (xs ++ x ∷ []) ≤ count p xs
  unfolding count
  count-append_miss p [] x h = ground arith
  count-append_miss p (y ∷ xs) x h = ground (arith, count-append_miss p xs x h)

  count-zero_any :
      (p r : A → Bool) (xs : List A) → count p xs ≡ 0 → any (λ x. p x && r x) xs ≡ false
  unfolding count any
  count-zero_any p r [] e = refl
  count-zero_any p r (x ∷ xs) e = ground (arith, count-zero_any p r xs)

  count-zero_find :
      (p q : A → Bool) (xs : List A)
      → ((x : A) → q x ≡ true → p x ≡ true)
      → count p xs ≡ 0
      → find q xs ≡ none
  unfolding count find
  count-zero_find p q [] h e = refl
  count-zero_find p q (x ∷ xs) h e = ground (arith, h x, count-zero_find p q xs h)

  -- Where at most one row satisfies `p`, the row that was found speaks for all of them.
  pub find_unique :
      (p q r : A → Bool) (xs : List A) (m : A)
      → ((x : A) → q x ≡ true → p x ≡ true)
      → count p xs < 2
      → find q xs ≡ some m
      → r m ≡ false
      → any (λ x. p x && r x) xs ≡ false
  unfolding count find any
  find_unique p q r [] m h c e f = refl
  find_unique p q r (x ∷ xs) m h c e f =
      ground (arith, h x, count-zero_any p r xs, count-zero_find p q xs h, find_unique p q r xs m h)
