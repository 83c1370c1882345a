-- ===== src/Base/Strings.antt =====
-- Go strings as lists of code points, which holds every valid UTF-8 text, and their equality.
use Prim.Native.Nat.{ℕ}
use nexus_control.Base.Tests.{eqb, ltb, if◌then◌else◌}
use Prim.Native.Char.{code}
use Prim.Native.String.{String}
use mathlib.Core.Path.{◌≡◌, refl}
use mathlib.Core.Bool.{Bool, true, false}
use mathlib.Core.List.{List, [], ◌∷◌}
unfoldable use native.Mathlib.Decide.{ℕ_discrete}

abbrev pub Text : Type 0
Text = List ℕ

-- The code points of a text literal.
abbrev pub text : String → Text
text String.[] = []
text (String.◌∷◌ c s) = code c ∷ text s

dec_cons : {a b : ℕ} {s t : Text} → Dec (a ≡ b) → Dec (s ≡ t) → Dec (◌≡◌ {A = Text} (a ∷ s) (b ∷ t))
dec_cons (yes p) (yes q) = yes (λ i. p i ∷ q i)
dec_cons (yes p) (no q) = no (λ e. q (cc))
dec_cons (no p) d = no (λ e. p (cc))

unfoldable pub dec_text : (s t : Text) → Dec (s ≡ t)
unfolding dec_cons ℕ_discrete
dec_text [] [] = yes refl
dec_text [] (b ∷ t) = no (λ e. cc)
dec_text (a ∷ s) [] = no (λ e. cc)
dec_text (a ∷ s) (b ∷ t) = dec_cons (ℕ_discrete a b) (dec_text s t)

infix 50 ◌==◌
abbrev pub ◌==◌ : Text → Text → Bool
s == t = elim (dec_text s t) [ yes _ ↦ true | no _ ↦ false ]

-- ORDER BY a text, in the order of its code points.
abbrev pub leb_text : Text → Text → Bool
leb_text [] t = true
leb_text (c ∷ s) [] = false
leb_text (c ∷ s) (d ∷ t) = if eqb c d then leb_text s t else ltb c d
