-- ===== src/Prelude/Keys.antt =====
-- Keys of Go maps: a type whose equality is decided, as an instance.
use Prim.Native.String.{String}
use mathlib.Core.Path.{◌≡◌, refl}
use mathlib.Core.Bool.{Bool, true, false, ◌||◌}
use mathlib.Core.List.{List, [], ◌∷◌}
use text.Mathlib.Text.{◌==◌ as str_eq}
use text.Mathlib.TextEquality.{eq_iff}

pub record Key {ℓ} (K : Type ℓ) : Type ℓ where
  pub dec : Discrete K

pub ne_of_false : (a b : String) → str_eq a b ≡ false → ¬ (a ≡ b)
ne_of_false a b e p = cc (e, (eq_iff a b).1 p)

dec_of_bool : (a b : String) (t : Bool) → str_eq a b ≡ t → Dec (a ≡ b)
dec_of_bool a b true e = yes ((eq_iff a b).0 e)
dec_of_bool a b false e = no (ne_of_false a b e)

unfoldable pub String-discrete : Discrete String
unfolding dec_of_bool
String-discrete a b = dec_of_bool a b (str_eq a b) refl

instance abbrev pub string_key : Key String
string_key = record { dec = String-discrete }

-- The source's `==` on strings and other comparable values.
abbrev pub same {ℓ} : {K : Type ℓ} ⦃e : Key K⦄ → K → K → Bool
same ⦃e⦄ a b = elim (e.dec a b) [ yes _ ↦ true | no _ ↦ false ]

abbrev pub elem {ℓ} : {K : Type ℓ} ⦃e : Key K⦄ → K → List K → Bool
elem a [] = false
elem a (x ∷ xs) = same a x || elem a xs
