-- ===== src/Dict/Defs.antt =====
-- Go maps: reading, writing, deleting, and the number of entries.
use ultimate_game_server.Prelude.{
  ℕ, List, [], ◌∷◌, Option, none, some, Bool, length, is_some, Key, ite, ◌≡◌, map,
}

abbrev pub Dict {ℓ} : Type ℓ → Type ℓ → Type ℓ
Dict K V = List (K × V)

module _ {ℓ} {K V : Type ℓ} ⦃e : Key K⦄ where
  -- `v, ok := m[k]`
  unfoldable pub lookup : K → Dict K V → Option V
  lookup k [] = none
  lookup k ((j, v) ∷ m) = ite (e.dec k j) (some v) (lookup k m)

  -- `_, ok := m[k]`
  abbrev pub has : K → Dict K V → Bool
  has k m = is_some (lookup k m)

  -- `m[k] = v`
  unfoldable pub insert : K → V → Dict K V → Dict K V
  insert k v [] = (k, v) ∷ []
  insert k v ((j, w) ∷ m) = ite (e.dec k j) ((k, v) ∷ m) ((j, w) ∷ insert k v m)

  -- `delete(m, k)`
  unfoldable pub delete : K → Dict K V → Dict K V
  delete k [] = []
  delete k ((j, w) ∷ m) = ite (e.dec k j) (delete k m) ((j, w) ∷ delete k m)

  -- No key stands twice.
  abbrev pub Distinct : Dict K V → Type ℓ
  Distinct [] = Unit
  Distinct ((k, v) ∷ m) = (lookup k m ≡ none) × Distinct m

-- `len(m)`
abbrev pub size {ℓ} : {K V : Type ℓ} → Dict K V → ℕ
size m = length m

abbrev pub keys {ℓ} : {K V : Type ℓ} → Dict K V → List K
keys m = map (λ p. p.0) m
