-- ===== src/Dict/Sizes.antt =====
-- How a write or a delete changes the number of entries.
use ultimate_game_server.Prelude.{
  suc, ◌≤◌, ◌<◌, ◌≡◌, refl, true, none, some, [], ◌∷◌, arith, ◌==◌, Key, string_key,
}
use ultimate_game_server.Dict.Defs.{Dict, lookup, insert, delete, Distinct, size}

module _ {ℓ} {K V : Type ℓ} ⦃e : Key K⦄ where
  pub size-insert_new :
      (k : K) (v : V) (m : Dict K V) → lookup k m ≡ none → size (insert k v m) ≡ suc (size m)
  unfolding insert lookup
  size-insert_new k v [] h = refl
  size-insert_new k v ((j, w) ∷ m) h = ground (arith, size-insert_new k v m)

  pub size-insert_old :
      (k : K) (v w : V) (m : Dict K V) → lookup k m ≡ some w → size (insert k v m) ≡ size m
  unfolding insert lookup
  size-insert_old k v w [] h = ground arith
  size-insert_old k v w ((j, u) ∷ m) h = ground (arith, size-insert_old k v w m)

  pub size-delete-le : (k : K) (m : Dict K V) → size (delete k m) ≤ size m
  unfolding delete
  size-delete-le k [] = omega arith
  size-delete-le k ((j, w) ∷ m) = ground (arith, size-delete-le k m)

  pub delete_absent : (k : K) (m : Dict K V) → lookup k m ≡ none → delete k m ≡ m
  unfolding delete lookup
  delete_absent k [] h = refl
  delete_absent k ((j, w) ∷ m) h = ground (arith, delete_absent k m)

  pub size-delete_old :
      (k : K) (w : V) (m : Dict K V)
      → Distinct m
      → lookup k m ≡ some w
      → suc (size (delete k m)) ≡ size m
  unfolding delete lookup
  size-delete_old k w [] d h = ground arith
  size-delete_old k w ((j, u) ∷ m) d h = ground (arith, size-delete_old k w m, delete_absent k m)

  pub size_pos : (k : K) (w : V) (m : Dict K V) → lookup k m ≡ some w → 0 < size m
  unfolding lookup
  size_pos k w [] h = ground arith
  size_pos k w (p ∷ m) h = omega arith

  pub lookup_of_empty : (k : K) (m : Dict K V) → (size m == 0) ≡ true → lookup k m ≡ none
  unfolding lookup
  lookup_of_empty k [] h = refl
  lookup_of_empty k (p ∷ m) h = absurd (ground arith)

  pub size-insert_le : (k : K) (v : V) (m : Dict K V) → size (insert k v m) ≤ suc (size m)
  unfolding insert
  size-insert_le k v [] = omega arith
  size-insert_le k v ((j, w) ∷ m) = ground (arith, size-insert_le k v m)
