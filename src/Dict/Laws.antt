-- ===== src/Dict/Laws.antt =====
-- What a read gives after a write or a delete, and that keys stay distinct.
use ultimate_game_server.Prelude.{◌∷◌, [], none, some, Key, ite, ◌≡◌, ◌≢◌, refl, arith}
use ultimate_game_server.Dict.Defs.{Dict, lookup, insert, delete, Distinct}

module _ {ℓ} {K V : Type ℓ} ⦃e : Key K⦄ where
  pub lookup-insert :
      (j k : K) (v : V) (m : Dict K V)
      → lookup j (insert k v m) ≡ ite (e.dec j k) (some v) (lookup j m)
  unfolding lookup insert
  lookup-insert j k v [] = refl
  lookup-insert j k v ((i, w) ∷ m) = ground (arith, lookup-insert j k v m)

  pub lookup-delete :
      (j k : K) (m : Dict K V) → lookup j (delete k m) ≡ ite (e.dec j k) none (lookup j m)
  unfolding lookup delete
  lookup-delete j k [] = ground arith
  lookup-delete j k ((i, w) ∷ m) = ground (arith, lookup-delete j k m)

  pub lookup-insert_self : (k : K) (v : V) (m : Dict K V) → lookup k (insert k v m) ≡ some v
  lookup-insert_self k v m = ground (arith, lookup-insert k k v m)

  pub lookup-insert_ne :
      (j k : K) (v : V) (m : Dict K V) → j ≢ k → lookup j (insert k v m) ≡ lookup j m
  lookup-insert_ne j k v m h = ground (arith, lookup-insert j k v m)

  pub lookup-delete_self : (k : K) (m : Dict K V) → lookup k (delete k m) ≡ none
  lookup-delete_self k m = ground (arith, lookup-delete k k m)

  pub lookup-delete_ne : (j k : K) (m : Dict K V) → j ≢ k → lookup j (delete k m) ≡ lookup j m
  lookup-delete_ne j k m h = ground (arith, lookup-delete j k m)

  pub insert-Distinct : (k : K) (v : V) (m : Dict K V) → Distinct m → Distinct (insert k v m)
  unfolding insert lookup
  insert-Distinct k v [] d = ground arith
  insert-Distinct k v ((j, w) ∷ m) d = ground (arith, insert-Distinct k v m, lookup-insert j k v m)

  pub delete-Distinct : (k : K) (m : Dict K V) → Distinct m → Distinct (delete k m)
  unfolding delete
  delete-Distinct k [] d = d
  delete-Distinct k ((j, w) ∷ m) d = ground (arith, delete-Distinct k m, lookup-delete j k m)
