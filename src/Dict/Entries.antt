-- ===== src/Dict/Entries.antt =====
-- A property of every entry of a map.
use ultimate_game_server.Prelude.{◌≡◌, sym, if_pos, if_neg, some, [], ◌∷◌, arith, Key, string_key}
use ultimate_game_server.Dict.Defs.{Dict, lookup, insert, delete}
use mathlib.Core.Path.{subst₂}

module _ {ℓ} {K V : Type ℓ} where
  abbrev pub Every {κ} : (K → V → Type κ) → Dict K V → Type κ
  Every P [] = Unit
  Every P ((k, v) ∷ m) = P k v × Every P m

module _ {ℓ κ} {K V : Type ℓ} ⦃e : Key K⦄ (P : K → V → Type κ) where
  pub Every-insert : (k : K) (v : V) (m : Dict K V) → P k v → Every P m → Every P (insert k v m)
  unfolding insert
  Every-insert k v [] h a = (h, tt)
  Every-insert k v ((j, w) ∷ m) h a = elim (e.dec k j) [
    | yes p ↦ rw (if_pos _ p) (h, a.1)
    | no p ↦ rw (if_neg _ p) (a.0, Every-insert k v m h a.1)
  ]

  pub Every-delete : (k : K) (m : Dict K V) → Every P m → Every P (delete k m)
  unfolding delete
  Every-delete k [] a = a
  Every-delete k ((j, w) ∷ m) a = elim (e.dec k j) [
    | yes p ↦ rw (if_pos _ p) (Every-delete k m a.1)
    | no p ↦ rw (if_neg _ p) (a.0, Every-delete k m a.1)
  ]

  pub Every-lookup : (k : K) (v : V) (m : Dict K V) → lookup k m ≡ some v → Every P m → P k v
  unfolding lookup
  Every-lookup k v [] h a = cc
  Every-lookup k v ((j, w) ∷ m) h a = elim (e.dec k j) [
    | yes p ↦ subst₂ P (sym p) (ground arith) a.0
    | no p ↦ Every-lookup k v m (ground arith) a.1
  ]
