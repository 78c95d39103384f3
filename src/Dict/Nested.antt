-- ===== src/Dict/Nested.antt =====
-- Go's `map[K]map[J]struct{}`: a relation between keys, kept with no empty inner set.
use ultimate_game_server.Prelude.{
  ◌≡◌, inl, inr, Bool, true, false, ◌&&◌, none, some, [], arith, ◌==◌, if◌then◌else◌, Option-cases,
  same, Key, string_key,
}
use ultimate_game_server.Dict.Defs.{Dict, lookup, has, insert, delete, size}
use ultimate_game_server.Dict.Laws.{lookup-insert, lookup-delete}
use ultimate_game_server.Dict.Sizes.{lookup_of_empty}
use ultimate_game_server.Dict.Sets.{KeySet, add}

module _ {K J : Type 0} ⦃e : Key K⦄ ⦃f : Key J⦄ where
  unfoldable pub inner : K → Dict K (KeySet J) → KeySet J
  inner k m = elim (lookup k m) [ none ↦ [] | some set ↦ set ]

  unfoldable pub related : K → J → Dict K (KeySet J) → Bool
  related k j m = elim (lookup k m) [ none ↦ false | some set ↦ has j set ]

  -- The inner set is made when it is missing.
  unfoldable pub relate : K → J → Dict K (KeySet J) → Dict K (KeySet J)
  unfolding inner
  relate k j m = insert k (add j (inner k m)) m

  -- An inner set with nothing left goes.
  unfoldable pub unrelate : K → J → Dict K (KeySet J) → Dict K (KeySet J)
  unrelate k j m = elim (lookup k m) [
    | none ↦ m
    | some set ↦ let rest = delete j set in if size rest == 0 then delete k m else insert k rest m
  ]

  pub related-relate :
      (k : K) (j : J) (m : Dict K (KeySet J)) (x : K) (y : J)
      → related x y (relate k j m) ≡ (if same x k && same y j then true else related x y m)
  unfolding related relate lookup
  related-relate k j m x y = elim (Option-cases (lookup k m)) [
    | inl n ↦ ground (arith, n, lookup-insert x k (add j []) m, lookup-insert y j tt [])
    | inr (set, n) ↦ ground (arith, n, lookup-insert x k (add j set) m, lookup-insert y j tt set)
  ]

  pub related-unrelate :
      (k : K) (j : J) (m : Dict K (KeySet J)) (x : K) (y : J)
      → related x y (unrelate k j m) ≡ (if same x k && same y j then false else related x y m)
  unfolding related unrelate
  related-unrelate k j m x y = elim (Option-cases (lookup k m)) [
    | inl n ↦ ground (arith, n)
    | inr (set, n) ↦ ground (
      arith,
      n,
      lookup-insert x k (delete j set) m,
      lookup-delete x k m,
      lookup-delete y j set,
      lookup_of_empty y (delete j set),
    )
  ]
