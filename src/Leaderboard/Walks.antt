-- ===== src/Leaderboard/Walks.antt =====
-- The search of internal/leaderboard/admin.go finds, on each level, the last node that is better.
use ultimate_game_server.Prelude.{
  ℕ, zero, suc, ◌≤◌, ◌<◌, ◌≡◌, refl, ◌⊎◌, inl, inr, Bool, true, false, Option, some, List, [], ◌∷◌,
  ◌++◌, arith, ltb, Bool-cases, length, All, string_key,
}
use ultimate_game_server.Leaderboard.Entry.{less, RankEntry}
use ultimate_game_server.Leaderboard.Nodes.{load_next, shape, load_entry-shape, Heap}
use ultimate_game_server.Leaderboard.SkipList.{walk}
use ultimate_game_server.Leaderboard.Towers.{
  tall, tall_nil, tall_yes, tall_no, All-tall, last, Chain, Tower,
}
use mathlib.Core.Path.{subst}

-- The node stands in memory.
abbrev pub Holds : Heap → Tower → Type 0
Holds h t = shape h t.at ≡ some (t.entry, t.levels)

-- The links of one level.
abbrev pub links : Heap → ℕ → ℕ → Option (Option ℕ)
links h i x = load_next h x i

module _ (asc : Bool) (e : RankEntry) where
  abbrev pub Better : Tower → Type 0
  Better t = less asc t.entry e ≡ true

  abbrev pub NotBetter : Tower → Type 0
  NotBetter t = less asc t.entry e ≡ false

module _ (asc : Bool) (h : Heap) (e : RankEntry) where
  pub walk_lem :
      (i k x : ℕ) (xs ys : List Tower)
      → Chain (links h i) x (xs ++ ys)
      → All (Holds h) (xs ++ ys)
      → All (Better asc e) xs
      → All (NotBetter asc e) ys
      → length xs < k
      → walk asc h e i k x ≡ some (last x xs)
  unfolding walk
  walk_lem i zero x xs ys c s b n l = ground arith
  walk_lem i (suc k) x [] [] c s b n l = ground arith
  walk_lem i (suc k) x [] (t ∷ ys) c s b n l =
      ground (arith, load_entry-shape h t.at t.entry t.levels s.0)
  walk_lem i (suc k) x (t ∷ xs) ys c s b n l = ground (
    arith,
    load_entry-shape h t.at t.entry t.levels s.0,
    walk_lem i k t.at xs ys c.1 s.1 b.1 n (ground arith),
  )

-- The search goes on, one level down, from where it stopped, and still meets all that it must.
abbrev Resumes :
    (ℕ → Option (Option ℕ)) → (Tower → Type 0) → ℕ → ℕ → List Tower → List Tower → Type 0
Resumes f P y z rest xs =
    (cs : List Tower) × Chain f y (cs ++ rest)
    × (last y cs ≡ z)
    × All P cs
    × (length cs ≤ length xs)

List-cases {ℓ} : {A : Type ℓ} (xs : List A) → (xs ≡ []) ⊎ ((y : A) × (ys : List A) × (xs ≡ y ∷ ys))
List-cases [] = inl refl
List-cases (x ∷ xs) = inr (x, xs, refl)

length-tall : (i : ℕ) (xs : List Tower) → length (tall i xs) ≤ length xs
unfolding tall
length-tall i [] = ground arith
length-tall i (t ∷ xs) = ground (arith, length-tall i xs)

longer :
    (f : ℕ → Option (Option ℕ)) (P : Tower → Type 0) (y z : ℕ) (rest : List Tower) (t : Tower)
    (xs : List Tower)
    → Resumes f P y z rest xs
    → Resumes f P y z rest (t ∷ xs)
longer f P y z rest t xs (cs, c, l, a, n) = (cs, c, l, a, ground arith)

last_irrelevant :
    (x y : ℕ) (ts : List Tower) {z : Tower} {zs : List Tower} → ts ≡ z ∷ zs → last x ts ≡ last y ts
last_irrelevant x y [] e = ground arith
last_irrelevant x y (t ∷ ts) e = refl

-- The first node is on this level only.
resume_behind :
    (f : ℕ → Option (Option ℕ)) (P : Tower → Type 0) (i x : ℕ) (t : Tower) (xs rest : List Tower)
    → Chain f x (t ∷ tall i xs ++ rest)
    → P t
    → All P xs
    → Resumes f P (last t.at (tall (suc i) xs)) (last t.at (tall i xs)) rest xs
    → Resumes f P (last x (tall (suc i) xs)) (last t.at (tall i xs)) rest (t ∷ xs)
resume_behind f P i x t xs rest c p a ih = elim (List-cases (tall (suc i) xs)) [
  | inl e ↦ rw e (t ∷ tall i xs, c, refl, (p, All-tall P i xs a), ground (arith, length-tall i xs))
  | inr (z, zs, e) ↦
      longer f P (last x (tall (suc i) xs)) (last t.at (tall i xs)) rest t xs
        (subst (λ y. Resumes f P y (last t.at (tall i xs)) rest xs) (last_irrelevant t.at x _ e) ih)
]

pub resume :
    (f : ℕ → Option (Option ℕ)) (P : Tower → Type 0) (i x : ℕ) (xs rest : List Tower)
    → Chain f x (tall i xs ++ rest)
    → All P xs
    → Resumes f P (last x (tall (suc i) xs)) (last x (tall i xs)) rest xs
resume f P i x [] rest c a =
    rw (tall_nil, tall_nil)
      ([], subst (λ l. Chain f x (l ++ rest)) (tall_nil i) c, refl, tt, ground arith)
resume f P i x (t ∷ xs) rest c a = elim (Bool-cases (ltb i t.levels)) [
  | inl p ↦
      let c' : Chain f x (t ∷ tall i xs ++ rest) =
        subst (λ l. Chain f x (l ++ rest)) (tall_yes i t xs p) c in
      let ih = resume f P i t.at xs rest c'.1 a.1 in
      elim (Bool-cases (ltb (suc i) t.levels)) [
        | inl q ↦
            rw (tall_yes i t xs p, tall_yes (suc i) t xs q)
              (longer f P (last t.at (tall (suc i) xs)) (last t.at (tall i xs)) rest t xs ih)
        | inr q ↦
            rw (tall_yes i t xs p, tall_no (suc i) t xs q)
              (resume_behind f P i x t xs rest c' a.0 a.1 ih)
      ]
  | inr p ↦
      let q : ltb (suc i) t.levels ≡ false = ground arith in
      rw (tall_no i t xs p, tall_no (suc i) t xs q)
        (longer f P (last x (tall (suc i) xs)) (last x (tall i xs)) rest t xs
          (resume f P i x xs rest (subst (λ l. Chain f x (l ++ rest)) (tall_no i t xs p) c) a.1))
]
