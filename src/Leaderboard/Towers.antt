-- ===== src/Leaderboard/Towers.antt =====
-- The chains of a skip list of internal/leaderboard/admin.go: at level `i` the links lead through
-- the nodes of more than `i` levels.
use ultimate_game_server.Prelude.{
  ℕ, ◌≤◌, ◌≡◌, refl, sym, ◌∙◌, ◌≢◌, true, false, Option, none, some, List, [], ◌∷◌, ◌++◌, arith,
  ltb, if◌then◌else◌, if_ind, All, All-map, All-of_append, All-and, same, string_key,
}
use ultimate_game_server.Leaderboard.Entry.{RankEntry}

-- A node as the proofs see it.
pub record Tower : Type 0 where
  pub at : ℕ
  pub levels : ℕ
  pub entry : RankEntry

-- The nodes that level `i` links.
unfoldable pub tall : ℕ → List Tower → List Tower
tall i [] = []
tall i (t ∷ ts) = if ltb i t.levels then t ∷ tall i ts else tall i ts

pub tall_nil : (i : ℕ) → tall i [] ≡ []
unfolding tall
tall_nil i = refl

pub tall_yes :
    (i : ℕ) (t : Tower) (ts : List Tower) → ltb i t.levels ≡ true → tall i (t ∷ ts) ≡ t ∷ tall i ts
unfolding tall
tall_yes i t ts e = rw e

pub tall_no :
    (i : ℕ) (t : Tower) (ts : List Tower) → ltb i t.levels ≡ false → tall i (t ∷ ts) ≡ tall i ts
unfolding tall
tall_no i t ts e = rw e

pub tall-append : (i : ℕ) (xs ys : List Tower) → tall i (xs ++ ys) ≡ tall i xs ++ tall i ys
unfolding tall
tall-append i [] ys = refl
tall-append i (x ∷ xs) ys = ground (arith, tall-append i xs ys)

pub All-tall {κ} : (P : Tower → Type κ) (i : ℕ) (ts : List Tower) → All P ts → All P (tall i ts)
unfolding tall
All-tall P i [] a = tt
All-tall P i (t ∷ ts) a =
    if_ind (All P) (ltb i t.levels) (λ e. (a.0, All-tall P i ts a.1)) λ e. All-tall P i ts a.1

pub tall-none : (i : ℕ) (ts : List Tower) → All (λ t. t.levels ≤ i) ts → tall i ts ≡ []
unfolding tall
tall-none i [] a = refl
tall-none i (t ∷ ts) a = ground (arith, tall-none i ts)

pub tall-All : (ts : List Tower) → All (λ t. 1 ≤ t.levels) ts → tall 0 ts ≡ ts
unfolding tall
tall-All [] a = refl
tall-All (t ∷ ts) a = ground (arith, tall-All ts)

-- The address of the last of some nodes, or `x`.
abbrev pub last : ℕ → List Tower → ℕ
last x [] = x
last x (t ∷ ts) = last t.at ts

abbrev pub first : List Tower → Option ℕ
first [] = none
first (t ∷ ts) = some t.at

-- Along the links `f` of one level the nodes follow `x`, and then there is nil.
abbrev pub Chain : (ℕ → Option (Option ℕ)) → ℕ → List Tower → Type 0
Chain f x [] = f x ≡ some none
Chain f x (t ∷ ts) = (f x ≡ some (some t.at)) × Chain f t.at ts

module _ (f : ℕ → Option (Option ℕ)) where
  pub Chain-first : (x : ℕ) (ts : List Tower) → Chain f x ts → f x ≡ some (first ts)
  Chain-first x [] c = c
  Chain-first x (t ∷ ts) c = c.0

  pub Chain-last : (x : ℕ) (xs ys : List Tower) → Chain f x (xs ++ ys) → Chain f (last x xs) ys
  Chain-last x [] ys c = c
  Chain-last x (t ∷ xs) ys c = Chain-last t.at xs ys c.1

  -- Links that agree on the nodes keep the chain, from any `y` that leads where `x` does.
  pub Chain-frame :
      (g : ℕ → Option (Option ℕ)) (x y : ℕ) (ts : List Tower)
      → g y ≡ f x
      → All (λ t. g t.at ≡ f t.at) ts
      → Chain f x ts
      → Chain g y ts
  Chain-frame g x y [] e a c = e ∙ c
  Chain-frame g x y (t ∷ ts) e a c = (e ∙ c.0, Chain-frame g t.at t.at ts a.0 a.1 c.1)

-- No two nodes share an address, and none stands at `x`.
abbrev pub Away : ℕ → List Tower → Type 0
Away x = All (λ t. t.at ≢ x)

abbrev pub Apart : List Tower → Type 0
Apart [] = Unit
Apart (t ∷ ts) = Away t.at ts × Apart ts

pub Apart-tall : (i : ℕ) (ts : List Tower) → Apart ts → Apart (tall i ts)
unfolding tall
Apart-tall i [] a = tt
Apart-tall i (t ∷ ts) a =
    if_ind Apart (ltb i t.levels) (λ e. (All-tall (λ u. u.at ≢ t.at) i ts a.0, Apart-tall i ts a.1))
      λ e. Apart-tall i ts a.1

pub last-Away : (a x : ℕ) (ts : List Tower) → x ≢ a → Away a ts → last x ts ≢ a
last-Away a x [] n w = n
last-Away a x (t ∷ ts) n w = last-Away a t.at ts w.0 w.1

module _ (f g : ℕ → Option (Option ℕ)) (n : Tower) where
  -- A node put behind the last of `xs`.
  pub Chain-with :
      (x : ℕ) (xs ys : List Tower)
      → Chain f x (xs ++ ys)
      → Away x (xs ++ ys)
      → Apart (xs ++ ys)
      → Away n.at (xs ++ ys)
      → x ≢ n.at
      → ((y : ℕ) → y ≢ last x xs → y ≢ n.at → g y ≡ f y)
      → g (last x xs) ≡ some (some n.at)
      → g n.at ≡ f (last x xs)
      → Chain g x (xs ++ n ∷ ys)
  Chain-with x [] ys c a p w ne same e e' = (
    e,
    Chain-frame f g x n.at ys e'
        (All-and (λ t. t.at ≢ x) (λ t. t.at ≢ n.at) (λ t. g t.at ≡ f t.at) (λ t. same t.at) ys a w)
        c,
  )
  Chain-with x (t ∷ xs) ys c a p w ne same e e' =
      let (ax, _) = All-of_append (λ t. t.at ≢ x) xs ys a.1 in
      (
        same x (λ q. last-Away x t.at xs a.0 ax (sym q)) ne ∙ c.0,
        Chain-with t.at xs ys c.1 p.0 p.1 w.1 w.0 same e e',
      )

  -- The node behind the last of `xs` taken out.
  pub Chain-without :
      (x : ℕ) (xs ys : List Tower)
      → Chain f x (xs ++ n ∷ ys)
      → Away x (xs ++ n ∷ ys)
      → Apart (xs ++ n ∷ ys)
      → ((y : ℕ) → y ≢ last x xs → g y ≡ f y)
      → g (last x xs) ≡ f n.at
      → Chain g x (xs ++ ys)
  Chain-without x [] ys c a p same e =
      Chain-frame f g n.at x ys e
        (All-map (λ t. t.at ≢ x) (λ t. g t.at ≡ f t.at) (λ t. same t.at) ys a.1) c.1
  Chain-without x (t ∷ xs) ys c a p same e =
      let (ax, _) = All-of_append (λ t. t.at ≢ x) xs (n ∷ ys) a.1 in
      (
        same x (λ q. last-Away x t.at xs a.0 ax (sym q)) ∙ c.0,
        Chain-without t.at xs ys c.1 p.0 p.1 same e,
      )
