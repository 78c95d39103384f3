-- ===== src/Leaderboard/Ranking.antt =====
-- What the skip list of internal/leaderboard/admin.go promises: a list of things with an entry,
-- the best first, one of each owner.
use ultimate_game_server.Prelude.{
  String, ◌≡◌, refl, sym, ◌∙◌, ◌≢◌, inl, inr, Bool, true, false, List, [], ◌∷◌, ◌++◌, arith,
  if◌then◌else◌, Bool-cases, if_ind, All, All-append, All-map, All-of_append, same, string_key,
}
use ultimate_game_server.Leaderboard.Entry.{less, less_irrefl, less_trans, RankEntry}
use mathlib.Core.Path.{subst}

module _ {A : Type 0} (entry : A → RankEntry) (asc : Bool) where
  -- The things better than `e` that a scan meets, and the rest.
  unfoldable pub lower : RankEntry → List A → List A
  lower e [] = []
  lower e (t ∷ ts) = if less asc (entry t) e then t ∷ lower e ts else []

  unfoldable pub upper : RankEntry → List A → List A
  upper e [] = []
  upper e (t ∷ ts) = if less asc (entry t) e then upper e ts else t ∷ ts

  -- Each is better than all that come after it, and has another owner.
  abbrev pub Follow : A → A → Type 0
  Follow t u = (less asc (entry t) (entry u) ≡ true) × ((entry t).owner_id ≢ (entry u).owner_id)

  abbrev pub Ordered : List A → Type 0
  Ordered [] = Unit
  Ordered (t ∷ ts) = All (Follow t) ts × Ordered ts

  pub lower-upper : (e : RankEntry) (ts : List A) → (lower e ts ++ upper e ts) ≡ ts
  unfolding lower upper
  lower-upper e [] = refl
  lower-upper e (t ∷ ts) = ground (arith, lower-upper e ts)

  pub All-lower :
      (e : RankEntry) (ts : List A) → All (λ t. less asc (entry t) e ≡ true) (lower e ts)
  unfolding lower
  All-lower e [] = tt
  All-lower e (t ∷ ts) = elim (Bool-cases (less asc (entry t) e)) [
    | inl p ↦ rw p (p, All-lower e ts)
    | inr p ↦ rw p tt
  ]

  pub All-upper :
      (e : RankEntry) (ts : List A)
      → Ordered ts
      → All (λ t. less asc (entry t) e ≡ false) (upper e ts)
  unfolding upper
  All-upper e [] o = tt
  All-upper e (t ∷ ts) o = elim (Bool-cases (less asc (entry t) e)) [
    | inl p ↦ rw p (All-upper e ts o.1)
    | inr p ↦ rw p (
      p,
      All-map (Follow t) (λ u. less asc (entry u) e ≡ false)
          (λ u f. elim (Bool-cases (less asc (entry u) e)) [
            | inl q ↦ ground (arith, less_trans asc (entry t) (entry u) e)
            | inr q ↦ q
          ])
          ts o.0,
    )
  ]

  pub Ordered-append :
      (xs ys : List A)
      → Ordered (xs ++ ys)
      → Ordered xs × Ordered ys × All (λ t. All (Follow t) ys) xs
  Ordered-append [] ys o = (tt, o, tt)
  Ordered-append (x ∷ xs) ys o =
      let (a, b, c) = Ordered-append xs ys o.1 in
      let (p, q) = All-of_append (Follow x) xs ys o.0 in ((p, a), b, (q, c))

  pub append-Ordered :
      (xs ys : List A)
      → Ordered xs
      → Ordered ys
      → All (λ t. All (Follow t) ys) xs
      → Ordered (xs ++ ys)
  append-Ordered [] ys o p a = p
  append-Ordered (x ∷ xs) ys o p a =
      (All-append (Follow x) xs ys o.0 a.0, append-Ordered xs ys o.1 p a.1)

  -- The things of the other owners.
  unfoldable pub without : String → List A → List A
  without o [] = []
  without o (t ∷ ts) = if same o (entry t).owner_id then without o ts else t ∷ without o ts

  pub All-without {κ} :
      (P : A → Type κ) (o : String) (ts : List A) → All P ts → All P (without o ts)
  unfolding without
  All-without P o [] a = tt
  All-without P o (t ∷ ts) a =
      if_ind (All P) (same o (entry t).owner_id) (λ e. All-without P o ts a.1)
        λ e. (a.0, All-without P o ts a.1)

  pub without-Ordered : (o : String) (ts : List A) → Ordered ts → Ordered (without o ts)
  unfolding without
  without-Ordered o [] a = tt
  without-Ordered o (t ∷ ts) a =
      if_ind Ordered (same o (entry t).owner_id) (λ e. without-Ordered o ts a.1)
        λ e. (All-without (Follow t) o ts a.0, without-Ordered o ts a.1)

  pub without_owner : (o : String) (ts : List A) → All (λ t. (entry t).owner_id ≢ o) (without o ts)
  unfolding without
  without_owner o [] = tt
  without_owner o (t ∷ ts) =
      if_ind (All λ u. (entry u).owner_id ≢ o) (same o (entry t).owner_id) (λ e. without_owner o ts)
        λ e. (ground arith, without_owner o ts)

  without_absent :
      (o : String) (ts : List A) → All (λ t. o ≢ (entry t).owner_id) ts → without o ts ≡ ts
  unfolding without
  without_absent o [] a = refl
  without_absent o (t ∷ ts) a = ground (arith, without_absent o ts)

  -- A thing of the list is where its order puts it.
  abbrev pub Located : String → A → List A → List A → Type 0
  Located o t ys ts =
      ((entry t).owner_id ≡ o)
      × (upper (entry t) ts ≡ t ∷ ys)
      × (without o ts ≡ lower (entry t) ts ++ ys)

  pub Located-here :
      (o : String) (t : A) (ts : List A)
      → Ordered (t ∷ ts)
      → o ≡ (entry t).owner_id
      → Located o t ts (t ∷ ts)
  unfolding without lower upper
  Located-here o t ts a e =
      let away : All (λ u. o ≢ (entry u).owner_id) ts =
        All-map (Follow t) (λ u. o ≢ (entry u).owner_id) (λ u f q. f.1 (sym e ∙ q)) ts a.0 in
      (
        sym e,
        rw (less_irrefl asc (entry t)) refl,
        ground (arith, less_irrefl asc (entry t), without_absent o ts away),
      )

  pub Located-behind :
      (o : String) (u t : A) (ys ts : List A)
      → Ordered (u ∷ ts)
      → o ≢ (entry u).owner_id
      → Located o t ys ts
      → Located o t ys (u ∷ ts)
  unfolding without lower upper
  Located-behind o u t ys ts a n (e, p, q) =
      let f : Follow u t =
        (subst (All (Follow u)) p
          (All-of_append (Follow u) (lower (entry t) ts) (upper (entry t) ts)
            (subst (All (Follow u)) (sym (lower-upper (entry t) ts)) a.0)).1).0 in
      (e, ground arith, ground arith)
