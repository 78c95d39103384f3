-- ===== src/Leaderboard/Nodes.antt =====
-- internal/leaderboard/admin.go: the nodes of a skip list in memory. A pointer is an address, nil
-- is `none`, and a read of no node or past the end of `next` is a fault, `none` of the outer kind.
use ultimate_game_server.Prelude.{
  ℕ, suc, ◌<◌, ◌≡◌, refl, ◌≢◌, inl, inr, Option, none, some, arith, ltb, ◌==◌, if◌then◌else◌,
  Option-cases, ◌>>=◌, string_key,
}
use ultimate_game_server.Leaderboard.Entry.{RankEntry}

pub record SkipNode : Type 0 where
  pub entry : RankEntry
  -- `len(next)`
  pub height : ℕ
  pub next : ℕ → Option ℕ

-- `fresh` is the address that the next node gets.
pub record Heap : Type 0 where
  pub fresh : ℕ
  pub cell : ℕ → Option SkipNode

-- `a[i] = v` on an array of which every slot is known.
abbrev pub put {ℓ} : {A : Type ℓ} → (ℕ → A) → ℕ → A → ℕ → A
put f i v j = if i == j then v else f j

-- `x.entry`
unfoldable pub load_entry : Heap → ℕ → Option RankEntry
load_entry h x = do n ← h.cell x; some n.entry

-- `x.next[i]`
unfoldable pub load_next : Heap → ℕ → ℕ → Option (Option ℕ)
load_next h x i = do n ← h.cell x; if ltb i n.height then some (n.next i) else none

-- `x.next[i] = q`
unfoldable pub set_next : Heap → ℕ → ℕ → Option ℕ → Option Heap
set_next h x i q = do
  n ← h.cell x
  if ltb i n.height
      then some (record h { cell = put h.cell x (some (record n { next = put n.next i q })) })
      else none

-- `&skipNode{entry: e, next: make([]*skipNode, k)}`
unfoldable pub new_node : Heap → RankEntry → ℕ → Heap
new_node h e k = record {
  fresh = suc h.fresh;
  cell = put h.cell h.fresh (some (record { entry = e; height = k; next = λ _. none }));
}

-- What no write to a link changes.
unfoldable pub shape : Heap → ℕ → Option (RankEntry × ℕ)
shape h x = do n ← h.cell x; some (n.entry, n.height)

-- `h'` is `h` with the one link `next[i]` of `x` written.
pub record Wrote (h h' : Heap) (x i : ℕ) (q : Option ℕ) : Type 0 where
  pub here : load_next h' x i ≡ some q
  pub elsewhere : (y j : ℕ) → (y ≡ x → j ≢ i) → load_next h' y j ≡ load_next h y j
  pub shapes : (y : ℕ) → shape h' y ≡ shape h y
  pub same_fresh : h'.fresh ≡ h.fresh

module _ (h : Heap) (x : ℕ) (e : RankEntry) (k : ℕ) (s : shape h x ≡ some (e, k)) where
  pub load_entry-shape : load_entry h x ≡ some e
  unfolding shape load_entry
  load_entry-shape = ground arith

  pub node_at : (n : SkipNode) × (h.cell x ≡ some n) × (n.entry ≡ e) × (n.height ≡ k)
  unfolding shape
  node_at = elim (Option-cases (h.cell x)) [
    | inl p ↦ ground arith
    | inr (n, p) ↦ (n, p, ground arith, ground arith)
  ]

  pub set_next-Wrote :
      (i : ℕ) (q : Option ℕ) → i < k → (h' : Heap) × (set_next h x i q ≡ some h') × Wrote h h' x i q
  unfolding shape load_next set_next
  set_next-Wrote i q l =
      let (n, c, _, t) = node_at in
      (
        record h { cell = put h.cell x (some (record n { next = put n.next i q })) },
        ground arith,
        record {
          here = ground arith;
          elsewhere = λ y j d. ground arith;
          shapes = λ y. ground arith;
          same_fresh = refl;
        },
      )
