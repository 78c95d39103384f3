-- ===== src/Matchmaker/Fair.antt =====
-- internal/matchmaker/process.go: what `groupSatisfiesAll` asks of a group.
use ultimate_game_server.Prelude.{
  ℕ, ◌%◌, ◌<◌, String, ◌≡◌, refl, ◌≢◌, ◌↔◌, true, false, List, [], ◌∷◌, arith, if◌then◌else◌, All,
  All-map, All-always, same, ◌≤ℤ◌, ℤ, pos, negsuc, string_key,
}
use ultimate_game_server.Dict.{lookup, has, lookup-insert}
use ultimate_game_server.Matchmaker.Ticket.{Ticket}
use ultimate_game_server.Matchmaker.Sizes.{
  group_size, off_multiple, out_of_range, satisfies_each, group_satisfies_all,
}
use ultimate_game_server.Dict.Sets.{KeySet, add}

-- What a group owes one of its tickets.
pub record IsContent (n : ℕ) (t : Ticket) : Type 0 where
  pub enough : t.min_count ≤ℤ pos n
  pub not_too_many : pos n ≤ℤ t.max_count
  pub multiple : (m : ℕ) → t.count_multiple ≡ pos m → 1 < m → n % m ≡ 0

-- No party stands twice in the list.
abbrev pub PartiesApart : List Ticket → Type 0
PartiesApart [] = Unit
PartiesApart (t ∷ ts) = (t.party_id ≢ "" → All (λ u. u.party_id ≢ t.party_id) ts) × PartiesApart ts

pub record IsFair (ts : List Ticket) : Type 0 where
  pub content : All (IsContent (group_size ts)) ts
  pub apart : PartiesApart ts

off_multiple_never :
    (n : ℕ) (c : ℤ) → ((m : ℕ) → c ≡ pos m → 1 < m → n % m ≡ 0) → off_multiple n c ≡ false
unfolding off_multiple
off_multiple_never n (pos m) h = ground (arith, h m refl)
off_multiple_never n (negsuc m) h = refl

content_lem :
    (n : ℕ) (t : Ticket)
    → ((out_of_range n t ≡ false) × (off_multiple n t.count_multiple ≡ false)) ↔ IsContent n t
unfolding out_of_range off_multiple
content_lem n t = (
  λ (r, m). record {
    enough = ground (arith, r);
    not_too_many = ground (arith, r);
    multiple = λ k e h. ground (arith, m, e, h);
  },
  λ c. (ground (arith, c.enough, c.not_too_many), off_multiple_never n t.count_multiple c.multiple),
)

abbrev Unseen : KeySet String → Ticket → Type 0
Unseen parties t = t.party_id ≢ "" → has t.party_id parties ≡ false

Unseen-add :
    (parties : KeySet String) (t u : Ticket)
    → Unseen (if same t.party_id "" then parties else add t.party_id parties) u
      ↔ ((t.party_id ≢ "" → u.party_id ≢ t.party_id) × Unseen parties u)
Unseen-add parties t u = (
  λ h. (
    λ ne eq. ground (arith, h, ne, eq, lookup-insert u.party_id t.party_id tt parties),
    λ ne. ground (arith, h, ne, lookup-insert u.party_id t.party_id tt parties),
  ),
  λ (a, b) ne. ground (arith, a, b, ne, lookup-insert u.party_id t.party_id tt parties),
)

Unseen-of_apart :
    (parties : KeySet String) (t : Ticket) (ts : List Ticket)
    → (t.party_id ≢ "" → All (λ u. u.party_id ≢ t.party_id) ts)
    → All (Unseen parties) ts
    → All (Unseen (if same t.party_id "" then parties else add t.party_id parties)) ts
Unseen-of_apart parties t [] a us = tt
Unseen-of_apart parties t (u ∷ ts) a (k, us) = (
  (Unseen-add parties t u).1 (λ ne. (a ne).0, k),
  Unseen-of_apart parties t ts (λ ne. (a ne).1) us,
)

satisfies_each_sound :
    (n : ℕ) (parties : KeySet String) (ts : List Ticket)
    → satisfies_each n parties ts ≡ true
    → All (IsContent n) ts × PartiesApart ts × All (Unseen parties) ts
unfolding satisfies_each
satisfies_each_sound n parties [] h = (tt, tt, tt)
satisfies_each_sound n parties (t ∷ ts) h =
    let parties' = if same t.party_id "" then parties else add t.party_id parties in
    let (content, apart, unseen) = satisfies_each_sound n parties' ts (ground (arith, h)) in
    let split = All-map (Unseen parties') _ (λ u. (Unseen-add parties t u).0) ts unseen in
    (
      ((content_lem n t).0 (ground (arith, h), ground (arith, h)), content),
      (λ ne. All-map _ _ (λ u a. a.0 ne) ts split, apart),
      (λ ne. ground (arith, h, ne), All-map _ _ (λ u a. a.1) ts split),
    )

satisfies_each_complete :
    (n : ℕ) (parties : KeySet String) (ts : List Ticket)
    → All (IsContent n) ts
    → PartiesApart ts
    → All (Unseen parties) ts
    → satisfies_each n parties ts ≡ true
unfolding satisfies_each
satisfies_each_complete n parties [] c a u = refl
satisfies_each_complete n parties (t ∷ ts) (c, cs) (a, apart) (u, us) =
    let parties' = if same t.party_id "" then parties else add t.party_id parties in
    let (in_range, on_multiple) = (content_lem n t).1 c in
    let rest = satisfies_each_complete n parties' ts cs apart (Unseen-of_apart parties t ts a us) in
    ground (arith, in_range, on_multiple, u, rest)

-- `groupSatisfiesAll` holds exactly of the groups that no party enters twice and whose number of
-- players lies between the least and the greatest count of each of their tickets and is a multiple
-- of each count multiple above one.
pub group_satisfies_all_iff : (ts : List Ticket) → (group_satisfies_all ts ≡ true) ↔ IsFair ts
unfolding group_satisfies_all lookup
group_satisfies_all_iff ts = (
  λ h.
      let (content, apart, _) = satisfies_each_sound (group_size ts) [] ts h in
      record { content = content; apart = apart },
  λ f.
      satisfies_each_complete (group_size ts) [] ts f.content f.apart
        (All-always (Unseen []) (λ u ne. refl) ts),
)
