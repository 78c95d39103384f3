-- ===== src/Matchmaker/Trim.antt =====
-- internal/matchmaker/process.go: `trimToMultiple`. The first ticket, the seed, is never dropped,
-- so the loop runs on the others.
use ultimate_game_server.Prelude.{
  ℕ, zero, suc, ◌-◌, ◌%◌, ◌≤◌, ◌≡◌, refl, sym, ◌∙◌, inl, inr, ◌||◌, Option, none, some, List, [],
  ◌∷◌, arith, ltb, leb, ◌==◌, if◌then◌else◌, Option-cases, length, ltb_ℤ, leb_ℤ, ℤ, pos, negsuc,
  string_key,
}
use ultimate_game_server.Matchmaker.Ticket.{Ticket}
use ultimate_game_server.Matchmaker.Sizes.{players, group_size}
use mathlib.Core.Option

-- The first ticket with `Count <= rem`, taken out, else the last.
unfoldable pub drop_fitting : ℕ → List Ticket → Option (Ticket × List Ticket)
drop_fitting rem [] = none
drop_fitting rem (t ∷ ts) =
    let rest = drop_fitting rem ts in
    if leb_ℤ t.count (pos rem) then some (t, ts) else Option.map (λ (d, kept). (d, t ∷ kept)) rest

unfoldable pub drop_last : Ticket → List Ticket → Ticket × List Ticket
drop_last t [] = (t, [])
drop_last t (u ∷ ts) = let (d, kept) = drop_last u ts in (d, t ∷ kept)

unfoldable pub drop_one : ℕ → Ticket → List Ticket → Ticket × List Ticket
unfolding drop_fitting drop_last
drop_one rem t ts = elim (drop_fitting rem (t ∷ ts)) [ some p ↦ p | none ↦ drop_last t ts ]

-- The loop; the fuel is the number of tickets after the seed, and each turn drops one of them.
unfoldable pub trim_loop : ℕ → ℕ → List Ticket → List Ticket
unfolding drop_one
trim_loop zero rem ts = ts
trim_loop (suc fuel) rem [] = []
trim_loop (suc fuel) rem (t ∷ ts) =
    let (d, kept) = drop_one rem t ts in
    let rest = trim_loop fuel (rem - players d.count) kept in
    if rem == 0 then t ∷ ts else (if ltb rem (players d.count) then kept else rest)

unfoldable pub trim_to_multiple : Ticket → List Ticket → ℤ → ℤ → List Ticket
unfolding trim_loop group_size
trim_to_multiple seed others multiple min_count = elim multiple [
  | negsuc m ↦ seed ∷ others
  | pos m ↦
      let rem = group_size (seed ∷ others) % m in
      let out = seed ∷ trim_loop (length others) rem others in
      if leb m 1 || (rem == 0)
      then seed ∷ others
      else (if ltb_ℤ (pos (group_size out)) min_count then seed ∷ [] else out)
]

drop_last-length : (t : Ticket) (ts : List Ticket) → length (drop_last t ts).1 ≡ length ts
unfolding drop_last
drop_last-length t [] = refl
drop_last-length t (u ∷ ts) = ground (arith, drop_last-length u ts)

drop_fitting-length :
    (rem : ℕ) (ts : List Ticket) (d : Ticket) (kept : List Ticket)
    → drop_fitting rem ts ≡ some (d, kept)
    → suc (length kept) ≡ length ts
unfolding drop_fitting
drop_fitting-length rem [] d kept e = ground (arith, e)
drop_fitting-length rem (t ∷ ts) d kept e = elim (Option-cases (drop_fitting rem ts)) [
  | inl n ↦ ground (arith, e, n)
  | inr ((d', kept'), n) ↦ ground (arith, e, n, drop_fitting-length rem ts d' kept' n)
]

drop_one-length :
    (rem : ℕ) (t : Ticket) (ts : List Ticket) → length (drop_one rem t ts).1 ≡ length ts
unfolding drop_one
drop_one-length rem t ts = elim (Option-cases (drop_fitting rem (t ∷ ts))) [
  | inl e ↦ rw (e, drop_one) (drop_last-length t ts)
  | inr ((d, kept), e) ↦
      let shorter = drop_fitting-length rem (t ∷ ts) d kept e in
      rw (e, drop_one) (ground (arith, shorter))
]

trim_loop_none : (fuel rem : ℕ) → trim_loop fuel rem [] ≡ []
unfolding trim_loop
trim_loop_none zero rem = refl
trim_loop_none (suc fuel) rem = refl

-- Any two amounts of fuel that are no less than the number of tickets give the same result.
trim_loop_enough :
    (fuel more rem : ℕ) (ts : List Ticket)
    → length ts ≤ fuel
    → length ts ≤ more
    → trim_loop fuel rem ts ≡ trim_loop more rem ts
unfolding trim_loop
trim_loop_enough fuel more rem [] h k = trim_loop_none fuel rem ∙ sym (trim_loop_none more rem)
trim_loop_enough zero more rem (t ∷ ts) h k = ground (arith, h)
trim_loop_enough (suc fuel) zero rem (t ∷ ts) h k = ground (arith, k)
trim_loop_enough (suc fuel) (suc more) rem (t ∷ ts) h k =
    let (d, kept) = drop_one rem t ts in
    let same_length = drop_one-length rem t ts in
    ground (
      arith,
      trim_loop_enough fuel more (rem - players d.count) kept (omega (arith, h, same_length))
          (omega (arith, k, same_length)),
    )
