-- ===== src/Party/Sweep.antt =====
-- internal/party/party.go: which parties `SweepIdle` keeps.
use ultimate_game_server.Prelude.{
  ◌<◌, String, ◌≡◌, refl, ap, ◌∙◌, ◌↔◌, inl, inr, Bool, false, ◌||◌, Option, none, some, [], ◌∷◌,
  arith, ◌==◌, if◌then◌else◌, Option-cases, string_key,
}
use ultimate_game_server.Dict.{Dict, lookup, Distinct, size}
use ultimate_game_server.Party.Types.{PartySession, Registry}
use ultimate_game_server.Party.Lifecycle.{sweep, sweep_idle}

module _ {V : Type 0} where
  lookup-sweep-none :
      (id : String) (l : Dict String (PartySession V))
      → lookup id l ≡ none
      → lookup id (sweep l) ≡ none
  unfolding lookup sweep
  lookup-sweep-none id [] h = refl
  lookup-sweep-none id ((k, p) ∷ l) h = elim (string_key.dec id k) [
    | yes e ↦ ground arith
    | no e ↦ ground (arith, lookup-sweep-none id l)
  ]

  abbrev swept : PartySession V → Bool
  swept p = p.closed || size p.members == 0

  abbrev unless_swept : Option (PartySession V) → Option (PartySession V)
  unless_swept none = none
  unless_swept (some p) = if swept p then none else some p

  lookup-sweep :
      (id : String) (l : Dict String (PartySession V))
      → Distinct l
      → lookup id (sweep l) ≡ unless_swept (lookup id l)
  unfolding lookup sweep
  lookup-sweep id [] d = refl
  lookup-sweep id ((k, p) ∷ l) (n, d) = elim (string_key.dec id k) [
    | yes e ↦ ground (arith, lookup-sweep-none k l n, ap (λ s. lookup s (sweep l)) e)
    | no e ↦ ground (arith, lookup-sweep id l d)
  ]

  -- If no id names two parties, `SweepIdle` keeps a party under its id exactly when it is there, is
  -- not closed and has a member, whatever its activity, and it leaves the index of the users and of
  -- the sessions.
  pub lookup-sweep_idle :
      (id : String) (p : PartySession V) (r : Registry V)
      → Distinct r.parties
      → ((lookup id (sweep_idle r).parties ≡ some p)
          ↔ ((lookup id r.parties ≡ some p) × (p.closed ≡ false) × (0 < size p.members)))
        × ((sweep_idle r).by_user ≡ r.by_user)
        × ((sweep_idle r).by_sess ≡ r.by_sess)
  unfolding sweep_idle
  lookup-sweep_idle id p r d =
      let e = lookup-sweep id r.parties d in
      (
        (
          (λ h. elim (Option-cases (lookup id r.parties)) [
            | inl q ↦ ground (arith, e, q)
            | inr (p', q) ↦ ground (arith, e, q)
          ]),
          λ (a, b, c). e ∙ rw a (ground arith),
        ),
        refl,
        refl,
      )
