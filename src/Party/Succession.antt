-- ===== src/Party/Succession.antt =====
-- internal/party/party.go: the choice of a new leader, the end of `leaveLocked`.
use ultimate_game_server.Prelude.{
  ◌≤◌, String, ◌≡◌, refl, ◌⊎◌, inl, inr, true, false, Option, none, some, [], ◌∷◌, arith, ltb, ◌==◌,
  if◌then◌else◌, ltb→lt, Bool-cases, tests, same, string_key,
}
use ultimate_game_server.Dict.{
  Dict, lookup, has, delete, Distinct, size, lookup-delete, delete-Distinct, size-delete-le, Every,
  Every-delete,
}
use ultimate_game_server.Party.Types.{PartyMember, PartySession}
use ultimate_game_server.Party.Access.{oldest_from}
use ultimate_game_server.Party.Departure.{succession}
use ultimate_game_server.Party.WellFormed.{IsPartyOk}
use mathlib.Core.Path.{subst}

module _ {V : Type 0} where
  oldest_from-held :
      (l : Dict String (PartyMember V)) (best : Option (PartyMember V)) (m : PartyMember V)
      → Distinct l
      → Every (λ u q. q.user_id ≡ u) l
      → oldest_from best l ≡ some m
      → (best ≡ some m) ⊎ (lookup m.user_id l ≡ some m)
  unfolding oldest_from lookup
  oldest_from-held [] best m d k e = inl e
  oldest_from-held ((u, q) ∷ l) none m d k e =
      ground (arith, oldest_from-held l (some q) m d.1 k.1 e)
  oldest_from-held ((u, q) ∷ l) (some b) m d k e = ground (
    arith,
    oldest_from-held l (if ltb q.joined_at b.joined_at then some q else some b) m d.1 k.1 e,
  )

  -- The chosen member stands in the map under its user.
  pub oldest_from-lookup :
      (l : Dict String (PartyMember V)) (m : PartyMember V)
      → Distinct l
      → Every (λ u q. q.user_id ≡ u) l
      → oldest_from none l ≡ some m
      → lookup m.user_id l ≡ some m
  oldest_from-lookup l m d k e = ground (arith, oldest_from-held l none m d k e)

  oldest_from-best :
      (l : Dict String (PartyMember V)) (b : PartyMember V)
      → (m : PartyMember V) × (oldest_from (some b) l ≡ some m)
        × (m.joined_at ≤ b.joined_at)
        × Every (λ u q. m.joined_at ≤ q.joined_at) l
  unfolding oldest_from
  oldest_from-best [] b = (b, refl, omega arith, tt)
  oldest_from-best ((u, q) ∷ l) b = elim (Bool-cases (ltb q.joined_at b.joined_at)) [
    | inl t ↦
        let (m, e, le, all) = oldest_from-best l q in
        (m, rw t e, omega (tests, le, t, ltb→lt q.joined_at b.joined_at t), (le, all))
    | inr f ↦ let (m, e, le, all) = oldest_from-best l b in (m, rw f e, le, (ground arith, all))
  ]

  -- The chosen member joined no later than any other.
  pub oldest_from-le :
      (l : Dict String (PartyMember V)) (m : PartyMember V)
      → oldest_from none l ≡ some m
      → Every (λ u q. m.joined_at ≤ q.joined_at) l
  unfolding oldest_from
  oldest_from-le [] m e = tt
  oldest_from-le ((u, q) ∷ l) m e =
      let (m', e', le, all) = oldest_from-best l q in
      let same_m : m' ≡ m = cc in
      subst (λ x. Every (λ u q. x.joined_at ≤ q.joined_at) ((u, q) ∷ l)) same_m (le, all)

  -- A party with a member has an oldest one.
  pub oldest_from-some :
      (l : Dict String (PartyMember V))
      → (size l == 0) ≡ false
      → (m : PartyMember V) × (oldest_from none l ≡ some m)
  unfolding oldest_from
  oldest_from-some [] h = absurd (ground arith)
  oldest_from-some ((u, q) ∷ l) h = let (m, e, _, _) = oldest_from-best l q in (m, e)

  -- A member goes, and the party has a leader among those left.
  pub removal-IsPartyOk :
      (pid user leader : String) (p : PartySession V)
      → IsPartyOk pid p
      → has leader (delete user p.members) ≡ true
      → IsPartyOk pid (record p { leader_id = leader; members = delete user p.members })
  removal-IsPartyOk pid user leader p h l = record {
    live = h.live;
    named = h.named;
    distinct = delete-Distinct user p.members h.distinct;
    keyed = Every-delete (λ u m. m.user_id ≡ u) user p.members h.keyed;
    led = l;
    bounded = ground (arith, h.bounded, size-delete-le user p.members);
    asked_distinct = h.asked_distinct;
    asked_keyed = h.asked_keyed;
    asked_bounded = h.asked_bounded;
    separate = λ u i. ground (arith, h.separate u, lookup-delete u user p.members);
  }

  pub succession-IsPartyOk :
      (pid user : String) (p : PartySession V)
      → IsPartyOk pid p
      → (size (delete user p.members) == 0) ≡ false
      → IsPartyOk pid (succession user (record p { members = delete user p.members })).0
  unfolding succession
  succession-IsPartyOk pid user p h more = elim (Bool-cases (same p.leader_id user)) [
    | inl lead ↦
        let (m, e) = oldest_from-some (delete user p.members) more in
        rw (lead, e)
          (removal-IsPartyOk pid user m.user_id p h (
            ground (
              arith,
              oldest_from-lookup (delete user p.members) m
                  (delete-Distinct user p.members h.distinct)
                  (Every-delete (λ u q. q.user_id ≡ u) user p.members h.keyed) e,
            )))
    | inr other ↦ rw other (
        removal-IsPartyOk pid user p.leader_id p h
          (ground (arith, h.led, lookup-delete p.leader_id user p.members)))
  ]
