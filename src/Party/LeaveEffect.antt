-- ===== src/Party/LeaveEffect.antt =====
-- internal/party/party.go: what `leaveLocked` leaves alone, and that it frees the user.
use ultimate_game_server.Prelude.{
  ℕ, String, ◌≡◌, ◌∙◌, ◌≢◌, inl, inr, none, some, arith, Option-cases, string_key,
}
use ultimate_game_server.Dict.{
  lookup, delete, lookup-insert, lookup-delete, lookup-delete_self, Every-lookup,
}
use ultimate_game_server.Party.Types.{Registry}
use ultimate_game_server.Party.Access.{find_party, put_party, notify_membership_change, touch}
use ultimate_game_server.Party.Departure.{dissolve, unindex_member, succession, leave_member, leave}
use ultimate_game_server.Party.WellFormed.{IsPartyOk}
use ultimate_game_server.Party.Invariant.{IsRegistryOk}
use ultimate_game_server.Party.Index.{holds, IsIndexed}

module _ {V : Type 0} where
  pub leave-cfg :
      (now : ℕ) (pid user : String) (r : Registry V) → (leave now pid user r).0.cfg ≡ r.cfg
  unfolding leave leave_member notify_membership_change dissolve put_party unindex_member
  leave-cfg now pid user r = elim (Option-cases (find_party pid r)) [
    | inl e ↦ ground arith
    | inr (p, e) ↦ elim (Option-cases (lookup user p.members)) [
      | inl e' ↦ ground arith
      | inr (m, e') ↦ ground arith
    ]
  ]

  -- Other parties stay as they are.
  pub lookup-leave_ne :
      (now : ℕ) (pid user q : String) (r : Registry V)
      → q ≢ pid
      → lookup q (leave now pid user r).0.parties ≡ lookup q r.parties
  unfolding leave leave_member notify_membership_change dissolve put_party unindex_member
  lookup-leave_ne now pid user q r ne = elim (Option-cases (find_party pid r)) [
    | inl e ↦ ground arith
    | inr (p, e) ↦ elim (Option-cases (lookup user p.members)) [
      | inl e' ↦ ground (
        arith,
        lookup-insert q pid (record p { join_requests = delete user p.join_requests }) r.parties,
      )
      | inr (m, e') ↦ ground (
        arith,
        lookup-insert q pid
            (succession user (record (touch now p) { members = delete user p.members })).0
            r.parties,
        lookup-delete q pid r.parties,
      )
    ]
  ]

  -- No party appears.
  pub lookup-leave_absent :
      (now : ℕ) (pid user q : String) (r : Registry V)
      → lookup q r.parties ≡ none
      → lookup q (leave now pid user r).0.parties ≡ none
  unfolding find_party leave
  lookup-leave_absent now pid user q r absent = elim (string_key.dec q pid) [
    | yes e ↦ ground arith
    | no ne ↦ lookup-leave_ne now pid user q r ne ∙ absent
  ]

  -- A listed user is no longer listed after leaving the party of the list.
  pub leave-frees :
      (now : ℕ) (user prev : String) (r : Registry V)
      → IsRegistryOk r
      → IsIndexed r.parties r.by_user
      → lookup user r.by_user ≡ some prev
      → lookup user (leave now prev user r).0.by_user ≡ none
  unfolding holds find_party leave leave_member notify_membership_change dissolve put_party
      unindex_member
  leave-frees now user prev r h x e =
      let held = (x.listed user prev).1 e in
      elim (Option-cases (lookup prev r.parties)) [
        | inl n ↦ absurd (ground arith)
        | inr (p, e') ↦
            let k = Every-lookup IsPartyOk prev p r.parties e' h.every in
            elim (Option-cases (lookup user p.members)) [
              | inl n ↦ absurd (ground arith)
              | inr (m, e'') ↦ ground (arith, k.live, lookup-delete_self user r.by_user)
            ]
      ]
