-- ===== src/Party/LeaderCalls.antt =====
-- internal/party/party.go: `Accept`, `Remove` and `Close` keep every party well-formed.
use ultimate_game_server.Prelude.{
  ℕ, String, ◌≡◌, refl, sym, inl, inr, false, some, [], ◌∷◌, arith, Option-cases, leb_ℤ, pos,
  string_key,
}
use ultimate_game_server.Dict.{Dict, lookup, delete, size, lookup-delete, Every-lookup}
use ultimate_game_server.Party.Types.{
  Result-cases, PartyMember, JoinRequest, Presence, PartySession, Registry,
}
use ultimate_game_server.Party.Access.{
  put_party, notify_membership_change, touch, new_member, require_leader,
}
use ultimate_game_server.Party.Membership.{admit, index_member}
use ultimate_game_server.Party.Departure.{dissolve, unindex_member}
use ultimate_game_server.Party.Leadership.{
  leave_previous, accept_request, accept, is_leader_presence, kick, remove, unindex_all, close,
}
use ultimate_game_server.Party.WellFormed.{touch-IsPartyOk, admit-IsPartyOk, IsPartyOk}
use ultimate_game_server.Party.Succession.{removal-IsPartyOk}
use ultimate_game_server.Party.Changes.{withdraw-IsPartyOk}
use ultimate_game_server.Party.Invariant.{
  put_party-IsRegistryOk, dissolve-IsRegistryOk, IsRegistryOk-parties, IsRegistryOk,
}
use ultimate_game_server.Party.Preservation.{leave-IsRegistryOk, require_leader-IsPartyOk}
use mathlib.Core.Path.{subst}

module _ {V : Type 0} where
  leave_previous-IsRegistryOk :
      (now : ℕ) (pid user : String) (r : Registry V)
      → IsRegistryOk r
      → IsRegistryOk (leave_previous now pid user r)
  unfolding leave_previous
  leave_previous-IsRegistryOk now pid user r h = elim (Option-cases (lookup user r.by_user)) [
    | inl e ↦ ground arith
    | inr (prev, e) ↦ ground (arith, leave-IsRegistryOk now prev user r h)
  ]

  accept_request-IsRegistryOk :
      (now : ℕ) (pid key : String) (jr : JoinRequest) (p : PartySession V) (r : Registry V)
      → IsRegistryOk r
      → IsPartyOk pid p
      → lookup key p.join_requests ≡ some jr
      → leb_ℤ p.max_size (pos (size p.members)) ≡ false
      → IsRegistryOk (accept_request now pid key jr p r).0
  unfolding accept_request admit notify_membership_change index_member new_member
  accept_request-IsRegistryOk now pid key jr p r h k e room =
      let m = new_member now jr.user_id jr.username jr.session_id in
      let q = admit now jr.user_id m p in
      let r' = leave_previous now pid jr.user_id r in
      let same_user =
        Every-lookup (λ u (x : JoinRequest). x.user_id ≡ u) key jr p.join_requests e
          k.asked_keyed in
      let k' =
        admit-IsPartyOk now pid jr.user_id m p k refl (ground (arith, k.separate key)) room in
      let h' =
        put_party-IsRegistryOk pid q r' (leave_previous-IsRegistryOk now pid jr.user_id r h) k' in
      let after =
        IsRegistryOk-parties (put_party pid q r')
          (notify_membership_change pid
            (index_member pid jr.user_id jr.session_id (put_party pid q r')))
          refl h' in
      subst
        (λ d. IsRegistryOk (
          notify_membership_change pid (
            index_member pid jr.user_id jr.session_id
              (put_party pid (record q { join_requests = delete d p.join_requests }) r'))))
        same_user after

  -- `Accept` keeps the registry well-formed.
  pub accept-IsRegistryOk :
      (now : ℕ) (pid sess : String) (target : Presence) (r : Registry V)
      → IsRegistryOk r
      → IsRegistryOk (accept now pid sess target r).0
  unfolding accept
  accept-IsRegistryOk now pid sess target r h = elim (Result-cases (require_leader pid sess r)) [
    | inr (x, e) ↦ rw (e, accept) h
    | inl (p, e) ↦
        let p' = touch now p in
        let k = touch-IsPartyOk now pid p (require_leader-IsPartyOk pid sess p r h e) in
        let kept = put_party-IsRegistryOk pid p' r h k in
        elim (Option-cases (lookup target.user_id p'.join_requests)) [
          | inl e' ↦ rw (e, accept) (ground (arith, kept))
          | inr (jr, e') ↦
              rw (e, accept)
                (ground (
                  arith,
                  kept,
                  accept_request-IsRegistryOk now pid target.user_id jr p' (put_party pid p' r) kept
                      k e',
                ))
        ]
  ]

  kick-IsRegistryOk :
      (pid : String) (target : Presence) (p : PartySession V) (r : Registry V)
      → IsRegistryOk r
      → IsPartyOk pid p
      → is_leader_presence target p ≡ false
      → IsRegistryOk (kick pid target p r).0
  unfolding kick is_leader_presence notify_membership_change unindex_member
  kick-IsRegistryOk pid target p r h k other =
      elim (Option-cases (lookup target.user_id p.members)) [
        | inl e ↦ rw (e, kick) (put_party-IsRegistryOk pid p r h k)
        | inr (m, e) ↦
            let q = record p { members = delete target.user_id p.members } in
            let same_user =
              Every-lookup (λ u (x : PartyMember V). x.user_id ≡ u) target.user_id m p.members e
                k.keyed in
            rw (e, kick)
              (ground (
                arith,
                put_party-IsRegistryOk pid p r h k,
                put_party-IsRegistryOk pid q r h,
                removal-IsPartyOk pid target.user_id p.leader_id p k,
                lookup-delete p.leader_id target.user_id p.members,
                k.led,
                same_user,
                IsRegistryOk-parties (put_party pid q r)
                    (notify_membership_change pid
                      (unindex_member m.user_id m.session_id (put_party pid q r)))
                    refl,
              ))
      ]

  -- `Remove` keeps the registry well-formed: it never takes the leader out.
  pub remove-IsRegistryOk :
      (now : ℕ) (pid sess : String) (target : Presence) (r : Registry V)
      → IsRegistryOk r
      → IsRegistryOk (remove now pid sess target r).0
  unfolding remove
  remove-IsRegistryOk now pid sess target r h = elim (Result-cases (require_leader pid sess r)) [
    | inr (x, e) ↦ rw (e, remove) h
    | inl (p, e) ↦
        let p' = touch now p in
        let q = record p' { join_requests = delete target.user_id p'.join_requests } in
        let k = touch-IsPartyOk now pid p (require_leader-IsPartyOk pid sess p r h e) in
        rw (e, remove)
          (ground (
            arith,
            put_party-IsRegistryOk pid p' r h k,
            put_party-IsRegistryOk pid q r h (withdraw-IsPartyOk pid target.user_id p' k),
            kick-IsRegistryOk pid target p' r h k,
          ))
  ]

  unindex_all-parties :
      (l : Dict String (PartyMember V)) (r : Registry V) → (unindex_all l r).parties ≡ r.parties
  unfolding unindex_all unindex_member
  unindex_all-parties [] r = refl
  unindex_all-parties ((u, m) ∷ l) r =
      unindex_all-parties l (unindex_member m.user_id m.session_id r)

  pub close-IsRegistryOk :
      (pid sess : String) (r : Registry V) → IsRegistryOk r → IsRegistryOk (close pid sess r).0
  unfolding close notify_membership_change
  close-IsRegistryOk pid sess r h = elim (Result-cases (require_leader pid sess r)) [
    | inr (x, e) ↦ rw (e, close) h
    | inl (p, e) ↦
        let r' = unindex_all p.members r in
        rw (e, close)
          (IsRegistryOk-parties (dissolve pid r') (notify_membership_change pid (dissolve pid r'))
            refl
            (dissolve-IsRegistryOk pid r'
              (IsRegistryOk-parties r r' (sym (unindex_all-parties p.members r)) h)))
  ]
