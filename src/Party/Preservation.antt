-- ===== src/Party/Preservation.antt =====
-- internal/party/party.go: leaving, and what the leader does, keep every party well-formed.
use ultimate_game_server.Prelude.{ℕ, String, ◌≡◌, refl, inl, inr, arith, Option-cases, string_key}
use ultimate_game_server.Dict.{lookup, delete, Every-lookup}
use ultimate_game_server.Party.Types.{
  Result-cases, PartyMember, Presence, PartySession, Registry, ok,
}
use ultimate_game_server.Party.Access.{
  find_party, put_party, notify_membership_change, touch, require_leader,
}
use ultimate_game_server.Party.Departure.{
  request_of_session, dissolve, unindex_member, succession, leave_member, leave, member_of_session,
  drop_session, leave_session,
}
use ultimate_game_server.Party.Leadership.{promote}
use ultimate_game_server.Party.WellFormed.{touch-IsPartyOk, IsPartyOk}
use ultimate_game_server.Party.Succession.{succession-IsPartyOk}
use ultimate_game_server.Party.Changes.{withdraw-IsPartyOk, relead-IsPartyOk}
use ultimate_game_server.Party.Invariant.{
  find_party-IsPartyOk, put_party-IsRegistryOk, dissolve-IsRegistryOk, IsRegistryOk-parties,
  IsRegistryOk,
}

module _ {V : Type 0} where
  leave_member-IsRegistryOk :
      (pid user sess : String) (p : PartySession V) (r : Registry V)
      → IsRegistryOk r
      → IsPartyOk pid p
      → IsRegistryOk (leave_member pid user sess (record p { members = delete user p.members }) r).0
  unfolding leave_member notify_membership_change unindex_member dissolve put_party
  leave_member-IsRegistryOk pid user sess p r h k =
      let p' = record p { members = delete user p.members } in
      let q = (succession user p').0 in
      ground (
        arith,
        succession-IsPartyOk pid user p k,
        put_party-IsRegistryOk pid q r h,
        dissolve-IsRegistryOk pid r h,
        IsRegistryOk-parties (put_party pid q r)
            (notify_membership_change pid (put_party pid q (unindex_member user sess r))) refl,
        IsRegistryOk-parties (dissolve pid r)
            (notify_membership_change pid (dissolve pid (unindex_member user sess r))) refl,
      )

  -- `leaveLocked` keeps the registry well-formed.
  pub leave-IsRegistryOk :
      (now : ℕ) (pid user : String) (r : Registry V)
      → IsRegistryOk r
      → IsRegistryOk (leave now pid user r).0
  unfolding leave touch
  leave-IsRegistryOk now pid user r h = elim (Option-cases (find_party pid r)) [
    | inl e ↦ rw (e, leave) h
    | inr (p, e) ↦
        let k = find_party-IsPartyOk pid p r h e in
        elim (Option-cases (lookup user p.members)) [
          | inl e' ↦
              let q = record p { join_requests = delete user p.join_requests } in
              rw (e, leave)
                (ground (arith, put_party-IsRegistryOk pid q r h (withdraw-IsPartyOk pid user p k)))
          | inr (m, e') ↦
              rw (e, leave)
                (rw (e', leave)
                  (leave_member-IsRegistryOk pid user m.session_id (touch now p) r h
                    (touch-IsPartyOk now pid p k)))
        ]
  ]

  drop_session-IsRegistryOk :
      (sess : String) (r : Registry V) → IsRegistryOk r → IsRegistryOk (drop_session sess r)
  unfolding drop_session
  drop_session-IsRegistryOk sess r h = IsRegistryOk-parties r (drop_session sess r) refl h

  -- A disconnecting session leaves the registry well-formed.
  pub leave_session-IsRegistryOk :
      (now : ℕ) (sess : String) (r : Registry V)
      → IsRegistryOk r
      → IsRegistryOk (leave_session now sess r).0
  unfolding leave_session drop_session
  leave_session-IsRegistryOk now sess r h = elim (Option-cases (lookup sess r.by_sess)) [
    | inl e ↦ rw (e, leave_session) h
    | inr (pid, e) ↦ elim (Option-cases (lookup pid r.parties)) [
      | inl e' ↦ rw (e, leave_session) (rw (e', leave_session) (drop_session-IsRegistryOk sess r h))
      | inr (p, e') ↦
          let k = Every-lookup IsPartyOk pid p r.parties e' h.every in
          elim (Option-cases (request_of_session sess p.join_requests)) [
            | inl e'' ↦
                rw (e, leave_session)
                  (rw (e', leave_session)
                    (ground (
                      arith,
                      e'',
                      drop_session-IsRegistryOk sess r h,
                      leave-IsRegistryOk now pid (member_of_session sess p.members) r h,
                    )))
            | inr (uid, e'') ↦
                let q = record p { join_requests = delete uid p.join_requests } in
                rw (e, leave_session)
                  (rw (e', leave_session)
                    (ground (
                      arith,
                      e'',
                      drop_session-IsRegistryOk sess (put_party pid q r)
                          (put_party-IsRegistryOk pid q r h (withdraw-IsPartyOk pid uid p k)),
                      leave-IsRegistryOk now pid (member_of_session sess p.members) r h,
                    )))
          ]
    ]
  ]

  pub require_leader-IsPartyOk :
      (pid sess : String) (p : PartySession V) (r : Registry V)
      → IsRegistryOk r
      → require_leader pid sess r ≡ ok p
      → IsPartyOk pid p
  unfolding require_leader
  require_leader-IsPartyOk pid sess p r h e = elim (Option-cases (find_party pid r)) [
    | inl n ↦ absurd (ground arith)
    | inr (q, f) ↦ find_party-IsPartyOk pid p r h (ground arith)
  ]

  pub promote-IsRegistryOk :
      (now : ℕ) (pid sess : String) (target : Presence) (r : Registry V)
      → IsRegistryOk r
      → IsRegistryOk (promote now pid sess target r).0
  unfolding promote
  promote-IsRegistryOk now pid sess target r h = elim (Result-cases (require_leader pid sess r)) [
    | inr (x, e) ↦ rw (e, promote) h
    | inl (p, e) ↦
        let p' = touch now p in
        let k = touch-IsPartyOk now pid p (require_leader-IsPartyOk pid sess p r h e) in
        elim (Option-cases (lookup target.user_id p'.members)) [
          | inl e' ↦ rw (e, promote) (rw (e', promote) (put_party-IsRegistryOk pid p' r h k))
          | inr (m, e') ↦
              let same_user =
                Every-lookup (λ u (m : PartyMember V). m.user_id ≡ u) target.user_id m p'.members e'
                  k.keyed in
              let q = record p' { leader_id = m.user_id } in
              rw (e, promote)
                (rw (e', promote)
                  (ground (
                    arith,
                    put_party-IsRegistryOk pid p' r h k,
                    put_party-IsRegistryOk pid q r h
                        (relead-IsPartyOk pid m.user_id p' k (ground arith)),
                  )))
        ]
  ]
