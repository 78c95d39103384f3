-- ===== src/Party/Leadership.antt =====
-- internal/party/party.go: what only the leader may do.
use ultimate_game_server.Prelude.{
  ℕ, String, Bool, true, false, ◌&&◌, none, some, [], ◌∷◌, if◌then◌else◌, same, leb_ℤ, pos,
  string_key,
}
use ultimate_game_server.Dict.{Dict, lookup, insert, delete, size}
use ultimate_game_server.Party.Types.{
  PartyMember, JoinRequest, Presence, PartySession, RemoveOutcome, Registry, party_full,
  member_not_found, not_join_request, remove_self, Result, ok, err,
}
use ultimate_game_server.Party.Access.{
  put_party, notify_membership_change, touch, clone_party, new_member, require_leader,
}
use ultimate_game_server.Party.Membership.{index_member}
use ultimate_game_server.Party.Departure.{dissolve, unindex_member, leave}

module _ {V : Type 0} where
  unfoldable pub promote :
      ℕ
      → String
      → String
      → Presence
      → Registry V
      → Registry V × Result (PartySession V × PartyMember V)
  promote now pid sess target r = elim (require_leader pid sess r) [
    | err e ↦ (r, err e)
    | ok p ↦
        let p' = touch now p in
        elim (lookup target.user_id p'.members) [
          | none ↦ (put_party pid p' r, err member_not_found)
          | some m ↦
              let q = record p' { leader_id = m.user_id } in
              if same m.session_id target.session_id
              then (put_party pid q r, ok (clone_party q, m))
              else (put_party pid p' r, err member_not_found)
        ]
  ]

  -- The single-party rule: an accepted user leaves its other party first. The result of that
  -- `leaveLocked` is not looked at.
  unfoldable pub leave_previous : ℕ → String → String → Registry V → Registry V
  leave_previous now pid user r =
      if r.cfg.single_party
      then (elim (lookup user r.by_user) [
        | none ↦ r
        | some prev ↦ if same prev pid then r else (leave now prev user r).0
      ])
      else r

  unfoldable pub accept_request :
      ℕ
      → String
      → String
      → JoinRequest
      → PartySession V
      → Registry V
      → Registry V × Result (PartySession V × PartyMember V)
  unfolding leave_previous
  accept_request now pid key jr p r =
      let m = new_member now jr.user_id jr.username jr.session_id in
      let q = record p {
        members = insert jr.user_id m p.members;
        join_requests = delete key p.join_requests;
      } in
      (
        notify_membership_change pid (
            index_member pid jr.user_id jr.session_id
              (put_party pid q (leave_previous now pid jr.user_id r))),
        ok (clone_party q, m),
      )

  unfoldable pub accept :
      ℕ
      → String
      → String
      → Presence
      → Registry V
      → Registry V × Result (PartySession V × PartyMember V)
  unfolding accept_request
  accept now pid sess target r = elim (require_leader pid sess r) [
    | err e ↦ (r, err e)
    | ok p ↦
        let p' = touch now p in
        if leb_ℤ p'.max_size (pos (size p'.members))
        then (put_party pid p' r, err party_full)
        else (elim (lookup target.user_id p'.join_requests) [
          | none ↦ (put_party pid p' r, err not_join_request)
          | some jr ↦
              if same jr.session_id target.session_id
              then accept_request now pid target.user_id jr p' (put_party pid p' r)
              else (put_party pid p' r, err not_join_request)
        ])
  ]

  unfoldable pub is_leader_presence : Presence → PartySession V → Bool
  is_leader_presence target p = elim (lookup p.leader_id p.members) [
    | none ↦ false
    | some leader ↦ same leader.session_id target.session_id && same leader.user_id target.user_id
  ]

  abbrev pub requested_by : Presence → PartySession V → Bool
  requested_by target p = elim (lookup target.user_id p.join_requests) [
    | none ↦ false
    | some jr ↦ same jr.session_id target.session_id
  ]

  unfoldable pub kick :
      String → Presence → PartySession V → Registry V → Registry V × Result (RemoveOutcome V)
  kick pid target p r = elim (lookup target.user_id p.members) [
    | none ↦ (put_party pid p r, err member_not_found)
    | some m ↦
        let q = record p { members = delete target.user_id p.members } in
        if same m.session_id target.session_id
        then (
          notify_membership_change pid (unindex_member m.user_id m.session_id (put_party pid q r)),
          ok (record { party = clone_party q; kicked = some m; rejected_request = false }),
        )
        else (put_party pid p r, err member_not_found)
  ]

  unfoldable pub remove :
      ℕ → String → String → Presence → Registry V → Registry V × Result (RemoveOutcome V)
  unfolding is_leader_presence kick
  remove now pid sess target r = elim (require_leader pid sess r) [
    | err e ↦ (r, err e)
    | ok p ↦
        let p' = touch now p in
        let q = record p' { join_requests = delete target.user_id p'.join_requests } in
        if is_leader_presence target p'
        then (put_party pid p' r, err remove_self)
        else if requested_by target p'
        then (
          put_party pid q r,
          ok (record { party = clone_party q; kicked = none; rejected_request = true }),
        )
        else kick pid target p' r
  ]

  -- The loop of `Close` over the members.
  unfoldable pub unindex_all : Dict String (PartyMember V) → Registry V → Registry V
  unindex_all [] r = r
  unindex_all ((_, m) ∷ rest) r = unindex_all rest (unindex_member m.user_id m.session_id r)

  unfoldable pub close : String → String → Registry V → Registry V × Result (PartySession V)
  unfolding unindex_all
  close pid sess r = elim (require_leader pid sess r) [
    | err e ↦ (r, err e)
    | ok p ↦
        (notify_membership_change pid (dissolve pid (unindex_all p.members r)), ok (clone_party p))
  ]
