-- ===== src/Party/Departure.antt =====
-- internal/party/party.go: `leaveLocked`, `Leave` and `LeaveSession`.
-- The first pending request of the range that holds the session, by its key.
use ultimate_game_server.Prelude.{
  ℕ, String, true, false, Option, none, some, [], ◌∷◌, ◌==◌, if◌then◌else◌, same, string_key,
}
use ultimate_game_server.Dict.{Dict, lookup, has, delete, size}
use ultimate_game_server.Party.Types.{
  PartyMember, JoinRequest, PartySession, LeaveOutcome, Registry, party_not_found, member_not_found,
  Result, ok, err,
}
use ultimate_game_server.Party.Access.{
  find_party, put_party, notify_membership_change, touch, clone_party, oldest_from,
}

unfoldable pub request_of_session : String → Dict String JoinRequest → Option String
request_of_session sess [] = none
request_of_session sess ((uid, jr) ∷ rest) =
    if same jr.session_id sess then some uid else request_of_session sess rest

module _ {V : Type 0} where
  unfoldable pub dissolve : String → Registry V → Registry V
  dissolve pid r = record r { parties = delete pid r.parties }

  unfoldable pub unindex_member : String → String → Registry V → Registry V
  unindex_member user sess r = record r {
    by_user = delete user r.by_user;
    by_sess = delete sess r.by_sess;
  }

  abbrev pub not_a_member : Option (PartySession V) → LeaveOutcome V
  not_a_member p = record {
    party = p;
    promoted_leader = none;
    dissolved = false;
    was_member = false;
  }

  -- A new leader is chosen when the leader has left.
  unfoldable pub succession : String → PartySession V → PartySession V × Option (PartyMember V)
  succession user p =
      if same p.leader_id user
      then (elim (oldest_from none p.members) [
        | none ↦ (p, none)
        | some m ↦ (record p { leader_id = m.user_id }, some m)
      ])
      else (p, none)

  -- The end of `leaveLocked`, after the member is deleted from the touched party `p`.
  unfoldable pub leave_member :
      String → String → String → PartySession V → Registry V → Registry V × Result (LeaveOutcome V)
  unfolding dissolve unindex_member succession
  leave_member pid user sess p r =
      let r' = unindex_member user sess r in
      let (q, promoted) = succession user p in
      if size p.members == 0
      then (
        notify_membership_change pid (dissolve pid r'),
        ok (record { party = none; promoted_leader = none; dissolved = true; was_member = true }),
      )
      else (
        notify_membership_change pid (put_party pid q r'),
        ok (record {
          party = some (clone_party q);
          promoted_leader = promoted;
          dissolved = false;
          was_member = true;
        }),
      )

  unfoldable pub leave : ℕ → String → String → Registry V → Registry V × Result (LeaveOutcome V)
  unfolding leave_member
  leave now pid user r = elim (find_party pid r) [
    | none ↦ (r, err party_not_found)
    | some p ↦ elim (lookup user p.members) [
      | none ↦
          let q = record p { join_requests = delete user p.join_requests } in
          if has user p.join_requests
          then (put_party pid q r, ok (not_a_member (some (clone_party q))))
          else (r, err member_not_found)
      | some m ↦
          leave_member pid user m.session_id
            (record (touch now p) { members = delete user p.members }) r
    ]
  ]

  -- The first member of the range that holds the session, by its user.
  unfoldable pub member_of_session : String → Dict String (PartyMember V) → String
  member_of_session sess [] = ""
  member_of_session sess ((_, m) ∷ rest) =
      if same m.session_id sess then m.user_id else member_of_session sess rest

  unfoldable pub drop_session : String → Registry V → Registry V
  drop_session sess r = record r { by_sess = delete sess r.by_sess }

  unfoldable pub leave_session : ℕ → String → Registry V → Registry V × Result (LeaveOutcome V)
  unfolding member_of_session drop_session request_of_session
  leave_session now sess r = elim (lookup sess r.by_sess) [
    | none ↦ (r, ok (not_a_member none))
    | some pid ↦ elim (lookup pid r.parties) [
      | none ↦ (drop_session sess r, ok (not_a_member none))
      | some p ↦
          let user = member_of_session sess p.members in
          if same user ""
          then (elim (request_of_session sess p.join_requests) [
            | none ↦ (drop_session sess r, ok (not_a_member none))
            | some uid ↦
                let q = record p { join_requests = delete uid p.join_requests } in
                (drop_session sess (put_party pid q r), ok (not_a_member (some (clone_party q))))
          ])
          else leave now pid user r
    ]
  ]
