-- ===== src/Party/Membership.antt =====
-- internal/party/party.go: `Join` and `UpdateMemberProperties`.
use ultimate_game_server.Prelude.{
  ℕ, String, Bool, true, false, not, none, some, [], ◌∷◌, if◌then◌else◌, same, leb_ℤ, pos,
  string_key,
}
use ultimate_game_server.Dict.{Dict, lookup, has, insert, delete, size}
use ultimate_game_server.Party.Types.{
  PartyMember, PartySession, JoinOutcome, Registry, party_not_found, party_full, member_not_found,
  already_member, join_request_duplicate, join_requests_full, already_in_party, Result, ok, err,
}
use ultimate_game_server.Party.Access.{
  find_party, put_party, notify_membership_change, touch, clone_party, new_member,
}

module _ {V : Type 0} where
  -- Whether the single-party rule keeps the user out of `pid`.
  unfoldable pub in_other_party : String → String → Registry V → Bool
  in_other_party pid user r =
      if r.cfg.single_party
      then (elim (lookup user r.by_user) [ none ↦ false | some prev ↦ not (same prev pid) ])
      else false

  unfoldable pub admit : ℕ → String → PartyMember V → PartySession V → PartySession V
  admit now user m p = record p {
    members = insert user m p.members;
    join_requests = delete user p.join_requests;
  }

  unfoldable pub index_member : String → String → String → Registry V → Registry V
  index_member pid user sess r = record r {
    by_user = insert user pid r.by_user;
    by_sess = insert sess pid r.by_sess;
  }

  unfoldable pub join_touched :
      ℕ
      → String
      → String
      → String
      → String
      → PartySession V
      → Registry V
      → Registry V × Result (JoinOutcome V)
  unfolding in_other_party admit index_member new_member
  join_touched now pid user name sess p r =
      let full = leb_ℤ p.max_size (pos (size p.members)) in
      let q = admit now user (new_member now user name sess) p in
      let asked = record p {
        join_requests =
            insert user
              (record { user_id = user; username = name; session_id = sess; requested = now })
              p.join_requests;
      } in
      if has user p.members
      then (put_party pid p r, err already_member)
      else if in_other_party pid user r
      then (put_party pid p r, err already_in_party)
      else if full
      then (put_party pid p r, err party_full)
      else if p.is_open
      then (
        notify_membership_change pid (index_member pid user sess (put_party pid q r)),
        ok (record { party = clone_party q; joined = true }),
      )
      else if has user p.join_requests
      then (put_party pid p r, err join_request_duplicate)
      else if leb_ℤ p.max_size (pos (size p.join_requests))
      then (put_party pid p r, err join_requests_full)
      else (put_party pid asked r, ok (record { party = clone_party asked; joined = false }))

  unfoldable pub join :
      ℕ → String → String → String → String → Registry V → Registry V × Result (JoinOutcome V)
  unfolding join_touched
  join now pid user name sess r = elim (find_party pid r) [
    | none ↦ (r, err party_not_found)
    | some p ↦ join_touched now pid user name sess (touch now p) r
  ]

  -- The loop that copies the new properties over the old ones.
  unfoldable pub set_properties : Dict String V → Dict String V → Dict String V
  set_properties [] old = old
  set_properties ((k, v) ∷ rest) old = set_properties rest (insert k v old)

  unfoldable pub update_member_properties :
      ℕ → String → String → Dict String V → Registry V → Registry V × Result (PartySession V)
  unfolding set_properties
  update_member_properties now pid user properties r = elim (find_party pid r) [
    | none ↦ (r, err party_not_found)
    | some p ↦ elim (lookup user p.members) [
      | none ↦ (r, err member_not_found)
      | some m ↦
          let m' = record m { properties = set_properties properties m.properties } in
          let q = touch now (record p { members = insert user m' p.members }) in
          (put_party pid q r, ok (clone_party q))
    ]
  ]
