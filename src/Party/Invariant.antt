-- ===== src/Party/Invariant.antt =====
-- internal/party/party.go: every call keeps every party of the registry well-formed.
use ultimate_game_server.Prelude.{
  ℕ, String, ◌≡◌, refl, inl, inr, some, arith, Option-cases, string_key,
}
use ultimate_game_server.Dict.{
  insert, Distinct, insert-Distinct, delete-Distinct, Every, Every-insert, Every-delete,
  Every-lookup,
}
use ultimate_game_server.Party.Types.{JoinRequest, PartySession, Registry}
use ultimate_game_server.Party.Access.{
  find_party, put_party, notify_membership_change, touch, new_member,
}
use ultimate_game_server.Party.Membership.{admit, index_member, join_touched, join}
use ultimate_game_server.Party.Departure.{dissolve}
use ultimate_game_server.Party.WellFormed.{touch-IsPartyOk, admit-IsPartyOk, IsPartyOk}
use ultimate_game_server.Party.Changes.{request-IsPartyOk}
use mathlib.Core.Path.{subst}

module _ {V : Type 0} where
  pub record IsRegistryOk (r : Registry V) : Type 0 where
    pub distinct : Distinct r.parties
    pub every : Every IsPartyOk r.parties

  pub find_party-IsPartyOk :
      (pid : String) (p : PartySession V) (r : Registry V)
      → IsRegistryOk r
      → find_party pid r ≡ some p
      → IsPartyOk pid p
  unfolding find_party
  find_party-IsPartyOk pid p r h e = Every-lookup IsPartyOk pid p r.parties (ground arith) h.every

  pub put_party-IsRegistryOk :
      (pid : String) (p : PartySession V) (r : Registry V)
      → IsRegistryOk r
      → IsPartyOk pid p
      → IsRegistryOk (put_party pid p r)
  unfolding put_party
  put_party-IsRegistryOk pid p r h k = record {
    distinct = insert-Distinct pid p r.parties h.distinct;
    every = Every-insert IsPartyOk pid p r.parties k h.every;
  }

  pub dissolve-IsRegistryOk :
      (pid : String) (r : Registry V) → IsRegistryOk r → IsRegistryOk (dissolve pid r)
  unfolding dissolve
  dissolve-IsRegistryOk pid r h = record {
    distinct = delete-Distinct pid r.parties h.distinct;
    every = Every-delete IsPartyOk pid r.parties h.every;
  }

  -- The indexes and the calls of the hook say nothing of the parties.
  pub IsRegistryOk-parties :
      (r s : Registry V) → r.parties ≡ s.parties → IsRegistryOk r → IsRegistryOk s
  IsRegistryOk-parties r s e h = record {
    distinct = subst Distinct e h.distinct;
    every = subst (Every IsPartyOk) e h.every;
  }

  join_touched-IsRegistryOk :
      (now : ℕ) (pid user name sess : String) (p : PartySession V) (r : Registry V)
      → IsRegistryOk r
      → IsPartyOk pid p
      → IsRegistryOk (join_touched now pid user name sess p r).0
  unfolding join_touched notify_membership_change index_member new_member
  join_touched-IsRegistryOk now pid user name sess p r h k =
      let m = new_member now user name sess in
      let jr : JoinRequest = record {
        user_id = user;
        username = name;
        session_id = sess;
        requested = now;
      } in
      let q = admit now user m p in
      let s = record p { join_requests = insert user jr p.join_requests } in
      ground (
        arith,
        put_party-IsRegistryOk pid p r h k,
        admit-IsPartyOk now pid user m p k refl,
        put_party-IsRegistryOk pid q r h,
        IsRegistryOk-parties (put_party pid q r)
            (notify_membership_change pid (index_member pid user sess (put_party pid q r))) refl,
        request-IsPartyOk pid user jr p k refl,
        put_party-IsRegistryOk pid s r h,
      )

  -- `Join` keeps the registry well-formed, whatever it answers.
  pub join-IsRegistryOk :
      (now : ℕ) (pid user name sess : String) (r : Registry V)
      → IsRegistryOk r
      → IsRegistryOk (join now pid user name sess r).0
  unfolding join
  join-IsRegistryOk now pid user name sess r h = elim (Option-cases (find_party pid r)) [
    | inl e ↦ rw (e, join) h
    | inr (p, e) ↦
        rw (e, join)
          (join_touched-IsRegistryOk now pid user name sess (touch now p) r h
            (touch-IsPartyOk now pid p (find_party-IsPartyOk pid p r h e)))
  ]
