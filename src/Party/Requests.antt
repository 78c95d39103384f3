-- ===== src/Party/Requests.antt =====
-- internal/party/party.go: joining and requesting to join.
use ultimate_game_server.Prelude.{
  ℕ, String, ◌≡◌, ◌↔◌, ◌⊎◌, inl, inr, Bool, true, false, not, none, some, arith, Option-cases,
  string_key,
}
use ultimate_game_server.Dict.{lookup, has, insert, lookup-insert, lookup-insert_self}
use ultimate_game_server.Party.Types.{
  JoinRequest, PartySession, JoinOutcome, Registry, Result, ok, err,
}
use ultimate_game_server.Party.Access.{
  find_party, put_party, notify_membership_change, touch, new_member,
}
use ultimate_game_server.Party.Membership.{admit, join_touched, join}
use ultimate_game_server.Party.Departure.{not_a_member, leave_session}
use ultimate_game_server.Party.Index.{holds}

abbrev pub has_joined : {V : Type 0} → Result (JoinOutcome V) → Bool
has_joined (ok o) = o.joined
has_joined (err e) = false

abbrev pub is_queued : {V : Type 0} → Result (JoinOutcome V) → Bool
is_queued (ok o) = not o.joined
is_queued (err e) = false

module _ {V : Type 0} where
  -- `Join` adds the user to the named party exactly when it answers that the user has joined,
  -- and changes no other membership: after the call a party holds a user if and only if it did
  -- before, or it is that party, that user, and the answer is that of a join.
  pub join_memberships :
      (now : ℕ) (pid user name sess : String) (r : Registry V) (q u : String)
      → (holds q u (join now pid user name sess r).0.parties ≡ true) ↔ (
          (holds q u r.parties ≡ true)
          ⊎ ((q ≡ pid) × (u ≡ user) × (has_joined (join now pid user name sess r).1 ≡ true)))
  unfolding join join_touched find_party put_party touch notify_membership_change holds
  join_memberships now pid user name sess r q u = elim (Option-cases (lookup pid r.parties)) [
    | inl e ↦ (ground (arith, e), ground (arith, e))
    | inr (p, e) ↦
        let m = new_member now user name sess in
        let jr : JoinRequest = record {
          user_id = user;
          username = name;
          session_id = sess;
          requested = now;
        } in
        let p' = touch now p in
        let a = admit now user m p' in
        let b = record p' { join_requests = insert user jr p'.join_requests } in
        let in_p = lookup-insert q pid p' r.parties in
        let in_a = lookup-insert q pid a r.parties in
        let in_b = lookup-insert q pid b r.parties in
        let in_m = lookup-insert u user m p.members in
        (ground (arith, e, in_p, in_a, in_b, in_m), ground (arith, e, in_p, in_a, in_b, in_m))
  ]

  -- A request that `Join` queues for a session that is in no party does not index it, so when it ends,
  -- `LeaveSession` finds nothing to do and the request stays in the party.
  pub queued_request_outlives_session :
      (now later : ℕ) (pid user name sess : String) (r : Registry V)
      → lookup sess r.by_sess ≡ none
      → is_queued (join now pid user name sess r).1 ≡ true
      → (leave_session later sess (join now pid user name sess r).0
          ≡ ((join now pid user name sess r).0, ok (not_a_member none)))
        × ((p : PartySession V) × (lookup pid (join now pid user name sess r).0.parties ≡ some p)
            × (has user p.join_requests ≡ true))
  unfolding join join_touched find_party put_party leave_session
  queued_request_outlives_session now later pid user name sess r free queued =
      elim (Option-cases (lookup pid r.parties)) [
        | inl e ↦ absurd (ground (arith, e))
        | inr (p, e) ↦
            let jr : JoinRequest = record {
              user_id = user;
              username = name;
              session_id = sess;
              requested = now;
            } in
            let p' = touch now p in
            let b = record p' { join_requests = insert user jr p'.join_requests } in
            (
              ground (arith, e, free),
              (
                b,
                ground (arith, e, lookup-insert_self pid b r.parties),
                ground (arith, lookup-insert_self user jr p'.join_requests),
              ),
            )
      ]
