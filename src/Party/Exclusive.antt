-- ===== src/Party/Exclusive.antt =====
-- internal/party/party.go: the calls that change a membership keep the index `byUser` exact when
-- the single-party rule is on.
use ultimate_game_server.Prelude.{
  ℕ, String, ◌≡◌, refl, ◌∙◌, inl, inr, true, none, some, arith, Option-cases, string_key,
}
use ultimate_game_server.Dict.{lookup, has, delete}
use ultimate_game_server.Party.Types.{PartySession, Registry}
use ultimate_game_server.Party.Access.{find_party, put_party, notify_membership_change, oldest_from}
use ultimate_game_server.Party.Departure.{dissolve, unindex_member, succession, leave_member, leave}
use ultimate_game_server.Party.Index.{IsIndexed-put, IsIndexed-exit, IsIndexed-dissolve, IsIndexed}

module _ {V : Type 0} where
  abbrev pub IndexOk : Registry V → Type 0
  IndexOk r = IsIndexed r.parties r.by_user

  pub find_party-lookup :
      (pid : String) (p : PartySession V) (r : Registry V)
      → find_party pid r ≡ some p
      → lookup pid r.parties ≡ some p
  unfolding find_party
  find_party-lookup pid p r e = ground arith

  pub succession-members :
      (user : String) (p : PartySession V) → (succession user p).0.members ≡ p.members
  unfolding succession
  succession-members user p = elim (Option-cases (oldest_from none p.members)) [
    | inl e ↦ ground arith
    | inr (m, e) ↦ ground arith
  ]

  leave_member-IndexOk :
      (pid user sess : String) (p p' : PartySession V) (r : Registry V)
      → lookup pid r.parties ≡ some p
      → has user p.members ≡ true
      → p'.members ≡ delete user p.members
      → IndexOk r
      → IndexOk (leave_member pid user sess p' r).0
  unfolding leave_member notify_membership_change unindex_member dissolve put_party
  leave_member-IndexOk pid user sess p p' r e held s h =
      let q = (succession user p').0 in
      ground (
        arith,
        s,
        IsIndexed-dissolve pid user p r.parties r.by_user e held,
        IsIndexed-exit pid user p q r.parties r.by_user e (succession-members user p' ∙ s) held h,
        h,
      )

  -- `leaveLocked` keeps the index exact.
  pub leave-IndexOk :
      (now : ℕ) (pid user : String) (r : Registry V) → IndexOk r → IndexOk (leave now pid user r).0
  unfolding leave put_party
  leave-IndexOk now pid user r h = elim (Option-cases (find_party pid r)) [
    | inl e ↦ rw (e, leave) h
    | inr (p, e) ↦
        let e2 = find_party-lookup pid p r e in
        elim (Option-cases (lookup user p.members)) [
          | inl e' ↦
              let q = record p { join_requests = delete user p.join_requests } in
              rw (e, leave)
                (ground (arith, e', h, IsIndexed-put pid p q r.parties r.by_user e2 (λ u. refl) h))
          | inr (m, e') ↦
              rw (e, leave)
                (rw (e', leave)
                  (leave_member-IndexOk pid user m.session_id p _ r e2 (ground arith) refl h))
        ]
  ]
