-- ===== src/Party/ExclusiveCalls.antt =====
-- internal/party/party.go: `Join` and `Accept` keep `byUser` exact.
use ultimate_game_server.Prelude.{
  ℕ, String, ◌≡◌, refl, sym, ap, ◌∙◌, inl, inr, true, false, none, some, arith, Option-cases,
  string_key, same,
}
use ultimate_game_server.Dict.{lookup, has, insert, lookup-insert_self, Every-lookup}
use ultimate_game_server.Party.Types.{
  Result-cases, JoinRequest, Presence, PartySession, Registry, ok,
}
use ultimate_game_server.Party.Access.{
  find_party, put_party, notify_membership_change, touch, new_member, require_leader,
}
use ultimate_game_server.Party.Membership.{in_other_party, admit, index_member, join_touched, join}
use ultimate_game_server.Party.Leadership.{leave_previous, accept_request, accept}
use ultimate_game_server.Party.WellFormed.{touch-IsPartyOk, IsPartyOk}
use ultimate_game_server.Party.Invariant.{put_party-IsRegistryOk, IsRegistryOk}
use ultimate_game_server.Party.Preservation.{require_leader-IsPartyOk}
use ultimate_game_server.Party.Index.{holds, IsIndexed-put, IsIndexed-enter}
use ultimate_game_server.Party.LeaveEffect.{lookup-leave_ne, leave-frees}
use ultimate_game_server.Party.Exclusive.{IndexOk, find_party-lookup, leave-IndexOk}

module _ {V : Type 0} where
  -- `Join` keeps the index exact.
  pub join-IndexOk :
      (now : ℕ) (pid user name sess : String) (r : Registry V)
      → r.cfg.single_party ≡ true
      → IndexOk r
      → IndexOk (join now pid user name sess r).0
  unfolding join join_touched notify_membership_change put_party touch in_other_party holds
  join-IndexOk now pid user name sess r single h = elim (Option-cases (find_party pid r)) [
    | inl e ↦ rw (e, join) h
    | inr (p, e) ↦
        let m = new_member now user name sess in
        let p' = touch now p in
        let jr : JoinRequest = record {
          user_id = user;
          username = name;
          session_id = sess;
          requested = now;
        } in
        let q = admit now user m p' in
        let s = record p' { join_requests = insert user jr p.join_requests } in
        let e2 = find_party-lookup pid p r e in
        ground (
          arith,
          e,
          e2,
          single,
          h.listed user pid,
          IsIndexed-put pid p p' r.parties r.by_user e2 (λ u. refl) h,
          IsIndexed-put pid p s r.parties r.by_user e2 (λ u. refl) h,
          IsIndexed-enter pid user m p q r.parties r.by_user e2 refl,
          h,
        )
  ]

  pub require_leader-lookup :
      (pid sess : String) (p : PartySession V) (r : Registry V)
      → require_leader pid sess r ≡ ok p
      → lookup pid r.parties ≡ some p
  unfolding require_leader
  require_leader-lookup pid sess p r e = elim (Option-cases (find_party pid r)) [
    | inl n ↦ absurd (ground arith)
    | inr (q, f) ↦ find_party-lookup pid p r (ground arith)
  ]

  pub put-IndexOk :
      (pid : String) (p q : PartySession V) (r : Registry V)
      → lookup pid r.parties ≡ some p
      → q.members ≡ p.members
      → IndexOk r
      → IndexOk (put_party pid q r)
  unfolding put_party
  put-IndexOk pid p q r e s h = IsIndexed-put pid p q r.parties r.by_user e (λ u. ap (has u) s) h

  -- An accepted user is in no party once it has left the previous one.
  leave_previous-frees :
      (now : ℕ) (pid user : String) (r : Registry V)
      → r.cfg.single_party ≡ true
      → IsRegistryOk r
      → IndexOk r
      → holds pid user r.parties ≡ false
      → (lookup user (leave_previous now pid user r).by_user ≡ none)
        × (lookup pid (leave_previous now pid user r).parties ≡ lookup pid r.parties)
        × IndexOk (leave_previous now pid user r)
  unfolding leave_previous
  leave_previous-frees now pid user r single h x out = elim (Option-cases (lookup user r.by_user)) [
    | inl e ↦ rw (single, leave_previous) (rw (e, leave_previous) (e, refl, x))
    | inr (prev, e) ↦ elim (string_key.dec prev pid) [
      | yes s ↦ absurd (ground (arith, (x.listed user prev).1 e))
      | no ne ↦
          let b : same prev pid ≡ false = ground arith in
          rw (single, leave_previous)
            (rw (e, leave_previous)
              (rw (b, leave_previous)
                (
                  leave-frees now user prev r h x e,
                  lookup-leave_ne now prev user pid r (λ s. ne (sym s)),
                  leave-IndexOk now prev user r x,
                )))
    ]
  ]

  accept_request-IndexOk :
      (now : ℕ) (pid key : String) (jr : JoinRequest) (p : PartySession V) (r : Registry V)
      → r.cfg.single_party ≡ true
      → IsRegistryOk r
      → IsPartyOk pid p
      → IndexOk r
      → lookup pid r.parties ≡ some p
      → lookup key p.join_requests ≡ some jr
      → IndexOk (accept_request now pid key jr p r).0
  unfolding accept_request notify_membership_change index_member put_party holds
  accept_request-IndexOk now pid key jr p r single h k x e e' =
      let same_user =
        Every-lookup (λ u (q : JoinRequest). q.user_id ≡ u) key jr p.join_requests e'
          k.asked_keyed in
      let out : holds pid jr.user_id r.parties ≡ false = ground (arith, k.separate key) in
      let (free, kept, x') = leave_previous-frees now pid jr.user_id r single h x out in
      IsIndexed-enter pid jr.user_id (new_member now jr.user_id jr.username jr.session_id) p _ _ _
        (kept ∙ e) refl free x'

  -- `Accept` keeps the index exact.
  pub accept-IndexOk :
      (now : ℕ) (pid sess : String) (target : Presence) (r : Registry V)
      → r.cfg.single_party ≡ true
      → IsRegistryOk r
      → IndexOk r
      → IndexOk (accept now pid sess target r).0
  unfolding accept
  accept-IndexOk now pid sess target r single h x =
      elim (Result-cases (require_leader pid sess r)) [
        | inr (y, e) ↦ rw (e, accept) x
        | inl (p, e) ↦
            let p' = touch now p in
            let k = touch-IsPartyOk now pid p (require_leader-IsPartyOk pid sess p r h e) in
            let kept =
              put-IndexOk pid p p' r (require_leader-lookup pid sess p r e) (unfold touch in refl)
                x in
            let h' = put_party-IsRegistryOk pid p' r h k in
            elim (Option-cases (lookup target.user_id p'.join_requests)) [
              | inl e' ↦ rw (e, accept) (ground (arith, kept))
              | inr (jr, e') ↦
                  rw (e, accept)
                    (ground (
                      arith,
                      kept,
                      accept_request-IndexOk now pid target.user_id jr p' (put_party pid p' r)
                          (unfold put_party in single) h' k kept
                          (unfold put_party in lookup-insert_self pid p' r.parties) e',
                    ))
            ]
      ]
