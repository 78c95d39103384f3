-- ===== src/Party/ExclusiveRuns.antt =====
-- internal/party/party.go: under the single-party rule nobody is in two parties.
use ultimate_game_server.Prelude.{
  ℕ, String, ◌≡◌, refl, ap, ◌∙◌, ◌↔◌, inl, inr, Bool, true, Option, some, arith, Option-cases,
  string_key,
}
use ultimate_game_server.Dict.{Dict, lookup, has, insert, delete, lookup-insert}
use ultimate_game_server.Party.Types.{Result-cases, Presence, Config, Registry}
use ultimate_game_server.Party.Access.{find_party, put_party, touch, require_leader}
use ultimate_game_server.Party.Membership.{set_properties, update_member_properties}
use ultimate_game_server.Party.Departure.{
  request_of_session, member_of_session, drop_session, leave_session,
}
use ultimate_game_server.Party.Leadership.{promote}
use ultimate_game_server.Party.Label.{normalize_label}
use ultimate_game_server.Party.Lifecycle.{
  complete_config, new_registry_with_config, set_membership_change_hook, update,
}
use ultimate_game_server.Party.Invariant.{IsRegistryOk}
use ultimate_game_server.Party.OtherCalls.{sweep_idle_lem}
use ultimate_game_server.Party.Index.{holds, IsIndexed-put}
use ultimate_game_server.Party.Exclusive.{IndexOk, find_party-lookup, leave-IndexOk}
use ultimate_game_server.Party.ExclusiveCalls.{
  join-IndexOk, require_leader-lookup, put-IndexOk, accept-IndexOk,
}
use ultimate_game_server.Party.ExclusiveEnds.{remove-IndexOk, close-IndexOk, create-IndexOk}
use ultimate_game_server.Party.Calls.{
  IsFresh, perform, Reachable-IsRegistryOk, Call, create_call, join_call, leave_call,
  leave_session_call, promote_call, accept_call, remove_call, close_call, update_call,
  properties_call, sweep_call, hook_call, Reachable, here, next,
}
use ultimate_game_server.Party.Config.{perform-cfg}

module _ {V : Type 0} where
  leave_session-IndexOk :
      (now : ℕ) (sess : String) (r : Registry V) → IndexOk r → IndexOk (leave_session now sess r).0
  unfolding leave_session drop_session put_party
  leave_session-IndexOk now sess r x = elim (Option-cases (lookup sess r.by_sess)) [
    | inl e ↦ rw (e, leave_session) x
    | inr (pid, e) ↦ elim (Option-cases (lookup pid r.parties)) [
      | inl e' ↦ rw (e, leave_session) (rw (e', leave_session) x)
      | inr (p, e') ↦
          let at = leave-IndexOk now pid (member_of_session sess p.members) r x in
          elim (Option-cases (request_of_session sess p.join_requests)) [
            | inl e'' ↦ rw (e, leave_session) (rw (e', leave_session) (ground (arith, e'', x, at)))
            | inr (uid, e'') ↦
                let q = record p { join_requests = delete uid p.join_requests } in
                rw (e, leave_session)
                  (rw (e', leave_session)
                    (ground (arith, e'', put-IndexOk pid p q r e' refl x, at)))
          ]
    ]
  ]

  promote-IndexOk :
      (now : ℕ) (pid sess : String) (t : Presence) (r : Registry V)
      → IndexOk r
      → IndexOk (promote now pid sess t r).0
  unfolding promote touch
  promote-IndexOk now pid sess t r x = elim (Result-cases (require_leader pid sess r)) [
    | inr (y, e) ↦ rw (e, promote) x
    | inl (p, e) ↦
        let at = require_leader-lookup pid sess p r e in
        elim (Option-cases (lookup t.user_id p.members)) [
          | inl e' ↦
              rw (e, promote) (rw (e', promote) (put-IndexOk pid p (touch now p) r at refl x))
          | inr (m, e') ↦
              rw (e, promote)
                (rw (e', promote)
                  (ground (
                    arith,
                    put-IndexOk pid p (touch now p) r at refl x,
                    put-IndexOk pid p (record (touch now p) { leader_id = m.user_id }) r at refl x,
                  )))
        ]
  ]

  update-IndexOk :
      (unmarshal : String → Option ℕ) (now : ℕ) (pid sess label : String) (o g : Bool)
      (r : Registry V)
      → IndexOk r
      → IndexOk (update unmarshal now pid sess label o g r).0
  unfolding update touch
  update-IndexOk unmarshal now pid sess label o g r x =
      elim (Result-cases (require_leader pid sess r)) [
        | inr (y, e) ↦ rw (e, update) x
        | inl (p, e) ↦
            let q = record (touch now p) {
              is_open = o;
              hidden = g;
              label = normalize_label label;
            } in
            let at = require_leader-lookup pid sess p r e in
            rw (e, update) (ground (arith, x, put-IndexOk pid p q r at refl x))
      ]

  update_member_properties-IndexOk :
      (now : ℕ) (pid user : String) (ps : Dict String V) (r : Registry V)
      → IndexOk r
      → IndexOk (update_member_properties now pid user ps r).0
  unfolding update_member_properties touch put_party
  update_member_properties-IndexOk now pid user ps r x = elim (Option-cases (find_party pid r)) [
    | inl e ↦ rw (e, update_member_properties) x
    | inr (p, e) ↦ elim (Option-cases (lookup user p.members)) [
      | inl e' ↦ rw (e, update_member_properties) (rw (e', update_member_properties) x)
      | inr (m, e') ↦
          let m' = record m { properties = set_properties ps m.properties } in
          let q = touch now (record p { members = insert user m' p.members }) in
          let same_members : (u : String) → has u q.members ≡ has u p.members =
            λ u. ground (arith, e', lookup-insert u user m' p.members) in
          rw (e, update_member_properties)
            (rw (e', update_member_properties)
              (IsIndexed-put pid p q r.parties r.by_user (find_party-lookup pid p r e) same_members
                x))
    ]
  ]

  perform-IndexOk :
      (unmarshal : String → Option ℕ) (c : Call V) (r : Registry V)
      → r.cfg.single_party ≡ true
      → IsRegistryOk r
      → IndexOk r
      → IsFresh c r
      → IndexOk (perform unmarshal c r)
  unfolding perform set_membership_change_hook
  perform-IndexOk un (create_call now fresh leader name sess o g n l) r s h x f =
      create-IndexOk un now fresh leader name sess o g n l r s h x f
  perform-IndexOk un (join_call now pid user name sess) r s h x f =
      join-IndexOk now pid user name sess r s x
  perform-IndexOk un (leave_call now pid user) r s h x f = leave-IndexOk now pid user r x
  perform-IndexOk un (leave_session_call now sess) r s h x f = leave_session-IndexOk now sess r x
  perform-IndexOk un (promote_call now pid sess t) r s h x f = promote-IndexOk now pid sess t r x
  perform-IndexOk un (accept_call now pid sess t) r s h x f = accept-IndexOk now pid sess t r s h x
  perform-IndexOk un (remove_call now pid sess t) r s h x f = remove-IndexOk now pid sess t r h x
  perform-IndexOk un (close_call pid sess) r s h x f = close-IndexOk pid sess r h x
  perform-IndexOk un (update_call now pid sess label o g) r s h x f =
      update-IndexOk un now pid sess label o g r x
  perform-IndexOk un (properties_call now pid user ps) r s h x f =
      update_member_properties-IndexOk now pid user ps r x
  perform-IndexOk un sweep_call r s h x f = rw (sweep_idle_lem r h) x
  perform-IndexOk un (hook_call on) r s h x f = x

  Reachable-IndexOk :
      (unmarshal : String → Option ℕ) (cfg : Config) {r : Registry V}
      → cfg.single_party ≡ true
      → Reachable unmarshal (new_registry_with_config cfg) r
      → (r.cfg.single_party ≡ true) × IndexOk r
  unfolding new_registry_with_config complete_config holds lookup
  Reachable-IndexOk un cfg single here = (single, record { listed = λ u p. ground arith })
  Reachable-IndexOk un cfg single (next {r = r} before c f) =
      let (s, x) = Reachable-IndexOk un cfg single before in
      (
        ap (λ k. k.single_party) (perform-cfg un c r) ∙ s,
        perform-IndexOk un c r s (Reachable-IsRegistryOk un cfg r before) x f,
      )

  -- When the single-party rule is on and each created party gets an unused id, then in every
  -- registry that calls can reach from a new one, two parties that hold the same user are the
  -- same party, and `byUser` names the party of a user exactly when that party holds the user.
  pub one_party_per_user :
      (unmarshal : String → Option ℕ) (cfg : Config) (r : Registry V)
      → cfg.single_party ≡ true
      → Reachable unmarshal (new_registry_with_config cfg) r
      → ((user p q : String)
          → holds p user r.parties ≡ true
          → holds q user r.parties ≡ true
          → p ≡ q)
        × ((user p : String) → (holds p user r.parties ≡ true) ↔ (lookup user r.by_user ≡ some p))
  one_party_per_user un cfg r single reached =
      let (_, x) = Reachable-IndexOk un cfg single reached in
      (
        λ user p q hp hq. cc ((x.listed user p).0 hp, (x.listed user q).0 hq),
        λ user p. x.listed user p,
      )
