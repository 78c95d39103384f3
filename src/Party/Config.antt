-- ===== src/Party/Config.antt =====
-- internal/party/party.go: no call changes the configuration.
use ultimate_game_server.Prelude.{
  ℕ, String, ◌≡◌, refl, inl, inr, Bool, Option, [], ◌∷◌, arith, Option-cases, ℤ, string_key,
}
use ultimate_game_server.Dict.{Dict, lookup}
use ultimate_game_server.Party.Types.{Result-cases, PartyMember, Presence, Registry}
use ultimate_game_server.Party.Access.{
  find_party, put_party, notify_membership_change, touch, require_leader,
}
use ultimate_game_server.Party.Membership.{
  index_member, join_touched, join, update_member_properties,
}
use ultimate_game_server.Party.Departure.{
  dissolve, unindex_member, member_of_session, drop_session, leave_session,
}
use ultimate_game_server.Party.Leadership.{
  promote, leave_previous, accept_request, accept, kick, remove, unindex_all, close,
}
use ultimate_game_server.Party.Lifecycle.{
  set_membership_change_hook, sweep_idle, leave_before_create, create_valid, create, update,
}
use ultimate_game_server.Party.LeaveEffect.{leave-cfg}
use ultimate_game_server.Party.Calls.{
  perform, Call, create_call, join_call, leave_call, leave_session_call, promote_call, accept_call,
  remove_call, close_call, update_call, properties_call, sweep_call, hook_call,
}

module _ {V : Type 0} where
  join-cfg :
      (now : ℕ) (pid user name sess : String) (r : Registry V)
      → (join now pid user name sess r).0.cfg ≡ r.cfg
  unfolding join join_touched put_party notify_membership_change
  join-cfg now pid user name sess r = elim (Option-cases (find_party pid r)) [
    | inl e ↦ ground arith
    | inr (p, e) ↦ ground arith
  ]

  leave_session-cfg :
      (now : ℕ) (sess : String) (r : Registry V) → (leave_session now sess r).0.cfg ≡ r.cfg
  unfolding leave_session put_party drop_session
  leave_session-cfg now sess r = elim (Option-cases (lookup sess r.by_sess)) [
    | inl e ↦ ground arith
    | inr (pid, e) ↦ elim (Option-cases (lookup pid r.parties)) [
      | inl e' ↦ ground arith
      | inr (p, e') ↦ ground (arith, leave-cfg now pid (member_of_session sess p.members) r)
    ]
  ]

  leave_previous-cfg :
      (now : ℕ) (pid user : String) (r : Registry V) → (leave_previous now pid user r).cfg ≡ r.cfg
  unfolding leave_previous
  leave_previous-cfg now pid user r = elim (Option-cases (lookup user r.by_user)) [
    | inl e ↦ ground arith
    | inr (prev, e) ↦ ground (arith, leave-cfg now prev user r)
  ]

  leave_before_create-cfg :
      (now : ℕ) (user : String) (r : Registry V) → (leave_before_create now user r).cfg ≡ r.cfg
  unfolding leave_before_create
  leave_before_create-cfg now user r = elim (Option-cases (lookup user r.by_user)) [
    | inl e ↦ ground arith
    | inr (prev, e) ↦ ground (arith, leave-cfg now prev user r)
  ]

  promote-cfg :
      (now : ℕ) (pid sess : String) (t : Presence) (r : Registry V)
      → (promote now pid sess t r).0.cfg ≡ r.cfg
  unfolding promote put_party
  promote-cfg now pid sess t r = elim (Result-cases (require_leader pid sess r)) [
    | inl (p, e) ↦ ground arith
    | inr (x, e) ↦ ground arith
  ]

  accept-cfg :
      (now : ℕ) (pid sess : String) (t : Presence) (r : Registry V)
      → (accept now pid sess t r).0.cfg ≡ r.cfg
  unfolding accept accept_request put_party notify_membership_change index_member
  accept-cfg now pid sess t r = elim (Result-cases (require_leader pid sess r)) [
    | inr (x, e) ↦ ground arith
    | inl (p, e) ↦ elim (Option-cases (lookup t.user_id (touch now p).join_requests)) [
      | inl e' ↦ ground arith
      | inr (jr, e') ↦
          ground (arith, leave_previous-cfg now pid jr.user_id (put_party pid (touch now p) r))
    ]
  ]

  remove-cfg :
      (now : ℕ) (pid sess : String) (t : Presence) (r : Registry V)
      → (remove now pid sess t r).0.cfg ≡ r.cfg
  unfolding remove kick put_party notify_membership_change unindex_member
  remove-cfg now pid sess t r = elim (Result-cases (require_leader pid sess r)) [
    | inl (p, e) ↦ ground arith
    | inr (x, e) ↦ ground arith
  ]

  unindex_all-cfg :
      (l : Dict String (PartyMember V)) (r : Registry V) → (unindex_all l r).cfg ≡ r.cfg
  unfolding unindex_all unindex_member
  unindex_all-cfg [] r = refl
  unindex_all-cfg ((u, m) ∷ l) r = unindex_all-cfg l (unindex_member m.user_id m.session_id r)

  close-cfg : (pid sess : String) (r : Registry V) → (close pid sess r).0.cfg ≡ r.cfg
  unfolding close notify_membership_change dissolve
  close-cfg pid sess r = elim (Result-cases (require_leader pid sess r)) [
    | inl (p, e) ↦ ground (arith, unindex_all-cfg p.members r)
    | inr (x, e) ↦ ground arith
  ]

  create-cfg :
      (unmarshal : String → Option ℕ) (now : ℕ) (fresh leader name sess : String) (o g : Bool)
      (asked : ℤ) (label : String) (r : Registry V)
      → (create unmarshal now fresh leader name sess o g asked label r).0.cfg ≡ r.cfg
  unfolding create create_valid index_member put_party
  create-cfg unmarshal now fresh leader name sess o g asked label r =
      ground (arith, leave_before_create-cfg now leader r)

  update-cfg :
      (unmarshal : String → Option ℕ) (now : ℕ) (pid sess label : String) (o g : Bool)
      (r : Registry V)
      → (update unmarshal now pid sess label o g r).0.cfg ≡ r.cfg
  unfolding update put_party
  update-cfg unmarshal now pid sess label o g r = elim (Result-cases (require_leader pid sess r)) [
    | inl (p, e) ↦ ground arith
    | inr (x, e) ↦ ground arith
  ]

  update_member_properties-cfg :
      (now : ℕ) (pid user : String) (ps : Dict String V) (r : Registry V)
      → (update_member_properties now pid user ps r).0.cfg ≡ r.cfg
  unfolding update_member_properties put_party
  update_member_properties-cfg now pid user ps r = elim (Option-cases (find_party pid r)) [
    | inl e ↦ ground arith
    | inr (p, e) ↦ ground arith
  ]

  pub perform-cfg :
      (unmarshal : String → Option ℕ) (c : Call V) (r : Registry V)
      → (perform unmarshal c r).cfg ≡ r.cfg
  unfolding perform set_membership_change_hook sweep_idle
  perform-cfg un (create_call now fresh leader name sess o g n l) r =
      create-cfg un now fresh leader name sess o g n l r
  perform-cfg un (join_call now pid user name sess) r = join-cfg now pid user name sess r
  perform-cfg un (leave_call now pid user) r = leave-cfg now pid user r
  perform-cfg un (leave_session_call now sess) r = leave_session-cfg now sess r
  perform-cfg un (promote_call now pid sess t) r = promote-cfg now pid sess t r
  perform-cfg un (accept_call now pid sess t) r = accept-cfg now pid sess t r
  perform-cfg un (remove_call now pid sess t) r = remove-cfg now pid sess t r
  perform-cfg un (close_call pid sess) r = close-cfg pid sess r
  perform-cfg un (update_call now pid sess label o g) r = update-cfg un now pid sess label o g r
  perform-cfg un (properties_call now pid user ps) r =
      update_member_properties-cfg now pid user ps r
  perform-cfg un sweep_call r = refl
  perform-cfg un (hook_call on) r = refl
