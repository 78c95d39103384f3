-- ===== src/Party/Calls.antt =====
-- internal/party/party.go: any sequence of calls on a new registry.
use ultimate_game_server.Prelude.{ℕ, String, ◌≡◌, refl, Bool, Option, none, ℤ, string_key}
use ultimate_game_server.Dict.{Dict, lookup}
use ultimate_game_server.Party.Types.{Presence, Config, Registry}
use ultimate_game_server.Party.Membership.{join, update_member_properties}
use ultimate_game_server.Party.Departure.{leave, leave_session}
use ultimate_game_server.Party.Leadership.{promote, accept, remove, close}
use ultimate_game_server.Party.Lifecycle.{
  new_registry_with_config, set_membership_change_hook, sweep_idle, create, update,
}
use ultimate_game_server.Party.Invariant.{IsRegistryOk-parties, join-IsRegistryOk, IsRegistryOk}
use ultimate_game_server.Party.Preservation.{
  leave-IsRegistryOk, leave_session-IsRegistryOk, promote-IsRegistryOk,
}
use ultimate_game_server.Party.LeaderCalls.{
  accept-IsRegistryOk, remove-IsRegistryOk, close-IsRegistryOk,
}
use ultimate_game_server.Party.OtherCalls.{
  create-IsRegistryOk, update-IsRegistryOk, update_member_properties-IsRegistryOk, sweep_idle_lem,
  new_registry_with_config-IsRegistryOk,
}
use Prim.Native.String.{◌++◌ as concat}

-- The exported methods that change the registry, with their arguments and the time.
pub data Call (V : Type 0) : Type 0 where
  create_call : ℕ → String → String → String → String → Bool → Bool → ℤ → String → Call V
  join_call : ℕ → String → String → String → String → Call V
  leave_call : ℕ → String → String → Call V
  leave_session_call : ℕ → String → Call V
  promote_call : ℕ → String → String → Presence → Call V
  accept_call : ℕ → String → String → Presence → Call V
  remove_call : ℕ → String → String → Presence → Call V
  close_call : String → String → Call V
  update_call : ℕ → String → String → String → Bool → Bool → Call V
  properties_call : ℕ → String → String → Dict String V → Call V
  sweep_call : Call V
  hook_call : Bool → Call V

module _ {V : Type 0} where
  -- `uuid.New()` gives `Create` an id that no party has.
  abbrev pub IsFresh : Call V → Registry V → Type 0
  IsFresh (create_call now fresh leader name sess o h n l) r =
      lookup (concat (concat fresh ".") r.cfg.node) r.parties ≡ none
  IsFresh _ r = Unit

module _ {V : Type 0} (unmarshal : String → Option ℕ) where
  unfoldable pub perform : Call V → Registry V → Registry V
  perform (create_call now fresh leader name sess o h n l) r =
      (create unmarshal now fresh leader name sess o h n l r).0
  perform (join_call now pid user name sess) r = (join now pid user name sess r).0
  perform (leave_call now pid user) r = (leave now pid user r).0
  perform (leave_session_call now sess) r = (leave_session now sess r).0
  perform (promote_call now pid sess target) r = (promote now pid sess target r).0
  perform (accept_call now pid sess target) r = (accept now pid sess target r).0
  perform (remove_call now pid sess target) r = (remove now pid sess target r).0
  perform (close_call pid sess) r = (close pid sess r).0
  perform (update_call now pid sess label o h) r = (update unmarshal now pid sess label o h r).0
  perform (properties_call now pid user ps) r = (update_member_properties now pid user ps r).0
  perform sweep_call r = sweep_idle r
  perform (hook_call on) r = set_membership_change_hook on r

  pub data Reachable (start : Registry V) : Registry V → Type 0 where
    here : Reachable start start
    next :
        {r : Registry V}
        → Reachable start r
        → (c : Call V) → IsFresh c r
        → Reachable start (perform c r)

  perform-IsRegistryOk : (c : Call V) (r : Registry V) → IsRegistryOk r → IsRegistryOk (perform c r)
  unfolding perform set_membership_change_hook
  perform-IsRegistryOk (create_call now fresh leader name sess o g n l) r h =
      create-IsRegistryOk unmarshal now fresh leader name sess o g n l r h
  perform-IsRegistryOk (join_call now pid user name sess) r h =
      join-IsRegistryOk now pid user name sess r h
  perform-IsRegistryOk (leave_call now pid user) r h = leave-IsRegistryOk now pid user r h
  perform-IsRegistryOk (leave_session_call now sess) r h = leave_session-IsRegistryOk now sess r h
  perform-IsRegistryOk (promote_call now pid sess t) r h = promote-IsRegistryOk now pid sess t r h
  perform-IsRegistryOk (accept_call now pid sess t) r h = accept-IsRegistryOk now pid sess t r h
  perform-IsRegistryOk (remove_call now pid sess t) r h = remove-IsRegistryOk now pid sess t r h
  perform-IsRegistryOk (close_call pid sess) r h = close-IsRegistryOk pid sess r h
  perform-IsRegistryOk (update_call now pid sess label o g) r h =
      update-IsRegistryOk unmarshal now pid sess label o g r h
  perform-IsRegistryOk (properties_call now pid user ps) r h =
      update_member_properties-IsRegistryOk now pid user ps r h
  perform-IsRegistryOk sweep_call r h = rw (sweep_idle_lem r h) h
  perform-IsRegistryOk (hook_call on) r h = IsRegistryOk-parties r _ refl h

  -- Whatever calls are made on a new registry, in any order and with any answers, each party in
  -- it is not closed, has a leader among its members, has at most `max_size` members and
  -- at most `max_size` requests, no user is both a member and a requester, and every member
  -- and request stands under its own user.
  pub Reachable-IsRegistryOk :
      (cfg : Config) (r : Registry V) → Reachable (new_registry_with_config cfg) r → IsRegistryOk r
  Reachable-IsRegistryOk cfg r reached = go reached
    where
      go : {s : Registry V} → Reachable (new_registry_with_config cfg) s → IsRegistryOk s
      go here = new_registry_with_config-IsRegistryOk cfg
      go (next before c f) = perform-IsRegistryOk c _ (go before)
