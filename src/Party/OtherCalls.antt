-- ===== src/Party/OtherCalls.antt =====
-- internal/party/party.go: `Create`, `Update`, `UpdateMemberProperties` and `SweepIdle`.
use ultimate_game_server.Prelude.{
  ℕ, ◌<◌, String, ◌≡◌, refl, inl, inr, Bool, false, Option, [], ◌∷◌, arith, if◌then◌else◌,
  Option-cases, ltb_ℤ, is_zero_ℤ, ℤ, pos, string_key,
}
use ultimate_game_server.Dict.{Dict, lookup, size, size_pos, Every}
use ultimate_game_server.Party.Types.{Result-cases, PartySession, Config, Registry}
use ultimate_game_server.Party.Access.{find_party, put_party, touch, require_leader}
use ultimate_game_server.Party.Membership.{index_member, set_properties, update_member_properties}
use ultimate_game_server.Party.Label.{normalize_label, validate_label}
use ultimate_game_server.Party.Lifecycle.{
  new_registry_with_config, sweep, sweep_idle, leave_before_create, new_party, create_valid, create,
  update,
}
use ultimate_game_server.Party.WellFormed.{touch-IsPartyOk, IsPartyOk}
use ultimate_game_server.Party.Changes.{relabel-IsPartyOk, rewrite-IsPartyOk, new_party-IsPartyOk}
use ultimate_game_server.Party.Invariant.{
  find_party-IsPartyOk, put_party-IsRegistryOk, IsRegistryOk-parties, IsRegistryOk,
}
use ultimate_game_server.Party.Preservation.{leave-IsRegistryOk, require_leader-IsPartyOk}
use Prim.Native.String.{◌++◌ as concat}

module _ {V : Type 0} where
  leave_before_create-IsRegistryOk :
      (now : ℕ) (user : String) (r : Registry V)
      → IsRegistryOk r
      → IsRegistryOk (leave_before_create now user r)
  unfolding leave_before_create
  leave_before_create-IsRegistryOk now user r h = elim (Option-cases (lookup user r.by_user)) [
    | inl e ↦ ground arith
    | inr (prev, e) ↦ ground (arith, leave-IsRegistryOk now prev user r h)
  ]

  create_valid-IsRegistryOk :
      (now : ℕ) (fresh leader name sess : String) (is_open hidden : Bool) (max_size : ℤ)
      (label : String) (r : Registry V)
      → IsRegistryOk r
      → ltb_ℤ max_size (pos 1) ≡ false
      → IsRegistryOk (create_valid now fresh leader name sess is_open hidden max_size label r).0
  unfolding create_valid index_member
  create_valid-IsRegistryOk now fresh leader name sess is_open hidden max_size label r h k =
      let r' = leave_before_create now leader r in
      let pid = concat (concat fresh ".") r'.cfg.node in
      let p : PartySession V =
        new_party now pid leader name sess is_open hidden max_size label r'.cfg in
      IsRegistryOk-parties (put_party pid p r') (index_member pid leader sess (put_party pid p r'))
        refl
        (put_party-IsRegistryOk pid p r' (leave_before_create-IsRegistryOk now leader r h)
          (new_party-IsPartyOk now pid leader name sess is_open hidden max_size label r'.cfg k))

  -- `Create` keeps the registry well-formed.
  pub create-IsRegistryOk :
      (unmarshal : String → Option ℕ) (now : ℕ) (fresh leader name sess : String)
      (is_open hidden : Bool) (asked : ℤ) (label : String) (r : Registry V)
      → IsRegistryOk r
      → IsRegistryOk (create unmarshal now fresh leader name sess is_open hidden asked label r).0
  unfolding create
  create-IsRegistryOk unmarshal now fresh leader name sess is_open hidden asked label r h =
      let max_size = if is_zero_ℤ asked then r.cfg.default_max_size else asked in
      let label' = normalize_label label in
      elim (Option-cases (validate_label unmarshal label' hidden)) [
        | inl e ↦ ground (
          arith,
          e,
          create_valid-IsRegistryOk now fresh leader name sess is_open hidden max_size label' r h,
        )
        | inr (x, e) ↦ ground (arith, e)
      ]

  pub update-IsRegistryOk :
      (unmarshal : String → Option ℕ) (now : ℕ) (pid sess label : String) (is_open hidden : Bool)
      (r : Registry V)
      → IsRegistryOk r
      → IsRegistryOk (update unmarshal now pid sess label is_open hidden r).0
  unfolding update
  update-IsRegistryOk unmarshal now pid sess label is_open hidden r h =
      let label' = normalize_label label in
      elim (Result-cases (require_leader pid sess r)) [
        | inr (x, e) ↦ rw (e, update) h
        | inl (p, e) ↦
            let k = touch-IsPartyOk now pid p (require_leader-IsPartyOk pid sess p r h e) in
            elim (Option-cases (validate_label unmarshal label' hidden)) [
              | inr (x, e') ↦ rw (e, update) (rw (e', update) h)
              | inl e' ↦
                  rw (e, update)
                    (rw (e', update)
                      (put_party-IsRegistryOk pid _ r h
                        (relabel-IsPartyOk pid label' is_open hidden (touch now p) k)))
            ]
      ]

  pub update_member_properties-IsRegistryOk :
      (now : ℕ) (pid user : String) (properties : Dict String V) (r : Registry V)
      → IsRegistryOk r
      → IsRegistryOk (update_member_properties now pid user properties r).0
  unfolding update_member_properties
  update_member_properties-IsRegistryOk now pid user properties r h =
      elim (Option-cases (find_party pid r)) [
        | inl e ↦ rw (e, update_member_properties) h
        | inr (p, e) ↦ elim (Option-cases (lookup user p.members)) [
          | inl e' ↦ rw (e, update_member_properties) (rw (e', update_member_properties) h)
          | inr (m, e') ↦
              let m' = record m { properties = set_properties properties m.properties } in
              let k =
                rewrite-IsPartyOk pid user m m' p (find_party-IsPartyOk pid p r h e) e' refl in
              rw (e, update_member_properties)
                (rw (e', update_member_properties)
                  (put_party-IsRegistryOk pid _ r h (touch-IsPartyOk now pid _ k)))
        ]
      ]

  sweep_lem : (l : Dict String (PartySession V)) → Every IsPartyOk l → sweep l ≡ l
  unfolding sweep
  sweep_lem [] h = refl
  sweep_lem ((id, p) ∷ l) h =
      let member = Option-cases (lookup p.leader_id p.members) in
      let led = h.0.led in
      let busy : 0 < size p.members = elim member [
        | inl e ↦ absurd (ground arith)
        | inr (m, e) ↦ size_pos p.leader_id m p.members e
      ] in
      ground (arith, h.0.live, busy, sweep_lem l h.1)

  -- On a well-formed registry the idle sweep closes nothing.
  pub sweep_idle_lem : (r : Registry V) → IsRegistryOk r → sweep_idle r ≡ r
  unfolding sweep_idle
  sweep_idle_lem r h = rw (sweep_lem r.parties h.every)

  pub new_registry_with_config-IsRegistryOk :
      (c : Config) → IsRegistryOk (new_registry_with_config {V = V} c)
  unfolding new_registry_with_config
  new_registry_with_config-IsRegistryOk c = record { distinct = tt; every = tt }
