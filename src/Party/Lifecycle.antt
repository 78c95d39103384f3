-- ===== src/Party/Lifecycle.antt =====
-- internal/party/party.go: the configuration, `Create`, `Update`, `GetParty`, `SweepIdle` and the
-- small queries. `uuid.New()` is the argument `fresh`, the time is the argument `now`.
use ultimate_game_server.Prelude.{
  ℕ, String, Bool, true, false, ◌||◌, Option, none, some, [], ◌∷◌, ◌==◌, if◌then◌else◌, same, ltb_ℤ,
  leb_ℤ, is_zero_ℤ, ℤ, pos, string_key,
}
use ultimate_game_server.Dict.{Dict, lookup, insert, size}
use ultimate_game_server.Party.Types.{
  default_max_size, absolute_max_size, PartySession, Config, Registry, party_not_found,
  invalid_max_size, Result, ok, err,
}
use ultimate_game_server.Party.Access.{
  find_party, put_party, touch, clone_party, new_member, require_leader,
}
use ultimate_game_server.Party.Membership.{index_member}
use ultimate_game_server.Party.Departure.{leave}
use ultimate_game_server.Party.Label.{normalize_label, validate_label}
use Prim.Native.String.{◌++◌ as concat}

abbrev pub default_config : Config
default_config = record {
  node = "local";
  single_party = true;
  default_max_size = default_max_size;
  absolute_max_size = absolute_max_size;
  idle_check_ms = pos 30000;
}

unfoldable pub complete_config : Config → Config
complete_config c = record c {
  absolute_max_size =
      if leb_ℤ c.absolute_max_size (pos 0) then absolute_max_size else c.absolute_max_size;
  default_max_size =
      if leb_ℤ c.default_max_size (pos 0) then default_max_size else c.default_max_size;
  node = if same c.node "" then "local" else c.node;
}

module _ {V : Type 0} where
  unfoldable pub new_registry_with_config : Config → Registry V
  unfolding complete_config
  new_registry_with_config c = record {
    parties = [];
    by_user = [];
    by_sess = [];
    cfg = complete_config c;
    hook = false;
    notified = [];
  }

  unfoldable pub new_registry : Registry V
  unfolding new_registry_with_config
  new_registry = new_registry_with_config default_config

  unfoldable pub set_membership_change_hook : Bool → Registry V → Registry V
  set_membership_change_hook set r = record r { hook = set }

  unfoldable pub get_party : String → Registry V → Result (PartySession V)
  get_party pid r = elim (find_party pid r) [
    | none ↦ err party_not_found
    | some p ↦ ok (clone_party p)
  ]

  unfoldable pub party_id_for_session : String → Registry V → Option String
  party_id_for_session sess r = lookup sess r.by_sess

  unfoldable pub count : Registry V → ℕ
  count r = size r.parties

  -- The loop of `SweepIdle`: closed parties and parties with no member are deleted.
  unfoldable pub sweep : Dict String (PartySession V) → Dict String (PartySession V)
  sweep [] = []
  sweep ((id, p) ∷ rest) =
      let kept = sweep rest in if p.closed || size p.members == 0 then kept else (id, p) ∷ kept

  unfoldable pub sweep_idle : Registry V → Registry V
  unfolding sweep
  sweep_idle r = record r { parties = sweep r.parties }

  -- With the single-party rule the creator leaves its party first; the result is not looked at.
  unfoldable pub leave_before_create : ℕ → String → Registry V → Registry V
  leave_before_create now leader r =
      if r.cfg.single_party
      then (elim (lookup leader r.by_user) [ none ↦ r | some prev ↦ (leave now prev leader r).0 ])
      else r

  unfoldable pub new_party :
      ℕ → String → String → String → String → Bool → Bool → ℤ → String → Config → PartySession V
  new_party now pid leader name sess is_open hidden max_size label cfg = record {
    party_id = pid;
    leader_id = leader;
    is_open = is_open;
    hidden = hidden;
    max_size = max_size;
    label = label;
    members = insert leader (new_member now leader name sess) [];
    join_requests = [];
    node = cfg.node;
    create_time = now;
    last_active = now;
    closed = false;
    activity = 1;
  }

  unfoldable pub create_valid :
      ℕ
      → String
      → String
      → String
      → String
      → Bool
      → Bool
      → ℤ
      → String
      → Registry V
      → Registry V × Result (PartySession V)
  unfolding leave_before_create new_party
  create_valid now fresh leader name sess is_open hidden max_size label r =
      let r' = leave_before_create now leader r in
      let pid = concat (concat fresh ".") r'.cfg.node in
      let p = new_party now pid leader name sess is_open hidden max_size label r'.cfg in
      (index_member pid leader sess (put_party pid p r'), ok (clone_party p))

  module _ (unmarshal : String → Option ℕ) where
    unfoldable pub create :
        ℕ
        → String
        → String
        → String
        → String
        → Bool
        → Bool
        → ℤ
        → String
        → Registry V
        → Registry V × Result (PartySession V)
    create now fresh leader name sess is_open hidden asked_size label r =
        let max_size = if is_zero_ℤ asked_size then r.cfg.default_max_size else asked_size in
        let label' = normalize_label label in
        if ltb_ℤ max_size (pos 1) || ltb_ℤ r.cfg.absolute_max_size max_size
        then (r, err invalid_max_size)
        else (elim (validate_label unmarshal label' hidden) [
          | some e ↦ (r, err e)
          | none ↦ create_valid now fresh leader name sess is_open hidden max_size label' r
        ])

    unfoldable pub update :
        ℕ
        → String
        → String
        → String
        → Bool
        → Bool
        → Registry V
        → Registry V × Result (PartySession V)
    update now pid sess label is_open hidden r = elim (require_leader pid sess r) [
      | err e ↦ (r, err e)
      | ok p ↦
          let label' = normalize_label label in
          let q = record (touch now p) { is_open = is_open; hidden = hidden; label = label' } in
          elim (validate_label unmarshal label' hidden) [
            | some e ↦ (r, err e)
            | none ↦ (put_party pid q r, ok (clone_party q))
          ]
    ]
