-- ===== src/Party/Access.antt =====
-- internal/party/party.go: reading and writing one party of the registry.
use ultimate_game_server.Prelude.{
  ℕ, ◌+◌, ◌%◌, ◌^◌, String, Bool, false, Option, none, some, List, [], ◌∷◌, ◌++◌, ltb,
  if◌then◌else◌, same, string_key,
}
use ultimate_game_server.Dict.{lookup, insert}
use ultimate_game_server.Party.Types.{
  PartyMember, PartySession, Registry, party_not_found, not_leader, Result, ok, err,
}
use Prim.Native.Nat.{◌+◌, ◌%◌, ◌^◌}

module _ {V : Type 0} where
  -- `p, exists := r.parties[id]; !exists || p.closed`
  unfoldable pub find_party : String → Registry V → Option (PartySession V)
  find_party pid r = elim (lookup pid r.parties) [
    | none ↦ none
    | some p ↦ if p.closed then none else some p
  ]

  -- The party is mutated through its pointer, so the map sees the new value.
  unfoldable pub put_party : String → PartySession V → Registry V → Registry V
  put_party pid p r = record r { parties = insert pid p r.parties }

  unfoldable pub notify_membership_change : String → Registry V → Registry V
  notify_membership_change pid r = record r {
    notified = if r.hook then r.notified ++ (pid ∷ []) else r.notified;
  }

  unfoldable pub touch : ℕ → PartySession V → PartySession V
  touch now p = record p { last_active = now; activity = (p.activity + 1) % 2 ^ 64 }

  -- The snapshot that a caller receives: `closed` and `activity` are not copied.
  unfoldable pub clone_party : PartySession V → PartySession V
  clone_party p = record p { closed = false; activity = 0 }

  unfoldable pub new_member : ℕ → String → String → String → PartyMember V
  new_member now user name sess = record {
    user_id = user;
    username = name;
    session_id = sess;
    joined_at = now;
    properties = [];
  }

  unfoldable pub leads : String → PartySession V → Bool
  leads sess p = elim (lookup p.leader_id p.members) [
    | none ↦ false
    | some leader ↦ same leader.session_id sess
  ]

  unfoldable pub require_leader : String → String → Registry V → Result (PartySession V)
  unfolding find_party leads
  require_leader pid sess r = elim (find_party pid r) [
    | none ↦ err party_not_found
    | some p ↦ if leads sess p then ok p else err not_leader
  ]

  -- The loop of `leaveLocked`: the member that joined first, the earliest of the range on a tie.
  unfoldable pub oldest_from :
      Option (PartyMember V) → List (String × PartyMember V) → Option (PartyMember V)
  oldest_from best [] = best
  oldest_from none ((_, m) ∷ rest) = oldest_from (some m) rest
  oldest_from (some b) ((_, m) ∷ rest) =
      oldest_from (if ltb m.joined_at b.joined_at then some m else some b) rest
