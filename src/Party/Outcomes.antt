-- ===== src/Party/Outcomes.antt =====
-- internal/party/party.go: what a caller gets from `Join`, from leaving, and from a leader call.
use ultimate_game_server.Prelude.{
  ℕ, ◌≤◌, String, ◌≡◌, ◌≢◌, Bool, true, false, Option, none, some, arith, ◌==◌, string_key,
}
use ultimate_game_server.Dict.{
  lookup, delete, size, lookup-insert_self, delete-Distinct, Every, Every-delete,
}
use ultimate_game_server.Party.Types.{
  PartyMember, Presence, PartySession, Registry, not_leader, ok, err,
}
use ultimate_game_server.Party.Access.{
  find_party, put_party, notify_membership_change, touch, clone_party, leads, require_leader,
}
use ultimate_game_server.Party.Departure.{unindex_member, succession, leave_member, leave}
use ultimate_game_server.Party.Leadership.{promote, accept, remove, close}
use ultimate_game_server.Party.Lifecycle.{update}
use ultimate_game_server.Party.Succession.{oldest_from-lookup, oldest_from-le, oldest_from-some}
use ultimate_game_server.Party.Invariant.{find_party-IsPartyOk, IsRegistryOk}
use ultimate_game_server.Party.Exclusive.{succession-members}

module _ {V : Type 0} where
  -- A call that only the leader may make, made by a session that does not lead the party, is
  -- refused with `ErrNotLeader` by each of `Promote`, `Accept`, `Remove`, `Close` and `Update`,
  -- and leaves the registry as it was.
  pub not_leader_refused :
      (unmarshal : String → Option ℕ) (now : ℕ) (pid sess label : String) (o g : Bool)
      (target : Presence) (p : PartySession V) (r : Registry V)
      → find_party pid r ≡ some p
      → leads sess p ≡ false
      → (promote now pid sess target r ≡ (r, err not_leader))
        × (accept now pid sess target r ≡ (r, err not_leader))
        × (remove now pid sess target r ≡ (r, err not_leader))
        × (close pid sess r ≡ (r, err not_leader))
        × (update unmarshal now pid sess label o g r ≡ (r, err not_leader))
  unfolding promote accept remove close update
  not_leader_refused unmarshal now pid sess label o g target p r e l =
      let q : require_leader pid sess r ≡ err not_leader =
        unfold require_leader in (ground (arith, e, l)) in
      (rw (q, promote), rw (q, accept), rw (q, remove), rw (q, close), rw (q, update))

  -- In a registry whose parties are well formed, when a member other than the last one leaves, the
  -- call succeeds: its outcome is that of a member, the party is not dissolved, and the party it
  -- holds is a copy of the one that stays, with that member gone. If the leader left, the new leader
  -- is one of the members that remain, joined no later than any of them, and is named in the
  -- outcome; otherwise the leader stays and the outcome names none.
  pub leave_succession :
      (now : ℕ) (pid user : String) (p : PartySession V) (m : PartyMember V) (r : Registry V)
      → IsRegistryOk r
      → find_party pid r ≡ some p
      → lookup user p.members ≡ some m
      → (size (delete user p.members) == 0) ≡ false
      → (q : PartySession V) × (lookup pid (leave now pid user r).0.parties ≡ some q)
        × ((o : Option (PartyMember V)) × ((leave now pid user r).1
              ≡ ok (record {
                party = some (clone_party q);
                promoted_leader = o;
                dissolved = false;
                was_member = true;
              }))
            × (p.leader_id ≢ user → o ≡ none)
            × (p.leader_id ≡ user → o ≡ lookup q.leader_id q.members))
        × (q.members ≡ delete user p.members)
        × (p.leader_id ≢ user → q.leader_id ≡ p.leader_id)
        × (p.leader_id ≡ user
            → (n : PartyMember V) × (lookup q.leader_id q.members ≡ some n)
              × Every (λ u k. n.joined_at ≤ k.joined_at) q.members)
  unfolding leave leave_member notify_membership_change put_party touch succession unindex_member
  leave_succession now pid user p m r h e e' more =
      let rest = delete user p.members in
      let p' = record (touch now p) { members = rest } in
      let q = (succession user p').0 in
      let k = find_party-IsPartyOk pid p r h e in
      let (n, en) = oldest_from-some rest more in
      (
        q,
        ground (arith, e, e', more, lookup-insert_self pid q r.parties),
        (
          (succession user p').1,
          ground (arith, e, e', more),
          λ stays. ground arith,
          λ left. ground (
            arith,
            left,
            en,
            oldest_from-lookup rest n (delete-Distinct user p.members k.distinct)
                (Every-delete (λ u x. x.user_id ≡ u) user p.members k.keyed) en,
          ),
        ),
        succession-members user p',
        λ stays. ground arith,
        λ left. (
          n,
          ground (
            arith,
            left,
            en,
            oldest_from-lookup rest n (delete-Distinct user p.members k.distinct)
                (Every-delete (λ u x. x.user_id ≡ u) user p.members k.keyed) en,
          ),
          ground (arith, left, en, oldest_from-le rest n en),
        ),
      )
