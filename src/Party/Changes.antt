-- ===== src/Party/Changes.antt =====
-- internal/party/party.go: the remaining changes of one party keep it well-formed.
use ultimate_game_server.Prelude.{
  ℕ, String, ◌≡◌, refl, ◌∙◌, Bool, true, false, some, arith, ltb_ℤ, leb_ℤ, ℤ, pos, string_key,
}
use ultimate_game_server.Dict.{
  lookup, has, insert, delete, size, lookup-insert, lookup-delete, insert-Distinct, delete-Distinct,
  size-insert_new, size-insert_old, size-delete-le, Every-insert, Every-delete, Every-lookup,
}
use ultimate_game_server.Party.Types.{PartyMember, JoinRequest, PartySession, Config}
use ultimate_game_server.Party.Access.{new_member}
use ultimate_game_server.Party.Lifecycle.{new_party}
use ultimate_game_server.Party.WellFormed.{IsPartyOk}

module _ {V : Type 0} where
  -- A request is queued where there is room and the user is neither a member nor in the queue.
  pub request-IsPartyOk :
      (pid user : String) (q : JoinRequest) (p : PartySession V)
      → IsPartyOk pid p
      → q.user_id ≡ user
      → has user p.members ≡ false
      → has user p.join_requests ≡ false
      → leb_ℤ p.max_size (pos (size p.join_requests)) ≡ false
      → IsPartyOk pid (record p { join_requests = insert user q p.join_requests })
  request-IsPartyOk pid user q p h k outside new room = record {
    live = h.live;
    named = h.named;
    distinct = h.distinct;
    keyed = h.keyed;
    led = h.led;
    bounded = h.bounded;
    asked_distinct = insert-Distinct user q p.join_requests h.asked_distinct;
    asked_keyed = Every-insert (λ u x. x.user_id ≡ u) user q p.join_requests k h.asked_keyed;
    asked_bounded = ground (arith, size-insert_new user q p.join_requests);
    separate = λ u i. ground (arith, h.separate u, lookup-insert u user q p.join_requests);
  }

  pub withdraw-IsPartyOk :
      (pid user : String) (p : PartySession V)
      → IsPartyOk pid p
      → IsPartyOk pid (record p { join_requests = delete user p.join_requests })
  withdraw-IsPartyOk pid user p h = record {
    live = h.live;
    named = h.named;
    distinct = h.distinct;
    keyed = h.keyed;
    led = h.led;
    bounded = h.bounded;
    asked_distinct = delete-Distinct user p.join_requests h.asked_distinct;
    asked_keyed = Every-delete (λ u q. q.user_id ≡ u) user p.join_requests h.asked_keyed;
    asked_bounded = ground (arith, h.asked_bounded, size-delete-le user p.join_requests);
    separate = λ u i. ground (arith, h.separate u, lookup-delete u user p.join_requests);
  }

  pub relead-IsPartyOk :
      (pid leader : String) (p : PartySession V)
      → IsPartyOk pid p
      → has leader p.members ≡ true
      → IsPartyOk pid (record p { leader_id = leader })
  relead-IsPartyOk pid leader p h l = record {
    live = h.live;
    named = h.named;
    distinct = h.distinct;
    keyed = h.keyed;
    led = l;
    bounded = h.bounded;
    asked_distinct = h.asked_distinct;
    asked_keyed = h.asked_keyed;
    asked_bounded = h.asked_bounded;
    separate = h.separate;
  }

  pub relabel-IsPartyOk :
      (pid label : String) (is_open hidden : Bool) (p : PartySession V)
      → IsPartyOk pid p
      → IsPartyOk pid (record p { is_open = is_open; hidden = hidden; label = label })
  relabel-IsPartyOk pid label is_open hidden p h = record {
    live = h.live;
    named = h.named;
    distinct = h.distinct;
    keyed = h.keyed;
    led = h.led;
    bounded = h.bounded;
    asked_distinct = h.asked_distinct;
    asked_keyed = h.asked_keyed;
    asked_bounded = h.asked_bounded;
    separate = h.separate;
  }

  -- A member's record is replaced by another of the same user.
  pub rewrite-IsPartyOk :
      (pid user : String) (m m' : PartyMember V) (p : PartySession V)
      → IsPartyOk pid p
      → lookup user p.members ≡ some m
      → m'.user_id ≡ m.user_id
      → IsPartyOk pid (record p { members = insert user m' p.members })
  rewrite-IsPartyOk pid user m m' p h i k = record {
    live = h.live;
    named = h.named;
    distinct = insert-Distinct user m' p.members h.distinct;
    keyed =
        Every-insert (λ u q. q.user_id ≡ u) user m' p.members
          (k ∙ Every-lookup (λ u (q : PartyMember V). q.user_id ≡ u) user m p.members i h.keyed)
          h.keyed;
    led = ground (arith, h.led, lookup-insert p.leader_id user m' p.members);
    bounded = ground (arith, h.bounded, size-insert_old user m' m p.members);
    asked_distinct = h.asked_distinct;
    asked_keyed = h.asked_keyed;
    asked_bounded = h.asked_bounded;
    separate = λ u j. ground (arith, h.separate u, lookup-insert u user m' p.members);
  }

  pub new_party-IsPartyOk :
      (now : ℕ) (pid leader name sess : String) (is_open hidden : Bool) (max_size : ℤ)
      (label : String) (cfg : Config)
      → ltb_ℤ max_size (pos 1) ≡ false
      → IsPartyOk pid (new_party {V = V} now pid leader name sess is_open hidden max_size label cfg)
  unfolding new_party new_member insert lookup
  new_party-IsPartyOk now pid leader name sess is_open hidden max_size label cfg h = record {
    live = refl;
    named = refl;
    distinct = (refl, tt);
    keyed = (refl, tt);
    led = ground arith;
    bounded = ground arith;
    asked_distinct = tt;
    asked_keyed = tt;
    asked_bounded = ground arith;
    separate = λ u i. refl;
  }
