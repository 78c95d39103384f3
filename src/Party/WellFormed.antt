-- ===== src/Party/WellFormed.antt =====
-- internal/party/party.go: what holds of every party between two calls, and how the changes of
-- one party keep it.
use ultimate_game_server.Prelude.{ℕ, String, ◌≡◌, true, false, arith, ◌≤ℤ◌, leb_ℤ, pos, string_key}
use ultimate_game_server.Dict.{
  has, Distinct, size, lookup-insert, lookup-delete, insert-Distinct, delete-Distinct,
  size-insert_new, size-delete-le, Every, Every-insert, Every-delete,
}
use ultimate_game_server.Party.Types.{PartyMember, PartySession}
use ultimate_game_server.Party.Access.{touch}
use ultimate_game_server.Party.Membership.{admit}

module _ {V : Type 0} where
  pub record IsPartyOk (pid : String) (p : PartySession V) : Type 0 where
    pub live : p.closed ≡ false
    pub named : p.party_id ≡ pid
    pub distinct : Distinct p.members
    pub keyed : Every (λ u m. m.user_id ≡ u) p.members
    pub led : has p.leader_id p.members ≡ true
    pub bounded : pos (size p.members) ≤ℤ p.max_size
    pub asked_distinct : Distinct p.join_requests
    pub asked_keyed : Every (λ u q. q.user_id ≡ u) p.join_requests
    pub asked_bounded : pos (size p.join_requests) ≤ℤ p.max_size
    pub separate : (u : String) → has u p.members ≡ true → has u p.join_requests ≡ false

  pub touch-IsPartyOk :
      (now : ℕ) (pid : String) (p : PartySession V) → IsPartyOk pid p → IsPartyOk pid (touch now p)
  unfolding touch
  touch-IsPartyOk now pid p h = record {
    live = h.live;
    named = h.named;
    distinct = h.distinct;
    keyed = h.keyed;
    led = h.led;
    bounded = h.bounded;
    asked_distinct = h.asked_distinct;
    asked_keyed = h.asked_keyed;
    asked_bounded = h.asked_bounded;
    separate = h.separate;
  }

  -- A member enters where there is room; its request goes.
  pub admit-IsPartyOk :
      (now : ℕ) (pid user : String) (m : PartyMember V) (p : PartySession V)
      → IsPartyOk pid p
      → m.user_id ≡ user
      → has user p.members ≡ false
      → leb_ℤ p.max_size (pos (size p.members)) ≡ false
      → IsPartyOk pid (admit now user m p)
  unfolding admit
  admit-IsPartyOk now pid user m p h k new room = record {
    live = h.live;
    named = h.named;
    distinct = insert-Distinct user m p.members h.distinct;
    keyed = Every-insert (λ u q. q.user_id ≡ u) user m p.members k h.keyed;
    led = ground (arith, h.led, lookup-insert p.leader_id user m p.members);
    bounded = ground (arith, h.bounded, size-insert_new user m p.members);
    asked_distinct = delete-Distinct user p.join_requests h.asked_distinct;
    asked_keyed = Every-delete (λ u q. q.user_id ≡ u) user p.join_requests h.asked_keyed;
    asked_bounded = ground (arith, h.asked_bounded, size-delete-le user p.join_requests);
    separate = λ u i. ground (
      arith,
      h.separate u,
      lookup-insert u user m p.members,
      lookup-delete u user p.join_requests,
    );
  }
