-- ===== src/Tests/PartyRuns.antt =====
-- Runs of internal/party/party.go.
use ultimate_game_server.Prelude.{
  ℕ, ◌≤◌, ◌<◌, String, ◌≡◌, refl, ◌≢◌, ◌↔◌, ◌⊎◌, true, false, Option, none, some, [], ◌∷◌, ◌==◌,
  String-discrete, pos, string_key,
}
use ultimate_game_server.Dict.{lookup, has, insert, delete, Distinct, size, keys, Every}
use ultimate_game_server.Party.Types.{
  PartyMember, Presence, PartySession, Registry, not_leader, party_full, ok, err,
}
use ultimate_game_server.Party.Access.{
  find_party, put_party, notify_membership_change, touch, clone_party, new_member, leads,
  require_leader, oldest_from,
}
use ultimate_game_server.Party.Membership.{in_other_party, admit, index_member, join_touched, join}
use ultimate_game_server.Party.Departure.{not_a_member, leave_member, leave, leave_session}
use ultimate_game_server.Party.Leadership.{promote, accept, remove, close}
use ultimate_game_server.Party.Label.{is_blank, normalize_label, validate_label}
use ultimate_game_server.Party.Lifecycle.{
  default_config, new_registry_with_config, sweep_idle, create_valid, create, update,
}
use ultimate_game_server.Party.Invariant.{IsRegistryOk}
use ultimate_game_server.Party.Sweep.{lookup-sweep_idle}
use ultimate_game_server.Party.Index.{holds}
use ultimate_game_server.Party.Calls.{
  IsFresh, perform, Reachable-IsRegistryOk, Call, create_call, join_call, Reachable, here, next,
}
use ultimate_game_server.Party.ExclusiveRuns.{one_party_per_user}
use ultimate_game_server.Party.Outcomes.{not_leader_refused, leave_succession}
use ultimate_game_server.Party.Requests.{
  has_joined, is_queued, join_memberships, queued_request_outlives_session,
}

program : Unit {0}
unfolding String-discrete lookup insert delete find_party put_party notify_membership_change touch
    clone_party new_member leads require_leader oldest_from in_other_party admit index_member
    join_touched join leave_member leave leave_session promote accept remove close create update
    is_blank normalize_label validate_label create_valid new_registry_with_config sweep_idle perform
    holds
program = tt

-- A label is taken as an empty JSON object.
abbrev parse : String → Option ℕ
parse s = some 0

abbrev start : Registry ℕ
start = new_registry_with_config default_config

abbrev ann : Call ℕ
ann = create_call 10 "a" "ann" "Ann" "s1" true false (pos 2) ""

abbrev bob : Call ℕ
bob = join_call 11 "a.local" "bob" "Bob" "s2"

abbrev two : Registry ℕ
two = perform parse bob (perform parse ann start)

ann-IsFresh : IsFresh ann start
unfolding program
ann-IsFresh = refl

two_reached : Reachable parse start two
two_reached = next (next here ann ann-IsFresh) bob tt

two_members : keys two.by_user ≡ "ann" ∷ "bob" ∷ []
unfolding program
two_members = refl

third_is_refused : (join 12 "a.local" "cid" "Cid" "s3" two).1 ≡ err party_full
unfolding program
third_is_refused = refl

Reachable-IsRegistryOk_example : IsRegistryOk two
Reachable-IsRegistryOk_example = Reachable-IsRegistryOk parse default_config two two_reached

one_party_per_user_example :
    ((user p q : String)
      → holds p user two.parties ≡ true
      → holds q user two.parties ≡ true
      → p ≡ q)
    × ((user p : String) → (holds p user two.parties ≡ true) ↔ (lookup user two.by_user ≡ some p))
one_party_per_user_example = one_party_per_user parse default_config two refl two_reached

abbrev member : ℕ → String → String → String → PartyMember ℕ
member now user name sess = record {
  user_id = user;
  username = name;
  session_id = sess;
  joined_at = now;
  properties = [];
}

abbrev party : PartySession ℕ
party = record {
  party_id = "a.local";
  leader_id = "ann";
  is_open = true;
  hidden = false;
  max_size = pos 2;
  label = "{}";
  members = ("ann", member 10 "ann" "Ann" "s1") ∷ ("bob", member 11 "bob" "Bob" "s2") ∷ [];
  join_requests = [];
  node = "local";
  create_time = 10;
  last_active = 11;
  closed = false;
  activity = 2;
}

party_found : find_party "a.local" two ≡ some party
unfolding program
party_found = refl

abbrev bob_presence : Presence
bob_presence = record { user_id = "bob"; username = "Bob"; session_id = "s2" }

bob_leads_not : leads "s2" party ≡ false
unfolding program
bob_leads_not = refl

not_leader_refused_example :
    (promote 20 "a.local" "s2" bob_presence two ≡ (two, err not_leader))
    × (accept 20 "a.local" "s2" bob_presence two ≡ (two, err not_leader))
    × (remove 20 "a.local" "s2" bob_presence two ≡ (two, err not_leader))
    × (close "a.local" "s2" two ≡ (two, err not_leader))
    × (update parse 20 "a.local" "s2" "{}" true false two ≡ (two, err not_leader))
not_leader_refused_example =
    not_leader_refused parse 20 "a.local" "s2" "{}" true false bob_presence party two party_found
      bob_leads_not

ann_in_party : lookup "ann" party.members ≡ some (member 10 "ann" "Ann" "s1")
unfolding program
ann_in_party = refl

bob_remains : (size (delete "ann" party.members) == 0) ≡ false
unfolding program
bob_remains = refl

leave_succession_example :
    (q : PartySession ℕ) × (lookup "a.local" (leave 20 "a.local" "ann" two).0.parties ≡ some q)
    × ((o : Option (PartyMember ℕ)) × ((leave 20 "a.local" "ann" two).1
          ≡ ok (record {
            party = some (clone_party q);
            promoted_leader = o;
            dissolved = false;
            was_member = true;
          }))
        × (party.leader_id ≢ "ann" → o ≡ none)
        × (party.leader_id ≡ "ann" → o ≡ lookup q.leader_id q.members))
    × (q.members ≡ delete "ann" party.members)
    × (party.leader_id ≢ "ann" → q.leader_id ≡ party.leader_id)
    × (party.leader_id ≡ "ann"
        → (n : PartyMember ℕ) × (lookup q.leader_id q.members ≡ some n)
          × Every (λ u k. n.joined_at ≤ k.joined_at) q.members)
leave_succession_example =
    leave_succession 20 "a.local" "ann" party (member 10 "ann" "Ann" "s1") two
      Reachable-IsRegistryOk_example party_found ann_in_party bob_remains

join_memberships_example :
    (holds "a.local" "cid" (join 12 "a.local" "cid" "Cid" "s3" two).0.parties ≡ true) ↔ (
      (holds "a.local" "cid" two.parties ≡ true)
      ⊎ (◌≡◌ {A = String} "a.local" "a.local"
          × ◌≡◌ {A = String} "cid" "cid"
          × (has_joined (join 12 "a.local" "cid" "Cid" "s3" two).1 ≡ true)))
join_memberships_example = join_memberships 12 "a.local" "cid" "Cid" "s3" two "a.local" "cid"

-- A closed party of one, where a second user has to ask.
abbrev closed_start : Registry ℕ
closed_start = perform parse (create_call 10 "a" "ann" "Ann" "s1" false false (pos 2) "") start

no_session_yet : lookup "s2" closed_start.by_sess ≡ none
unfolding program
no_session_yet = refl

bob_queued : is_queued (join 11 "a.local" "bob" "Bob" "s2" closed_start).1 ≡ true
unfolding program
bob_queued = refl

queued_request_outlives_session_example :
    (leave_session 20 "s2" (join 11 "a.local" "bob" "Bob" "s2" closed_start).0
      ≡ ((join 11 "a.local" "bob" "Bob" "s2" closed_start).0, ok (not_a_member none)))
    × ((p : PartySession ℕ) × (lookup "a.local"
            (join 11 "a.local" "bob" "Bob" "s2" closed_start).0.parties
          ≡ some p)
        × (has "bob" p.join_requests ≡ true))
queued_request_outlives_session_example =
    queued_request_outlives_session 11 20 "a.local" "bob" "Bob" "s2" closed_start no_session_yet
      bob_queued

-- A party that nobody is in, beside one of two members.
abbrev leftover : Registry ℕ
leftover = record two {
  parties = ("b.local", record party { members = [] }) ∷ ("a.local", party) ∷ [];
}

leftover-Distinct : Distinct leftover.parties
unfolding program
leftover-Distinct = (refl, (refl, tt))

lookup-sweep_idle_example :
    ((lookup "a.local" (sweep_idle leftover).parties ≡ some party) ↔ (
      (lookup "a.local" leftover.parties ≡ some party)
      × (party.closed ≡ false)
      × (0 < size party.members)))
    × ((sweep_idle leftover).by_user ≡ leftover.by_user)
    × ((sweep_idle leftover).by_sess ≡ leftover.by_sess)
lookup-sweep_idle_example = lookup-sweep_idle "a.local" party leftover leftover-Distinct
