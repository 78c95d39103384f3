-- ===== src/Matchmaker/Pool.antt =====
-- internal/matchmaker/matchmaker.go: the pool of tickets, as kept without Redis (`mm.rdb == nil`).
-- The clock and the ids that `uuid.New` makes are arguments; a status payload is kept as the ticket
-- that its JSON encodes.
use ultimate_game_server.Prelude.{
  ℕ, String, Bool, true, false, Option, none, some, List, [], ◌∷◌, ◌++◌, if◌then◌else◌, length,
  same, leb_ℤ, ℤ, pos, string_key,
}
use ultimate_game_server.Dict.{Dict, lookup, has, insert, delete, size, keys}
use ultimate_game_server.Matchmaker.Ticket.{Presence, Ticket, MatchmakerConfig}
use ultimate_game_server.Matchmaker.Pairing.{waited_less}
use ultimate_game_server.Matchmaker.Prepare.{text_or, prepare_ticket, counts_invalid}
use ultimate_game_server.Dict.Sets.{KeySet, add}
use ultimate_game_server.Dict.Nested.{inner, unrelate}

pub record Pool : Type 0 where
  pub config : MatchmakerConfig
  pub tickets : Dict String Ticket
  pub ticket_status : Dict String Ticket
  pub session_tickets : Dict String (KeySet String)
  pub submit_times : Dict String (List ℕ)

pub data SubmitError : Type 0 where
  too_many_tickets : SubmitError
  rate_limited : SubmitError
  invalid_ticket : SubmitError

unfoldable pub new_pool : MatchmakerConfig → Pool
new_pool config = record {
  config = config;
  tickets = [];
  ticket_status = [];
  session_tickets = [];
  submit_times = [];
}

-- The times after the cutoff.
unfoldable pub recent : ℕ → ℤ → List ℕ → List ℕ
unfolding waited_less
recent now window [] = []
recent now window (ts ∷ times) =
    let rest = recent now window times in if waited_less now ts window then ts ∷ rest else rest

unfoldable pub times_of : String → Dict String (List ℕ) → List ℕ
times_of user m = elim (lookup user m) [ none ↦ [] | some times ↦ times ]

unfoldable pub check_rate_limit : ℕ → String → Pool → Pool × Bool
unfolding recent times_of
check_rate_limit now user p =
    let filtered = recent now p.config.rate_limit_window_sec (times_of user p.submit_times) in
    if leb_ℤ p.config.rate_limit_max (pos (length filtered))
    then (record p { submit_times = insert user filtered p.submit_times }, false)
    else (record p { submit_times = insert user (filtered ++ (now ∷ [])) p.submit_times }, true)

-- The end of `submitLocked`, on a prepared ticket and after the rate limit.
unfoldable pub admit_ticket : Ticket → Pool → Pool × Option SubmitError
unfolding inner
admit_ticket t p =
    let set = inner t.session_id p.session_tickets in
    if leb_ℤ p.config.max_tickets (pos (size set))
    then (
      record p { session_tickets = insert t.session_id set p.session_tickets },
      some too_many_tickets,
    )
    else (
      record p {
        tickets = insert t.id t p.tickets;
        ticket_status = insert t.id t p.ticket_status;
        session_tickets = insert t.session_id (add t.id set) p.session_tickets;
      },
      none,
    )

-- `Submit`, of a ticket that is not nil.
unfoldable pub submit : ℕ → String → String → Ticket → Pool → Pool × Option SubmitError
unfolding prepare_ticket counts_invalid check_rate_limit admit_ticket
submit now fresh_id fresh_session t p =
    let t' = prepare_ticket now fresh_id fresh_session p.config t in
    let (p', allowed) = check_rate_limit now t'.user_id p in
    if counts_invalid t'
    then (p, some invalid_ticket)
    else (if allowed then admit_ticket t' p' else (p', some rate_limited))

-- The members of a party ticket: the leader, then the others, each user once.
unfoldable pub party_presences : KeySet String → List (Option Presence) → List Presence
party_presences seen [] = []
party_presences seen (none ∷ ms) = party_presences seen ms
party_presences seen (some m ∷ ms) =
    let skipped = party_presences seen ms in
    let taken = party_presences (add m.user_id seen) ms in
    if has m.user_id seen then skipped else m ∷ taken

-- The ticket that `SubmitParty` makes of a leader, the others, and a ticket.
unfoldable pub party_ticket : String → Presence → List (Option Presence) → Ticket → Ticket
unfolding party_presences
party_ticket fresh_party leader members t =
    let presences = leader ∷ party_presences (add leader.user_id []) members in
    record t {
      user_id = leader.user_id;
      username = leader.username;
      session_id = leader.session_id;
      presences = presences;
      count = pos (length presences);
      party_id = text_or t.party_id fresh_party;
    }

-- `SubmitParty`, of a leader and a ticket that are not nil.
unfoldable pub submit_party :
    ℕ
    → String
    → String
    → String
    → Presence
    → List (Option Presence)
    → Ticket
    → Pool
    → Pool × Option SubmitError
unfolding submit party_ticket
submit_party now fresh_id fresh_session fresh_party leader members t p =
    submit now fresh_id fresh_session (party_ticket fresh_party leader members t) p

-- Where `cancelLocked` has found the ticket.
unfoldable pub drop_ticket : String → Ticket → Pool → Pool
unfolding unrelate
drop_ticket id t p = record p {
  tickets = delete id p.tickets;
  ticket_status = insert id (record t { status = "cancelled" }) p.ticket_status;
  session_tickets = unrelate t.session_id id p.session_tickets;
}

unfoldable pub cancel : String → Pool → Pool
unfolding drop_ticket
cancel id p = elim (lookup id p.tickets) [ none ↦ p | some t ↦ drop_ticket id t p ]

unfoldable pub cancel_each : List String → Pool → Pool
unfolding cancel
cancel_each [] p = p
cancel_each (id ∷ ids) p = cancel_each ids (cancel id p)

-- The ids whose ticket is the party's.
unfoldable pub party_ticket_ids : String → Dict String Ticket → List String
party_ticket_ids party [] = []
party_ticket_ids party ((id, t) ∷ m) =
    let rest = party_ticket_ids party m in if same t.party_id party then id ∷ rest else rest

unfoldable pub remove_party_all : String → Pool → Pool
unfolding cancel_each party_ticket_ids
remove_party_all party p =
    if same party "" then p else cancel_each (party_ticket_ids party p.tickets) p

unfoldable pub remove_session_all : String → Pool → Pool
unfolding cancel_each inner
remove_session_all sess p =
    let p' = cancel_each (keys (inner sess p.session_tickets)) p in
    record p' { session_tickets = delete sess p'.session_tickets }
