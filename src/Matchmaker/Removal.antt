-- ===== src/Matchmaker/Removal.antt =====
-- internal/matchmaker/matchmaker.go: cancelling all tickets of a session or of a party.
use ultimate_game_server.Prelude.{
  String, ◌≡◌, refl, ap, ◌≢◌, inl, inr, true, false, none, some, List, [], ◌∷◌, arith,
  if◌then◌else◌, Option-cases, if_ind, same, elem, string_key,
}
use ultimate_game_server.Dict.{Dict, lookup, has, keys, lookup-delete, Every-delete}
use ultimate_game_server.Matchmaker.Ticket.{Ticket}
use ultimate_game_server.Matchmaker.Pool.{
  drop_ticket, cancel, cancel_each, party_ticket_ids, remove_party_all, remove_session_all, Pool,
}
use ultimate_game_server.Matchmaker.PoolOk.{cancel_each-IsPoolOk, IsPoolOk}
use ultimate_game_server.Dict.Sets.{KeySet}
use ultimate_game_server.Dict.Nested.{inner, related}

cancel-tickets :
    (id : String) (p : Pool) (x : String)
    → lookup x (cancel id p).tickets ≡ (if same x id then none else lookup x p.tickets)
unfolding cancel drop_ticket
cancel-tickets id p x = elim (Option-cases (lookup id p.tickets)) [
  | inl e ↦ ground (arith, e)
  | inr (t, e) ↦ ground (arith, e, lookup-delete x id p.tickets)
]

cancel_each-tickets :
    (ids : List String) (p : Pool) (x : String)
    → lookup x (cancel_each ids p).tickets ≡ (if elem x ids then none else lookup x p.tickets)
unfolding cancel_each
cancel_each-tickets [] p x = ground arith
cancel_each-tickets (id ∷ ids) p x =
    ground (arith, cancel_each-tickets ids (cancel id p) x, cancel-tickets id p x)

elem-keys : {V : Type 0} (x : String) (m : Dict String V) → elem x (keys m) ≡ has x m
unfolding lookup
elem-keys x [] = refl
elem-keys x ((k, v) ∷ m) = ground (arith, elem-keys x m)

elem-party_ticket_ids :
    (party : String) (m : Dict String Ticket) (x : String) (t : Ticket)
    → lookup x m ≡ some t
    → t.party_id ≡ party
    → elem x (party_ticket_ids party m) ≡ true
unfolding party_ticket_ids lookup
elem-party_ticket_ids party [] x t e h = ground (arith, e)
elem-party_ticket_ids party ((k, u) ∷ m) x t e h =
    ground (arith, e, h, elem-party_ticket_ids party m x t)

related-inner : (s x : String) (m : Dict String (KeySet String)) → related s x m ≡ has x (inner s m)
unfolding related inner lookup
related-inner s x m = elim (Option-cases (lookup s m)) [
  | inl e ↦ ground (arith, e)
  | inr (set, e) ↦ ground (arith, e)
]

remove_session_all-tickets :
    (sess : String) (p : Pool) (x : String)
    → lookup x (remove_session_all sess p).tickets
      ≡ (if related sess x p.session_tickets then none else lookup x p.tickets)
unfolding remove_session_all
remove_session_all-tickets sess p x =
    let ids = keys (inner sess p.session_tickets) in
    ground (
      arith,
      cancel_each-tickets ids p x,
      elem-keys x (inner sess p.session_tickets),
      related-inner sess x p.session_tickets,
    )

-- On a well-formed pool `RemoveSessionAll` leaves no ticket of the session in the pool, and keeps
-- every ticket whose id the session does not list.
pub remove_session_all_lem :
    (sess : String) (p : Pool)
    → IsPoolOk p
    → ((x : String) (t : Ticket)
        → lookup x (remove_session_all sess p).tickets ≡ some t
        → t.session_id ≢ sess)
      × ((x : String)
          → related sess x p.session_tickets ≡ false
          → lookup x (remove_session_all sess p).tickets ≡ lookup x p.tickets)
remove_session_all_lem sess p ok = (
  λ x t e eq. ground (
    arith,
    e,
    eq,
    remove_session_all-tickets sess p x,
    ok.listed x t,
    ap (λ s. related s x p.session_tickets) eq,
  ),
  λ x n. ground (arith, n, remove_session_all-tickets sess p x),
)

-- `RemovePartyAll` for a party id that is not blank leaves no ticket of the party in the pool.
pub remove_party_all_lem :
    (party : String) (p : Pool)
    → party ≢ ""
    → (x : String) (t : Ticket) → lookup x (remove_party_all party p).tickets ≡ some t
    → t.party_id ≢ party
unfolding remove_party_all
remove_party_all_lem party p ne x t e eq =
    let ids = party_ticket_ids party p.tickets in
    ground
      (arith, ne, e, eq, cancel_each-tickets ids p x, elem-party_ticket_ids party p.tickets x t)

-- Without a session's entry the tickets of the other sessions are still listed.
pub remove_session_all-IsPoolOk :
    (sess : String) (p : Pool) → IsPoolOk p → IsPoolOk (remove_session_all sess p)
unfolding remove_session_all
remove_session_all-IsPoolOk sess p ok =
    let ids = keys (inner sess p.session_tickets) in
    let p' = cancel_each ids p in
    let ok' = cancel_each-IsPoolOk ids p ok in
    record {
      limited = ok'.limited;
      submitted = ok'.submitted;
      listed = λ x t e.
          unfold related in
          ground (
            arith,
            (remove_session_all_lem sess p ok).0 x t e,
            ok'.listed x t e,
            lookup-delete t.session_id sess p'.session_tickets,
          );
      bounded = Every-delete _ sess p'.session_tickets ok'.bounded;
    }

pub remove_party_all-IsPoolOk :
    (party : String) (p : Pool) → IsPoolOk p → IsPoolOk (remove_party_all party p)
unfolding remove_party_all
remove_party_all-IsPoolOk party p ok =
    if_ind IsPoolOk (same party "") (λ blank. ok)
      (λ named. cancel_each-IsPoolOk (party_ticket_ids party p.tickets) p ok)
