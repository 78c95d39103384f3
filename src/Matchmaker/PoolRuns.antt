-- ===== src/Matchmaker/PoolRuns.antt =====
-- internal/matchmaker/matchmaker.go: the pool through any sequence of calls.
use ultimate_game_server.Prelude.{ℕ, String, Option, List, [], ◌∷◌, ◌≤ℤ◌, pos, string_key}
use ultimate_game_server.Matchmaker.Ticket.{Presence, Ticket, MatchmakerConfig}
use ultimate_game_server.Matchmaker.Pool.{
  new_pool, submit, party_ticket, submit_party, cancel, remove_party_all, remove_session_all, Pool,
}
use ultimate_game_server.Matchmaker.PoolOk.{
  new_pool-IsPoolOk, submit-IsPoolOk, cancel-IsPoolOk, IsPoolOk,
}
use ultimate_game_server.Matchmaker.Removal.{remove_session_all-IsPoolOk, remove_party_all-IsPoolOk}

-- The exported methods that change the pool, between two ticks.
pub data PoolCall : Type 0 where
  submit_call : ℕ → String → String → Ticket → PoolCall
  submit_party_call :
      ℕ → String → String → String → Presence → List (Option Presence) → Ticket → PoolCall
  cancel_call : String → PoolCall
  remove_party_call : String → PoolCall
  remove_session_call : String → PoolCall

unfoldable pub perform : PoolCall → Pool → Pool
perform (submit_call now fid fs t) p = (submit now fid fs t p).0
perform (submit_party_call now fid fs fp leader members t) p =
    (submit_party now fid fs fp leader members t p).0
perform (cancel_call id) p = cancel id p
perform (remove_party_call party) p = remove_party_all party p
perform (remove_session_call sess) p = remove_session_all sess p

unfoldable pub run : List PoolCall → Pool → Pool
unfolding perform
run [] p = p
run (c ∷ cs) p = run cs (perform c p)

submit_party-IsPoolOk :
    (now : ℕ) (fid fs fp : String) (leader : Presence) (members : List (Option Presence))
    (t : Ticket) (p : Pool)
    → IsPoolOk p
    → IsPoolOk (submit_party now fid fs fp leader members t p).0
unfolding submit_party
submit_party-IsPoolOk now fid fs fp leader members t p ok =
    submit-IsPoolOk now fid fs (party_ticket fp leader members t) p ok

perform-IsPoolOk : (c : PoolCall) (p : Pool) → IsPoolOk p → IsPoolOk (perform c p)
unfolding perform
perform-IsPoolOk (submit_call now fid fs t) p ok = submit-IsPoolOk now fid fs t p ok
perform-IsPoolOk (submit_party_call now fid fs fp leader members t) p ok =
    submit_party-IsPoolOk now fid fs fp leader members t p ok
perform-IsPoolOk (cancel_call id) p ok = cancel-IsPoolOk id p ok
perform-IsPoolOk (remove_party_call party) p ok = remove_party_all-IsPoolOk party p ok
perform-IsPoolOk (remove_session_call sess) p ok = remove_session_all-IsPoolOk sess p ok

run_lem : (cs : List PoolCall) (p : Pool) → IsPoolOk p → IsPoolOk (run cs p)
unfolding run
run_lem [] p ok = ok
run_lem (c ∷ cs) p ok = run_lem cs (perform c p) (perform-IsPoolOk c p ok)

-- After any calls on a pool that started empty, under a positive ticket limit: each ticket in the
-- pool has a positive count and count multiple, a least count of two or more, and a greatest count
-- no smaller than its least count and its count; each is listed under its session; and no session
-- lists more tickets than the limit.
pub run-IsPoolOk :
    (config : MatchmakerConfig) (cs : List PoolCall)
    → pos 1 ≤ℤ config.max_tickets
    → IsPoolOk (run cs (new_pool config))
run-IsPoolOk config cs h = run_lem cs (new_pool config) (new_pool-IsPoolOk config h)
