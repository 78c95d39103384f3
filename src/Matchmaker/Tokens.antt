-- ===== src/Matchmaker/Tokens.antt =====
-- internal/matchmaker/matchmaker.go: match tokens, as kept without Redis. The token, which the code
-- makes of an HMAC and a nonce, is an argument of `mint_match_token`.
use ultimate_game_server.Prelude.{
  ℕ, suc, ◌+◌, ◌-◌, ◌*◌, ◌≤◌, String, inl, inr, Bool, true, false, not, ◌&&◌, ◌||◌, Option, none,
  some, List, [], ◌∷◌, arith, ltb, if◌then◌else◌, Option-cases, is_some, same, ℤ, pos, negsuc,
  string_key,
}
use ultimate_game_server.Dict.{Dict, lookup, insert, lookup-insert}
use ultimate_game_server.Matchmaker.Ticket.{Presence}
use ultimate_game_server.Matchmaker.Occurrences.{bit}

pub record MatchTokenRecord : Type 0 where
  pub match_id : String
  pub users : List Presence
  pub ticket_ids : Dict String String
  pub expires_at : ℕ
  pub consumed : Bool

-- The fields of `MatchResult` that a consumed token gives.
pub record MatchResult : Type 0 where
  pub match_id : String
  pub users : List Presence
  pub ticket_ids : Dict String String
  pub match_token : String

abbrev pub MatchTokens : Type 0
MatchTokens = Dict String MatchTokenRecord

-- `t.Add(time.Duration(sec) * time.Second)`
unfoldable pub add_seconds : ℕ → ℤ → ℕ
add_seconds t (pos s) = t + s * 1000000000
add_seconds t (negsuc s) = t - suc s * 1000000000

unfoldable pub mint_match_token :
    ℕ → ℤ → String → String → List Presence → Dict String String → MatchTokens → MatchTokens
unfolding add_seconds
mint_match_token now ttl token match_id users ticket_ids m =
    insert token
      (record {
        match_id = match_id;
        users = users;
        ticket_ids = ticket_ids;
        expires_at = add_seconds now ttl;
        consumed = false;
      })
      m

-- `none` is `ErrTokenInvalid`.
unfoldable pub consume_match_token : ℕ → String → MatchTokens → MatchTokens × Option MatchResult
consume_match_token now token m = elim (lookup token m) [
  | none ↦ (m, none)
  | some rec ↦ if same token "" || (rec.consumed || ltb rec.expires_at now) then (m, none) else (
    insert token (record rec { consumed = true }) m,
    some (record {
      match_id = rec.match_id;
      users = rec.users;
      ticket_ids = rec.ticket_ids;
      match_token = token;
    }),
  )
]

pub data TokenCall : Type 0 where
  mint_call : ℕ → ℤ → String → String → List Presence → Dict String String → TokenCall
  consume_call : ℕ → String → TokenCall

unfoldable pub perform : TokenCall → MatchTokens → MatchTokens
perform (mint_call now ttl token match_id users ids) m =
    mint_match_token now ttl token match_id users ids m
perform (consume_call now token) m = (consume_match_token now token m).0

-- How often a token is minted in a run, and how often it is accepted.
unfoldable pub mints : String → List TokenCall → ℕ
mints k [] = 0
mints k (mint_call now ttl token match_id users ids ∷ cs) = bit (same k token) + mints k cs
mints k (consume_call now token ∷ cs) = mints k cs

unfoldable pub accepted : String → List TokenCall → MatchTokens → ℕ
accepted k [] m = 0
accepted k (mint_call now ttl token match_id users ids ∷ cs) m =
    accepted k cs (mint_match_token now ttl token match_id users ids m)
accepted k (consume_call now token ∷ cs) m =
    bit (same k token && is_some (consume_match_token now token m).1)
    + accepted k cs (consume_match_token now token m).0

-- The token can still be accepted.
unfoldable pub open_token : String → MatchTokens → Bool
open_token k m = elim (lookup k m) [ none ↦ false | some rec ↦ not rec.consumed ]

consume-open_token :
    (now : ℕ) (token k : String) (m : MatchTokens)
    → bit (same k token && is_some (consume_match_token now token m).1)
        + bit (open_token k (consume_match_token now token m).0)
      ≤ bit (open_token k m)
unfolding consume_match_token open_token
consume-open_token now token k m = elim (Option-cases (lookup token m)) [
  | inl e ↦ ground (arith, e)
  | inr (rec, e) ↦ ground (arith, e, lookup-insert k token (record rec { consumed = true }) m)
]

mint-open_token :
    (now : ℕ) (ttl : ℤ) (token match_id : String) (users : List Presence) (ids : Dict String String)
    (k : String) (m : MatchTokens)
    → bit (open_token k (mint_match_token now ttl token match_id users ids m))
      ≤ bit (same k token) + bit (open_token k m)
unfolding mint_match_token open_token
mint-open_token now ttl token match_id users ids k m =
    let rec : MatchTokenRecord = record {
      match_id = match_id;
      users = users;
      ticket_ids = ids;
      expires_at = add_seconds now ttl;
      consumed = false;
    } in
    ground (arith, lookup-insert k token rec m)

accepted_lem :
    (k : String) (cs : List TokenCall) (m : MatchTokens)
    → accepted k cs m ≤ bit (open_token k m) + mints k cs
unfolding accepted mints
accepted_lem k [] m = ground arith
accepted_lem k (mint_call now ttl token match_id users ids ∷ cs) m =
    let m' = mint_match_token now ttl token match_id users ids m in
    ground (arith, accepted_lem k cs m', mint-open_token now ttl token match_id users ids k m)
accepted_lem k (consume_call now token ∷ cs) m =
    ground (
      arith,
      consume-open_token now token k m,
      accepted_lem k cs (consume_match_token now token m).0,
    )

-- In any run that starts without tokens, a token is accepted at most as often as it is minted.
pub accepted_once : (k : String) (cs : List TokenCall) → accepted k cs [] ≤ mints k cs
unfolding open_token lookup
accepted_once k cs = ground (arith, accepted_lem k cs [])
