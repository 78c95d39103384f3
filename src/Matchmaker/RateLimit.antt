-- ===== src/Matchmaker/RateLimit.antt =====
-- internal/matchmaker/matchmaker.go: what the rate limit of submits lets through.
use ultimate_game_server.Prelude.{
  ℕ, ◌≤◌, String, ◌≡◌, refl, sym, ap, ◌∙◌, Bool, List, [], ◌∷◌, ◌++◌, arith, if◌then◌else◌, if_ind,
  length, length-append, ◌≤ℤ◌, leb_ℤ, ℤ, pos, negsuc, string_key,
}
use ultimate_game_server.Dict.{Dict, lookup, insert, lookup-insert_self}
use ultimate_game_server.Matchmaker.Ticket.{MatchmakerConfig}
use ultimate_game_server.Matchmaker.Pairing.{waited_less}
use ultimate_game_server.Matchmaker.Pool.{new_pool, recent, times_of, check_rate_limit, Pool}

recent-recent :
    (last now : ℕ) (w : ℤ) (log : List ℕ)
    → last ≤ now
    → recent now w (recent last w log) ≡ recent now w log
unfolding recent waited_less
recent-recent last now w [] h = refl
recent-recent last now (pos s) (ts ∷ log) h =
    ground (arith, h, recent-recent last now (pos s) log h)
recent-recent last now (negsuc s) (ts ∷ log) h =
    ground (arith, h, recent-recent last now (negsuc s) log h)

recent-append :
    (now : ℕ) (w : ℤ) (log more : List ℕ)
    → recent now w (log ++ more) ≡ recent now w log ++ recent now w more
unfolding recent
recent-append now w [] more = refl
recent-append now w (ts ∷ log) more = ground (arith, recent-append now w log more)

recent_now : (now : ℕ) (w : ℤ) → pos 1 ≤ℤ w → recent now w (now ∷ []) ≡ now ∷ []
unfolding recent waited_less
recent_now now (pos s) h = ground (arith, h)
recent_now now (negsuc s) h = ground (arith, h)

length-recent : (now : ℕ) (w : ℤ) (log : List ℕ) → length (recent now w log) ≤ length log
unfolding recent
length-recent now w [] = omega arith
length-recent now w (ts ∷ log) = ground (arith, length-recent now w log)

times_of-insert :
    (user : String) (xs : List ℕ) (m : Dict String (List ℕ)) → times_of user (insert user xs m) ≡ xs
unfolding times_of
times_of-insert user xs m = ground (arith, lookup-insert_self user xs m)

-- Checks of one user at some times, with the times that they let through appended to a log.
unfoldable pub checks : String → List ℕ → Pool → List ℕ → Pool × List ℕ
checks user [] p log = (p, log)
checks user (now ∷ rest) p log =
    let (p', allowed) = check_rate_limit now user p in
    checks user rest p' (if allowed then log ++ (now ∷ []) else log)

-- The times do not go back, from a first one on.
abbrev pub Ordered : ℕ → List ℕ → Type 0
Ordered t [] = Unit
Ordered t (now ∷ rest) = t ≤ now × Ordered now rest

unfoldable pub latest : ℕ → List ℕ → ℕ
latest t [] = t
latest t (now ∷ rest) = latest now rest

-- The pool keeps the recent part of the log, which is within the limit.
record IsTracked (user : String) (t : ℕ) (cfg : MatchmakerConfig) (p : Pool) (log : List ℕ)
    : Type 0 where
  pub same_config : p.config ≡ cfg
  pub kept :
      recent t cfg.rate_limit_window_sec (times_of user p.submit_times)
      ≡ recent t cfg.rate_limit_window_sec log
  pub within : pos (length (recent t cfg.rate_limit_window_sec log)) ≤ℤ cfg.rate_limit_max

check-IsTracked :
    (user : String) (t now : ℕ) (cfg : MatchmakerConfig) (p : Pool) (log : List ℕ)
    → pos 1 ≤ℤ cfg.rate_limit_window_sec
    → t ≤ now
    → IsTracked user t cfg p log
    → IsTracked user now cfg
        (check_rate_limit now user p).0
        (if (check_rate_limit now user p).1 then log ++ (now ∷ []) else log)
unfolding check_rate_limit
check-IsTracked user t now cfg p log pw h tr =
    let w = cfg.rate_limit_window_sec in
    let times = times_of user p.submit_times in
    let filtered = recent now p.config.rate_limit_window_sec times in
    let of_log : filtered ≡ recent now w log =
      ap (λ (c : MatchmakerConfig). recent now c.rate_limit_window_sec times) tr.same_config
      ∙ sym (recent-recent t now w times h)
      ∙ ap (recent now w) tr.kept
      ∙ recent-recent t now w log h in
    let again : recent now w filtered ≡ recent now w log =
      ap (recent now w) of_log ∙ recent-recent now now w log (omega arith) in
    let no_more : length (recent now w log) ≤ length (recent t w log) =
      rw (sym (recent-recent t now w log h)) (length-recent now w (recent t w log)) in
    let stored = λ (xs : List ℕ). times_of-insert user xs p.submit_times in
    if_ind
      (λ (r : Pool × Bool). IsTracked user now cfg r.0 (if r.1 then log ++ (now ∷ []) else log))
      (leb_ℤ p.config.rate_limit_max (pos (length filtered)))
      (λ over. record {
        same_config = tr.same_config;
        kept = ap (recent now w) (stored filtered) ∙ again;
        within = ground (arith, no_more, tr.within);
      })
      (λ under. record {
        same_config = tr.same_config;
        kept =
            ap (recent now w) (stored (filtered ++ (now ∷ [])))
            ∙ recent-append now w filtered (now ∷ [])
            ∙ ap (λ xs. xs ++ recent now w (now ∷ [])) again
            ∙ sym (recent-append now w log (now ∷ []));
        within = ground (
          arith,
          under,
          ap length of_log,
          ap (λ (c : MatchmakerConfig). c.rate_limit_max) tr.same_config,
          ap length (recent-append now w log (now ∷ [])),
          ap length (recent_now now w pw),
          length-append (recent now w log) (recent now w (now ∷ [])),
        );
      })

checks_lem :
    (user : String) (times : List ℕ) (t : ℕ) (cfg : MatchmakerConfig) (p : Pool) (log : List ℕ)
    → pos 1 ≤ℤ cfg.rate_limit_window_sec
    → Ordered t times
    → IsTracked user t cfg p log
    → pos (length (recent (latest t times) cfg.rate_limit_window_sec (checks user times p log).1))
      ≤ℤ cfg.rate_limit_max
unfolding checks latest
checks_lem user [] t cfg p log pw o tr = tr.within
checks_lem user (now ∷ rest) t cfg p log pw (h, o) tr =
    let (p', allowed) = check_rate_limit now user p in
    checks_lem user rest now cfg p' (if allowed then log ++ (now ∷ []) else log) pw o
      (check-IsTracked user t now cfg p log pw h tr)

-- Of any checks of one user that never go back in time, on a pool that starts empty, under a limit
-- that is not negative and a window of at least one second: the window that ends at the last check
-- holds no more of the submits that were let through than the limit allows.
pub rate_limit_lem :
    (user : String) (first : ℕ) (times : List ℕ) (cfg : MatchmakerConfig)
    → pos 1 ≤ℤ cfg.rate_limit_window_sec
    → pos 0 ≤ℤ cfg.rate_limit_max
    → Ordered first times
    → pos (
        length (
          recent
            (latest first times)
            cfg.rate_limit_window_sec
            (checks user times (new_pool cfg) []).1))
      ≤ℤ cfg.rate_limit_max
rate_limit_lem user first times cfg pw pm o =
    checks_lem user times first cfg (new_pool cfg) [] pw o (
      unfold new_pool times_of recent lookup in
      (record { same_config = refl; kept = refl; within = ground (arith, pm) }))
