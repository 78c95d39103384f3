-- ===== src/Leaderboard/Deadlines.antt =====
-- internal/leaderboard/deadlines.go: when a leaderboard or tournament is active. Times are Unix
-- seconds. A cron expression is a parameter: when it fires next after a time, when it fired last,
-- both the zero time if never, and its next `n` times, or all there are; `none` is no expression. In
-- a result, `none` is a panic.
use ultimate_game_server.Prelude.{
  ℕ, Bool, true, false, not, ◌&&◌, Option, none, some, List, [], ◌∷◌, if◌then◌else◌, ◌>>=◌, ltb_ℤ,
  leb_ℤ, eqb_ℤ, is_zero_ℤ, add_ℤ, ℤ, pos, negsuc, string_key,
}
use mathlib.Core.Option
use ultimate_game_server.Leaderboard.RankCache.{expiry_key}
use ultimate_game_server.Presence.Stream.{stream_key}

pub record Schedule : Type 0 where
  pub next : ℤ → ℤ
  pub last : ℤ → ℤ
  pub next_n : ℤ → ℕ → List ℤ

pub record Deadlines : Type 0 where
  pub start_active : ℤ
  pub end_active : ℤ
  pub expiry : ℤ

-- `if endActiveUnix > expiryUnix { endActiveUnix = expiryUnix }`
unfoldable pub cap_end : Deadlines → Deadlines
cap_end d = if ltb_ℤ d.expiry d.end_active then record d { end_active = d.expiry } else d

unfoldable pub first_start : Schedule → ℤ → ℤ → ℤ
first_start sched start now =
    if ltb_ℤ now start
    then sched.next start
    else if eqb_ℤ (sched.next (add_ℤ now (negsuc 0))) now
    then now
    else sched.last now

-- `schedules[0]` and `schedules[1]`
unfoldable pub first_two : List ℤ → Option (ℤ × ℤ)
first_two [] = none
first_two (a ∷ []) = none
first_two (a ∷ b ∷ ts) = some (a, b)

-- The next occurrence and its end.
unfoldable pub next_occurrence : Schedule → ℤ → ℤ → Option Deadlines
unfolding cap_end first_two
next_occurrence sched start duration = do
  (a, b) ← first_two (sched.next_n start 2)
  some (cap_end (record { start_active = a; end_active = add_ℤ a duration; expiry = b }))

-- Not before the start of the tournament.
unfoldable pub after_start : Schedule → ℤ → ℤ → Deadlines → Option Deadlines
unfolding next_occurrence
after_start sched start duration d =
    if ltb_ℤ d.end_active start
    then next_occurrence sched start duration
    else if ltb_ℤ d.start_active start
    then some (record d { start_active = start })
    else some d

-- Not beyond the end of the tournament, if it has one.
unfoldable pub before_end : ℤ → Deadlines → Deadlines
unfolding cap_end
before_end end d =
    if ltb_ℤ (pos 0) end && ltb_ℤ end d.expiry then cap_end (record d { expiry = end }) else d

unfoldable pub scheduled_deadlines : Schedule → ℤ → ℤ → ℤ → ℤ → Option Deadlines
unfolding cap_end first_start after_start before_end
scheduled_deadlines sched start end duration now =
    let s = first_start sched start now in
    Option.map (before_end end) (
      after_start sched start duration (
        cap_end
          (record { start_active = s; end_active = add_ℤ s duration; expiry = sched.next s })))

-- `CalculateTournamentDeadlines`
unfoldable pub tournament_deadlines : Option Schedule → ℤ → ℤ → ℤ → ℤ → Option Deadlines
unfolding scheduled_deadlines
tournament_deadlines none start end duration now =
    let stop = add_ℤ start duration in
    some (record {
      start_active = start;
      end_active = if ltb_ℤ (pos 0) end && ltb_ℤ end stop then end else stop;
      expiry = end;
    })
tournament_deadlines (some sched) start end duration now =
    scheduled_deadlines sched start end duration now

-- `CalculatePrevReset`
unfoldable pub prev_reset : Option Schedule → ℤ → ℤ → ℤ
prev_reset none now start = pos 0
prev_reset (some sched) now start = if ltb_ℤ now start then pos 0 else sched.last now

-- What the deadlines need of a leaderboard: the parsed reset schedule, `none` if it is empty or
-- wrong, and the end, `none` if it is the zero time.
pub record BoardTimes : Type 0 where
  pub duration : ℤ
  pub start_time : ℤ
  pub end_time : Option ℤ
  pub schedule : Option Schedule

unfoldable pub is_tournament : BoardTimes → Bool
is_tournament lb = ltb_ℤ (pos 0) lb.duration

-- `if !lb.EndTime.IsZero() && lb.EndTime.Unix() > 0 { endUnix = lb.EndTime.Unix() }`
unfoldable pub end_unix : BoardTimes → ℤ
end_unix lb = elim lb.end_time [ none ↦ pos 0 | some t ↦ if ltb_ℤ (pos 0) t then t else pos 0 ]

-- The expiry and whether records are possible.
unfoldable pub current_expiry : ℤ → Deadlines → ℤ × Bool
current_expiry now d =
    if not (is_zero_ℤ d.expiry) && leb_ℤ d.expiry now then (pos 0, false) else (d.expiry, true)

-- `CalculateExpiry`
unfoldable pub calculate_expiry : BoardTimes → ℤ → ℤ → Option (ℤ × Bool)
unfolding tournament_deadlines is_tournament end_unix current_expiry
calculate_expiry lb override now =
    if not (is_zero_ℤ override)
    then some (override, true)
    else if is_tournament lb
    then Option.map (current_expiry now)
        (tournament_deadlines lb.schedule lb.start_time (end_unix lb) lb.duration now)
    else elim lb.schedule [ none ↦ some (pos 0, true) | some sched ↦ some (sched.next now, true) ]

-- `ActiveDeadlines`
unfoldable pub active_deadlines : BoardTimes → ℤ → Option Deadlines
unfolding tournament_deadlines is_tournament end_unix prev_reset
active_deadlines lb now =
    if is_tournament lb
    then tournament_deadlines lb.schedule lb.start_time (end_unix lb) lb.duration now
    else elim lb.schedule [
      | none ↦ some (record { start_active = lb.start_time; end_active = pos 0; expiry = pos 0 })
      | some sched ↦ some (record {
        start_active = prev_reset (some sched) now lb.start_time;
        end_active = sched.next now;
        expiry = sched.next now;
      })
    ]
