-- ===== src/Leaderboard/DeadlinesOk.antt =====
-- internal/leaderboard/deadlines.go: the bounds that the deadlines keep.
use ultimate_game_server.Prelude.{
  Bool, ℕ, zero, suc, ◌<◌, String, ◌≡◌, refl, sym, ◌∙◌, ◌⊎◌, inl, inr, true, false, not, ◌&&◌,
  Option, none, some, List, [], ◌∷◌, arith, Bool-cases, Option-cases, length, All, ◌≤ℤ◌, ◌<ℤ◌,
  ltb_ℤ, leb_ℤ, is_zero_ℤ, add_ℤ, ℤ, pos, negsuc, string_key,
}
use ultimate_game_server.Dict.{lookup}
use mathlib.Core.Option
use mathlib.Core.Path.{subst}
use ultimate_game_server.Leaderboard.RankCache.{
  RankCache, key_of, is_expired, trim_expired, expiry_key,
}
use ultimate_game_server.Leaderboard.RankCacheOk.{lookup-drop_where}
use ultimate_game_server.Leaderboard.Deadlines.{
  cap_end, first_start, first_two, next_occurrence, after_start, before_end, scheduled_deadlines,
  tournament_deadlines, is_tournament, end_unix, current_expiry, calculate_expiry, Schedule,
  Deadlines, BoardTimes,
}

-- `time.Time{}.Unix()`
abbrev pub zero_unix : ℤ
zero_unix = negsuc 62135596799

-- What is documented of a cron expression: the next time is a later one, or the zero time if there
-- is none, and the next `n` times, which may be fewer, are later ones.
pub record IsCron (sched : Schedule) : Type 0 where
  pub next_after : (t : ℤ) → (sched.next t ≡ zero_unix) ⊎ (t <ℤ sched.next t)
  pub all_after : (t : ℤ) (n : ℕ) → All (λ u. t <ℤ u) (sched.next_n t n)

-- The expression fires at most once after the start, where the code asks for two times.
abbrev pub FewTimes : Schedule → ℤ → Type 0
FewTimes sched start = length (sched.next_n start 2) < 2

first_two-none : (ts : List ℤ) → first_two ts ≡ none → length ts < 2
unfolding first_two
first_two-none [] e = ground arith
first_two-none (a ∷ []) e = ground arith
first_two-none (a ∷ b ∷ ts) e = ground arith

first_two-some :
    (P : ℤ → Type 0) (ts : List ℤ) (p : ℤ × ℤ) → All P ts → first_two ts ≡ some p → P p.0
unfolding first_two
first_two-some P [] p h e = ground arith
first_two-some P (a ∷ []) p h e = ground arith
first_two-some P (a ∷ b ∷ ts) p h e = let here : a ≡ p.0 = ground arith in subst P here h.0

cap_end_lem :
    (d : Deadlines)
    → ((cap_end d).end_active ≤ℤ d.expiry)
      × ((cap_end d).start_active ≡ d.start_active)
      × ((cap_end d).expiry ≡ d.expiry)
unfolding cap_end
cap_end_lem d = elim (Bool-cases (ltb_ℤ d.expiry d.end_active)) [
  | inl q ↦ rw q (ground arith, refl, refl)
  | inr q ↦ rw q (ground arith, refl, refl)
]

abbrev EndsInTime : Deadlines → Type 0
EndsInTime d = d.end_active ≤ℤ d.expiry

cap_end-EndsInTime : (d : Deadlines) → EndsInTime (cap_end d)
cap_end-EndsInTime d = let (a, _, e) = cap_end_lem d in rw e a

abbrev Bounded : ℤ → Deadlines → Type 0
Bounded start d = EndsInTime d × (start ≤ℤ d.start_active)

next_occurrence_lem :
    (sched : Schedule) (start duration : ℤ)
    → IsCron sched
    → ((next_occurrence sched start duration ≡ none) × FewTimes sched start)
      ⊎ ((d : Deadlines) × (next_occurrence sched start duration ≡ some d) × Bounded start d)
unfolding next_occurrence
next_occurrence_lem sched start duration c =
    let ts = sched.next_n start 2 in
    elim (Option-cases (first_two ts)) [
      | inl q ↦ inl (rw q refl, first_two-none ts q)
      | inr (p, q) ↦
          let d : Deadlines = record {
            start_active = p.0;
            end_active = add_ℤ p.0 duration;
            expiry = p.1;
          } in
          let (a, s, e) = cap_end_lem d in
          let later = first_two-some (λ u. start <ℤ u) ts p (c.all_after start 2) q in
          inr (cap_end d, rw q refl, (cap_end-EndsInTime d, rw s (ground (arith, later))))
    ]

after_start_lem :
    (sched : Schedule) (start duration : ℤ) (d : Deadlines)
    → IsCron sched
    → EndsInTime d
    → ((after_start sched start duration d ≡ none) × FewTimes sched start)
      ⊎ ((d' : Deadlines) × (after_start sched start duration d ≡ some d') × Bounded start d')
unfolding after_start
after_start_lem sched start duration d c k = elim (Bool-cases (ltb_ℤ d.end_active start)) [
  | inl q ↦ rw q (next_occurrence_lem sched start duration c)
  | inr q ↦ elim (Bool-cases (ltb_ℤ d.start_active start)) [
    | inl r ↦ inr (record d { start_active = start }, rw (q, r) refl, (k, ground arith))
    | inr r ↦ inr (d, rw (q, r) refl, (k, ground arith))
  ]
]

before_end_lem :
    (end : ℤ) (d : Deadlines)
    → EndsInTime d
    → EndsInTime (before_end end d)
      × (pos 0 <ℤ end → (before_end end d).expiry ≤ℤ end)
      × ((before_end end d).start_active ≡ d.start_active)
unfolding before_end
before_end_lem end d k = elim (Bool-cases (ltb_ℤ (pos 0) end && ltb_ℤ end d.expiry)) [
  | inl q ↦
      let (a, s, e) = cap_end_lem (record d { expiry = end }) in
      rw q (cap_end-EndsInTime (record d { expiry = end }), (λ l. rw e (ground arith)), s)
  | inr q ↦ rw q (k, (λ l. ground arith), refl)
]

-- Let a reset schedule give later times, or the zero time and fewer times when there are none. If
-- the deadlines of a tournament panic, the schedule fires at most once after the start. Otherwise
-- the active time ends with the expiry at the latest, the expiry is not beyond the end of the
-- tournament, if it has one, and the active time does not start before the tournament.
pub scheduled_deadlines-bounds :
    (sched : Schedule) (start end duration now : ℤ)
    → IsCron sched
    → ((scheduled_deadlines sched start end duration now ≡ none) × FewTimes sched start)
      ⊎ ((d : Deadlines) × (scheduled_deadlines sched start end duration now ≡ some d)
          × (d.end_active ≤ℤ d.expiry)
          × (pos 0 <ℤ end → d.expiry ≤ℤ end)
          × (start ≤ℤ d.start_active))
unfolding scheduled_deadlines
scheduled_deadlines-bounds sched start end duration now c =
    let s = first_start sched start now in
    let d : Deadlines = record {
      start_active = s;
      end_active = add_ℤ s duration;
      expiry = sched.next s;
    } in
    elim (after_start_lem sched start duration (cap_end d) c (cap_end-EndsInTime d)) [
      | inl (q, few) ↦ inl (rw q refl, few)
      | inr (d', q, (a, b)) ↦
          let (e, f, g) = before_end_lem end d' a in
          inr (before_end end d', rw q refl, e, f, rw g b)
    ]

not_expired : (e now : ℤ) → (not (is_zero_ℤ e) && leb_ℤ e now) ≡ false → (e ≤ℤ pos 0) ⊎ (now <ℤ e)
not_expired (pos zero) now q = inl (ground arith)
not_expired (pos (suc m)) now q = inr (ground arith)
not_expired (negsuc m) now q = inl (ground arith)

-- The branch of a tournament.
tournament_expiry :
    (o : Option Deadlines) (now x : ℤ)
    → Option.map (current_expiry now) o ≡ some (x, true)
    → (x ≤ℤ pos 0) ⊎ (now <ℤ x)
unfolding current_expiry
tournament_expiry none now x h = ground arith
tournament_expiry (some d) now x h =
    elim (Bool-cases (not (is_zero_ℤ d.expiry) && leb_ℤ d.expiry now)) [
      | inl q ↦ ground (arith, q)
      | inr q ↦
          let here : d.expiry ≡ x = ground (arith, q) in
          subst (λ y. (y ≤ℤ pos 0) ⊎ (now <ℤ y)) here (not_expired d.expiry now q)
    ]

board_expiry :
    (o : Option Schedule) (now x : ℤ)
    → ((sched : Schedule) → o ≡ some sched → IsCron sched)
    → ◌≡◌ {A = Option (ℤ × Bool)}
        (elim o [ none ↦ some (pos 0, true) | some sched ↦ some (sched.next now, true) ])
        (some (x, true))
    → (x ≤ℤ pos 0) ⊎ (now <ℤ x)
board_expiry none now x f h = inl (ground arith)
board_expiry (some sched) now x f h =
    let here : sched.next now ≡ x = ground arith in
    elim ((f sched refl).next_after now) [
      | inl e ↦ inl (subst (λ y. y ≤ℤ pos 0) (sym e ∙ here) (ground arith))
      | inr l ↦ inr (subst (λ y. now <ℤ y) here l)
    ]

map-none {ℓ} : {A B : Type ℓ} (f : A → B) (o : Option A) → Option.map f o ≡ none → o ≡ none
map-none f none h = refl
map-none f (some a) h = ground arith

after_start-none :
    (sched : Schedule) (start duration : ℤ) (d : Deadlines)
    → after_start sched start duration d ≡ none
    → FewTimes sched start
unfolding after_start next_occurrence
after_start-none sched start duration d h =
    let ts = sched.next_n start 2 in
    elim (Bool-cases (ltb_ℤ d.end_active start)) [
      | inl q ↦ elim (Option-cases (first_two ts)) [
        | inl r ↦ first_two-none ts r
        | inr (p, r) ↦ ground (arith, q, r)
      ]
      | inr q ↦ elim (Bool-cases (ltb_ℤ d.start_active start)) [
        | inl r ↦ ground (arith, q, r)
        | inr r ↦ ground (arith, q, r)
      ]
    ]

tournament_deadlines-none :
    (o : Option Schedule) (start end duration now : ℤ)
    → tournament_deadlines o start end duration now ≡ none
    → (sched : Schedule) × (o ≡ some sched) × FewTimes sched start
unfolding tournament_deadlines scheduled_deadlines
tournament_deadlines-none none start end duration now h = ground arith
tournament_deadlines-none (some sched) start end duration now h =
    let s = first_start sched start now in
    let d : Deadlines = record {
      start_active = s;
      end_active = add_ℤ s duration;
      expiry = sched.next s;
    } in
    let o = after_start sched start duration (cap_end d) in
    (sched, refl, after_start-none sched start duration (cap_end d) (map-none (before_end end) o h))

-- `CalculateExpiry` panics only for a tournament whose schedule fires at most once after its start.
pub calculate_expiry-none :
    (lb : BoardTimes) (now : ℤ)
    → calculate_expiry lb (pos 0) now ≡ none
    → (is_tournament lb ≡ true)
      × ((sched : Schedule) × (lb.schedule ≡ some sched) × FewTimes sched lb.start_time)
unfolding calculate_expiry
calculate_expiry-none lb now h =
    let o = tournament_deadlines lb.schedule lb.start_time (end_unix lb) lb.duration now in
    elim (Bool-cases (is_tournament lb)) [
      | inl q ↦ (
        q,
        tournament_deadlines-none lb.schedule lb.start_time (end_unix lb) lb.duration now
            (map-none (current_expiry now) o (ground (arith, q))),
      )
      | inr q ↦ elim (Option-cases lb.schedule) [
        | inl e ↦ ground (arith, q, e)
        | inr (sched, e) ↦ ground (arith, q, e)
      ]
    ]

-- What the expiry is worked out to, with no override, is to come, or is not after the epoch.
pub calculate_expiry_lem :
    (lb : BoardTimes) (now x : ℤ)
    → ((sched : Schedule) → lb.schedule ≡ some sched → IsCron sched)
    → calculate_expiry lb (pos 0) now ≡ some (x, true)
    → (x ≤ℤ pos 0) ⊎ (now <ℤ x)
unfolding calculate_expiry
calculate_expiry_lem lb now x f h =
    let o = tournament_deadlines lb.schedule lb.start_time (end_unix lb) lb.duration now in
    elim (Bool-cases (is_tournament lb)) [
      | inl q ↦ tournament_expiry o now x (ground (arith, q))
      | inr q ↦ board_expiry lb.schedule now x f (ground (arith, q))
    ]

-- Let the reset schedule of a leaderboard, if it has one, give later times, or the zero time when
-- there is none. The partition that `CalculateExpiry` gives for new records, with no override, is
-- not trimmed at that time.
pub trim_expired-calculate_expiry :
    (lb : BoardTimes) (now x : ℤ) (id : String) (g : RankCache)
    → ((sched : Schedule) → lb.schedule ≡ some sched → IsCron sched)
    → calculate_expiry lb (pos 0) now ≡ some (x, true)
    → lookup (key_of id x) (trim_expired now g) ≡ lookup (key_of id x) g
unfolding trim_expired
trim_expired-calculate_expiry lb now x id g f h =
    let kept : is_expired now (key_of id x) ≡ false = elim (calculate_expiry_lem lb now x f h) [
      | inl q ↦ ground arith
      | inr q ↦ ground arith
    ] in
    lookup-drop_where (is_expired now) (key_of id x) g ∙ rw kept refl
