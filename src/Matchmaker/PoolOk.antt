-- ===== src/Matchmaker/PoolOk.antt =====
-- internal/matchmaker/matchmaker.go: the invariant of the pool.
use ultimate_game_server.Prelude.{
  ℕ, String, ◌≡◌, inl, inr, Bool, true, false, Option, some, List, [], ◌∷◌, arith, ◌==◌,
  Option-cases, if_ind, length, ◌≤ℤ◌, leb_ℤ, ℤ, pos, string_key,
}
use ultimate_game_server.Dict.{
  Dict, lookup, insert, delete, size, lookup-insert, lookup-delete, size-delete-le, size-insert_le,
  Every, Every-insert, Every-delete, Every-lookup,
}
use ultimate_game_server.Matchmaker.Ticket.{Ticket, MatchmakerConfig}
use ultimate_game_server.Matchmaker.Fairness.{IsCounted}
use ultimate_game_server.Matchmaker.Prepare.{
  name_ticket, count_ticket, complete_ticket, prepare_ticket, counts_invalid,
}
use ultimate_game_server.Matchmaker.Pool.{
  new_pool, recent, times_of, check_rate_limit, admit_ticket, submit, drop_ticket, cancel,
  cancel_each, Pool, SubmitError,
}
use ultimate_game_server.Dict.Sets.{KeySet, add}
use ultimate_game_server.Dict.Nested.{
  inner, related, relate, unrelate, related-relate, related-unrelate,
}

-- What a ticket in the pool is known to be.
pub record IsSubmitted (t : Ticket) : Type 0 where
  pub is_counted : IsCounted t
  pub at_least_two : pos 2 ≤ℤ t.min_count
  pub ordered : t.min_count ≤ℤ t.max_count
  pub fits : t.count ≤ℤ t.max_count

pub record IsPoolOk (p : Pool) : Type 0 where
  pub limited : pos 1 ≤ℤ p.config.max_tickets
  pub submitted : Every (λ id t. IsSubmitted t) p.tickets
  pub listed :
      (id : String) (t : Ticket)
      → lookup id p.tickets ≡ some t
      → related t.session_id id p.session_tickets ≡ true
  pub bounded :
      Every (λ s (set : KeySet String). pos (size set) ≤ℤ p.config.max_tickets) p.session_tickets

pub new_pool-IsPoolOk :
    (config : MatchmakerConfig) → pos 1 ≤ℤ config.max_tickets → IsPoolOk (new_pool config)
unfolding new_pool lookup
new_pool-IsPoolOk config h = record {
  limited = h;
  submitted = tt;
  listed = λ id t e. ground (arith, e);
  bounded = tt;
}

prepare_ticket-IsSubmitted :
    (now : ℕ) (fresh_id fresh_session : String) (config : MatchmakerConfig) (t : Ticket)
    → counts_invalid (prepare_ticket now fresh_id fresh_session config t) ≡ false
    → IsSubmitted (prepare_ticket now fresh_id fresh_session config t)
unfolding prepare_ticket counts_invalid complete_ticket count_ticket name_ticket
prepare_ticket-IsSubmitted now fresh_id fresh_session config t h = record {
  is_counted = (ground arith, ground (arith, h));
  at_least_two = ground (arith, h);
  ordered = ground (arith, h);
  fits = ground (arith, h);
}

inner-bounded :
    (sess : String) (p : Pool)
    → IsPoolOk p
    → pos (size (inner sess p.session_tickets)) ≤ℤ p.config.max_tickets
unfolding inner
inner-bounded sess p ok = elim (Option-cases (lookup sess p.session_tickets)) [
  | inl e ↦ ground (arith, e, ok.limited)
  | inr (set, e) ↦ ground (
    arith,
    e,
    Every-lookup (λ s (set : KeySet String). pos (size set) ≤ℤ p.config.max_tickets) sess set
        p.session_tickets e ok.bounded,
  )
]

related-insert-inner :
    (sess : String) (m : Dict String (KeySet String)) (s id : String)
    → related s id (insert sess (inner sess m) m) ≡ related s id m
unfolding related inner lookup
related-insert-inner sess m s id = elim (Option-cases (lookup sess m)) [
  | inl e ↦ ground (arith, e, lookup-insert s sess [] m)
  | inr (set, e) ↦ ground (arith, e, lookup-insert s sess set m)
]

admit_ticket-IsPoolOk :
    (t : Ticket) (p : Pool) → IsSubmitted t → IsPoolOk p → IsPoolOk (admit_ticket t p).0
unfolding admit_ticket
admit_ticket-IsPoolOk t p sub ok =
    let set = inner t.session_id p.session_tickets in
    if_ind (λ (r : Pool × Option SubmitError). IsPoolOk r.0)
      (leb_ℤ p.config.max_tickets (pos (size set)))
      (λ full. record {
        limited = ok.limited;
        submitted = ok.submitted;
        listed = λ id u e. ground (
          arith,
          ok.listed id u e,
          related-insert-inner t.session_id p.session_tickets u.session_id id,
        );
        bounded =
            Every-insert _ t.session_id set p.session_tickets (inner-bounded t.session_id p ok)
              ok.bounded;
      })
      (λ room. record {
        limited = ok.limited;
        submitted = Every-insert _ t.id t p.tickets sub ok.submitted;
        listed = λ id u e.
            unfold relate in
            ground (
              arith,
              e,
              ok.listed id u,
              lookup-insert id t.id t p.tickets,
              related-relate t.session_id t.id p.session_tickets u.session_id id,
            );
        bounded =
            Every-insert _ t.session_id (add t.id set) p.session_tickets
              (ground (arith, room, size-insert_le t.id tt set)) ok.bounded;
      })

check_rate_limit-IsPoolOk :
    (now : ℕ) (user : String) (p : Pool) → IsPoolOk p → IsPoolOk (check_rate_limit now user p).0
unfolding check_rate_limit
check_rate_limit-IsPoolOk now user p ok =
    if_ind (λ (r : Pool × Bool). IsPoolOk r.0)
      (leb_ℤ p.config.rate_limit_max
        (pos (length (recent now p.config.rate_limit_window_sec (times_of user p.submit_times)))))
      (λ over. record {
        limited = ok.limited;
        submitted = ok.submitted;
        listed = ok.listed;
        bounded = ok.bounded;
      })
      (λ under. record {
        limited = ok.limited;
        submitted = ok.submitted;
        listed = ok.listed;
        bounded = ok.bounded;
      })

pub submit-IsPoolOk :
    (now : ℕ) (fresh_id fresh_session : String) (t : Ticket) (p : Pool)
    → IsPoolOk p
    → IsPoolOk (submit now fresh_id fresh_session t p).0
unfolding submit
submit-IsPoolOk now fresh_id fresh_session t p ok =
    let t' = prepare_ticket now fresh_id fresh_session p.config t in
    let after = check_rate_limit-IsPoolOk now t'.user_id p ok in
    if_ind (λ (r : Pool × Option SubmitError). IsPoolOk r.0) (counts_invalid t') (λ bad. ok)
      (λ good.
        if_ind (λ (r : Pool × Option SubmitError). IsPoolOk r.0)
          (check_rate_limit now t'.user_id p).1
          (λ allowed.
            admit_ticket-IsPoolOk t' (check_rate_limit now t'.user_id p).0
              (prepare_ticket-IsSubmitted now fresh_id fresh_session p.config t good) after)
          (λ refused. after))

unrelate-bounded :
    (sess id : String) (limit : ℤ) (m : Dict String (KeySet String))
    → Every (λ s (set : KeySet String). pos (size set) ≤ℤ limit) m
    → Every (λ s (set : KeySet String). pos (size set) ≤ℤ limit) (unrelate sess id m)
unfolding unrelate
unrelate-bounded sess id limit m h =
    let P : String → KeySet String → Type 0 = λ s set. pos (size set) ≤ℤ limit in
    elim (Option-cases (lookup sess m)) [
      | inl e ↦ rw (e, unrelate) h
      | inr (set, e) ↦
          let small : pos (size (delete id set)) ≤ℤ limit =
            ground (arith, Every-lookup P sess set m e h, size-delete-le id set) in
          rw (e, unrelate)
            (if_ind (Every P) (size (delete id set) == 0) (λ z. Every-delete P sess m h)
              (λ n. Every-insert P sess (delete id set) m small h))
    ]

drop_ticket-IsPoolOk :
    (id : String) (t : Ticket) (p : Pool) → IsPoolOk p → IsPoolOk (drop_ticket id t p)
unfolding drop_ticket
drop_ticket-IsPoolOk id t p ok = record {
  limited = ok.limited;
  submitted = Every-delete _ id p.tickets ok.submitted;
  listed = λ x u e. ground (
    arith,
    e,
    ok.listed x u,
    lookup-delete x id p.tickets,
    related-unrelate t.session_id id p.session_tickets u.session_id x,
  );
  bounded = unrelate-bounded t.session_id id p.config.max_tickets p.session_tickets ok.bounded;
}

pub cancel-IsPoolOk : (id : String) (p : Pool) → IsPoolOk p → IsPoolOk (cancel id p)
unfolding cancel
cancel-IsPoolOk id p ok = elim (Option-cases (lookup id p.tickets)) [
  | inl e ↦ rw (e, cancel) ok
  | inr (t, e) ↦ rw (e, cancel) (drop_ticket-IsPoolOk id t p ok)
]

pub cancel_each-IsPoolOk :
    (ids : List String) (p : Pool) → IsPoolOk p → IsPoolOk (cancel_each ids p)
unfolding cancel_each
cancel_each-IsPoolOk [] p ok = ok
cancel_each-IsPoolOk (id ∷ ids) p ok =
    cancel_each-IsPoolOk ids (cancel id p) (cancel-IsPoolOk id p ok)
