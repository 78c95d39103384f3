-- ===== src/Tests/AuthRuns.antt =====
-- Runs of internal/auth.
use ultimate_game_server.Prelude.{
  ◌+◌, ◌≤◌, ◌<◌, String, ◌≡◌, refl, ◌≢◌, ◌↔◌, true, false, ◌||◌, none, some, List, [], ◌∷◌, arith,
  if◌then◌else◌, length, All, ne_of_false, String-discrete, same, string_key,
}
use ultimate_game_server.Dict.{lookup, insert, delete, Distinct}
use ultimate_game_server.Auth.Sessions.{
  new_memory_session_store, flag, register_session, revoke_refresh_token, purge,
  revoke_all_sessions, revoke_family, validate_and_rotate_session, is_user_revoked,
  MemorySessionStore, token_already_used,
}
use ultimate_game_server.Auth.Revocation.{
  owned, rotation_theft, perform, run, revoked_stays_out, SessionCall, register_call, validate_call,
  revoke_token_call,
}
use ultimate_game_server.Auth.Lockout.{
  account_fail_limit, account_window, ip_fail_limit, ip_window, new_login_lockout, check_bucket,
  check, live_bucket, bump, record_failure, account_locked,
}
use ultimate_game_server.Auth.Attempts.{Attempt, record_all, last_time, lock_iff}

program : Unit {0}
unfolding String-discrete lookup insert delete flag register_session revoke_refresh_token purge
    revoke_all_sessions revoke_family validate_and_rotate_session perform run
    new_memory_session_store new_login_lockout check_bucket check live_bucket bump record_failure
    account_fail_limit account_window ip_fail_limit ip_window record_all
program = tt

-- Ann has a session with one refresh token, Bob another.
abbrev store : MemorySessionStore
store = register_session "bob" "b1" "" (register_session "ann" "a1" "" new_memory_session_store)

a1_kept : lookup "a1" store.tokens ≡ some "ann"
unfolding program
a1_kept = refl

store-Distinct : Distinct store.tokens
unfolding program
store-Distinct = (refl, (refl, tt))

a1_not_blank : ◌≢◌ {A = String} "a1" ""
a1_not_blank = ne_of_false "a1" "" refl

a1_not_a2 : ◌≢◌ {A = String} "a1" "a2"
a1_not_a2 = ne_of_false "a1" "a2" refl

bob_not_ann : ◌≢◌ {A = String} "bob" "ann"
bob_not_ann = ne_of_false "bob" "ann" refl

rotation_theft_example :
    ((validate_and_rotate_session "a1" (register_session "ann" "a2" "a1" store)).1
      ≡ ("ann", (true, some token_already_used)))
    × (is_user_revoked "ann"
          (validate_and_rotate_session "a1" (register_session "ann" "a2" "a1" store)).0
        ≡ true)
    × ((x : String)
        → lookup x
            (validate_and_rotate_session "a1" (register_session "ann" "a2" "a1" store)).0.tokens
          ≡ (if same x "a2" || owned "ann" x store.tokens then none else lookup x store.tokens))
rotation_theft_example =
    rotation_theft "ann" "a1" "a2" store store-Distinct a1_not_blank a1_not_a2 a1_kept

abbrev later : List SessionCall
later = register_call "bob" "b2" "b1" ∷ validate_call "a1" ∷ revoke_token_call "b2" ∷ []

revoked_stays_out_example :
    (validate_and_rotate_session "a1" (run later (revoke_all_sessions "ann" store))).1
    ≢ ("ann", (false, none))
revoked_stays_out_example = revoked_stays_out "ann" later store "a1" (bob_not_ann, (tt, (tt, tt)))

abbrev four : List Attempt
four = (20, "x") ∷ (30, "y") ∷ (40, "x") ∷ (50, "z") ∷ []

four_soon : All (λ a. a.0 ≤ 10 + account_window) four
unfolding account_window
four_soon = ground arith

ann_no_bucket : lookup "ann" new_login_lockout.account ≡ none
unfolding program
ann_no_bucket = refl

ann_not_blank : ◌≢◌ {A = String} "ann" ""
ann_not_blank = ne_of_false "ann" "" refl

lock_iff_example :
    ((check 60 "ann" "w" (record_all "ann" ((10, "x") ∷ four) new_login_lockout)).1
      ≡ some account_locked)
    ↔ (account_fail_limit ≤ length {A = Attempt} ((10, "x") ∷ four)
        × 60 < last_time 10 four + account_window)
lock_iff_example =
    lock_iff 60 "ann" "w" (10, "x") four new_login_lockout ann_not_blank ann_no_bucket four_soon

fifth_locks :
    (check 60 "ann" "w" (record_all "ann" ((10, "x") ∷ four) new_login_lockout)).1
    ≡ some account_locked
unfolding program
fifth_locks = refl
