-- ===== src/Auth/Attempts.antt =====
-- internal/auth/security.go: when failed attempts lock an account.
use ultimate_game_server.Prelude.{
  ℕ, suc, ◌+◌, ◌≤◌, ◌<◌, String, ◌≡◌, ◌≢◌, ◌↔◌, none, some, List, [], ◌∷◌, arith, leb,
  if◌then◌else◌, length, All, string_key,
}
use ultimate_game_server.Dict.{lookup, lookup-insert_self}
use ultimate_game_server.Auth.Lockout.{
  account_fail_limit, account_window, check_bucket, check, live_bucket, bump, record_failure,
  FailBucket, LoginLockout, account_locked,
}
use mathlib.Core.Path.{subst}

-- A failed attempt: when, and from which address.
abbrev pub Attempt : Type 0
Attempt = ℕ × String

unfoldable pub record_all : String → List Attempt → LoginLockout → LoginLockout
record_all identity [] l = l
record_all identity ((now, ip) ∷ rest) l =
    record_all identity rest (record_failure now identity ip l)

pub last_time : ℕ → List Attempt → ℕ
last_time t [] = t
last_time t ((now, ip) ∷ rest) = last_time now rest

-- The bucket of an account after some failures, the last of them at a time.
abbrev counted : ℕ → ℕ → ℕ → FailBucket
counted fails reset last = record {
  fails = fails;
  reset = reset;
  locked = if leb account_fail_limit fails then last + account_window else 0;
}

first_failure :
    (now : ℕ) (identity ip : String) (l : LoginLockout)
    → identity ≢ ""
    → lookup identity l.account ≡ none
    → lookup identity (record_failure now identity ip l).account
      ≡ some (counted 1 (now + account_window) now)
unfolding record_failure bump live_bucket account_fail_limit
first_failure now identity ip l ne e =
    ground
      (arith, ne, e, lookup-insert_self identity (counted 1 (now + account_window) now) l.account)

next_failure :
    (now : ℕ) (identity ip : String) (l : LoginLockout) (n reset last : ℕ)
    → identity ≢ ""
    → 0 < n
    → now ≤ reset
    → lookup identity l.account ≡ some (counted n reset last)
    → lookup identity (record_failure now identity ip l).account ≡ some (counted (suc n) reset now)
unfolding record_failure bump live_bucket account_fail_limit
next_failure now identity ip l n reset last ne p h e =
    ground (arith, ne, e, p, h, lookup-insert_self identity (counted (suc n) reset now) l.account)

failures_counted :
    (attempts : List Attempt) (identity : String) (l : LoginLockout) (n reset last : ℕ)
    → identity ≢ ""
    → 0 < n
    → All (λ a. a.0 ≤ reset) attempts
    → lookup identity l.account ≡ some (counted n reset last)
    → lookup identity (record_all identity attempts l).account
      ≡ some (counted (n + length attempts) reset (last_time last attempts))
unfolding record_all last_time
failures_counted [] identity l n reset last ne p h e =
    subst (λ k. lookup identity l.account ≡ some (counted k reset last)) (omega arith) e
failures_counted ((now, ip) ∷ rest) identity l n reset last ne p (h, hs) e =
    subst
      (λ k.
        lookup identity (record_all identity rest (record_failure now identity ip l)).account
        ≡ some (counted k reset (last_time now rest)))
      (omega arith)
      (failures_counted rest identity (record_failure now identity ip l) (suc n) reset now ne
        (omega arith) hs (next_failure now identity ip l n reset last ne p h e))

check_lem :
    (now : ℕ) (identity ip : String) (l : LoginLockout) (b : FailBucket)
    → lookup identity l.account ≡ some b
    → ((check now identity ip l).1 ≡ some account_locked) ↔ (now < b.locked)
unfolding check check_bucket
check_lem now identity ip l b e = (λ h. ground (arith, e, h), λ h. ground (arith, e, h))

-- An account that has no bucket, and then fails a number of times, all within the window that the
-- first failure opens, is refused as locked exactly if it failed five times or more and the window
-- that the last failure opens is not over; the address that asks plays no part.
pub lock_iff :
    (now : ℕ) (identity ip : String) (first : Attempt) (rest : List Attempt) (l : LoginLockout)
    → identity ≢ ""
    → lookup identity l.account ≡ none
    → All (λ a. a.0 ≤ first.0 + account_window) rest
    → ((check now identity ip (record_all identity (first ∷ rest) l)).1 ≡ some account_locked)
      ↔ (account_fail_limit ≤ length (first ∷ rest) × now < last_time first.0 rest + account_window)
unfolding record_all
lock_iff now identity ip (t, q) rest l ne e within =
    let l' = record_failure t identity q l in
    let bucket =
      failures_counted rest identity l' 1 (t + account_window) t ne (omega arith) within
        (first_failure t identity q l ne e) in
    let locked =
      check_lem now identity ip (record_all identity rest l')
        (counted (1 + length rest) (t + account_window) (last_time t rest)) bucket in
    (λ h. ground (arith, locked.0 h), λ h. locked.1 (ground (arith, h)))
