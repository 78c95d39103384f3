-- ===== src/Auth/Lockout.antt =====
-- internal/auth/security.go: `LoginLockout`. Times are nanoseconds after Go's zero time, so a
-- bucket that never locked has `locked` 0; the time of `time.Now()` is an argument.
use ultimate_game_server.Prelude.{
  ℕ, suc, ◌+◌, ◌*◌, String, Bool, true, false, Option, none, some, [], ltb, leb, if◌then◌else◌,
  same, string_key,
}
use ultimate_game_server.Dict.{Dict, lookup, insert, delete}

pub record FailBucket : Type 0 where
  pub fails : ℕ
  pub reset : ℕ
  pub locked : ℕ

pub record LoginLockout : Type 0 where
  pub account : Dict String FailBucket
  pub ip : Dict String FailBucket

pub data LockoutError : Type 0 where
  account_locked : LockoutError
  ip_locked : LockoutError

abbrev pub minute : ℕ
minute = 60000000000

unfoldable pub account_fail_limit : ℕ
account_fail_limit = 5

unfoldable pub account_window : ℕ
account_window = 15 * minute

unfoldable pub ip_fail_limit : ℕ
ip_fail_limit = 20

unfoldable pub ip_window : ℕ
ip_window = 10 * minute

unfoldable pub new_login_lockout : LoginLockout
new_login_lockout = record { account = []; ip = [] }

-- One half of `Check`: whether the bucket of a key is locked, and the map without a stale bucket.
unfoldable pub check_bucket : ℕ → String → Dict String FailBucket → Dict String FailBucket × Bool
check_bucket now key m = elim (lookup key m) [
  | none ↦ (m, false)
  | some b ↦
      if ltb now b.locked then (m, true) else ((if ltb b.reset now then delete key m else m), false)
]

unfoldable pub check : ℕ → String → String → LoginLockout → LoginLockout × Option LockoutError
unfolding check_bucket
check now identity ip l =
    let (account', locked_account) = check_bucket now identity l.account in
    let (ip', locked_ip) = check_bucket now ip l.ip in
    if locked_account
    then (record l { account = account' }, some account_locked)
    else (record { account = account'; ip = ip' }, (if locked_ip then some ip_locked else none))

-- The bucket that `bump` counts in: the one of the key, or a fresh one.
unfoldable pub live_bucket : String → ℕ → ℕ → Dict String FailBucket → FailBucket
live_bucket key now window m =
    let fresh : FailBucket = record { fails = 0; reset = now + window; locked = 0 } in
    elim (lookup key m) [ none ↦ fresh | some b ↦ if ltb b.reset now then fresh else b ]

unfoldable pub bump : String → ℕ → ℕ → ℕ → Dict String FailBucket → Dict String FailBucket
unfolding live_bucket
bump key now limit window m =
    let b = live_bucket key now window m in
    let counted : FailBucket = record b {
      fails = suc b.fails;
      locked = if leb limit (suc b.fails) then now + window else b.locked;
    } in
    if same key "" then m else insert key counted m

unfoldable pub record_failure : ℕ → String → String → LoginLockout → LoginLockout
unfolding bump account_fail_limit account_window ip_fail_limit ip_window
record_failure now identity ip l = record {
  account = bump identity now account_fail_limit account_window l.account;
  ip = bump ip now ip_fail_limit ip_window l.ip;
}

-- The address is left as it is.
unfoldable pub clear_success : String → String → LoginLockout → LoginLockout
clear_success identity ip l = record l { account = delete identity l.account }
