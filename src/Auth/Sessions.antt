-- ===== src/Auth/Sessions.antt =====
-- internal/auth/session_store.go: `MemorySessionStore`. Each method holds the mutex throughout and
-- takes the time of `time.Now()` as an argument, in nanoseconds.
use ultimate_game_server.Prelude.{
  ℕ, String, Bool, true, false, Option, none, some, [], ◌∷◌, ltb, if◌then◌else◌, same, string_key,
}
use ultimate_game_server.Dict.{Dict, lookup, insert, delete}

pub record MemorySessionStore : Type 0 where
  pub tokens : Dict String String
  pub token_family : Dict String String
  pub used_tokens : Dict String Bool
  pub revoked_users : Dict String Bool
  pub jwt_deny : Dict String ℕ

pub data SessionError : Type 0 where
  token_not_found : SessionError
  sessions_revoked : SessionError
  token_already_used : SessionError

unfoldable pub new_memory_session_store : MemorySessionStore
new_memory_session_store = record {
  tokens = [];
  token_family = [];
  used_tokens = [];
  revoked_users = [];
  jwt_deny = [];
}

-- A map to Booleans, read at a key: `false` when it is missing.
unfoldable pub flag : String → Dict String Bool → Bool
flag k m = elim (lookup k m) [ none ↦ false | some b ↦ b ]

unfoldable pub register_session : String → String → String → MemorySessionStore → MemorySessionStore
register_session user token parent s = record s {
  revoked_users = delete user s.revoked_users;
  tokens = insert token user s.tokens;
  token_family = if same parent "" then s.token_family else insert token parent s.token_family;
  used_tokens = if same parent "" then s.used_tokens else insert parent true s.used_tokens;
}

unfoldable pub revoke_refresh_token : String → MemorySessionStore → MemorySessionStore
revoke_refresh_token token s = record s {
  tokens = delete token s.tokens;
  token_family = delete token s.token_family;
  used_tokens = delete token s.used_tokens;
}

-- The loop over the tokens, in which those of the user are deleted.
unfoldable pub purge : String → Dict String String → MemorySessionStore → MemorySessionStore
unfolding revoke_refresh_token
purge user [] s = s
purge user ((t, uid) ∷ rest) s =
    purge user rest (if same uid user then revoke_refresh_token t s else s)

unfoldable pub revoke_all_sessions : String → MemorySessionStore → MemorySessionStore
unfolding purge
revoke_all_sessions user s =
    purge user s.tokens (record s { revoked_users = insert user true s.revoked_users })

-- The branch of `ValidateAndRotateSession` for a used token.
unfoldable pub revoke_family : String → MemorySessionStore → MemorySessionStore
unfolding purge
revoke_family user s =
    let s' = purge user s.tokens s in
    record s' { revoked_users = insert user true s'.revoked_users }

-- The user id, whether theft was detected, and the error.
unfoldable pub validate_and_rotate_session :
    String → MemorySessionStore → MemorySessionStore × (String × (Bool × Option SessionError))
unfolding flag revoke_family
validate_and_rotate_session token s = elim (lookup token s.tokens) [
  | none ↦ (s, ("", (false, some token_not_found)))
  | some user ↦
      if flag user s.revoked_users
      then (s, ("", (false, some sessions_revoked)))
      else (if flag token s.used_tokens
          then (revoke_family user s, (user, (true, some token_already_used)))
          else (s, (user, (false, none))))
]

unfoldable pub blacklist_access_jti : String → ℕ → MemorySessionStore → MemorySessionStore
blacklist_access_jti jti until s =
    if same jti "" then s else record s { jwt_deny = insert jti until s.jwt_deny }

unfoldable pub is_access_jti_blacklisted :
    ℕ → String → MemorySessionStore → MemorySessionStore × Bool
is_access_jti_blacklisted now jti s =
    if same jti "" then (s, false) else (elim (lookup jti s.jwt_deny) [
      | none ↦ (s, false)
      | some until ↦
          if ltb until now
          then (record s { jwt_deny = delete jti s.jwt_deny }, false)
          else (s, true)
    ])

unfoldable pub is_user_revoked : String → MemorySessionStore → Bool
unfolding flag
is_user_revoked user s = flag user s.revoked_users
