-- ===== src/Auth/Revocation.antt =====
-- internal/auth/session_store.go: what the reuse of a refresh token and the revocation of a user
-- lead to.
use ultimate_game_server.Prelude.{
  ℕ, String, ◌≡◌, refl, ◌≢◌, inl, inr, Bool, true, false, ◌||◌, none, some, List, [], ◌∷◌, arith,
  if◌then◌else◌, Option-cases, All, same, string_key,
}
use ultimate_game_server.Dict.{
  Dict, lookup, insert, Distinct, lookup-insert, lookup-delete, lookup-insert_self,
  lookup-delete_self, insert-Distinct,
}
use ultimate_game_server.Auth.Sessions.{
  flag, register_session, revoke_refresh_token, purge, revoke_all_sessions, revoke_family,
  validate_and_rotate_session, blacklist_access_jti, is_access_jti_blacklisted, is_user_revoked,
  MemorySessionStore, token_already_used,
}

-- The token is kept for that user.
unfoldable pub owned : String → String → Dict String String → Bool
owned user x m = elim (lookup x m) [ none ↦ false | some u ↦ same u user ]

purge_lem :
    (user : String) (entries : Dict String String) (s : MemorySessionStore) (x : String)
    → Distinct entries
    → (lookup x (purge user entries s).tokens
        ≡ (if owned user x entries then none else lookup x s.tokens))
      × ((purge user entries s).revoked_users ≡ s.revoked_users)
unfolding purge owned lookup revoke_refresh_token
purge_lem user [] s x d = ground arith
purge_lem user ((t, uid) ∷ rest) s x (d, ds) = ground (
  arith,
  d,
  purge_lem user rest s x ds,
  purge_lem user rest (revoke_refresh_token t s) x ds,
  lookup-delete x t s.tokens,
)

revoke_family_lem :
    (user : String) (s : MemorySessionStore) (x : String)
    → Distinct s.tokens
    → (lookup x (revoke_family user s).tokens
        ≡ (if owned user x s.tokens then none else lookup x s.tokens))
      × (flag user (revoke_family user s).revoked_users ≡ true)
unfolding revoke_family flag
revoke_family_lem user s x d = (
  (purge_lem user s.tokens s x d).0,
  ground (arith, lookup-insert_self user true (purge user s.tokens s).revoked_users),
)

reuse_detected :
    (user old fresh : String) (s : MemorySessionStore)
    → old ≢ ""
    → old ≢ fresh
    → lookup old s.tokens ≡ some user
    → validate_and_rotate_session old (register_session user fresh old s) ≡ (
      revoke_family user (register_session user fresh old s),
      (user, (true, some token_already_used)),
    )
unfolding validate_and_rotate_session register_session flag
reuse_detected user old fresh s ne nf e = ground (
  arith,
  e,
  lookup-insert old fresh user s.tokens,
  lookup-delete_self user s.revoked_users,
  lookup-insert_self old true s.used_tokens,
)

-- A refresh token that has been rotated into a fresh one and is then shown again is detected as
-- stolen: the answer names its user and reports the theft, the user is revoked, no token of the user
-- is left, the fresh one included, and every token of another user stays.
pub rotation_theft :
    (user old fresh : String) (s : MemorySessionStore)
    → Distinct s.tokens
    → old ≢ ""
    → old ≢ fresh
    → lookup old s.tokens ≡ some user
    → ((validate_and_rotate_session old (register_session user fresh old s)).1
        ≡ (user, (true, some token_already_used)))
      × (is_user_revoked user
            (validate_and_rotate_session old (register_session user fresh old s)).0
          ≡ true)
      × ((x : String)
          → lookup x (validate_and_rotate_session old (register_session user fresh old s)).0.tokens
            ≡ (if same x fresh || owned user x s.tokens then none else lookup x s.tokens))
rotation_theft user old fresh s d ne nf e =
    let s' = register_session user fresh old s in
    let d' : Distinct s'.tokens =
      unfold register_session in (insert-Distinct fresh user s.tokens d) in
    let detected = reuse_detected user old fresh s ne nf e in
    let after : (x : String)
        → lookup x s'.tokens ≡ (if same x fresh then some user else lookup x s.tokens) =
      λ x. unfold register_session in ground (arith, lookup-insert x fresh user s.tokens) in
    rw detected (
      refl,
      unfold is_user_revoked in ((revoke_family_lem user s' "" d').1),
      λ x. unfold owned in ground (arith, (revoke_family_lem user s' x d').0, after x),
    )

pub data SessionCall : Type 0 where
  register_call : String → String → String → SessionCall
  validate_call : String → SessionCall
  revoke_all_call : String → SessionCall
  revoke_token_call : String → SessionCall
  blacklist_call : String → ℕ → SessionCall
  jti_check_call : ℕ → String → SessionCall

unfoldable pub perform : SessionCall → MemorySessionStore → MemorySessionStore
perform (register_call user token parent) s = register_session user token parent s
perform (validate_call token) s = (validate_and_rotate_session token s).0
perform (revoke_all_call user) s = revoke_all_sessions user s
perform (revoke_token_call token) s = revoke_refresh_token token s
perform (blacklist_call jti until) s = blacklist_access_jti jti until s
perform (jti_check_call now jti) s = (is_access_jti_blacklisted now jti s).0

unfoldable pub run : List SessionCall → MemorySessionStore → MemorySessionStore
run [] s = s
run (c ∷ cs) s = run cs (perform c s)

-- The call does not open a session of the user.
abbrev pub NoLogin : String → SessionCall → Type 0
NoLogin user (register_call u token parent) = u ≢ user
NoLogin user (validate_call token) = Unit
NoLogin user (revoke_all_call u) = Unit
NoLogin user (revoke_token_call token) = Unit
NoLogin user (blacklist_call jti until) = Unit
NoLogin user (jti_check_call now jti) = Unit

purge-revoked_users :
    (user : String) (entries : Dict String String) (s : MemorySessionStore)
    → (purge user entries s).revoked_users ≡ s.revoked_users
unfolding purge revoke_refresh_token
purge-revoked_users user [] s = refl
purge-revoked_users user ((t, uid) ∷ rest) s = ground (
  arith,
  purge-revoked_users user rest s,
  purge-revoked_users user rest (revoke_refresh_token t s),
)

perform-revoked :
    (user : String) (c : SessionCall) (s : MemorySessionStore)
    → NoLogin user c
    → is_user_revoked user s ≡ true
    → is_user_revoked user (perform c s) ≡ true
unfolding perform is_user_revoked flag
perform-revoked user (register_call u token parent) s n h =
    unfold register_session in ground (arith, n, h, lookup-delete user u s.revoked_users)
perform-revoked user (validate_call token) s n h = elim (Option-cases (lookup token s.tokens)) [
  | inl e ↦ unfold validate_and_rotate_session in ground (arith, e, h)
  | inr (u, e) ↦
      let s' = purge u s.tokens s in
      unfold validate_and_rotate_session revoke_family in
      ground
        (arith, e, h, purge-revoked_users u s.tokens s, lookup-insert user u true s'.revoked_users)
]
perform-revoked user (revoke_all_call u) s n h =
    let s' : MemorySessionStore = record s { revoked_users = insert u true s.revoked_users } in
    unfold revoke_all_sessions in
    ground (arith, h, purge-revoked_users u s.tokens s', lookup-insert user u true s.revoked_users)
perform-revoked user (revoke_token_call token) s n h = unfold revoke_refresh_token in h
perform-revoked user (blacklist_call jti until) s n h =
    unfold blacklist_access_jti in ground (arith, h)
perform-revoked user (jti_check_call now jti) s n h =
    unfold is_access_jti_blacklisted in ground (arith, h)

run-revoked :
    (user : String) (cs : List SessionCall) (s : MemorySessionStore)
    → All (NoLogin user) cs
    → is_user_revoked user s ≡ true
    → is_user_revoked user (run cs s) ≡ true
unfolding run
run-revoked user [] s n h = h
run-revoked user (c ∷ cs) s (n, ns) h =
    run-revoked user cs (perform c s) ns (perform-revoked user c s n h)

revoke_all_lem :
    (user : String) (s : MemorySessionStore)
    → is_user_revoked user (revoke_all_sessions user s) ≡ true
unfolding is_user_revoked flag revoke_all_sessions
revoke_all_lem user s = ground (
  arith,
  purge-revoked_users user s.tokens (record s { revoked_users = insert user true s.revoked_users }),
  lookup-insert_self user true s.revoked_users,
)

accepted_not_revoked :
    (token user : String) (s : MemorySessionStore)
    → (validate_and_rotate_session token s).1 ≡ (user, (false, none))
    → is_user_revoked user s ≡ false
unfolding validate_and_rotate_session is_user_revoked
accepted_not_revoked token user s accepted = elim (Option-cases (lookup token s.tokens)) [
  | inl e ↦ ground (arith, e, accepted)
  | inr (u, e) ↦ ground (arith, e, accepted)
]

-- After all sessions of a user are revoked, and until a session of the user is registered again, no
-- refresh token is accepted for the user, whatever calls come between.
pub revoked_stays_out :
    (user : String) (cs : List SessionCall) (s : MemorySessionStore) (token : String)
    → All (NoLogin user) cs
    → (validate_and_rotate_session token (run cs (revoke_all_sessions user s))).1
      ≢ (user, (false, none))
revoked_stays_out user cs s token n accepted =
    let revoked = run-revoked user cs (revoke_all_sessions user s) n (revoke_all_lem user s) in
    cc (revoked, accepted_not_revoked token user (run cs (revoke_all_sessions user s)) accepted)
