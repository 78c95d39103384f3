-- ===== src/Presence/Status.antt =====
-- internal/presence/status_registry.go: who follows whom. Only the follow edges; the events and
-- the online cache are not modelled.
use ultimate_game_server.Prelude.{
  ℕ, String, none, some, List, [], ◌∷◌, ◌==◌, if◌then◌else◌, same, string_key,
}
use ultimate_game_server.Dict.{Dict, lookup, insert, delete, size}
use ultimate_game_server.Presence.Stream.{stream_key}
use ultimate_game_server.Dict.Sets.{KeySet}
use ultimate_game_server.Dict.Nested.{inner, relate, unrelate}

pub record Follows : Type 0 where
  pub by_session : Dict String (KeySet String)
  pub by_user : Dict String (KeySet String)

unfoldable pub no_follows : Follows
no_follows = record { by_session = []; by_user = [] }

-- The loop of `Follow`; `followed` is written through its pointer.
unfoldable pub follow_each : String → List String → Follows → Follows
follow_each sess [] f = f
follow_each sess (uid ∷ rest) f =
    let f' : Follows = record {
      by_session = relate sess uid f.by_session;
      by_user = relate uid sess f.by_user;
    } in
    follow_each sess rest (if same uid "" then f else f')

-- The entry of the session is made even if nobody is followed.
unfoldable pub enter_session : String → Follows → Follows
enter_session sess f = record f { by_session = insert sess (inner sess f.by_session) f.by_session }

unfoldable pub follow : String → List String → Follows → Follows × ℕ
unfolding follow_each enter_session
follow sess users f =
    let f' = follow_each sess users (enter_session sess f) in (f', size (inner sess f'.by_session))

unfoldable pub follow_count : String → Follows → ℕ
follow_count sess f = size (inner sess f.by_session)

-- `delete(followed, uid)` keeps the set of the session, even empty, until the loop is done.
unfoldable pub forget : String → String → Dict String (KeySet String) → Dict String (KeySet String)
forget sess uid m = elim (lookup sess m) [
  | none ↦ m
  | some followed ↦ insert sess (delete uid followed) m
]

unfoldable pub unfollow_each : String → List String → Follows → Follows
unfolding forget
unfollow_each sess [] f = f
unfollow_each sess (uid ∷ rest) f =
    unfollow_each sess rest
      (record { by_session = forget sess uid f.by_session; by_user = unrelate uid sess f.by_user })

-- `if followed != nil && len(followed) == 0`
unfoldable pub tidy_session : String → Follows → Follows
tidy_session sess f = elim (lookup sess f.by_session) [
  | none ↦ f
  | some followed ↦
      if size followed == 0 then record f { by_session = delete sess f.by_session } else f
]

unfoldable pub unfollow : String → List String → Follows → Follows
unfolding unfollow_each tidy_session
unfollow sess users f = tidy_session sess (unfollow_each sess users f)

-- The loop of `UnfollowAll` over the followed users.
unfoldable pub forget_follower :
    String → KeySet String → Dict String (KeySet String) → Dict String (KeySet String)
forget_follower sess [] m = m
forget_follower sess ((uid, _) ∷ rest) m = forget_follower sess rest (unrelate uid sess m)

unfoldable pub unfollow_all : String → Follows → Follows
unfolding forget_follower
unfollow_all sess f = elim (lookup sess f.by_session) [
  | none ↦ f
  | some followed ↦ record {
    by_session = delete sess f.by_session;
    by_user = forget_follower sess followed f.by_user;
  }
]
