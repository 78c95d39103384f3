-- ===== src/Presence/Mirror.antt =====
-- internal/presence/status_registry.go: the follow edges, which are kept twice.
use ultimate_game_server.Prelude.{
  String, ◌≡◌, refl, ap, ◌∙◌, inl, inr, Bool, false, not, ◌&&◌, ◌||◌, List, [], ◌∷◌, arith,
  if◌then◌else◌, Option-cases, same, elem, string_key,
}
use ultimate_game_server.Dict.{
  Dict, lookup, has, delete, lookup-insert, lookup-delete, lookup_of_empty,
}
use ultimate_game_server.Presence.Stream.{stream_key}
use ultimate_game_server.Presence.Status.{
  no_follows, follow_each, enter_session, follow, forget, unfollow_each, tidy_session, unfollow,
  forget_follower, unfollow_all, Follows,
}
use ultimate_game_server.Dict.Sets.{KeySet}
use ultimate_game_server.Dict.Nested.{
  inner, related, relate, unrelate, related-relate, related-unrelate,
}
use mathlib.Core.Path.{fun_ext}

unfoldable pub follows : Follows → String → String → Bool
follows f s u = related s u f.by_session

abbrev pub IsMirrored : Follows → Type 0
IsMirrored f = (s u : String) → follows f s u ≡ related u s f.by_user

enter_session-related :
    (sess : String) (f : Follows) (s u : String)
    → related s u (enter_session sess f).by_session ≡ related s u f.by_session
unfolding enter_session related inner lookup
enter_session-related sess f s u = elim (Option-cases (lookup sess f.by_session)) [
  | inl n ↦ ground (arith, n, lookup-insert s sess [] f.by_session)
  | inr (set, n) ↦ ground (arith, n, lookup-insert s sess set f.by_session)
]

follow_each-related :
    (sess : String) (users : List String) (f : Follows) (s u : String)
    → (related s u (follow_each sess users f).by_session
        ≡ (related s u f.by_session || (same s sess && elem u users && not (same u ""))))
      × (related u s (follow_each sess users f).by_user
          ≡ (related u s f.by_user || (same s sess && elem u users && not (same u ""))))
unfolding follow_each
follow_each-related sess [] f s u = ground arith
follow_each-related sess (uid ∷ rest) f s u =
    let f' : Follows = record {
      by_session = relate sess uid f.by_session;
      by_user = relate uid sess f.by_user;
    } in
    ground (
      arith,
      follow_each-related sess rest f s u,
      follow_each-related sess rest f' s u,
      related-relate sess uid f.by_session s u,
      related-relate uid sess f.by_user u s,
    )

forget-related :
    (sess uid : String) (m : Dict String (KeySet String)) (s u : String)
    → related s u (forget sess uid m) ≡ (if same s sess && same u uid then false else related s u m)
unfolding forget related
forget-related sess uid m s u = elim (Option-cases (lookup sess m)) [
  | inl n ↦ ground (arith, n)
  | inr (set, n) ↦
      ground (arith, n, lookup-insert s sess (delete uid set) m, lookup-delete u uid set)
]

unfollow_each-related :
    (sess : String) (users : List String) (f : Follows) (s u : String)
    → (related s u (unfollow_each sess users f).by_session
        ≡ (related s u f.by_session && not (same s sess && elem u users)))
      × (related u s (unfollow_each sess users f).by_user
          ≡ (related u s f.by_user && not (same s sess && elem u users)))
unfolding unfollow_each
unfollow_each-related sess [] f s u = ground arith
unfollow_each-related sess (uid ∷ rest) f s u =
    let f' : Follows = record {
      by_session = forget sess uid f.by_session;
      by_user = unrelate uid sess f.by_user;
    } in
    ground (
      arith,
      unfollow_each-related sess rest f' s u,
      forget-related sess uid f.by_session s u,
      related-unrelate uid sess f.by_user u s,
    )

tidy_session-related :
    (sess : String) (f : Follows) (s u : String)
    → (related s u (tidy_session sess f).by_session ≡ related s u f.by_session)
      × ((tidy_session sess f).by_user ≡ f.by_user)
unfolding tidy_session related
tidy_session-related sess f s u = elim (Option-cases (lookup sess f.by_session)) [
  | inl n ↦ ground (arith, n)
  | inr (set, n) ↦ ground (arith, n, lookup-delete s sess f.by_session, lookup_of_empty u set)
]

forget_follower-related :
    (sess : String) (set : KeySet String) (m : Dict String (KeySet String)) (s u : String)
    → related u s (forget_follower sess set m) ≡ (related u s m && not (same s sess && has u set))
unfolding forget_follower lookup
forget_follower-related sess [] m s u = ground arith
forget_follower-related sess ((uid, t) ∷ set) m s u = ground (
  arith,
  forget_follower-related sess set (unrelate uid sess m) s u,
  related-unrelate uid sess m u s,
)

unfollow_all-related :
    (sess : String) (f : Follows)
    → IsMirrored f
    → (s u : String)
    → (follows (unfollow_all sess f) s u ≡ related u s (unfollow_all sess f).by_user)
      × (follows (unfollow_all sess f) s u ≡ (follows f s u && not (same s sess)))
unfolding unfollow_all follows
unfollow_all-related sess f h s u = elim (Option-cases (lookup sess f.by_session)) [
  | inl n ↦ unfold related in ground (arith, n, h s u)
  | inr (set, n) ↦
      unfold related in
      ground (
        arith,
        n,
        h s u,
        h sess u,
        lookup-delete s sess f.by_session,
        forget_follower-related sess set f.by_user s u,
      )
]

pub data FollowCall : Type 0 where
  follow_call : String → List String → FollowCall
  unfollow_call : String → List String → FollowCall
  unfollow_all_call : String → FollowCall

unfoldable pub perform_follow : FollowCall → Follows → Follows
perform_follow (follow_call sess users) f = (follow sess users f).0
perform_follow (unfollow_call sess users) f = unfollow sess users f
perform_follow (unfollow_all_call sess) f = unfollow_all sess f

-- What each call promises of the edges.
pub promised_edge : FollowCall → (String → String → Bool) → String → String → Bool
promised_edge (follow_call sess users) v s u =
    v s u || (same s sess && elem u users && not (same u ""))
promised_edge (unfollow_call sess users) v s u = v s u && not (same s sess && elem u users)
promised_edge (unfollow_all_call sess) v s u = v s u && not (same s sess)

perform_follow_lem :
    (c : FollowCall) (f : Follows)
    → IsMirrored f
    → IsMirrored (perform_follow c f)
      × ((s u : String) → follows (perform_follow c f) s u ≡ promised_edge c (follows f) s u)
unfolding perform_follow promised_edge follows follow unfollow unfollow_all
perform_follow_lem (follow_call sess users) f h =
    let f' = enter_session sess f in
    let by_user_same : f'.by_user ≡ f.by_user = unfold enter_session in refl in
    (
      λ s u. ground (
        arith,
        by_user_same,
        h s u,
        follow_each-related sess users f' s u,
        enter_session-related sess f s u,
      ),
      λ s u.
          ground (arith, follow_each-related sess users f' s u, enter_session-related sess f s u),
    )
perform_follow_lem (unfollow_call sess users) f h =
    let f' = unfollow_each sess users f in
    (
      λ s u.
          ground (
            arith,
            h s u,
            unfollow_each-related sess users f s u,
            tidy_session-related sess f' s u,
          ),
      λ s u.
          ground (arith, unfollow_each-related sess users f s u, tidy_session-related sess f' s u),
    )
perform_follow_lem (unfollow_all_call sess) f h =
    (λ s u. (unfollow_all-related sess f h s u).0, λ s u. (unfollow_all-related sess f h s u).1)

-- The calls of one run, the earliest first.
unfoldable pub follow_run : List FollowCall → Follows → Follows
unfolding perform_follow
follow_run [] f = f
follow_run (c ∷ rest) f = follow_run rest (perform_follow c f)

pub promised_edges : List FollowCall → (String → String → Bool) → String → String → Bool
promised_edges [] v = v
promised_edges (c ∷ rest) v = promised_edges rest (promised_edge c v)

follow_run_lem :
    (cs : List FollowCall) (f : Follows)
    → IsMirrored f
    → IsMirrored (follow_run cs f) × (follows (follow_run cs f) ≡ promised_edges cs (follows f))
unfolding follow_run promised_edges
follow_run_lem [] f h = (h, refl)
follow_run_lem (c ∷ rest) f h =
    let (mirrored, edges) = perform_follow_lem c f h in
    let (ok_after, e) = follow_run_lem rest (perform_follow c f) mirrored in
    (ok_after, e ∙ ap (promised_edges rest) (fun_ext (λ s. fun_ext (λ u. edges s u))))

no_follows_edges : follows no_follows ≡ (λ s u. false)
unfolding follows no_follows related lookup
no_follows_edges = refl

-- After any sequence of calls on an empty registry, who follows whom is what the same sequence of
-- promises makes of the empty relation, and the followers kept under a user are the sessions that
-- follow the user.
pub follows_refines :
    (cs : List FollowCall)
    → (follows (follow_run cs no_follows) ≡ promised_edges cs (λ s u. false))
      × ((s u : String)
          → follows (follow_run cs no_follows) s u ≡ related u s (follow_run cs no_follows).by_user)
follows_refines cs =
    let (ok_after, e) =
      follow_run_lem cs no_follows (λ s u. unfold follows no_follows related lookup in refl) in
    (e ∙ ap (promised_edges cs) no_follows_edges, ok_after)
