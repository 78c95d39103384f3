-- ===== src/Presence/Bulk.antt =====
-- internal/presence/stream_tracker.go: `UntrackAll…` and `UntrackByMode`.
use ultimate_game_server.Prelude.{
  ◌<◌, String, ◌≡◌, refl, inl, inr, Bool, true, false, not, ◌&&◌, Option, none, some, List, [], ◌∷◌,
  arith, ◌==◌, if◌then◌else◌, Bool-cases, Option-cases, same, ℤ, string_key,
}
use ultimate_game_server.Dict.{
  lookup, has, delete, size, lookup-insert, lookup-delete, lookup_of_empty, Every, Every-insert,
  Every-delete,
}
use ultimate_game_server.Presence.Stream.{
  ℤ-discrete, StreamKey, Presence, StreamPresenceRemoval, stream_key,
}
use ultimate_game_server.Presence.Tracker.{
  Members, ByStream, BySession, presence_in, drop_presence, presence_of, drop_all,
  untrack_all_detailed, untrack_all_keys, drop_mode, untrack_by_mode, LocalTracker,
}
use ultimate_game_server.Presence.Views.{listed, presence_in-drop_presence, presence_in-drop_all}
use ultimate_game_server.Presence.Consistency.{drop_presence-used, drop_all-used, IsConsistent}
use ultimate_game_server.Dict.Sets.{KeySet}
use mathlib.Core.Option

-- The presence that a list of removals names for a stream.
unfoldable pub removal_at : StreamKey → List StreamPresenceRemoval → Option Presence
removal_at q [] = none
removal_at q (d ∷ rest) = if same q d.key then some d.presence else removal_at q rest

drop_all-removal_at :
    (sess : String) (set : KeySet StreamKey) (streams : ByStream) (q : StreamKey)
    → removal_at q (drop_all sess set streams).1
      ≡ (if has q set then Option.map (presence_of sess) (presence_in sess q streams) else none)
unfolding drop_all removal_at lookup
drop_all-removal_at sess [] streams q = refl
drop_all-removal_at sess ((key, u) ∷ set) streams q = ground (
  arith,
  drop_all-removal_at sess set (drop_presence sess key streams) q,
  presence_in-drop_presence sess key streams sess q,
)

listed_of_none :
    (sess : String) (q : StreamKey) (m : BySession) → lookup sess m ≡ none → listed sess q m ≡ false
unfolding listed
listed_of_none sess q m e = ground arith

cleared-IsConsistent :
    (sess : String) (set : KeySet StreamKey) (t : LocalTracker)
    → IsConsistent t
    → lookup sess t.by_sess ≡ some set
    → IsConsistent
        (record { by_stream = (drop_all sess set t.by_stream).0; by_sess = delete sess t.by_sess })
unfolding listed
cleared-IsConsistent sess set t h e = record {
  agree = λ s q. ground (
    arith,
    e,
    h.agree s q,
    presence_in-drop_all sess set t.by_stream s q,
    lookup-delete s sess t.by_sess,
  );
  streams_used = drop_all-used sess set t.by_stream h.streams_used;
  sessions_used =
      Every-delete (λ s (set : KeySet StreamKey). 0 < size set) sess t.by_sess h.sessions_used;
}

pub untrack_all_detailed-IsConsistent :
    (sess : String) (t : LocalTracker)
    → IsConsistent t
    → IsConsistent (untrack_all_detailed sess t).0
unfolding untrack_all_detailed
untrack_all_detailed-IsConsistent sess t h = elim (Option-cases (lookup sess t.by_sess)) [
  | inl e ↦ rw (e, untrack_all_detailed) h
  | inr (set, e) ↦ rw (e, untrack_all_detailed) (cleared-IsConsistent sess set t h e)
]

pub untrack_all_keys-IsConsistent :
    (sess : String) (t : LocalTracker) → IsConsistent t → IsConsistent (untrack_all_keys sess t).0
unfolding untrack_all_keys
untrack_all_keys-IsConsistent sess t h = elim (Option-cases (lookup sess t.by_sess)) [
  | inl e ↦ rw (e, untrack_all_keys) h
  | inr (set, e) ↦ rw (e, untrack_all_keys) (cleared-IsConsistent sess set t h e)
]

-- On a consistent tracker `UntrackAllDetailed` takes the session off every stream and changes no
-- other presence, and what it returns names, for each stream, exactly the presence that the
-- session had there.
pub untrack_all_detailed_lem :
    (sess : String) (t : LocalTracker)
    → IsConsistent t
    → ((s : String) (q : StreamKey)
        → presence_in s q (untrack_all_detailed sess t).0.by_stream
          ≡ (if same s sess then none else presence_in s q t.by_stream))
      × ((q : StreamKey)
          → removal_at q (untrack_all_detailed sess t).1
            ≡ Option.map (presence_of sess) (presence_in sess q t.by_stream))
unfolding untrack_all_detailed listed removal_at
untrack_all_detailed_lem sess t h = elim (Option-cases (lookup sess t.by_sess)) [
  | inl e ↦ (λ s q. ground (arith, e, h.agree sess q), λ q. ground (arith, e, h.agree sess q))
  | inr (set, e) ↦ (
    λ s q. ground (arith, e, h.agree sess q, presence_in-drop_all sess set t.by_stream s q),
    λ q. ground (arith, e, h.agree sess q, drop_all-removal_at sess set t.by_stream q),
  )
]

pub same_mode : ℤ → StreamKey → Bool
same_mode mode q = elim (ℤ-discrete q.mode mode) [ yes _ ↦ true | no _ ↦ false ]

drop_mode-presence_in :
    (sess : String) (mode : ℤ) (set : KeySet StreamKey) (streams : ByStream) (s : String)
    (q : StreamKey)
    → presence_in s q (drop_mode sess mode set streams).1
      ≡ (if same s sess && has q set && same_mode mode q then none else presence_in s q streams)
unfolding drop_mode lookup same_mode
drop_mode-presence_in sess mode [] streams s q = ground arith
drop_mode-presence_in sess mode ((key, u) ∷ set) streams s q = elim (ℤ-discrete key.mode mode) [
  | yes p ↦ ground (
    arith,
    p,
    drop_mode-presence_in sess mode set (drop_presence sess key streams) s q,
    presence_in-drop_presence sess key streams s q,
  )
  | no n ↦ ground (arith, n, drop_mode-presence_in sess mode set streams s q)
]

drop_mode-has :
    (sess : String) (mode : ℤ) (set : KeySet StreamKey) (streams : ByStream) (q : StreamKey)
    → has q (drop_mode sess mode set streams).0 ≡ (has q set && not (same_mode mode q))
unfolding drop_mode lookup same_mode
drop_mode-has sess mode [] streams q = refl
drop_mode-has sess mode ((key, u) ∷ set) streams q = elim (ℤ-discrete key.mode mode) [
  | yes p ↦ ground (arith, p, drop_mode-has sess mode set (drop_presence sess key streams) q)
  | no n ↦ ground (arith, n, drop_mode-has sess mode set streams q)
]

drop_mode-used :
    (sess : String) (mode : ℤ) (set : KeySet StreamKey) (streams : ByStream)
    → Every (λ q (set : Members). 0 < size set) streams
    → Every (λ q (set : Members). 0 < size set) (drop_mode sess mode set streams).1
unfolding drop_mode
drop_mode-used sess mode [] streams h = h
drop_mode-used sess mode ((key, u) ∷ set) streams h = elim (ℤ-discrete key.mode mode) [
  | yes p ↦ ground (
    arith,
    p,
    drop_mode-used sess mode set (drop_presence sess key streams)
        (drop_presence-used sess key streams h),
  )
  | no n ↦ ground (arith, n, drop_mode-used sess mode set streams h)
]

pub untrack_by_mode-IsConsistent :
    (sess : String) (mode : ℤ) (t : LocalTracker)
    → IsConsistent t
    → IsConsistent (untrack_by_mode sess mode t)
unfolding untrack_by_mode listed
untrack_by_mode-IsConsistent sess mode t h = elim (Option-cases (lookup sess t.by_sess)) [
  | inl e ↦ rw (e, untrack_by_mode) h
  | inr (set, e) ↦
      let kept = (drop_mode sess mode set t.by_stream).0 in
      let used = drop_mode-used sess mode set t.by_stream h.streams_used in
      elim (Bool-cases (size kept == 0)) [
        | inl z ↦
            rw (e, untrack_by_mode)
              (rw z (record {
                agree = λ s q. ground (
                  arith,
                  e,
                  z,
                  h.agree s q,
                  drop_mode-presence_in sess mode set t.by_stream s q,
                  drop_mode-has sess mode set t.by_stream q,
                  lookup_of_empty q kept z,
                  lookup-delete s sess t.by_sess,
                );
                streams_used = used;
                sessions_used =
                    Every-delete (λ s (set : KeySet StreamKey). 0 < size set) sess t.by_sess
                      h.sessions_used;
              }))
        | inr n ↦
            rw (e, untrack_by_mode)
              (rw n (record {
                agree = λ s q. ground (
                  arith,
                  e,
                  n,
                  h.agree s q,
                  drop_mode-presence_in sess mode set t.by_stream s q,
                  drop_mode-has sess mode set t.by_stream q,
                  lookup-insert s sess kept t.by_sess,
                );
                streams_used = used;
                sessions_used =
                    Every-insert (λ s (set : KeySet StreamKey). 0 < size set) sess kept t.by_sess
                      (ground arith) h.sessions_used;
              }))
      ]
]

pub untrack_by_mode-presence_in :
    (sess : String) (mode : ℤ) (t : LocalTracker) (s : String) (q : StreamKey)
    → IsConsistent t
    → presence_in s q (untrack_by_mode sess mode t).by_stream
      ≡ (if same s sess && same_mode mode q then none else presence_in s q t.by_stream)
unfolding untrack_by_mode listed
untrack_by_mode-presence_in sess mode t s q h = elim (Option-cases (lookup sess t.by_sess)) [
  | inl e ↦ ground (arith, e, h.agree sess q)
  | inr (set, e) ↦
      ground (arith, e, h.agree sess q, drop_mode-presence_in sess mode set t.by_stream s q)
]
