-- ===== src/Presence/Consistency.antt =====
-- internal/presence/stream_tracker.go: the two maps of a tracker say the same, through any calls.
use ultimate_game_server.Prelude.{
  ◌<◌, String, ◌≡◌, refl, inl, inr, [], ◌∷◌, arith, ◌==◌, Bool-cases, Option-cases, is_some,
  string_key,
}
use ultimate_game_server.Dict.{
  lookup, insert, delete, size, lookup-insert_self, size_pos, Every, Every-insert, Every-delete,
}
use ultimate_game_server.Presence.Stream.{StreamKey, PresenceMeta, StreamPresence, stream_key}
use ultimate_game_server.Presence.Tracker.{
  Members, ByStream, BySession, new_local_tracker, inner_or_new, put_presence, add_stream,
  presence_in, track, update, drop_presence, drop_stream, untrack, drop_all, sessions, LocalTracker,
}
use ultimate_game_server.Presence.Views.{
  listed, presence_in-put_presence, presence_in-drop_presence, listed-add_stream,
  listed-drop_stream,
}
use ultimate_game_server.Dict.Sets.{KeySet, add}

pub record IsConsistent (t : LocalTracker) : Type 0 where
  pub agree :
      (s : String) (q : StreamKey) → is_some (presence_in s q t.by_stream) ≡ listed s q t.by_sess
  pub streams_used : Every (λ q (set : Members). 0 < size set) t.by_stream
  pub sessions_used : Every (λ s (set : KeySet StreamKey). 0 < size set) t.by_sess

put_presence-used :
    (sess : String) (key : StreamKey) (sp : StreamPresence) (streams : ByStream)
    → Every (λ q (set : Members). 0 < size set) streams
    → Every (λ q (set : Members). 0 < size set) (put_presence sess key sp streams)
unfolding put_presence
put_presence-used sess key sp streams h =
    let set = insert sess sp (inner_or_new key streams) in
    Every-insert (λ q (set : Members). 0 < size set) key set streams
      (size_pos sess sp set (lookup-insert_self sess sp (inner_or_new key streams))) h

add_stream-used :
    (sess : String) (key : StreamKey) (sessions : BySession)
    → Every (λ q (set : KeySet StreamKey). 0 < size set) sessions
    → Every (λ q (set : KeySet StreamKey). 0 < size set) (add_stream sess key sessions)
unfolding add_stream
add_stream-used sess key sessions h =
    let set = add key (inner_or_new sess sessions) in
    Every-insert (λ q (set : KeySet StreamKey). 0 < size set) sess set sessions
      (size_pos key tt set (lookup-insert_self key tt (inner_or_new sess sessions))) h

pub drop_presence-used :
    (sess : String) (key : StreamKey) (streams : ByStream)
    → Every (λ q (set : Members). 0 < size set) streams
    → Every (λ q (set : Members). 0 < size set) (drop_presence sess key streams)
unfolding drop_presence
drop_presence-used sess key streams h = elim (Option-cases (lookup key streams)) [
  | inl e ↦ rw (e, drop_presence) h
  | inr (set, e) ↦ elim (Bool-cases (size (delete sess set) == 0)) [
    | inl z ↦
        rw (e, drop_presence)
          (rw z (Every-delete (λ q (set : Members). 0 < size set) key streams h))
    | inr n ↦
        rw (e, drop_presence)
          (rw n (
            Every-insert (λ q (set : Members). 0 < size set) key (delete sess set) streams
              (ground arith) h))
  ]
]

drop_stream-used :
    (sess : String) (key : StreamKey) (sessions : BySession)
    → Every (λ q (set : KeySet StreamKey). 0 < size set) sessions
    → Every (λ q (set : KeySet StreamKey). 0 < size set) (drop_stream sess key sessions)
unfolding drop_stream
drop_stream-used sess key sessions h = elim (Option-cases (lookup sess sessions)) [
  | inl e ↦ rw (e, drop_stream) h
  | inr (set, e) ↦ elim (Bool-cases (size (delete key set) == 0)) [
    | inl z ↦
        rw (e, drop_stream)
          (rw z (Every-delete (λ q (set : KeySet StreamKey). 0 < size set) sess sessions h))
    | inr n ↦
        rw (e, drop_stream)
          (rw n (
            Every-insert (λ q (set : KeySet StreamKey). 0 < size set) sess (delete key set) sessions
              (ground arith) h))
  ]
]

pub new_local_tracker-IsConsistent : IsConsistent new_local_tracker
unfolding new_local_tracker presence_in listed lookup
new_local_tracker-IsConsistent = record {
  agree = λ s q. refl;
  streams_used = tt;
  sessions_used = tt;
}

pub track-IsConsistent :
    (sess : String) (key : StreamKey) (user : String) (meta : PresenceMeta) (t : LocalTracker)
    → IsConsistent t
    → IsConsistent (track sess key user meta t).0
unfolding track
track-IsConsistent sess key user meta t h =
    let sp : StreamPresence = record { user_id = user; meta = meta } in
    let streams = put_presence sess key sp t.by_stream in
    elim (Bool-cases (is_some (presence_in sess key t.by_stream))) [
      | inl old ↦ rw old (record {
        agree = λ s q. ground (
          arith,
          h.agree s q,
          h.agree sess key,
          presence_in-put_presence sess key sp t.by_stream s q,
        );
        streams_used = put_presence-used sess key sp t.by_stream h.streams_used;
        sessions_used = h.sessions_used;
      })
      | inr new ↦ rw new (record {
        agree = λ s q. ground (
          arith,
          h.agree s q,
          presence_in-put_presence sess key sp t.by_stream s q,
          listed-add_stream sess key t.by_sess s q,
        );
        streams_used = put_presence-used sess key sp t.by_stream h.streams_used;
        sessions_used = add_stream-used sess key t.by_sess h.sessions_used;
      })
    ]

pub update-IsConsistent :
    (sess : String) (key : StreamKey) (user : String) (meta : PresenceMeta) (t : LocalTracker)
    → IsConsistent t
    → IsConsistent (update sess key user meta t).0
unfolding update
update-IsConsistent sess key user meta t h =
    let sp : StreamPresence = record { user_id = user; meta = meta } in
    elim (Bool-cases (is_some (presence_in sess key t.by_stream))) [
      | inr new ↦ rw new h
      | inl old ↦ rw old (record {
        agree = λ s q. ground (
          arith,
          h.agree s q,
          h.agree sess key,
          presence_in-put_presence sess key sp t.by_stream s q,
        );
        streams_used = put_presence-used sess key sp t.by_stream h.streams_used;
        sessions_used = h.sessions_used;
      })
    ]

pub untrack-IsConsistent :
    (sess : String) (key : StreamKey) (t : LocalTracker)
    → IsConsistent t
    → IsConsistent (untrack sess key t).0
unfolding untrack
untrack-IsConsistent sess key t h = record {
  agree = λ s q. ground (
    arith,
    h.agree s q,
    presence_in-drop_presence sess key t.by_stream s q,
    listed-drop_stream sess key t.by_sess s q,
  );
  streams_used = drop_presence-used sess key t.by_stream h.streams_used;
  sessions_used = drop_stream-used sess key t.by_sess h.sessions_used;
}

pub drop_all-used :
    (sess : String) (set : KeySet StreamKey) (streams : ByStream)
    → Every (λ q (set : Members). 0 < size set) streams
    → Every (λ q (set : Members). 0 < size set) (drop_all sess set streams).0
unfolding drop_all
drop_all-used sess [] streams h = h
drop_all-used sess ((key, u) ∷ set) streams h =
    drop_all-used sess set (drop_presence sess key streams) (drop_presence-used sess key streams h)
