-- ===== src/Presence/Views.antt =====
-- internal/presence/stream_tracker.go: a tracker read as a relation between sessions and streams,
-- and what each change of a map does to it.
use ultimate_game_server.Prelude.{
  String, ◌≡◌, inl, inr, Bool, true, false, ◌&&◌, none, some, [], ◌∷◌, arith, if◌then◌else◌,
  Option-cases, same, string_key,
}
use ultimate_game_server.Dict.{
  lookup, has, insert, delete, lookup-insert, lookup-delete, lookup_of_empty,
}
use ultimate_game_server.Presence.Stream.{StreamKey, StreamPresence, stream_key}
use ultimate_game_server.Presence.Tracker.{
  ByStream, BySession, inner_or_new, put_presence, add_stream, presence_in, drop_presence,
  drop_stream, drop_all, sessions,
}
use ultimate_game_server.Dict.Sets.{KeySet, add}

unfoldable pub listed : String → StreamKey → BySession → Bool
listed sess key sessions = elim (lookup sess sessions) [ none ↦ false | some set ↦ has key set ]

-- The pair of a session and a stream that a call names.
abbrev pub hit : String → StreamKey → String → StreamKey → Bool
hit sess key s q = same s sess && same q key

pub presence_in-put_presence :
    (sess : String) (key : StreamKey) (sp : StreamPresence) (streams : ByStream) (s : String)
    (q : StreamKey)
    → presence_in s q (put_presence sess key sp streams)
      ≡ (if hit sess key s q then some sp else presence_in s q streams)
unfolding presence_in put_presence inner_or_new lookup
presence_in-put_presence sess key sp streams s q = elim (Option-cases (lookup key streams)) [
  | inl e ↦
      ground (arith, e, lookup-insert q key (insert sess sp []) streams, lookup-insert s sess sp [])
  | inr (set, e) ↦
      ground
        (arith, e, lookup-insert q key (insert sess sp set) streams, lookup-insert s sess sp set)
]

pub presence_in-drop_presence :
    (sess : String) (key : StreamKey) (streams : ByStream) (s : String) (q : StreamKey)
    → presence_in s q (drop_presence sess key streams)
      ≡ (if hit sess key s q then none else presence_in s q streams)
unfolding presence_in drop_presence
presence_in-drop_presence sess key streams s q = elim (Option-cases (lookup key streams)) [
  | inl e ↦ ground (arith, e)
  | inr (set, e) ↦ ground (
    arith,
    e,
    lookup-insert q key (delete sess set) streams,
    lookup-delete q key streams,
    lookup-delete s sess set,
    lookup_of_empty s (delete sess set),
  )
]

pub listed-add_stream :
    (sess : String) (key : StreamKey) (sessions : BySession) (s : String) (q : StreamKey)
    → listed s q (add_stream sess key sessions)
      ≡ (if hit sess key s q then true else listed s q sessions)
unfolding listed add_stream inner_or_new lookup
listed-add_stream sess key sessions s q = elim (Option-cases (lookup sess sessions)) [
  | inl e ↦ ground (arith, e, lookup-insert s sess (add key []) sessions, lookup-insert q key tt [])
  | inr (set, e) ↦
      ground (arith, e, lookup-insert s sess (add key set) sessions, lookup-insert q key tt set)
]

pub listed-drop_stream :
    (sess : String) (key : StreamKey) (sessions : BySession) (s : String) (q : StreamKey)
    → listed s q (drop_stream sess key sessions)
      ≡ (if hit sess key s q then false else listed s q sessions)
unfolding listed drop_stream
listed-drop_stream sess key sessions s q = elim (Option-cases (lookup sess sessions)) [
  | inl e ↦ ground (arith, e)
  | inr (set, e) ↦ ground (
    arith,
    e,
    lookup-insert s sess (delete key set) sessions,
    lookup-delete s sess sessions,
    lookup-delete q key set,
    lookup_of_empty q (delete key set),
  )
]

-- The streams after `UntrackAllDetailed` dropped a set of them for the session.
pub presence_in-drop_all :
    (sess : String) (set : KeySet StreamKey) (streams : ByStream) (s : String) (q : StreamKey)
    → presence_in s q (drop_all sess set streams).0
      ≡ (if same s sess && has q set then none else presence_in s q streams)
unfolding drop_all lookup
presence_in-drop_all sess [] streams s q = ground arith
presence_in-drop_all sess ((key, u) ∷ set) streams s q = ground (
  arith,
  presence_in-drop_all sess set (drop_presence sess key streams) s q,
  presence_in-drop_presence sess key streams s q,
)
