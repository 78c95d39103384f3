-- ===== src/Presence/Tracker.antt =====
-- internal/presence/stream_tracker.go: `LocalTracker`. A method returns the new tracker, and
-- its result beside it where it has one. The mutex is held for the whole of a method.
use ultimate_game_server.Prelude.{
  ℕ, String, Bool, true, false, Option, none, some, List, [], ◌∷◌, map, ◌==◌, if◌then◌else◌,
  is_some, Key, ℤ, string_key,
}
use ultimate_game_server.Dict.{Dict, lookup, insert, delete, size, keys}
use ultimate_game_server.Presence.Stream.{
  ℤ-discrete, StreamKey, PresenceMeta, StreamPresence, Presence, StreamPresenceRemoval, stream_key,
}
use ultimate_game_server.Dict.Sets.{KeySet, add}

abbrev pub Members : Type 0
Members = Dict String StreamPresence

-- `byStream`: stream to session to presence.
abbrev pub ByStream : Type 0
ByStream = Dict StreamKey Members

-- `bySess`: session to streams.
abbrev pub BySession : Type 0
BySession = Dict String (KeySet StreamKey)

pub record LocalTracker : Type 0 where
  pub by_stream : ByStream
  pub by_sess : BySession

unfoldable pub new_local_tracker : LocalTracker
new_local_tracker = record { by_stream = []; by_sess = [] }

-- The inner map at a key, made when it is missing.
unfoldable pub inner_or_new : {K V : Type 0} ⦃e : Key K⦄ → K → Dict K (List V) → List V
inner_or_new k m = elim (lookup k m) [ none ↦ [] | some inner ↦ inner ]

unfoldable pub put_presence : String → StreamKey → StreamPresence → ByStream → ByStream
unfolding inner_or_new
put_presence sess key sp streams = insert key (insert sess sp (inner_or_new key streams)) streams

unfoldable pub add_stream : String → StreamKey → BySession → BySession
unfolding inner_or_new
add_stream sess key sessions = insert sess (add key (inner_or_new sess sessions)) sessions

unfoldable pub presence_in : String → StreamKey → ByStream → Option StreamPresence
presence_in sess key streams = elim (lookup key streams) [
  | none ↦ none
  | some set ↦ lookup sess set
]

unfoldable pub track :
    String → StreamKey → String → PresenceMeta → LocalTracker → LocalTracker × Bool
unfolding put_presence add_stream presence_in
track sess key user meta t =
    let streams = put_presence sess key (record { user_id = user; meta = meta }) t.by_stream in
    if is_some (presence_in sess key t.by_stream)
    then (record t { by_stream = streams }, false)
    else (record { by_stream = streams; by_sess = add_stream sess key t.by_sess }, true)

unfoldable pub track_membership : String → StreamKey → LocalTracker → LocalTracker × Bool
track_membership sess key t =
    track sess key "" (record { username = ""; status = ""; hidden = false }) t

unfoldable pub update :
    String → StreamKey → String → PresenceMeta → LocalTracker → LocalTracker × Bool
unfolding put_presence presence_in
update sess key user meta t =
    if is_some (presence_in sess key t.by_stream)
    then (
      record t {
        by_stream = put_presence sess key (record { user_id = user; meta = meta }) t.by_stream;
      },
      true,
    )
    else (t, false)

-- The session leaves a stream; a stream with nobody left goes.
unfoldable pub drop_presence : String → StreamKey → ByStream → ByStream
drop_presence sess key streams = elim (lookup key streams) [
  | none ↦ streams
  | some set ↦
      let rest = delete sess set in
      if size rest == 0 then delete key streams else insert key rest streams
]

-- The stream leaves a session's set; an empty set goes.
unfoldable pub drop_stream : String → StreamKey → BySession → BySession
drop_stream sess key sessions = elim (lookup sess sessions) [
  | none ↦ sessions
  | some set ↦
      let rest = delete key set in
      if size rest == 0 then delete sess sessions else insert sess rest sessions
]

abbrev pub presence_of : String → StreamPresence → Presence
presence_of sess sp = record { session_id = sess; user_id = sp.user_id; meta = sp.meta }

abbrev pub empty_presence : Presence
empty_presence = record {
  session_id = "";
  user_id = "";
  meta = record { username = ""; status = ""; hidden = false };
}

-- A presence with `ok`, as `Untrack` and `GetPresence` return it.
unfoldable pub answer : String → Option StreamPresence → Presence × Bool
answer sess none = (empty_presence, false)
answer sess (some sp) = (presence_of sess sp, true)

unfoldable pub untrack : String → StreamKey → LocalTracker → LocalTracker × (Presence × Bool)
unfolding drop_presence drop_stream presence_in
untrack sess key t = (
  record {
    by_stream = drop_presence sess key t.by_stream;
    by_sess = drop_stream sess key t.by_sess;
  },
  answer sess (presence_in sess key t.by_stream),
)

-- The loop of `UntrackAllDetailed` over the session's streams.
unfoldable pub drop_all :
    String → KeySet StreamKey → ByStream → ByStream × List StreamPresenceRemoval
unfolding drop_presence presence_in
drop_all sess [] streams = (streams, [])
drop_all sess ((key, _) ∷ rest) streams =
    let (streams', removed) = drop_all sess rest (drop_presence sess key streams) in
    (
      streams',
      (elim (presence_in sess key streams) [
        | none ↦ removed
        | some sp ↦ (record { key = key; presence = presence_of sess sp }) ∷ removed
      ]),
    )

unfoldable pub untrack_all_detailed :
    String → LocalTracker → LocalTracker × List StreamPresenceRemoval
unfolding drop_all
untrack_all_detailed sess t = elim (lookup sess t.by_sess) [
  | none ↦ (t, [])
  | some set ↦
      let (streams, removed) = drop_all sess set t.by_stream in
      (record { by_stream = streams; by_sess = delete sess t.by_sess }, removed)
]

unfoldable pub untrack_all : String → LocalTracker → LocalTracker × List Presence
untrack_all sess t =
    let (t', removed) = untrack_all_detailed sess t in (t', map (λ d. d.presence) removed)

unfoldable pub untrack_all_keys : String → LocalTracker → LocalTracker × List StreamKey
untrack_all_keys sess t = elim (lookup sess t.by_sess) [
  | none ↦ (t, [])
  | some set ↦ (
    record { by_stream = (drop_all sess set t.by_stream).0; by_sess = delete sess t.by_sess },
    keys set,
  )
]

-- The loop of `UntrackByMode`: what it leaves of the session's set, and of the streams.
unfoldable pub drop_mode : String → ℤ → KeySet StreamKey → ByStream → KeySet StreamKey × ByStream
drop_mode sess mode [] streams = ([], streams)
drop_mode sess mode ((key, u) ∷ rest) streams = elim (ℤ-discrete key.mode mode) [
  | yes _ ↦ drop_mode sess mode rest (drop_presence sess key streams)
  | no _ ↦ let (kept, streams') = drop_mode sess mode rest streams in ((key, u) ∷ kept, streams')
]

unfoldable pub untrack_by_mode : String → ℤ → LocalTracker → LocalTracker
unfolding drop_mode
untrack_by_mode sess mode t = elim (lookup sess t.by_sess) [
  | none ↦ t
  | some set ↦
      let (kept, streams) = drop_mode sess mode set t.by_stream in
      record {
        by_stream = streams;
        by_sess = if size kept == 0 then delete sess t.by_sess else insert sess kept t.by_sess;
      }
]

unfoldable pub list_by_stream : StreamKey → LocalTracker → List Presence
unfolding inner_or_new
list_by_stream key t = map (λ p. presence_of p.0 p.1) (inner_or_new key t.by_stream)

unfoldable pub get_presence : String → StreamKey → LocalTracker → Presence × Bool
unfolding presence_in answer
get_presence sess key t = answer sess (presence_in sess key t.by_stream)

unfoldable pub sessions : StreamKey → LocalTracker → List String
unfolding inner_or_new
sessions key t = keys (inner_or_new key t.by_stream)

unfoldable pub count : StreamKey → LocalTracker → ℕ
unfolding inner_or_new
count key t = size (inner_or_new key t.by_stream)
