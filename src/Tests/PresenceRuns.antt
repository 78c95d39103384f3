-- ===== src/Tests/PresenceRuns.antt =====
-- Runs of internal/presence.
use ultimate_game_server.Prelude.{
  String, ◌≡◌, refl, false, none, List, [], ◌∷◌, if◌then◌else◌, String-discrete, same, string_key,
}
use ultimate_game_server.Dict.{lookup, has, insert, delete, size, keys}
use ultimate_game_server.Dict.Sets.{add}
use ultimate_game_server.Dict.Nested.{related}
use ultimate_game_server.Presence.Stream.{
  ℤ-discrete, StreamKey-discrete, party_stream, channel_stream, StreamKey, PresenceMeta, stream_key,
}
use ultimate_game_server.Presence.Tracker.{
  new_local_tracker, inner_or_new, put_presence, add_stream, presence_in, track, track_membership,
  update, drop_presence, drop_stream, presence_of, answer, untrack, drop_all, untrack_all_detailed,
  sessions, count,
}
use ultimate_game_server.Presence.Consistency.{IsConsistent}
use ultimate_game_server.Presence.Bulk.{removal_at, untrack_all_detailed_lem}
use ultimate_game_server.Presence.Refinement.{
  view, perform, run, run_promised, tracker_refines, TrackerCall, track_call, membership_call,
  untrack_call,
}
use ultimate_game_server.Presence.Status.{no_follows}
use ultimate_game_server.Presence.Mirror.{
  follows, follow_run, promised_edges, follows_refines, FollowCall, follow_call, unfollow_call,
  unfollow_all_call,
}
use native.Mathlib.Decide.{ℕ_discrete}
use mathlib.Core.Option

abbrev key : StreamKey
key = party_stream "p"

abbrev room : StreamKey
room = channel_stream "room"

abbrev meta : PresenceMeta
meta = record { username = "Ann"; status = ""; hidden = false }

abbrev calls : List TrackerCall
calls =
    track_call "s1" key "ann" meta
    ∷ track_call "s1" room "ann" meta
    ∷ membership_call "s2" key
    ∷ untrack_call "s1" room
    ∷ []

program : Unit {0}
unfolding String-discrete lookup insert delete has size add inner_or_new put_presence add_stream
    presence_in track track_membership update untrack drop_presence drop_stream untrack_all_detailed
    drop_all perform run new_local_tracker ℤ-discrete StreamKey-discrete party_stream channel_stream
    answer sessions count keys ℕ_discrete
program = tt

two_on_stream : sessions key (run calls new_local_tracker) ≡ "s1" ∷ "s2" ∷ []
unfolding program
two_on_stream = refl

none_in_room : count room (run calls new_local_tracker) ≡ 0
unfolding program
none_in_room = refl

tracker_refines_example :
    (view (run calls new_local_tracker) ≡ run_promised calls (λ s q. none))
    × IsConsistent (run calls new_local_tracker)
tracker_refines_example = tracker_refines calls

untrack_all_detailed_lem_example :
    ((s : String) (q : StreamKey)
      → presence_in s q (untrack_all_detailed "s1" (run calls new_local_tracker)).0.by_stream
        ≡ (if same s "s1" then none else presence_in s q (run calls new_local_tracker).by_stream))
    × ((q : StreamKey)
        → removal_at q (untrack_all_detailed "s1" (run calls new_local_tracker)).1
          ≡ Option.map
              (presence_of "s1")
              (presence_in "s1" q (run calls new_local_tracker).by_stream))
untrack_all_detailed_lem_example =
    untrack_all_detailed_lem "s1" (run calls new_local_tracker) (tracker_refines calls).1

abbrev edges : List FollowCall
edges =
    follow_call "s1" ("ann" ∷ "" ∷ "bob" ∷ [])
    ∷ follow_call "s2" ("bob" ∷ [])
    ∷ unfollow_call "s1" ("bob" ∷ [])
    ∷ unfollow_all_call "s2"
    ∷ []

follows_refines_example :
    (follows (follow_run edges no_follows) ≡ promised_edges edges (λ s u. false))
    × ((s u : String)
        → follows (follow_run edges no_follows) s u
          ≡ related u s (follow_run edges no_follows).by_user)
follows_refines_example = follows_refines edges
