-- ===== src/Presence/Refinement.antt =====
-- internal/presence/stream_tracker.go: the tracker refines a function from a session and a stream
-- to a presence, through every sequence of calls.
use ultimate_game_server.Prelude.{
  String, ◌≡◌, refl, ap, ◌∙◌, inl, inr, false, ◌&&◌, Option, none, some, List, [], ◌∷◌, arith,
  if◌then◌else◌, Option-cases, is_some, same, ℤ, string_key,
}
use ultimate_game_server.Dict.{lookup}
use ultimate_game_server.Presence.Stream.{StreamKey, PresenceMeta, StreamPresence, stream_key}
use ultimate_game_server.Presence.Tracker.{
  new_local_tracker, presence_in, track, track_membership, update, untrack, untrack_all_detailed,
  untrack_all, untrack_all_keys, untrack_by_mode, LocalTracker,
}
use ultimate_game_server.Presence.Views.{hit, presence_in-put_presence, presence_in-drop_presence}
use ultimate_game_server.Presence.Consistency.{
  new_local_tracker-IsConsistent, track-IsConsistent, update-IsConsistent, untrack-IsConsistent,
  IsConsistent,
}
use ultimate_game_server.Presence.Bulk.{
  untrack_all_detailed-IsConsistent, untrack_all_keys-IsConsistent, untrack_all_detailed_lem,
  same_mode, untrack_by_mode-IsConsistent, untrack_by_mode-presence_in,
}
use mathlib.Core.Path.{fun_ext}

-- What a caller can see of a tracker.
abbrev pub View : Type 0
View = String → StreamKey → Option StreamPresence

abbrev pub view : LocalTracker → View
view t s q = presence_in s q t.by_stream

-- The exported methods that change a tracker, with their arguments.
pub data TrackerCall : Type 0 where
  track_call : String → StreamKey → String → PresenceMeta → TrackerCall
  membership_call : String → StreamKey → TrackerCall
  update_call : String → StreamKey → String → PresenceMeta → TrackerCall
  untrack_call : String → StreamKey → TrackerCall
  untrack_all_call : String → TrackerCall
  untrack_all_keys_call : String → TrackerCall
  untrack_by_mode_call : String → ℤ → TrackerCall

unfoldable pub perform : TrackerCall → LocalTracker → LocalTracker
unfolding track_membership untrack_all
perform (track_call sess key user meta) t = (track sess key user meta t).0
perform (membership_call sess key) t = (track_membership sess key t).0
perform (update_call sess key user meta) t = (update sess key user meta t).0
perform (untrack_call sess key) t = (untrack sess key t).0
perform (untrack_all_call sess) t = (untrack_all sess t).0
perform (untrack_all_keys_call sess) t = (untrack_all_keys sess t).0
perform (untrack_by_mode_call sess mode) t = untrack_by_mode sess mode t

-- What each call promises, on views alone.
pub promised : TrackerCall → View → View
promised (track_call sess key user meta) v s q =
    if hit sess key s q then some (record { user_id = user; meta = meta }) else v s q
promised (membership_call sess key) v s q =
    if hit sess key s q
    then some
        (record { user_id = ""; meta = record { username = ""; status = ""; hidden = false } })
    else v s q
promised (update_call sess key user meta) v s q =
    if hit sess key s q && is_some (v sess key)
    then some (record { user_id = user; meta = meta })
    else v s q
promised (untrack_call sess key) v s q = if hit sess key s q then none else v s q
promised (untrack_all_call sess) v s q = if same s sess then none else v s q
promised (untrack_all_keys_call sess) v s q = if same s sess then none else v s q
promised (untrack_by_mode_call sess mode) v s q =
    if same s sess && same_mode mode q then none else v s q

track-view :
    (sess : String) (key : StreamKey) (user : String) (meta : PresenceMeta) (t : LocalTracker)
    (s : String) (q : StreamKey)
    → view (track sess key user meta t).0 s q
      ≡ (if hit sess key s q then some (record { user_id = user; meta = meta }) else view t s q)
unfolding track
track-view sess key user meta t s q = ground (
  arith,
  presence_in-put_presence sess key (record { user_id = user; meta = meta }) t.by_stream s q,
)

untrack_all_keys-untrack_all_detailed :
    (sess : String) (t : LocalTracker)
    → (untrack_all_keys sess t).0 ≡ (untrack_all_detailed sess t).0
unfolding untrack_all_keys untrack_all_detailed
untrack_all_keys-untrack_all_detailed sess t = elim (Option-cases (lookup sess t.by_sess)) [
  | inl e ↦ rw (e, untrack_all_keys) (rw (e, untrack_all_detailed))
  | inr (set, e) ↦ rw (e, untrack_all_keys) (rw (e, untrack_all_detailed))
]

pub perform-IsConsistent :
    (c : TrackerCall) (t : LocalTracker) → IsConsistent t → IsConsistent (perform c t)
unfolding perform
perform-IsConsistent (track_call sess key user meta) t h = track-IsConsistent sess key user meta t h
perform-IsConsistent (membership_call sess key) t h = track-IsConsistent sess key _ _ t h
perform-IsConsistent (update_call sess key user meta) t h =
    update-IsConsistent sess key user meta t h
perform-IsConsistent (untrack_call sess key) t h = untrack-IsConsistent sess key t h
perform-IsConsistent (untrack_all_call sess) t h = untrack_all_detailed-IsConsistent sess t h
perform-IsConsistent (untrack_all_keys_call sess) t h = untrack_all_keys-IsConsistent sess t h
perform-IsConsistent (untrack_by_mode_call sess mode) t h =
    untrack_by_mode-IsConsistent sess mode t h

perform-promised :
    (c : TrackerCall) (t : LocalTracker) (s : String) (q : StreamKey)
    → IsConsistent t
    → view (perform c t) s q ≡ promised c (view t) s q
unfolding perform promised
perform-promised (track_call sess key user meta) t s q h = track-view sess key user meta t s q
perform-promised (membership_call sess key) t s q h = track-view sess key _ _ t s q
perform-promised (update_call sess key user meta) t s q h =
    unfold update in
    (ground (
      arith,
      presence_in-put_presence sess key (record { user_id = user; meta = meta }) t.by_stream s q,
    ))
perform-promised (untrack_call sess key) t s q h =
    unfold untrack in (presence_in-drop_presence sess key t.by_stream s q)
perform-promised (untrack_all_call sess) t s q h = (untrack_all_detailed_lem sess t h).0 s q
perform-promised (untrack_all_keys_call sess) t s q h =
    ap (λ x. view x s q) (untrack_all_keys-untrack_all_detailed sess t)
    ∙ (untrack_all_detailed_lem sess t h).0 s q
perform-promised (untrack_by_mode_call sess mode) t s q h =
    untrack_by_mode-presence_in sess mode t s q h

unfoldable pub run : List TrackerCall → LocalTracker → LocalTracker
run [] t = t
run (c ∷ cs) t = run cs (perform c t)

pub run_promised : List TrackerCall → View → View
run_promised [] v = v
run_promised (c ∷ cs) v = run_promised cs (promised c v)

run_lem :
    (cs : List TrackerCall) (t : LocalTracker)
    → IsConsistent t
    → IsConsistent (run cs t) × (view (run cs t) ≡ run_promised cs (view t))
unfolding run run_promised
run_lem [] t h = (h, refl)
run_lem (c ∷ cs) t h =
    let (ok_after, e) = run_lem cs (perform c t) (perform-IsConsistent c t h) in
    (ok_after, e ∙ ap (run_promised cs) (fun_ext (λ s. fun_ext (λ q. perform-promised c t s q h))))

view_new : view new_local_tracker ≡ (λ s q. none)
unfolding new_local_tracker presence_in lookup
view_new = refl

-- After any sequence of calls on a new tracker, what is seen of it is what the same sequence of
-- promises makes of the view with no presence; the two maps agree on which session is on which
-- stream, and neither holds an empty inner map.
pub tracker_refines :
    (cs : List TrackerCall)
    → (view (run cs new_local_tracker) ≡ run_promised cs (λ s q. none))
      × IsConsistent (run cs new_local_tracker)
tracker_refines cs =
    let (ok_after, e) = run_lem cs new_local_tracker new_local_tracker-IsConsistent in
    (e ∙ ap (run_promised cs) view_new, ok_after)
