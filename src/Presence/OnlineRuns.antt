-- ===== src/Presence/OnlineRuns.antt =====
-- internal/presence/online_index.go: who is online after a sequence of calls.
use ultimate_game_server.Prelude.{
  ℕ, suc, ◌+◌, ◌-◌, ◌^◌, ◌≤◌, ◌<◌, String, ◌≡◌, refl, ap, ◌∙◌, inl, inr, not, ◌&&◌, List, [], ◌∷◌,
  arith, ltb, if◌then◌else◌, Option-cases, length, same, string_key,
}
use ultimate_game_server.Dict.{lookup, lookup-insert, lookup-delete}
use ultimate_game_server.Presence.Stream.{stream_key}
use ultimate_game_server.Presence.Online.{
  count_of, new_online_index, set_online, clear_online, is_online, Roaring, OnlineIndex, IsRoaring,
  index_key,
}
use ultimate_game_server.Presence.OnlineOk.{set_online-IsIndexed, clear_online-IsIndexed, IsIndexed}

pub data OnlineCall : Type 0 where
  set_call : String → OnlineCall
  clear_call : String → OnlineCall

module _ {B : Type 0} (roaring : Roaring B) where
  unfoldable pub perform : OnlineCall → OnlineIndex B → OnlineIndex B
  perform (set_call user) oi = set_online roaring user oi
  perform (clear_call user) oi = clear_online roaring user oi

  unfoldable pub run : List OnlineCall → OnlineIndex B → OnlineIndex B
  unfolding perform
  run [] oi = oi
  run (c ∷ cs) oi = run cs (perform c oi)

-- The sessions of a user that are online after some calls, from a number of them on.
unfoldable pub online_sessions : String → List OnlineCall → ℕ → ℕ
online_sessions u [] n = n
online_sessions u (set_call user ∷ cs) n =
    online_sessions u cs (if same u user && not (same user "") then suc n else n)
online_sessions u (clear_call user ∷ cs) n =
    online_sessions u cs (if same u user && not (same user "") then n - 1 else n)

module _ {B : Type 0} (roaring : Roaring B) (ok : IsRoaring roaring) where
  set_online-count_of :
      (user : String) (oi : OnlineIndex B) (u : String)
      → count_of u (set_online roaring user oi).session_count ≡ (
          if same u user && not (same user "")
          then suc (count_of u oi.session_count)
          else count_of u oi.session_count)
  unfolding set_online count_of
  set_online-count_of user oi u = elim (Option-cases (lookup user oi.user_to_idx)) [
    | inl e ↦
        ground
          (arith, e, lookup-insert u user (suc (count_of user oi.session_count)) oi.session_count)
    | inr (i, e) ↦
        ground
          (arith, e, lookup-insert u user (suc (count_of user oi.session_count)) oi.session_count)
  ]

  clear_online-count_of :
      (user : String) (oi : OnlineIndex B) (u : String)
      → count_of u (clear_online roaring user oi).session_count ≡ (
          if same u user && not (same user "")
          then count_of u oi.session_count - 1
          else count_of u oi.session_count)
  unfolding clear_online count_of
  clear_online-count_of user oi u = ground (
    arith,
    lookup-insert u user (count_of user oi.session_count - 1) oi.session_count,
    lookup-delete u user oi.session_count,
  )

  pub next_user_idx-set_online :
      (user : String) (oi : OnlineIndex B)
      → suc oi.next_user_idx < 2 ^ 32
      → (set_online roaring user oi).next_user_idx ≤ suc oi.next_user_idx
  unfolding set_online
  next_user_idx-set_online user oi h = elim (Option-cases (lookup user oi.user_to_idx)) [
    | inl e ↦ ground (arith, e, h)
    | inr (i, e) ↦ ground (arith, e, h)
  ]

  pub next_user_idx-clear_online :
      (user : String) (oi : OnlineIndex B)
      → (clear_online roaring user oi).next_user_idx ≡ oi.next_user_idx
  unfolding clear_online
  next_user_idx-clear_online user oi = ground arith

  pub new_online_index-IsIndexed : IsIndexed roaring ok (new_online_index roaring)
  unfolding new_online_index lookup is_online count_of
  new_online_index-IsIndexed = record {
    apart = λ u v i p q. ground (arith, p);
    below = λ u i p. ground (arith, p);
    counted = λ u. refl;
  }

  run_lem :
      (cs : List OnlineCall) (oi : OnlineIndex B) (u : String)
      → oi.next_user_idx + length cs < 2 ^ 32
      → IsIndexed roaring ok oi
      → is_online roaring u (run roaring cs oi)
        ≡ ltb 0 (online_sessions u cs (count_of u oi.session_count))
  unfolding run perform online_sessions
  run_lem [] oi u h ix = ix.counted u
  run_lem (set_call user ∷ cs) oi u h ix =
      let room : suc oi.next_user_idx < 2 ^ 32 = omega (arith, h) in
      let ix' = set_online-IsIndexed roaring ok user oi room ix in
      let ih =
        run_lem cs (set_online roaring user oi) u
          (omega (arith, h, next_user_idx-set_online user oi room)) ix' in
      ih ∙ ap (λ n. ltb 0 (online_sessions u cs n)) (set_online-count_of user oi u)
  run_lem (clear_call user ∷ cs) oi u h ix =
      let ix' = clear_online-IsIndexed roaring ok user oi ix in
      run_lem cs (clear_online roaring user oi) u
        (rw (next_user_idx-clear_online user oi) (omega (arith, h))) ix'
      ∙ ap (λ n. ltb 0 (online_sessions u cs n)) (clear_online-count_of user oi u)

  -- If the bitmap adds, removes and tests single bits as it should, then after any sequence of calls
  -- on a new index, short enough for the indices to fit 32 bits, a user is online exactly if the
  -- user's count of sessions is positive, where a set of that user adds one, a clear takes one away if
  -- there is one, and calls for the blank user id count for nothing.
  pub is_online_lem :
      (cs : List OnlineCall) (u : String)
      → suc (length cs) < 2 ^ 32
      → is_online roaring u (run roaring cs (new_online_index roaring))
        ≡ ltb 0 (online_sessions u cs 0)
  unfolding new_online_index lookup count_of
  is_online_lem cs u h =
      run_lem cs (new_online_index roaring) u (omega (arith, h)) new_online_index-IsIndexed
