-- ===== src/Tests/OnlineRuns.antt =====
-- Runs of internal/presence/online_index.go.
use ultimate_game_server.Prelude.{
  ℕ, String, ◌≡◌, refl, not, ◌&&◌, List, [], ◌∷◌, arith, ltb, if◌then◌else◌, String-discrete, same,
  elem, string_key,
}
use ultimate_game_server.Dict.{lookup, insert, delete}
use ultimate_game_server.Presence.Online.{
  count_of, new_online_index, set_online, clear_online, is_online, friends_bitmap, names_of,
  get_online_friends, Roaring, IsRoaring, index_key,
}
use ultimate_game_server.Presence.OnlineRuns.{
  perform, run, online_sessions, is_online_lem, OnlineCall, set_call, clear_call,
}
use ultimate_game_server.Presence.Friends.{get_online_friends_lem}
use native.Mathlib.Decide.{ℕ_discrete}

-- A bitmap as the list of its bits.
abbrev without : ℕ → List ℕ → List ℕ
without i [] = []
without i (j ∷ js) = if same i j then without i js else j ∷ without i js

abbrev common : List ℕ → List ℕ → List ℕ
common [] js = []
common (i ∷ is) js = if elem i js then i ∷ common is js else common is js

abbrev bitmap : Roaring (List ℕ)
bitmap = record {
  new_bitmap = [];
  add_bit = λ i b. i ∷ b;
  remove_bit = without;
  contains = elem;
  conj = common;
  elements = λ b. b;
}

without-elem : (i j : ℕ) (b : List ℕ) → elem i (without j b) ≡ (not (same i j) && elem i b)
without-elem i j [] = ground arith
without-elem i j (k ∷ b) = ground (arith, without-elem i j b)

common-elem : (i : ℕ) (a b : List ℕ) → elem i (common a b) ≡ (elem i a && elem i b)
common-elem i [] b = refl
common-elem i (j ∷ a) b = ground (arith, common-elem i a b)

bitmap-IsRoaring : IsRoaring bitmap
bitmap-IsRoaring = record {
  contains_new = λ i. refl;
  contains_add = λ i j b. refl;
  contains_remove = without-elem;
  contains_conj = common-elem;
  elements_contains = λ i b. refl;
}

abbrev online_calls : List OnlineCall
online_calls =
    set_call "ann" ∷ set_call "bob" ∷ set_call "ann" ∷ clear_call "ann" ∷ clear_call "bob" ∷ []

is_online_lem_example :
    is_online bitmap "ann" (run bitmap online_calls (new_online_index bitmap))
    ≡ ltb 0 (online_sessions "ann" online_calls 0)
is_online_lem_example = is_online_lem bitmap bitmap-IsRoaring online_calls "ann" (omega arith)

online_program : Unit {0}
unfolding String-discrete lookup insert delete ℕ_discrete set_online clear_online is_online count_of
    new_online_index perform run online_sessions friends_bitmap names_of get_online_friends
online_program = tt

ann_only :
    get_online_friends bitmap
      ("bob" ∷ "ann" ∷ [])
      (run bitmap online_calls (new_online_index bitmap))
    ≡ "ann" ∷ []
unfolding online_program
ann_only = refl

get_online_friends_lem_example :
    elem {K = String} "ann" (
      get_online_friends bitmap
        ("bob" ∷ "ann" ∷ [])
        (run bitmap online_calls (new_online_index bitmap)))
    ≡ (elem {K = String} "ann" ("bob" ∷ "ann" ∷ []) && ltb 0 (online_sessions "ann" online_calls 0))
get_online_friends_lem_example =
    get_online_friends_lem bitmap bitmap-IsRoaring online_calls ("bob" ∷ "ann" ∷ []) "ann"
      (omega arith)
