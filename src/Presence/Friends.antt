-- ===== src/Presence/Friends.antt =====
-- internal/presence/online_index.go: which friends `GetOnlineFriends` names.
use ultimate_game_server.Prelude.{
  ℕ, suc, ◌+◌, ◌^◌, ◌<◌, String, ◌≡◌, refl, ap, ◌∙◌, inl, inr, false, ◌&&◌, ◌||◌, none, some, List,
  [], ◌∷◌, arith, ltb, leb, Option-cases, if_ind, length, same, elem, string_key,
}
use ultimate_game_server.Dict.{lookup, lookup-insert}
use ultimate_game_server.Presence.Online.{
  count_of, new_online_index, set_online, clear_online, is_online, friends_bitmap, names_of,
  get_online_friends, Roaring, OnlineIndex, IsRoaring, index_key,
}
use ultimate_game_server.Presence.OnlineOk.{set_online-IsIndexed, clear_online-IsIndexed, IsIndexed}
use ultimate_game_server.Presence.OnlineRuns.{
  perform, run, online_sessions, next_user_idx-set_online, next_user_idx-clear_online,
  new_online_index-IsIndexed, is_online_lem, OnlineCall, set_call, clear_call,
}

-- The two maps between users and indices are inverse to each other.
pub record IsNamed {B : Type 0} (oi : OnlineIndex B) : Type 0 where
  pub named :
      (u : String) (i : ℕ) → lookup u oi.user_to_idx ≡ some i → lookup i oi.idx_to_user ≡ some u
  pub numbered :
      (u : String) (i : ℕ) → lookup i oi.idx_to_user ≡ some u → lookup u oi.user_to_idx ≡ some i

module _ {B : Type 0} (roaring : Roaring B) (ok : IsRoaring roaring) where
  friends_bitmap-contains :
      (friends : List String) (oi : OnlineIndex B) (b : B) (u : String) (i : ℕ)
      → IsNamed oi
      → lookup u oi.user_to_idx ≡ some i
      → roaring.contains i (friends_bitmap roaring friends oi.user_to_idx b)
        ≡ (elem u friends || roaring.contains i b)
  unfolding friends_bitmap
  friends_bitmap-contains [] oi b u i n e = ground arith
  friends_bitmap-contains (f ∷ friends) oi b u i n e =
      elim (Option-cases (lookup f oi.user_to_idx)) [
        | inl m ↦ ground (arith, m, e, friends_bitmap-contains friends oi b u i n e)
        | inr (j, m) ↦ ground (
          arith,
          m,
          e,
          n.named u i e,
          n.named f j m,
          friends_bitmap-contains friends oi (roaring.add_bit j b) u i n e,
          ok.contains_add i j b,
        )
      ]

  names_of-elem :
      (oi : OnlineIndex B) (is : List ℕ) (u : String) (i : ℕ)
      → IsNamed oi
      → lookup u oi.user_to_idx ≡ some i
      → elem u (names_of roaring oi.idx_to_user is) ≡ elem i is
  unfolding names_of
  names_of-elem oi [] u i n e = refl
  names_of-elem oi (j ∷ is) u i n e = elim (Option-cases (lookup j oi.idx_to_user)) [
    | inl m ↦ ground (arith, m, e, n.named u i e, names_of-elem oi is u i n e)
    | inr (v, m) ↦
        ground (arith, m, e, n.named u i e, n.numbered v j m, names_of-elem oi is u i n e)
  ]

  names_of-unknown :
      (oi : OnlineIndex B) (is : List ℕ) (u : String)
      → IsNamed oi
      → lookup u oi.user_to_idx ≡ none
      → elem u (names_of roaring oi.idx_to_user is) ≡ false
  unfolding names_of
  names_of-unknown oi [] u n e = refl
  names_of-unknown oi (j ∷ is) u n e = elim (Option-cases (lookup j oi.idx_to_user)) [
    | inl m ↦ ground (arith, m, e, names_of-unknown oi is u n e)
    | inr (v, m) ↦ ground (arith, m, e, n.numbered v j m, names_of-unknown oi is u n e)
  ]

  get_online_friends-elem :
      (friends : List String) (oi : OnlineIndex B) (u : String)
      → IsNamed oi
      → elem u (get_online_friends roaring friends oi) ≡ (elem u friends && is_online roaring u oi)
  unfolding get_online_friends is_online
  get_online_friends-elem friends oi u n =
      let wanted = friends_bitmap roaring friends oi.user_to_idx roaring.new_bitmap in
      let both = roaring.conj wanted oi.online_bitmap in
      elim (Option-cases (lookup u oi.user_to_idx)) [
        | inl e ↦ ground (arith, e, names_of-unknown oi (roaring.elements both) u n e)
        | inr (i, e) ↦ ground (
          arith,
          e,
          names_of-elem oi (roaring.elements both) u i n e,
          ok.elements_contains i both,
          ok.contains_conj i wanted oi.online_bitmap,
          friends_bitmap-contains friends oi roaring.new_bitmap u i n e,
          ok.contains_new i,
        )
      ]

  set_online-IsNamed :
      (user : String) (oi : OnlineIndex B)
      → IsIndexed roaring ok oi
      → IsNamed oi
      → IsNamed (set_online roaring user oi)
  unfolding set_online
  set_online-IsNamed user oi ix n =
      let next = oi.next_user_idx in
      if_ind IsNamed (same user "") (λ blank. n)
        (λ given. elim (Option-cases (lookup user oi.user_to_idx)) [
          | inr (i, e) ↦ rw e (record { named = n.named; numbered = n.numbered })
          | inl e ↦ rw e (record {
            named = λ u i p. ground (
              arith,
              p,
              e,
              n.named u i,
              ix.below u i,
              lookup-insert u user next oi.user_to_idx,
              lookup-insert i next user oi.idx_to_user,
            );
            numbered = λ u i p. ground (
              arith,
              p,
              e,
              n.numbered u i,
              lookup-insert u user next oi.user_to_idx,
              lookup-insert i next user oi.idx_to_user,
            );
          })
        ])

  clear_online-IsNamed :
      (user : String) (oi : OnlineIndex B) → IsNamed oi → IsNamed (clear_online roaring user oi)
  unfolding clear_online
  clear_online-IsNamed user oi n =
      if_ind IsNamed (same user "") (λ blank. n)
        (λ given.
          if_ind IsNamed (leb (count_of user oi.session_count) 1)
            (λ last. record { named = n.named; numbered = n.numbered })
            (λ more. record { named = n.named; numbered = n.numbered }))

  run-IsNamed :
      (cs : List OnlineCall) (oi : OnlineIndex B)
      → oi.next_user_idx + length cs < 2 ^ 32
      → IsIndexed roaring ok oi
      → IsNamed oi
      → IsNamed (run roaring cs oi)
  unfolding run perform
  run-IsNamed [] oi h ix n = n
  run-IsNamed (set_call user ∷ cs) oi h ix n =
      let room : suc oi.next_user_idx < 2 ^ 32 = omega (arith, h) in
      run-IsNamed cs (set_online roaring user oi)
        (omega (arith, h, next_user_idx-set_online roaring ok user oi room))
        (set_online-IsIndexed roaring ok user oi room ix) (set_online-IsNamed user oi ix n)
  run-IsNamed (clear_call user ∷ cs) oi h ix n =
      run-IsNamed cs (clear_online roaring user oi)
        (rw (next_user_idx-clear_online roaring ok user oi) (omega (arith, h)))
        (clear_online-IsIndexed roaring ok user oi ix) (clear_online-IsNamed user oi n)

  new_online_index-IsNamed : IsNamed (new_online_index roaring)
  unfolding new_online_index lookup
  new_online_index-IsNamed = record {
    named = λ u i p. ground (arith, p);
    numbered = λ u i p. ground (arith, p);
  }

  -- If the bitmap treats single bits as it should, then after any sequence of calls on a new index,
  -- short enough for the indices to fit 32 bits, `GetOnlineFriends` names exactly the given friends
  -- whose count of online sessions is positive.
  pub get_online_friends_lem :
      (cs : List OnlineCall) (friends : List String) (u : String)
      → suc (length cs) < 2 ^ 32
      → elem u (get_online_friends roaring friends (run roaring cs (new_online_index roaring)))
        ≡ (elem u friends && ltb 0 (online_sessions u cs 0))
  get_online_friends_lem cs friends u h =
      let start = new_online_index roaring in
      let room : start.next_user_idx + length cs < 2 ^ 32 =
        unfold new_online_index in (omega (arith, h)) in
      let n =
        run-IsNamed cs start room (new_online_index-IsIndexed roaring ok)
          new_online_index-IsNamed in
      get_online_friends-elem friends (run roaring cs start) u n
      ∙ ap (λ b. elem u friends && b) (is_online_lem roaring ok cs u h)
