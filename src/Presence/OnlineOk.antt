-- ===== src/Presence/OnlineOk.antt =====
-- internal/presence/online_index.go: the bits of the index and the session counts.
use ultimate_game_server.Prelude.{
  ℕ, suc, ◌-◌, ◌^◌, ◌<◌, String, ◌≡◌, inl, inr, false, none, some, arith, ltb, leb, Option-cases,
  if_ind, same, string_key,
}
use ultimate_game_server.Dict.{Dict, lookup, insert, delete, lookup-insert, lookup-delete}
use ultimate_game_server.Presence.Stream.{stream_key}
use ultimate_game_server.Presence.Online.{
  count_of, set_online, clear_online, is_online, Roaring, OnlineIndex, IsRoaring, index_key,
}

module _ {B : Type 0} (roaring : Roaring B) (ok : IsRoaring roaring) where
  pub record IsIndexed (oi : OnlineIndex B) : Type 0 where
    pub apart :
        (u v : String) (i : ℕ)
        → lookup u oi.user_to_idx ≡ some i
        → lookup v oi.user_to_idx ≡ some i
        → u ≡ v
    pub below : (u : String) (i : ℕ) → lookup u oi.user_to_idx ≡ some i → i < oi.next_user_idx
    pub counted : (u : String) → is_online roaring u oi ≡ ltb 0 (count_of u oi.session_count)

  known-counted :
      (user : String) (idx n : ℕ) (oi : OnlineIndex B) (u : String)
      → IsIndexed oi
      → lookup user oi.user_to_idx ≡ some idx
      → is_online roaring u (record oi {
        session_count = insert user (suc n) oi.session_count;
        online_bitmap = roaring.add_bit idx oi.online_bitmap;
      })
        ≡ ltb 0 (count_of u (insert user (suc n) oi.session_count))
  unfolding is_online count_of
  known-counted user idx n oi u ix e = elim (Option-cases (lookup u oi.user_to_idx)) [
    | inl m ↦ ground (arith, m, e, ix.counted u, lookup-insert u user (suc n) oi.session_count)
    | inr (i, m) ↦ ground (
      arith,
      m,
      e,
      ix.counted u,
      ix.apart u user i m,
      ok.contains_add i idx oi.online_bitmap,
      lookup-insert u user (suc n) oi.session_count,
    )
  ]

  fresh-counted :
      (user : String) (n next : ℕ) (names : Dict ℕ String) (oi : OnlineIndex B) (u : String)
      → IsIndexed oi
      → lookup user oi.user_to_idx ≡ none
      → is_online roaring u (record {
        session_count = insert user (suc n) oi.session_count;
        user_to_idx = insert user oi.next_user_idx oi.user_to_idx;
        idx_to_user = names;
        next_user_idx = next;
        online_bitmap = roaring.add_bit oi.next_user_idx oi.online_bitmap;
      })
        ≡ ltb 0 (count_of u (insert user (suc n) oi.session_count))
  unfolding is_online count_of
  fresh-counted user n next names oi u ix e = elim (Option-cases (lookup u oi.user_to_idx)) [
    | inl m ↦ ground (
      arith,
      m,
      e,
      ix.counted u,
      ok.contains_add oi.next_user_idx oi.next_user_idx oi.online_bitmap,
      lookup-insert u user (suc n) oi.session_count,
      lookup-insert u user oi.next_user_idx oi.user_to_idx,
    )
    | inr (i, m) ↦ ground (
      arith,
      m,
      e,
      ix.counted u,
      ix.below u i m,
      ok.contains_add i oi.next_user_idx oi.online_bitmap,
      lookup-insert u user (suc n) oi.session_count,
      lookup-insert u user oi.next_user_idx oi.user_to_idx,
    )
  ]

  -- Users that have no index stay unmarked, so a new index must be one that no user has.
  pub set_online-IsIndexed :
      (user : String) (oi : OnlineIndex B)
      → suc oi.next_user_idx < 2 ^ 32
      → IsIndexed oi
      → IsIndexed (set_online roaring user oi)
  unfolding set_online
  set_online-IsIndexed user oi h ix =
      if_ind IsIndexed (same user "") (λ blank. ix)
        (λ named. elim (Option-cases (lookup user oi.user_to_idx)) [
          | inr (idx, e) ↦ rw e (record {
            apart = ix.apart;
            below = ix.below;
            counted = λ u. known-counted user idx (count_of user oi.session_count) oi u ix e;
          })
          | inl e ↦ rw e (record {
            apart = λ u v i p q. ground (
              arith,
              p,
              q,
              ix.apart u v i,
              ix.below u i,
              ix.below v i,
              lookup-insert u user oi.next_user_idx oi.user_to_idx,
              lookup-insert v user oi.next_user_idx oi.user_to_idx,
            );
            below = λ u i p.
                ground
                  (arith, p, h, ix.below u i, lookup-insert u user oi.next_user_idx oi.user_to_idx);
            counted = λ u. fresh-counted user (count_of user oi.session_count) _ _ oi u ix e;
          })
        ])

  removed-counted :
      (user : String) (oi : OnlineIndex B) (u : String)
      → IsIndexed oi
      → is_online roaring u (record oi {
        session_count = delete user oi.session_count;
        online_bitmap = elim (lookup user oi.user_to_idx) [
          | none ↦ oi.online_bitmap
          | some idx ↦ roaring.remove_bit idx oi.online_bitmap
        ];
      })
        ≡ ltb 0 (count_of u (delete user oi.session_count))
  unfolding is_online count_of
  removed-counted user oi u ix = elim (Option-cases (lookup u oi.user_to_idx)) [
    | inl m ↦ ground (arith, m, ix.counted u, lookup-delete u user oi.session_count)
    | inr (i, m) ↦ elim (Option-cases (lookup user oi.user_to_idx)) [
      | inl e ↦ ground (arith, m, e, ix.counted u, lookup-delete u user oi.session_count)
      | inr (idx, e) ↦ ground (
        arith,
        m,
        e,
        ix.counted u,
        ix.apart u user i m,
        ok.contains_remove i idx oi.online_bitmap,
        lookup-delete u user oi.session_count,
      )
    ]
  ]

  fewer-counted :
      (user : String) (oi : OnlineIndex B) (u : String)
      → IsIndexed oi
      → leb (count_of user oi.session_count) 1 ≡ false
      → is_online roaring u (record oi {
        session_count = insert user (count_of user oi.session_count - 1) oi.session_count;
      })
        ≡ ltb 0 (count_of u (insert user (count_of user oi.session_count - 1) oi.session_count))
  unfolding is_online count_of
  fewer-counted user oi u ix more = ground (
    arith,
    more,
    ix.counted u,
    ix.counted user,
    lookup-insert u user (count_of user oi.session_count - 1) oi.session_count,
  )

  pub clear_online-IsIndexed :
      (user : String) (oi : OnlineIndex B) → IsIndexed oi → IsIndexed (clear_online roaring user oi)
  unfolding clear_online
  clear_online-IsIndexed user oi ix =
      if_ind IsIndexed (same user "") (λ blank. ix)
        (λ named.
          if_ind IsIndexed (leb (count_of user oi.session_count) 1)
            (λ last. record {
              apart = ix.apart;
              below = ix.below;
              counted = λ u. removed-counted user oi u ix;
            })
            (λ more. record {
              apart = ix.apart;
              below = ix.below;
              counted = λ u. fewer-counted user oi u ix more;
            }))
