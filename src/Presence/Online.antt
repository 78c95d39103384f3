-- ===== src/Presence/Online.antt =====
-- internal/presence/online_index.go: `OnlineIndex`. The roaring bitmap is a library's, and a
-- parameter: its operations, and what is assumed of them.
use ultimate_game_server.Prelude.{
  ℕ, suc, ◌-◌, ◌%◌, ◌^◌, String, ◌≡◌, Bool, false, not, ◌&&◌, ◌||◌, none, some, List, [], ◌∷◌, leb,
  if◌then◌else◌, same, elem, Key, string_key,
}
use ultimate_game_server.Dict.{Dict, lookup, insert, delete}
use ultimate_game_server.Presence.Stream.{stream_key}
use native.Mathlib.Decide.{ℕ_discrete}

instance abbrev pub index_key : Key ℕ
index_key = record { dec = ℕ_discrete }

pub record Roaring (B : Type 0) : Type 0 where
  pub new_bitmap : B
  pub add_bit : ℕ → B → B
  pub remove_bit : ℕ → B → B
  pub contains : ℕ → B → Bool
  pub conj : B → B → B
  pub elements : B → List ℕ

-- A session count that is not there is 0; no count is ever stored below 1.
pub record OnlineIndex (B : Type 0) : Type 0 where
  pub online_bitmap : B
  pub user_to_idx : Dict String ℕ
  pub idx_to_user : Dict ℕ String
  pub next_user_idx : ℕ
  pub session_count : Dict String ℕ

unfoldable pub count_of : String → Dict String ℕ → ℕ
count_of u m = elim (lookup u m) [ none ↦ 0 | some n ↦ n ]

module _ {B : Type 0} (roaring : Roaring B) where
  unfoldable pub new_online_index : OnlineIndex B
  new_online_index = record {
    online_bitmap = roaring.new_bitmap;
    user_to_idx = [];
    idx_to_user = [];
    next_user_idx = 1;
    session_count = [];
  }

  -- `nextUserIdx` is a uint32.
  unfoldable pub set_online : String → OnlineIndex B → OnlineIndex B
  unfolding count_of
  set_online user oi =
      let counts = insert user (suc (count_of user oi.session_count)) oi.session_count in
      if same user "" then oi else (elim (lookup user oi.user_to_idx) [
        | some idx ↦ record oi {
          session_count = counts;
          online_bitmap = roaring.add_bit idx oi.online_bitmap;
        }
        | none ↦ record {
          session_count = counts;
          user_to_idx = insert user oi.next_user_idx oi.user_to_idx;
          idx_to_user = insert oi.next_user_idx user oi.idx_to_user;
          next_user_idx = suc oi.next_user_idx % 2 ^ 32;
          online_bitmap = roaring.add_bit oi.next_user_idx oi.online_bitmap;
        }
      ])

  unfoldable pub clear_online : String → OnlineIndex B → OnlineIndex B
  unfolding count_of
  clear_online user oi =
      let n = count_of user oi.session_count in
      if same user ""
      then oi
      else if leb n 1
      then record oi {
        session_count = delete user oi.session_count;
        online_bitmap = elim (lookup user oi.user_to_idx) [
          | none ↦ oi.online_bitmap
          | some idx ↦ roaring.remove_bit idx oi.online_bitmap
        ];
      }
      else record oi { session_count = insert user (n - 1) oi.session_count }

  unfoldable pub is_online : String → OnlineIndex B → Bool
  is_online user oi = elim (lookup user oi.user_to_idx) [
    | none ↦ false
    | some idx ↦ roaring.contains idx oi.online_bitmap
  ]

  unfoldable pub friends_bitmap : List String → Dict String ℕ → B → B
  friends_bitmap [] indices b = b
  friends_bitmap (f ∷ fs) indices b =
      friends_bitmap fs indices
        (elim (lookup f indices) [ none ↦ b | some idx ↦ roaring.add_bit idx b ])

  unfoldable pub names_of : Dict ℕ String → List ℕ → List String
  names_of names [] = []
  names_of names (i ∷ is) =
      let rest = names_of names is in elim (lookup i names) [ none ↦ rest | some u ↦ u ∷ rest ]

  unfoldable pub get_online_friends : List String → OnlineIndex B → List String
  unfolding friends_bitmap names_of
  get_online_friends friends oi = names_of oi.idx_to_user (
      roaring.elements
        (roaring.conj (friends_bitmap friends oi.user_to_idx roaring.new_bitmap) oi.online_bitmap))

  -- What the bitmap promises of single bits.
  pub record IsRoaring : Type 0 where
    pub contains_new : (i : ℕ) → roaring.contains i roaring.new_bitmap ≡ false
    pub contains_add :
        (i j : ℕ) (b : B)
        → roaring.contains i (roaring.add_bit j b) ≡ (same i j || roaring.contains i b)
    pub contains_remove :
        (i j : ℕ) (b : B)
        → roaring.contains i (roaring.remove_bit j b) ≡ (not (same i j) && roaring.contains i b)
    pub contains_conj :
        (i : ℕ) (a b : B)
        → roaring.contains i (roaring.conj a b) ≡ (roaring.contains i a && roaring.contains i b)
    pub elements_contains : (i : ℕ) (b : B) → elem i (roaring.elements b) ≡ roaring.contains i b
