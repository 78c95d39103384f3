-- ===== src/Party/Types.antt =====
-- internal/party/party.go: the data of a party, of the registry, and the outcomes of its calls.
-- A time is a number of nanoseconds; `V` is the type of the dynamic property values.
use ultimate_game_server.Prelude.{
  ℕ, String, ◌≡◌, refl, ◌⊎◌, inl, inr, Bool, Option, List, ℤ, pos, string_key,
}
use ultimate_game_server.Dict.{Dict}

pub data PartyError : Type 0 where
  party_not_found not_leader party_full party_closed member_not_found invalid_max_size : PartyError
  already_member join_request_duplicate join_requests_full not_join_request : PartyError
  remove_self already_in_party invalid_label hidden_non_empty_label party_closed_for_list :
      PartyError

pub data Result (A : Type 0) : Type 0 where
  ok : A → Result A
  err : PartyError → Result A

pub record PartyMember (V : Type 0) : Type 0 where
  pub user_id : String
  pub username : String
  pub session_id : String
  pub joined_at : ℕ
  pub properties : Dict String V

pub record JoinRequest : Type 0 where
  pub user_id : String
  pub username : String
  pub session_id : String
  pub requested : ℕ

pub record Presence : Type 0 where
  pub user_id : String
  pub username : String
  pub session_id : String

pub record PartySession (V : Type 0) : Type 0 where
  pub party_id : String
  pub leader_id : String
  pub is_open : Bool
  pub hidden : Bool
  pub max_size : ℤ
  pub label : String
  pub members : Dict String (PartyMember V)
  pub join_requests : Dict String JoinRequest
  pub node : String
  pub create_time : ℕ
  pub last_active : ℕ
  pub closed : Bool
  pub activity : ℕ  -- the bit pattern of an int64

pub record JoinOutcome (V : Type 0) : Type 0 where
  pub party : PartySession V
  pub joined : Bool

pub record LeaveOutcome (V : Type 0) : Type 0 where
  pub party : Option (PartySession V)
  pub promoted_leader : Option (PartyMember V)
  pub dissolved : Bool
  pub was_member : Bool

pub record RemoveOutcome (V : Type 0) : Type 0 where
  pub party : PartySession V
  pub kicked : Option (PartyMember V)
  pub rejected_request : Bool

pub record Config : Type 0 where
  pub node : String
  pub single_party : Bool
  pub default_max_size : ℤ
  pub absolute_max_size : ℤ
  pub idle_check_ms : ℤ

-- `hook` tells whether a membership callback is set, `notified` lists the calls made to it.
pub record Registry (V : Type 0) : Type 0 where
  pub parties : Dict String (PartySession V)
  pub by_user : Dict String String
  pub by_sess : Dict String String
  pub cfg : Config
  pub hook : Bool
  pub notified : List String

abbrev pub label_max_bytes : ℕ
label_max_bytes = 2048

abbrev pub absolute_max_size : ℤ
absolute_max_size = pos 256

abbrev pub default_max_size : ℤ
default_max_size = pos 4

pub Result-cases :
    {A : Type 0} (o : Result A) → ((a : A) × (o ≡ ok a)) ⊎ ((e : PartyError) × (o ≡ err e))
Result-cases (ok a) = inl (a, refl)
Result-cases (err e) = inr (e, refl)
