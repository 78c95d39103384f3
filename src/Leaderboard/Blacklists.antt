-- ===== src/Leaderboard/Blacklists.antt =====
-- internal/leaderboard/rank_blacklist.go: which leaderboards have no rank cache. `trim` and
-- `split` are Go's `strings.TrimSpace` and `strings.Split(_, ",")`.
use ultimate_game_server.Prelude.{
  String, ◌≡◌, refl, sym, ap, ◌∙◌, ◌≢◌, Bool, true, false, ◌&&◌, ◌||◌, List, [], ◌∷◌, map, arith,
  leb, ◌==◌, if◌then◌else◌, string_key, same, elem,
}
use ultimate_game_server.Dict.{lookup, lookup-insert}
use ultimate_game_server.Leaderboard.RankCache.{is_blacklisted, Blacklist, expiry_key}
use ultimate_game_server.Dict.Sets.{add}
use text.Mathlib.TextEquality.{eq_iff}
use Prim.Native.Char.{Char, code}

-- `unicode.IsSpace`
abbrev is_white : Char → Bool
is_white c =
    let n = code c in
    (leb 9 n && leb n 13)
    || n == 32
    || n == 133
    || n == 160
    || n == 5760
    || (leb 8192 n && leb n 8202)
    || n == 8232
    || n == 8233
    || n == 8239
    || n == 8287
    || n == 12288

abbrev is_empty : String → Bool
is_empty String.[] = true
is_empty (String.◌∷◌ c s) = false

unfoldable trim_left : String → String
trim_left String.[] = ""
trim_left (String.◌∷◌ c s) = let rest = trim_left s in if is_white c then rest else String.◌∷◌ c s

unfoldable trim_right : String → String
trim_right String.[] = ""
trim_right (String.◌∷◌ c s) =
    let rest = trim_right s in if is_empty rest && is_white c then "" else String.◌∷◌ c rest

unfoldable pub trim : String → String
unfolding trim_left trim_right
trim s = trim_right (trim_left s)

-- A text before the first of some parts.
abbrev push_char : Char → List String → List String
push_char c [] = String.◌∷◌ c "" ∷ []
push_char c (s ∷ ss) = String.◌∷◌ c s ∷ ss

unfoldable pub split : String → List String
split String.[] = "" ∷ []
split (String.◌∷◌ c s) = let rest = split s in if code c == 44 then "" ∷ rest else push_char c rest

-- One part, trimmed.
unfoldable pub note_part : String → Blacklist → Blacklist
note_part id b =
    if same id ""
    then b
    else if same id "*"
    then record b { everything = true }
    else record b { ids = add id b.ids }

-- The loop of `ConfigureRankCacheBlacklist`.
unfoldable pub configure_each : List String → Blacklist → Blacklist
unfolding trim note_part
configure_each [] b = b
configure_each (part ∷ parts) b = configure_each parts (note_part (trim part) b)

unfoldable pub configure_blacklist : String → Blacklist
unfolding configure_each split
configure_blacklist csv =
    let none_yet : Blacklist = record { ids = []; everything = false } in
    if same (trim csv) "" then none_yet else configure_each (split (trim csv)) none_yet

-- The identifier stands in a part of the list.
abbrev pub named_in : String → List String → Bool
named_in id parts = elem id (map trim parts)

empty_ne_star : ◌≢◌ {A = String} "" "*"
empty_ne_star = ground (arith, eq_iff "" "*")

note_part_lem :
    (id part : String) (b : Blacklist)
    → id ≢ ""
    → id ≢ "*"
    → is_blacklisted (note_part part b) id ≡ (is_blacklisted b id || same "*" part || same id part)
unfolding is_blacklisted note_part
note_part_lem id part b n m = ground (arith, lookup-insert id part tt b.ids, empty_ne_star)

configure_each_lem :
    (id : String) (parts : List String) (b : Blacklist)
    → id ≢ ""
    → id ≢ "*"
    → is_blacklisted (configure_each parts b) id
      ≡ (is_blacklisted b id || named_in "*" parts || named_in id parts)
unfolding configure_each
configure_each_lem id [] b n m = ground arith
configure_each_lem id (part ∷ parts) b n m =
    configure_each_lem id parts (note_part (trim part) b) n m
    ∙ ground (arith, note_part_lem id (trim part) b n m)

split_empty : split "" ≡ "" ∷ []
unfolding split
split_empty = refl

trim_empty : trim "" ≡ ""
unfolding trim
trim_empty = refl

-- A leaderboard has no rank cache exactly when its identifier, or `*`, is one of the parts of the
-- setting between commas, blanks around a part aside.
pub configure_blacklist_lem :
    (csv id : String)
    → id ≢ ""
    → id ≢ "*"
    → is_blacklisted (configure_blacklist csv) id
      ≡ (named_in "*" (split (trim csv)) || named_in id (split (trim csv)))
unfolding configure_blacklist is_blacklisted lookup
configure_blacklist_lem csv id n m = elim (string_key.dec (trim csv) "") [
  | yes q ↦
      let listed : List String → Bool = λ parts. named_in "*" parts || named_in id parts in
      let nobody : listed ("" ∷ []) ≡ false = ground (arith, empty_ne_star, trim_empty) in
      ground arith ∙ sym (ap (λ t. listed (split t)) q ∙ ap listed split_empty ∙ nobody)
  | no q ↦ ground (
    arith,
    configure_each_lem id (split (trim csv)) (record { ids = []; everything = false }) n m,
  )
]
