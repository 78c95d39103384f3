-- ===== src/Matchmaker/Pairing.antt =====
-- internal/matchmaker/process.go: the index, the search, and whether two tickets may be paired. The
-- index is bleve's, which is a parameter: `new_index` is built from the documents of the tickets, and
-- a search takes a query, a limit, and whether the hits are sorted by score and age.
use ultimate_game_server.Prelude.{
  ℕ, suc, ◌+◌, ◌-◌, ◌*◌, String, Bool, true, false, not, ◌&&◌, ◌||◌, Option, none, some, List, [],
  ◌∷◌, ltb, leb, if◌then◌else◌, same, elem, pos_part, neg_part, ltb_ℤ, leb_ℤ, ℤ, pos, negsuc,
  string_key,
}
use ultimate_game_server.Dict.{has}
use ultimate_game_server.Matchmaker.Ticket.{
  Ticket, SkillMatchConfig, RegionMatchConfig, QueueConfig,
}
use ultimate_game_server.Dict.Sets.{KeySet}

pub data IndexQuery : Type 0 where
  match_all : IndexQuery
  query_string : String → IndexQuery

pub record Bleve (I : Type 0) : Type 0 where
  pub new_index : List Ticket → Option I
  pub search : I → IndexQuery → ℕ → Bool → Option (List String)

abbrev second : ℕ
second = 1000000000

-- `now.Sub(created).Seconds() < limit`
unfoldable pub waited_less : ℕ → ℕ → ℤ → Bool
waited_less now created (pos s) = ltb now (created + s * second)
waited_less now created (negsuc s) = ltb (now + suc s * second) created

unfoldable pub get_skill_delta : ℕ → ℕ → ℕ
unfolding waited_less
get_skill_delta now created =
    if waited_less now created (pos 5)
    then 50
    else (if waited_less now created (pos 10)
        then 75
        else (if waited_less now created (pos 20)
            then 125
            else (if waited_less now created (pos 30)
                then 200
                else (if waited_less now created (pos 60) then 350 else 500))))

-- The distance of two numbers.
unfoldable pub distance : ℤ → ℤ → ℕ
distance a b =
    let x = pos_part a + neg_part b in let y = pos_part b + neg_part a in (x - y) + (y - x)

unfoldable pub compatible_range : Ticket → Ticket → Bool
compatible_range a b = leb_ℤ a.min_count b.max_count && leb_ℤ b.min_count a.max_count

-- The first test of `evaluatePairing`.
unfoldable pub regions_agree : Ticket → Ticket → RegionMatchConfig → ℕ → Bool
unfolding waited_less
regions_agree t1 t2 cfg now =
    if not (same t1.region t2.region) && (not (same t1.region "") && not (same t2.region ""))
    then not cfg.strict
      && not (
          waited_less now t1.created_at cfg.fallback_delay_sec
          || waited_less now t2.created_at cfg.fallback_delay_sec)
    else true

-- Its second test.
unfoldable pub skills_agree : Ticket → Ticket → SkillMatchConfig → ℕ → Bool
unfolding get_skill_delta distance
skills_agree t1 t2 cfg now =
    let delta1 = get_skill_delta now t1.created_at in
    let delta2 = get_skill_delta now t2.created_at in
    let max_allowed = if ltb delta1 delta2 then delta2 else delta1 in
    if cfg.enabled then leb (distance t1.skill_rating t2.skill_rating) max_allowed else true

unfoldable pub query_of : String → IndexQuery
query_of q = if same q "" || same q "*" then match_all else query_string q

-- Hits of the seed itself and of matched tickets are passed over.
unfoldable pub open_hits : String → KeySet String → List String → List String
open_hits seed matched [] = []
open_hits seed matched (h ∷ hits) =
    let rest = open_hits seed matched hits in
    if same h seed || has h matched then rest else h ∷ rest

module _ {I : Type 0} (bleve : Bleve I) where
  unfoldable pub search_index : I → Ticket → ℕ → KeySet String → List String
  unfolding query_of open_hits
  search_index index seed limit matched =
      elim (bleve.search index (query_of seed.query) limit true) [
        | none ↦ []
        | some hits ↦ open_hits seed.id matched hits
      ]

  unfoldable pub query_matches : I → Ticket → String → Bool
  query_matches index querier target =
      if same querier.query "" || same querier.query "*"
      then true
      else (elim (bleve.search index (query_string querier.query) 1000 false) [
        | none ↦ false
        | some hits ↦ elem target hits
      ])

  unfoldable pub evaluate_pairing : Ticket → Ticket → QueueConfig → ℕ → Bool → ℤ → I → Bool
  unfolding regions_agree skills_agree query_matches
  evaluate_pairing t1 t2 cfg now rev_enabled rev_threshold index =
      let use_rev = rev_enabled || (t1.reverse_precision || t2.reverse_precision) in
      let within = ltb_ℤ t1.intervals rev_threshold && ltb_ℤ t2.intervals rev_threshold in
      regions_agree t1 t2 cfg.region_match now
      && (skills_agree t1 t2 cfg.skill_match now
          && (not (not (same t1.party_id "") && same t1.party_id t2.party_id)
              && (if use_rev && within then query_matches index t2 t1.id else true)))
