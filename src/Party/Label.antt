-- ===== src/Party/Label.antt =====
-- internal/party/party.go: `normalizeLabel` and `validateLabel`. What `json.Unmarshal` into a map
-- does is the parameter `unmarshal`: the number of keys of the object, or `none` on an error.
use ultimate_game_server.Prelude.{
  ℕ, String, Bool, true, not, ◌&&◌, ◌||◌, Option, none, some, ltb, leb, ◌==◌, if◌then◌else◌, same,
  string_key,
}
use ultimate_game_server.Party.Types.{
  label_max_bytes, PartyError, invalid_label, hidden_non_empty_label,
}
use Prim.Native.Char.{code}
use Prim.Native.String.{len}

-- `unicode.IsSpace`
unfoldable pub is_space : ℕ → Bool
is_space c =
    (leb 9 c && leb c 13)
    || c == 32
    || c == 0x85
    || c == 0xa0
    || c == 0x1680
    || (leb 0x2000 c && leb c 0x200a)
    || c == 0x2028
    || c == 0x2029
    || c == 0x202f
    || c == 0x205f
    || c == 0x3000

-- `strings.TrimSpace(label) == ""`
unfoldable pub is_blank : String → Bool
unfolding is_space
is_blank String.[] = true
is_blank (String.◌∷◌ c s) = is_space (code c) && is_blank s

unfoldable pub normalize_label : String → String
unfolding is_blank
normalize_label label = if is_blank label then "{}" else label

module _ (unmarshal : String → Option ℕ) where
  -- What follows the replacement of an empty label by "{}".
  unfoldable pub validate_object : String → Bool → Option PartyError
  validate_object label hidden =
      if ltb label_max_bytes (len label) then some invalid_label else (elim (unmarshal label) [
        | none ↦ some invalid_label
        | some n ↦
            if hidden && not (same label "{}") && ltb 0 n then some hidden_non_empty_label else none
      ])

  unfoldable pub validate_label : String → Bool → Option PartyError
  unfolding validate_object
  validate_label label hidden = validate_object (if same label "" then "{}" else label) hidden
