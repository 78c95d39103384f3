-- ===== src/Leaderboard/Text.antt =====
-- Go's `<` on strings. Go compares the bytes of the encoding; on UTF-8 that is the order of the
-- code points, which stands here.
use ultimate_game_server.Prelude.{
  String, ◌≡◌, refl, Bool, true, false, arith, ltb, if◌then◌else◌, string_key,
}
use Prim.Native.Char.{code}
use text.Mathlib.TextEquality.{Char-path}

abbrev pub str_lt : String → String → Bool
str_lt String.[] String.[] = false
str_lt String.[] (String.◌∷◌ d t) = true
str_lt (String.◌∷◌ c s) String.[] = false
str_lt (String.◌∷◌ c s) (String.◌∷◌ d t) =
    let rest = str_lt s t in
    if ltb (code c) (code d) then true else if ltb (code d) (code c) then false else rest

pub str_lt_irrefl : (s : String) → str_lt s s ≡ false
str_lt_irrefl String.[] = refl
str_lt_irrefl (String.◌∷◌ c s) = ground (arith, str_lt_irrefl s)

pub str_lt_trans : (s t u : String) → str_lt s t ≡ true → str_lt t u ≡ true → str_lt s u ≡ true
str_lt_trans String.[] String.[] u h k = ground arith
str_lt_trans String.[] (String.◌∷◌ d t) String.[] h k = ground arith
str_lt_trans String.[] (String.◌∷◌ d t) (String.◌∷◌ e u) h k = refl
str_lt_trans (String.◌∷◌ c s) String.[] u h k = ground arith
str_lt_trans (String.◌∷◌ c s) (String.◌∷◌ d t) String.[] h k = ground arith
str_lt_trans (String.◌∷◌ c s) (String.◌∷◌ d t) (String.◌∷◌ e u) h k =
    ground (arith, str_lt_trans s t u)

pub str_lt_total : (s t : String) → str_lt s t ≡ false → str_lt t s ≡ false → s ≡ t
str_lt_total String.[] String.[] h k = refl
str_lt_total String.[] (String.◌∷◌ d t) h k = ground arith
str_lt_total (String.◌∷◌ c s) String.[] h k = ground arith
str_lt_total (String.◌∷◌ c s) (String.◌∷◌ d t) h k =
    let e : code c ≡ code d = ground arith in
    let r : s ≡ t = str_lt_total s t (ground arith) (ground arith) in cc (Char-path c d e, r)
