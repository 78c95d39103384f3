-- ===== src/Console/Permission.antt =====
-- internal/console/acl/acl.go: the bitmap of a permission. A byte is the list of its eight bits, the
-- highest first, so that the bit `1 << (7-j)` stands at index j.
use ultimate_game_server.Prelude.{
  ℕ, zero, suc, ◌+◌, ◌*◌, ◌/◌, Bool, true, false, not, ◌&&◌, ◌||◌, List, [], ◌∷◌, ◌==◌,
  if◌then◌else◌, length, string_key,
}

abbrev pub Byte : Type 0
Byte = List Bool

pub record Permission : Type 0 where
  pub bitmap : List Byte

-- `ResourceAccount` is 0; there are 30 resources.
unfoldable pub resource_count : ℕ
resource_count = 30

-- Three bits for each resource, rounded up to bytes.
unfoldable pub byte_count : ℕ
unfolding resource_count
byte_count = (resource_count * 3 + 7) / 8

unfoldable pub repeat {ℓ} : {A : Type ℓ} → ℕ → A → List A
repeat zero a = []
repeat (suc n) a = a ∷ repeat n a

unfoldable pub no_permission : Permission
unfolding repeat byte_count
no_permission = record { bitmap = repeat byte_count (repeat 8 false) }

unfoldable pub admin : Permission
unfolding repeat byte_count
admin = record { bitmap = repeat byte_count (repeat 8 true) }

-- The byte is 0xFF.
unfoldable pub is_full : Byte → Bool
is_full [] = true
is_full (b ∷ bs) = b && is_full bs

-- The byte is 0x00.
unfoldable pub is_zero : Byte → Bool
is_zero [] = true
is_zero (b ∷ bs) = not b && is_zero bs

unfoldable pub all_full : List Byte → Bool
unfolding is_full
all_full [] = true
all_full (b ∷ bs) = is_full b && all_full bs

unfoldable pub all_blank : List Byte → Bool
unfolding is_zero
all_blank [] = true
all_blank (b ∷ bs) = is_zero b && all_blank bs

unfoldable pub is_admin : Permission → Bool
unfolding all_full
is_admin p = not (length p.bitmap == 0) && all_full p.bitmap

unfoldable pub is_none : Permission → Bool
unfolding all_blank
is_none p = all_blank p.bitmap

-- `p & required == required` on a byte.
unfoldable pub covers : Byte → Byte → Bool
covers [] rs = true
covers (p ∷ ps) [] = true
covers (p ∷ ps) (r ∷ rs) = (not r || p) && covers ps rs

-- The same on the bytes that both bitmaps have.
unfoldable pub covers_each : List Byte → List Byte → Bool
unfolding covers
covers_each [] rs = true
covers_each (p ∷ ps) [] = true
covers_each (p ∷ ps) (r ∷ rs) = covers p r && covers_each ps rs

unfoldable pub has_access : Permission → Permission → Bool
unfolding is_none is_admin covers_each
has_access p required =
    if is_none required || is_admin p then true else covers_each p.bitmap required.bitmap

-- `copy(dst, src)`
unfoldable pub copy_into {ℓ} : {A : Type ℓ} → List A → List A → List A
copy_into [] src = []
copy_into (d ∷ ds) [] = d ∷ ds
copy_into (d ∷ ds) (s ∷ ss) = s ∷ copy_into ds ss

-- `|=` on a byte.
unfoldable pub or_byte : Byte → Byte → Byte
or_byte [] other = []
or_byte (a ∷ byte) [] = a ∷ byte
or_byte (a ∷ byte) (b ∷ other) = (a || b) ∷ or_byte byte other

unfoldable pub or_into : List Byte → List Byte → List Byte
unfolding or_byte
or_into [] other = []
or_into (d ∷ ds) [] = d ∷ ds
or_into (d ∷ ds) (o ∷ os) = or_byte d o ∷ or_into ds os

unfoldable pub compose : Permission → Permission → Permission
unfolding copy_into or_into no_permission
compose p other = record { bitmap = or_into (copy_into no_permission.bitmap p.bitmap) other.bitmap }

-- The inner loop of `NewPermission`, from a bit index on.
unfoldable pub set_bit : ℕ → ℕ → Byte → Byte
set_bit target idx [] = []
set_bit target idx (b ∷ bs) = (if idx == target then true else b) ∷ set_bit target (suc idx) bs

-- Its outer loop; `bitIdx` has grown by the eight bits of each byte before.
unfoldable pub set_bits : ℕ → ℕ → List Byte → List Byte
unfolding set_bit
set_bits target idx [] = []
set_bits target idx (b ∷ bs) = set_bit target idx b ∷ set_bits target (idx + length b) bs

unfoldable pub new_permission : ℕ → ℕ → Permission
unfolding set_bits no_permission
new_permission resource level = record {
  bitmap = set_bits (resource * 3 + level) 0 no_permission.bitmap;
}
