-- ===== src/Economy/Balance.antt =====
-- internal/economy/wallet.go: the arithmetic of a balance, an `int64`.
use ultimate_game_server.Prelude.{
  ◌+◌, ◌-◌, ◌%◌, ◌^◌, ◌≡◌, inl, inr, false, arith, ltb, Bool-cases, pos_part, neg_part, ◌≤ℤ◌, ltb_ℤ,
  add_ℤ, wrap_int64, ℤ, pos, negsuc, string_key,
}

abbrev pub NonNegative : ℤ → Type 0
NonNegative a = pos 0 ≤ℤ a

-- What an `int64` holds.
abbrev pub InRange : ℤ → Type 0
InRange a = (negsuc (2 ^ 63 - 1) ≤ℤ a) × (a ≤ℤ pos (2 ^ 63 - 1))

abbrev pub IsBalance : ℤ → Type 0
IsBalance a = NonNegative a × (a ≤ℤ pos (2 ^ 63 - 1))

pub wrap_int64-IsBalance : (a : ℤ) → ltb_ℤ (wrap_int64 a) (pos 0) ≡ false → IsBalance (wrap_int64 a)
unfolding wrap_int64
wrap_int64-IsBalance a h =
    let r = (pos_part a + (2 ^ 64 - neg_part a % 2 ^ 64)) % 2 ^ 64 in
    elim (Bool-cases (ltb r (2 ^ 63))) [ inl q ↦ rw q (ground arith) | inr q ↦ ground (arith, q) ]

-- A sum that is not negative as an `int64` has not wrapped around.
pub wrap_int64-exact :
    (a d : ℤ)
    → IsBalance a
    → InRange d
    → ltb_ℤ (wrap_int64 (add_ℤ a d)) (pos 0) ≡ false
    → wrap_int64 (add_ℤ a d) ≡ add_ℤ a d
unfolding wrap_int64
wrap_int64-exact (pos a) (pos d) i r h = ground arith
wrap_int64-exact (pos a) (negsuc d) i r h = ground arith
wrap_int64-exact (negsuc a) d i r h = ground arith

pub add_ℤ_assoc : (a b c : ℤ) → add_ℤ (add_ℤ a b) c ≡ add_ℤ a (add_ℤ b c)
add_ℤ_assoc (pos a) (pos b) (pos c) = ground arith
add_ℤ_assoc (pos a) (pos b) (negsuc c) = ground arith
add_ℤ_assoc (pos a) (negsuc b) (pos c) = ground arith
add_ℤ_assoc (pos a) (negsuc b) (negsuc c) = ground arith
add_ℤ_assoc (negsuc a) (pos b) (pos c) = ground arith
add_ℤ_assoc (negsuc a) (pos b) (negsuc c) = ground arith
add_ℤ_assoc (negsuc a) (negsuc b) (pos c) = ground arith
add_ℤ_assoc (negsuc a) (negsuc b) (negsuc c) = ground arith

pub add_ℤ_zero : (a : ℤ) → add_ℤ a (pos 0) ≡ a
add_ℤ_zero (pos a) = ground arith
add_ℤ_zero (negsuc a) = ground arith
