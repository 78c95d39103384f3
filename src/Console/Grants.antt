-- ===== src/Console/Grants.antt =====
-- internal/console/acl/acl.go: which bits the operations on permissions leave set.
use ultimate_game_server.Prelude.{
  ℕ, zero, suc, ◌+◌, ◌<◌, ◌≡◌, refl, ap, ◌↔◌, Bool, true, false, ◌||◌, List, [], ◌∷◌, arith, ◌==◌,
  length, All, string_key,
}
use ultimate_game_server.Console.Permission.{
  Byte, byte_count, covers, copy_into, or_byte, set_bit, Permission,
}

-- The element at an index, or a default.
unfoldable pub get {ℓ} : {A : Type ℓ} → A → ℕ → List A → A
get d n [] = d
get d zero (x ∷ xs) = x
get d (suc n) (x ∷ xs) = get d n xs

-- Bit j of byte k.
unfoldable pub grants : Permission → ℕ → ℕ → Bool
unfolding get
grants p k j = get false j (get [] k p.bitmap)

-- Twelve bytes of eight bits.
pub record IsWhole (p : Permission) : Type 0 where
  pub bytes : length p.bitmap ≡ byte_count
  pub bits : All (λ (b : Byte). length b ≡ 8) p.bitmap

pub covers_iff :
    (p r : Byte)
    → length p ≡ length r
    → (covers p r ≡ true) ↔ ((j : ℕ) → get false j r ≡ true → get false j p ≡ true)
unfolding covers get
covers_iff [] [] e = (λ h j g. g, λ h. refl)
covers_iff [] (y ∷ r) e = absurd (ground (arith, e))
covers_iff (x ∷ p) [] e = absurd (ground (arith, e))
covers_iff (x ∷ p) (y ∷ r) e =
    let ih = covers_iff p r (omega (arith, e)) in
    (
      λ h j. covers_at x y p r j (ground (arith, h)) (ih.0 (ground (arith, h))),
      λ h. ground (arith, h 0, ih.1 (λ j. h (suc j))),
    )
  where
    covers_at :
        (x y : Bool) (p r : Byte) (j : ℕ)
        → (y ≡ true → x ≡ true)
        → ((i : ℕ) → get false i r ≡ true → get false i p ≡ true)
        → get false j (y ∷ r) ≡ true
        → get false j (x ∷ p) ≡ true
    covers_at x y p r zero h k = h
    covers_at x y p r (suc j) h k = k j

pub set_bit-get :
    (target idx : ℕ) (b : Byte) (j : ℕ)
    → j < length b
    → get false j (set_bit target idx b) ≡ ((idx + j == target) || get false j b)
unfolding set_bit get
set_bit-get target idx [] j h = ground (arith, h)
set_bit-get target idx (x ∷ b) zero h = ground arith
set_bit-get target idx (x ∷ b) (suc j) h = ground (arith, h, set_bit-get target (suc idx) b j)

pub or_byte-get :
    (a b : Byte) (j : ℕ)
    → length a ≡ length b
    → get false j (or_byte a b) ≡ (get false j a || get false j b)
unfolding or_byte get
or_byte-get [] [] j e = refl
or_byte-get [] (y ∷ b) j e = ground (arith, e)
or_byte-get (x ∷ a) [] j e = ground (arith, e)
or_byte-get (x ∷ a) (y ∷ b) zero e = refl
or_byte-get (x ∷ a) (y ∷ b) (suc j) e = or_byte-get a b j (omega (arith, e))

pub copy_into_same {ℓ} :
    {A : Type ℓ} (dst src : List A) → length dst ≡ length src → copy_into dst src ≡ src
unfolding copy_into
copy_into_same [] [] e = refl
copy_into_same [] (s ∷ ss) e = ground (arith, e)
copy_into_same (d ∷ ds) [] e = ground (arith, e)
copy_into_same (d ∷ ds) (s ∷ ss) e = ap (λ xs. s ∷ xs) (copy_into_same ds ss (omega (arith, e)))
