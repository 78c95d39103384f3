-- ===== src/Console/Access.antt =====
-- internal/console/acl/acl.go: access and composition in terms of the bits.
use ultimate_game_server.Prelude.{
  ℕ, zero, suc, ◌+◌, ◌*◌, ◌<◌, ◌≡◌, refl, sym, ap, ◌∙◌, ◌↔◌, true, false, ◌||◌, List, [], ◌∷◌,
  arith, ◌==◌, length, All, string_key,
}
use ultimate_game_server.Console.Permission.{
  Byte, resource_count, byte_count, repeat, no_permission, is_full, is_zero, all_full, all_blank,
  is_admin, is_none, covers, covers_each, has_access, or_into, compose, set_bits, new_permission,
  Permission,
}
use ultimate_game_server.Console.Grants.{
  get, grants, covers_iff, set_bit-get, or_byte-get, copy_into_same, IsWhole,
}

abbrev AreBytes : List Byte → Type 0
AreBytes bs = All (λ (b : Byte). length b ≡ 8) bs

covers-is_full : (p r : Byte) → is_full p ≡ true → covers p r ≡ true
unfolding covers is_full
covers-is_full [] r h = refl
covers-is_full (x ∷ p) [] h = refl
covers-is_full (x ∷ p) (y ∷ r) h = ground (arith, h, covers-is_full p r)

covers-is_zero : (p r : Byte) → is_zero r ≡ true → covers p r ≡ true
unfolding covers is_zero
covers-is_zero [] r h = refl
covers-is_zero (x ∷ p) [] h = refl
covers-is_zero (x ∷ p) (y ∷ r) h = ground (arith, h, covers-is_zero p r)

covers_each-all_full : (ps rs : List Byte) → all_full ps ≡ true → covers_each ps rs ≡ true
unfolding covers_each all_full
covers_each-all_full [] rs h = refl
covers_each-all_full (p ∷ ps) [] h = refl
covers_each-all_full (p ∷ ps) (r ∷ rs) h =
    ground (arith, h, covers-is_full p r, covers_each-all_full ps rs)

covers_each-all_blank : (ps rs : List Byte) → all_blank rs ≡ true → covers_each ps rs ≡ true
unfolding covers_each all_blank
covers_each-all_blank [] rs h = refl
covers_each-all_blank (p ∷ ps) [] h = refl
covers_each-all_blank (p ∷ ps) (r ∷ rs) h =
    ground (arith, h, covers-is_zero p r, covers_each-all_blank ps rs)

has_access-covers_each : (p r : Permission) → has_access p r ≡ covers_each p.bitmap r.bitmap
unfolding has_access is_none is_admin
has_access-covers_each p r =
    ground (arith, covers_each-all_full p.bitmap r.bitmap, covers_each-all_blank p.bitmap r.bitmap)

covers_each_iff :
    (ps rs : List Byte)
    → length ps ≡ length rs
    → AreBytes ps
    → AreBytes rs
    → (covers_each ps rs ≡ true)
      ↔ ((k j : ℕ) → get false j (get [] k rs) ≡ true → get false j (get [] k ps) ≡ true)
unfolding covers_each get
covers_each_iff [] [] e a b = (λ h k j g. g, λ h. refl)
covers_each_iff [] (r ∷ rs) e a b = absurd (ground (arith, e))
covers_each_iff (p ∷ ps) [] e a b = absurd (ground (arith, e))
covers_each_iff (p ∷ ps) (r ∷ rs) e (a, as') (b, bs) =
    let first = covers_iff p r (a ∙ sym b) in
    let ih = covers_each_iff ps rs (omega (arith, e)) as' bs in
    (
      λ h. each_at p r ps rs (first.0 (ground (arith, h))) (ih.0 (ground (arith, h))),
      λ h. ground (arith, first.1 (h 0), ih.1 (λ k. h (suc k))),
    )
  where
    each_at :
        (p r : Byte) (ps rs : List Byte)
        → ((j : ℕ) → get false j r ≡ true → get false j p ≡ true)
        → ((k j : ℕ) → get false j (get [] k rs) ≡ true → get false j (get [] k ps) ≡ true)
        → (k j : ℕ) → get false j (get [] k (r ∷ rs)) ≡ true
        → get false j (get [] k (p ∷ ps)) ≡ true
    each_at p r ps rs h t zero j g = h j g
    each_at p r ps rs h t (suc k) j g = t k j g

-- Of whole permissions, one has the access that another requires exactly if every bit that the
-- other sets is set in it: the short cuts for no requirement and for an administrator change nothing.
pub has_access_iff :
    (p required : Permission)
    → IsWhole p
    → IsWhole required
    → (has_access p required ≡ true)
      ↔ ((k j : ℕ) → grants required k j ≡ true → grants p k j ≡ true)
unfolding grants
has_access_iff p required wp wr =
    rw (has_access-covers_each p required)
      (covers_each_iff p.bitmap required.bitmap (wp.bytes ∙ sym wr.bytes) wp.bits wr.bits)

set_bits-get :
    (target idx : ℕ) (bs : List Byte) (k j : ℕ)
    → AreBytes bs
    → k < length bs
    → j < 8
    → get false j (get [] k (set_bits target idx bs))
      ≡ ((idx + 8 * k + j == target) || get false j (get [] k bs))
unfolding set_bits get
set_bits-get target idx [] k j a h g = absurd (ground (arith, h))
set_bits-get target idx (b ∷ bs) zero j (a, ab) h g =
    ground (arith, set_bit-get target idx b j (omega (arith, a, g)))
set_bits-get target idx (b ∷ bs) (suc k) j (a, ab) h g =
    ground (arith, a, set_bits-get target (idx + length b) bs k j ab (omega (arith, h)) g)

or_into-get :
    (ps qs : List Byte) (k j : ℕ)
    → length ps ≡ length qs
    → AreBytes ps
    → AreBytes qs
    → get false j (get [] k (or_into ps qs))
      ≡ (get false j (get [] k ps) || get false j (get [] k qs))
unfolding or_into get
or_into-get [] [] k j e a b = refl
or_into-get [] (q ∷ qs) k j e a b = absurd (ground (arith, e))
or_into-get (p ∷ ps) [] k j e a b = absurd (ground (arith, e))
or_into-get (p ∷ ps) (q ∷ qs) zero j e (a, as') (b, bs) = or_byte-get p q j (a ∙ sym b)
or_into-get (p ∷ ps) (q ∷ qs) (suc k) j e (a, as') (b, bs) =
    or_into-get ps qs k j (omega (arith, e)) as' bs

no_permission-IsWhole : IsWhole no_permission
unfolding no_permission byte_count resource_count repeat
no_permission-IsWhole = record { bytes = refl; bits = ground arith }

repeat-get : (n j : ℕ) → get false j (repeat n false) ≡ false
unfolding get repeat
repeat-get zero j = refl
repeat-get (suc n) zero = refl
repeat-get (suc n) (suc j) = repeat-get n j

repeat_bytes-get : (n m k j : ℕ) → get false j (get [] k (repeat n (repeat m false))) ≡ false
unfolding get repeat
repeat_bytes-get zero m k j = refl
repeat_bytes-get (suc n) m zero j = repeat-get m j
repeat_bytes-get (suc n) m (suc k) j = repeat_bytes-get n m k j

grants-no_permission : (k j : ℕ) → grants no_permission k j ≡ false
unfolding no_permission grants
grants-no_permission k j = repeat_bytes-get byte_count 8 k j

-- A composed permission of two whole ones sets exactly the bits that one of them sets.
pub grants-compose :
    (p q : Permission)
    → IsWhole p
    → IsWhole q
    → (k j : ℕ) → grants (compose p q) k j ≡ (grants p k j || grants q k j)
unfolding grants compose
grants-compose p q wp wq k j =
    rw (copy_into_same no_permission.bitmap p.bitmap (no_permission-IsWhole.bytes ∙ sym wp.bytes))
      (or_into-get p.bitmap q.bitmap k j (wp.bytes ∙ sym wq.bytes) wp.bits wq.bits)

drop_false : (a j t : ℕ) → ((0 + a + j == t) || false) ≡ (a + j == t)
drop_false a j t = ground arith

-- The permission of a resource at a level sets the bit that stands for the two, and no other: bit j
-- of byte k is set exactly if 8 k + j is three times the resource plus the level.
pub grants-new_permission :
    (resource level k j : ℕ)
    → k < byte_count
    → j < 8
    → grants (new_permission resource level) k j ≡ (8 * k + j == resource * 3 + level)
unfolding grants new_permission
grants-new_permission resource level k j hk hj =
    let w = no_permission-IsWhole in
    let target = resource * 3 + level in
    set_bits-get target 0 no_permission.bitmap k j w.bits (rw w.bytes hk) hj
    ∙ ap (λ b. (0 + 8 * k + j == target) || b) (grants-no_permission k j)
    ∙ drop_false (8 * k) j target
