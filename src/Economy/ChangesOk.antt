-- ===== src/Economy/ChangesOk.antt =====
-- internal/economy/wallet.go: the changes of one update add up.
use ultimate_game_server.Prelude.{
  String, ◌≡◌, refl, sym, ap, ◌∙◌, inl, inr, Bool, true, false, List, [], ◌∷◌, arith, if◌then◌else◌,
  Bool-cases, if_ind, All, same, ltb_ℤ, add_ℤ, wrap_int64, ℤ, pos, string_key,
}
use ultimate_game_server.Dict.{insert, lookup-insert}
use mathlib.Core.Path.{subst}
use ultimate_game_server.Economy.Wallet.{Wallet, amount, apply_changes}
use ultimate_game_server.Economy.Balance.{
  InRange, IsBalance, wrap_int64-IsBalance, wrap_int64-exact, add_ℤ_assoc, add_ℤ_zero,
}

-- Each balance of a wallet is an amount that the code may store.
abbrev pub Balances : Wallet → Type 0
Balances w = (c : String) → IsBalance (amount c w)

abbrev pub DeltasInRange : List (String × ℤ) → Type 0
DeltasInRange changes = All (λ p. InRange p.1) changes

-- What a changeset gives to a currency.
unfoldable pub total : String → List (String × ℤ) → ℤ
total c [] = pos 0
total c ((c', d) ∷ changes) = let rest = total c changes in if same c c' then add_ℤ d rest else rest

pub amount-insert :
    (c k : String) (n : ℤ) (w : Wallet)
    → amount c (insert k n w) ≡ (if same c k then n else amount c w)
unfolding amount
amount-insert c k n w = ground (arith, lookup-insert c k n w)

pub insert-Balances :
    (k : String) (n : ℤ) (w : Wallet) → IsBalance n → Balances w → Balances (insert k n w)
insert-Balances k n w i b c =
    subst IsBalance (sym (amount-insert c k n w)) (if_ind IsBalance (same c k) (λ e. i) λ e. b c)

pub add_step :
    (hit : Bool) (x a ak n d rest : ℤ)
    → (hit ≡ true → a ≡ ak)
    → n ≡ add_ℤ ak d
    → x ≡ add_ℤ (if hit then n else a) rest
    → x ≡ add_ℤ a (if hit then add_ℤ d rest else rest)
add_step true x a ak n d rest f e g =
    g ∙ ap (λ m. add_ℤ m rest) (e ∙ ap (λ m. add_ℤ m d) (sym (f refl))) ∙ add_ℤ_assoc a d rest
add_step false x a ak n d rest f e g = g

pub amount_here : (c k : String) (w : Wallet) → same c k ≡ true → amount c w ≡ amount k w
amount_here c k w q = ap (λ s. amount s w) (ground arith)

-- The changes of one update.
pub apply_changes_lem :
    (user : String) (changes : List (String × ℤ)) (w w' : Wallet)
    → Balances w
    → DeltasInRange changes
    → apply_changes user changes w ≡ inr w'
    → Balances w' × ((c : String) → amount c w' ≡ add_ℤ (amount c w) (total c changes))
unfolding apply_changes total
apply_changes_lem user [] w w' b r e =
    let same_wallet : w ≡ w' = ground arith in
    (
      subst Balances same_wallet b,
      λ c. ap (amount c) (sym same_wallet) ∙ sym (add_ℤ_zero (amount c w)),
    )
apply_changes_lem user ((k, d) ∷ changes) w w' b r e =
    let n = wrap_int64 (add_ℤ (amount k w) d) in
    elim (Bool-cases (ltb_ℤ n (pos 0))) [
      | inl q ↦ ground (arith, q)
      | inr q ↦
          let exact : n ≡ add_ℤ (amount k w) d = wrap_int64-exact (amount k w) d (b k) r.0 q in
          let w1 = insert k n w in
          let (b', f) =
            apply_changes_lem user changes w1 w'
              (insert-Balances k n w (wrap_int64-IsBalance (add_ℤ (amount k w) d) q) b) r.1
              (ground arith) in
          (
            b',
            λ c.
                add_step (same c k) (amount c w') (amount c w) (amount k w) n d (total c changes)
                  (amount_here c k w) exact
                  (f c ∙ ap (λ m. add_ℤ m (total c changes)) (amount-insert c k n w)),
          )
    ]
